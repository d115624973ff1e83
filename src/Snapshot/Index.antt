-- ===== src/Snapshot/Index.antt =====
-- The names in a snapshot: its books are filed under their own symbols, and its index leads to them.
use itch_parser.Book.{OrderBook}
use itch_parser.Engine.{Core, InstrumentInfo}
use itch_parser.Map.{Map, find}
use itch_parser.Prelude.{
  ℕ, ◌≡◌, refl, Bool, List, [], ◌∷◌, some, map, arith, All, inl, inr, Option-cases,
}
use itch_parser.Snapshot.Coverage.{add_symbols-Points}
use itch_parser.Snapshot.{
  OrderBookSnapshot, to_lower, add_books, add_instruments, build_snapshot, book_snapshot,
  empty_snapshot,
}
use itch_parser.TextMap.{TextMap, eq_of_text_eq, find_text, assign_text}

module _ {D : Type 0} where
  abbrev pub IsNamed : TextMap (OrderBookSnapshot D) → Type 0
  IsNamed = All (λ e. e.1.symbol ≡ e.0)

  assign_text-IsNamed :
      (k : List ℕ) (v : OrderBookSnapshot D) (m : TextMap (OrderBookSnapshot D))
      → v.symbol ≡ k
      → IsNamed m
      → IsNamed (assign_text k v m)
  unfolding assign_text
  assign_text-IsNamed k v [] e n = (e, tt)
  assign_text-IsNamed k v ((j, w) ∷ m) e n = ground (arith, assign_text-IsNamed k v m e n.1)

  symbol_of_IsNamed :
      (k : List ℕ) (b : OrderBookSnapshot D) (m : TextMap (OrderBookSnapshot D))
      → IsNamed m
      → find_text k m ≡ some b
      → b.symbol ≡ k
  unfolding find_text
  symbol_of_IsNamed k b [] n h = cc
  symbol_of_IsNamed k b ((j, w) ∷ m) n h =
      ground (arith, eq_of_text_eq j k, symbol_of_IsNamed k b m n.1)

  module _ (to_double : ℕ → D) where
    add_books-IsNamed :
        (books : Map OrderBook) (instruments : Map InstrumentInfo)
        (snap : TextMap (OrderBookSnapshot D))
        → IsNamed snap
        → IsNamed (add_books to_double books instruments snap)
    unfolding add_books book_snapshot
    add_books-IsNamed [] instruments snap n = n
    add_books-IsNamed ((locate, book) ∷ books) instruments snap n =
        elim (Option-cases (find locate instruments)) [
          | inl absent ↦ rw absent (add_books-IsNamed books instruments snap n)
          | inr (info, there) ↦ rw there (
              add_books-IsNamed books instruments _
                (assign_text-IsNamed info.symbol (book_snapshot to_double info book) snap refl n))
        ]

    add_instruments-IsNamed :
        (instruments : Map InstrumentInfo) (snap : TextMap (OrderBookSnapshot D))
        → IsNamed snap
        → IsNamed (add_instruments to_double instruments snap)
    unfolding add_instruments empty_snapshot
    add_instruments-IsNamed [] snap n = n
    add_instruments-IsNamed ((locate, info) ∷ instruments) snap n =
        elim (Option-cases (find_text info.symbol snap)) [
          | inr (present, there) ↦ rw there (add_instruments-IsNamed instruments snap n)
          | inl absent ↦ rw absent (
              add_instruments-IsNamed instruments _
                (assign_text-IsNamed info.symbol (empty_snapshot to_double info) snap refl n))
        ]

    build_snapshot-IsNamed :
        (n : ℕ) (done : Bool) (now : ℕ) (c : Core)
        → IsNamed (build_snapshot to_double n done now c).books
    unfolding build_snapshot
    build_snapshot-IsNamed n done now c =
        add_instruments-IsNamed c.instruments _ (add_books-IsNamed c.books c.instruments [] tt)

    -- In every snapshot that the engine builds, what the symbol index holds for a name is the
    -- symbol of a book that the snapshot has under this symbol, and the name is the symbol in
    -- lowercase.
    pub symbol_index-build_snapshot :
        (n : ℕ) (done : Bool) (now : ℕ) (c : Core) (low key : List ℕ)
        → let snap = build_snapshot to_double n done now c in
          find_text low snap.symbol_index ≡ some key
          → (b : OrderBookSnapshot D) × (find_text key snap.books ≡ some b)
            × (b.symbol ≡ key)
            × (map to_lower key ≡ low)
    unfolding build_snapshot find_text
    symbol_index-build_snapshot n done now c low key h =
        let snap = build_snapshot to_double n done now c in
        elim (add_symbols-Points snap.books [] low key h) [
          | inl (same, (b, there)) ↦ (
            b,
            there,
            symbol_of_IsNamed key b snap.books (build_snapshot-IsNamed n done now c) there,
            same,
          )
          | inr nothing ↦ cc nothing
        ]
