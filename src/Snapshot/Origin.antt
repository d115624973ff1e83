-- ===== src/Snapshot/Origin.antt =====
-- Where the levels of a snapshot's books are from.
use itch_parser.Book.{OrderBook}
use itch_parser.Engine.{Core, InstrumentInfo}
use itch_parser.Map.{Map, find}
use itch_parser.Prelude.{
  ℕ, ◌≡◌, ◌⊎◌, refl, sym, ◌∙◌, Bool, List, [], ◌∷◌, ◌++◌, some, arith, All, append_assoc, inl, inr,
  Option-cases,
}
use itch_parser.Snapshot.{
  OrderBookSnapshot, side_snapshot, add_books, add_instruments, build_snapshot, book_snapshot,
  empty_snapshot,
}
use itch_parser.TextMap.{TextMap, find_text, assign_text}

module _ {D : Type 0} where
  assign_text-All :
      (P : OrderBookSnapshot D → Type 0) (k : List ℕ) (v : OrderBookSnapshot D)
      (m : TextMap (OrderBookSnapshot D))
      → P v
      → All (λ e. P e.1) m
      → All (λ e. P e.1) (assign_text k v m)
  unfolding assign_text
  assign_text-All P k v [] h a = (h, tt)
  assign_text-All P k v ((j, w) ∷ m) h a = ground (arith, assign_text-All P k v m h a.1)

  found-All :
      (P : OrderBookSnapshot D → Type 0) (k : List ℕ) (b : OrderBookSnapshot D)
      (m : TextMap (OrderBookSnapshot D))
      → All (λ e. P e.1) m
      → find_text k m ≡ some b
      → P b
  unfolding find_text
  found-All P k b [] a h = absurd (cc h)
  found-All P k b ((j, w) ∷ m) a h = ground (arith, found-All P k b m a.1)

  module _ (to_double : ℕ → D) where
    -- The levels of b are those of one of the books, each side in its own order, and b has the
    -- trading state of the instrument with the book's locate; or b is for an instrument without a
    -- book, and has no levels.
    abbrev pub Origin : Map OrderBook → Map InstrumentInfo → OrderBookSnapshot D → Type 0
    Origin books instruments b =
        ((before after : Map OrderBook) × (locate : ℕ) × (book : OrderBook)
          × (info : InstrumentInfo) × (books ≡ before ++ (locate, book) ∷ after)
          × (find locate instruments ≡ some info)
          × (b.symbol ≡ info.symbol)
          × (b.trading_state ≡ info.trading_state)
          × (b.last_update_timestamp ≡ book.last_update_timestamp)
          × (b.bids ≡ side_snapshot to_double book.bids)
          × (b.asks ≡ side_snapshot to_double book.asks))
        ⊎ ((b.bids ≡ []) × (b.asks ≡ []))

    module _ (all : Map OrderBook) (instruments : Map InstrumentInfo) where
      abbrev HaveOrigin : TextMap (OrderBookSnapshot D) → Type 0
      HaveOrigin = All (λ e. Origin all instruments e.1)

      add_books-HaveOrigin :
          (gone books : Map OrderBook) (snap : TextMap (OrderBookSnapshot D))
          → all ≡ gone ++ books
          → HaveOrigin snap
          → HaveOrigin (add_books to_double books instruments snap)
      unfolding add_books book_snapshot
      add_books-HaveOrigin gone [] snap split a = a
      add_books-HaveOrigin gone ((locate, book) ∷ books) snap split a =
          let split' : all ≡ (gone ++ (locate, book) ∷ []) ++ books =
            split ∙ sym (append_assoc gone ((locate, book) ∷ []) books) in
          let next = add_books-HaveOrigin (gone ++ (locate, book) ∷ []) books in
          elim (Option-cases (find locate instruments)) [
            | inl absent ↦ rw absent (next snap split' a)
            | inr (info, there) ↦
                let from : Origin all instruments (book_snapshot to_double info book) =
                  inl
                    (gone, books, locate, book, info, split, there, refl, refl, refl, refl, refl) in
                rw there (
                  next _ split' (
                    assign_text-All (Origin all instruments) info.symbol
                      (book_snapshot to_double info book) snap from a))
          ]

      add_instruments-HaveOrigin :
          (rest : Map InstrumentInfo) (snap : TextMap (OrderBookSnapshot D))
          → HaveOrigin snap
          → HaveOrigin (add_instruments to_double rest snap)
      unfolding add_instruments empty_snapshot
      add_instruments-HaveOrigin [] snap a = a
      add_instruments-HaveOrigin ((locate, info) ∷ rest) snap a =
          elim (Option-cases (find_text info.symbol snap)) [
            | inr (present, there) ↦ rw there (add_instruments-HaveOrigin rest snap a)
            | inl absent ↦ rw absent (
                add_instruments-HaveOrigin rest _ (
                  assign_text-All (Origin all instruments) info.symbol
                    (empty_snapshot to_double info) snap (inr (refl, refl)) a))
          ]

    pub build_snapshot-Origin :
        (n : ℕ) (done : Bool) (now : ℕ) (c : Core) (key : List ℕ) (b : OrderBookSnapshot D)
        → find_text key (build_snapshot to_double n done now c).books ≡ some b
        → Origin c.books c.instruments b
    unfolding build_snapshot
    build_snapshot-Origin n done now c key b = found-All (Origin c.books c.instruments) key b _ (
        add_instruments-HaveOrigin c.books c.instruments c.instruments _
          (add_books-HaveOrigin c.books c.instruments [] c.books [] refl tt))
