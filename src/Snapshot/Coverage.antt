-- ===== src/Snapshot/Coverage.antt =====
-- Which symbols a snapshot has, and what the symbol index finds.
use itch_parser.Engine.{Core, InstrumentInfo}
use itch_parser.Map.{Map, find}
use itch_parser.Prelude.{
  ℕ, ◌≡◌, refl, Bool, List, [], ◌∷◌, some, map, arith, inl, inr, Option-cases, Bool-cases, ◌⊎◌,
  ◌==◌,
}
use itch_parser.Snapshot.{
  OrderBookSnapshot, to_lower, add_instruments, add_symbols, build_snapshot, empty_snapshot,
}
use itch_parser.TextMap.{
  TextMap, text_eq, eq_of_text_eq, text_eq_refl, find_text, assign_text, find_text-assign_text,
  find_text-assign_text_self,
}

module _ {D : Type 0} (to_double : ℕ → D) where
  -- A key that is there stays there.
  assign_text_keeps :
      (j k : List ℕ) (v : OrderBookSnapshot D) (w : OrderBookSnapshot D)
      (m : TextMap (OrderBookSnapshot D))
      → find_text j m ≡ some w
      → (x : OrderBookSnapshot D) × (find_text j (assign_text k v m) ≡ some x)
  assign_text_keeps j k v w m h = elim (Bool-cases (text_eq k j)) [
    | inl same ↦ (v, ground (arith, find_text-assign_text j k v m))
    | inr other ↦ (w, ground (arith, find_text-assign_text j k v m))
  ]

  add_instruments_keeps :
      (j : List ℕ) (instruments : Map InstrumentInfo) (w : OrderBookSnapshot D)
      (m : TextMap (OrderBookSnapshot D))
      → find_text j m ≡ some w
      → (x : OrderBookSnapshot D) × (find_text j (add_instruments to_double instruments m) ≡ some x)
  unfolding add_instruments
  add_instruments_keeps j [] w m h = (w, h)
  add_instruments_keeps j ((l, info) ∷ rest) w m h = elim (Option-cases (find_text info.symbol m)) [
    | inr (present, e) ↦ rw e (add_instruments_keeps j rest w m h)
    | inl absent ↦
        let (x, there) = assign_text_keeps j info.symbol (empty_snapshot to_double info) w m h in
        rw absent (add_instruments_keeps j rest x _ there)
  ]

  add_instruments_covers :
      (l : ℕ) (info : InstrumentInfo) (instruments : Map InstrumentInfo)
      (m : TextMap (OrderBookSnapshot D))
      → find l instruments ≡ some info
      → (x : OrderBookSnapshot D) × (find_text info.symbol (add_instruments to_double instruments m)
          ≡ some x)
  unfolding add_instruments find
  add_instruments_covers l info [] m h = cc
  add_instruments_covers l info ((k, first) ∷ rest) m h = elim (Bool-cases (k == l)) [
    | inr other ↦ add_instruments_covers l info rest _ (rw other at h)
    | inl same ↦
        let here : info ≡ first = cc (rw same at h) in
        elim (Option-cases (find_text first.symbol m)) [
          | inr (present, e) ↦ rw (here, e) (add_instruments_keeps first.symbol rest present m e)
          | inl absent ↦
              rw (here, absent)
                (add_instruments_keeps first.symbol rest (empty_snapshot to_double first) _
                  (find_text-assign_text_self first.symbol _ m))
        ]
  ]

module _ {D : Type 0} where
  -- What the index holds was put there under its own lowercase spelling, and is a key.
  abbrev pub Points : TextMap (OrderBookSnapshot D) → List ℕ → List ℕ → Type 0
  Points books low symbol =
      (map to_lower symbol ≡ low) × ((x : OrderBookSnapshot D) × (find_text symbol books ≡ some x))

  Points-cons :
      (symbol low k : List ℕ) (b : OrderBookSnapshot D) (books : TextMap (OrderBookSnapshot D))
      → Points books low symbol
      → Points ((k, b) ∷ books) low symbol
  unfolding find_text
  Points-cons symbol low k b books (e, (x, h)) = elim (Bool-cases (text_eq k symbol)) [
    | inl same ↦ (e, (b, rw same))
    | inr other ↦ (e, (x, rw other h))
  ]

  pub add_symbols-Points :
      (books : TextMap (OrderBookSnapshot D)) (index : TextMap (List ℕ)) (low symbol : List ℕ)
      → find_text low (add_symbols books index) ≡ some symbol
      → Points books low symbol ⊎ (find_text low index ≡ some symbol)
  unfolding add_symbols find_text
  add_symbols-Points [] index low symbol h = inr h
  add_symbols-Points ((k, b) ∷ books) index low symbol h =
      elim (add_symbols-Points books (assign_text (map to_lower k) k index) low symbol h) [
        | inl later ↦ inl (Points-cons symbol low k b books later)
        | inr before ↦ elim (Bool-cases (text_eq (map to_lower k) low)) [
          | inl same ↦
              let found : some k ≡ some symbol =
                rw (find_text-assign_text low (map to_lower k) k index, same) at before in
              let symbol_is : symbol ≡ k = cc found in
              inl (rw symbol_is (eq_of_text_eq (map to_lower k) low same, (b, rw (text_eq_refl k))))
          | inr other ↦
              inr (rw (find_text-assign_text low (map to_lower k) k index, other) at before)
        ]
      ]

  -- Every key has an entry of the index under its lowercase spelling.
  add_symbols_covers :
      (books : TextMap (OrderBookSnapshot D)) (index : TextMap (List ℕ)) (low symbol : List ℕ)
      → map to_lower symbol ≡ low
      → ((x : OrderBookSnapshot D) × (find_text symbol books ≡ some x))
        ⊎ ((s : List ℕ) × (find_text low index ≡ some s))
      → (s : List ℕ) × (find_text low (add_symbols books index) ≡ some s)
  unfolding add_symbols find_text
  add_symbols_covers [] index low symbol e (inl (x, h)) = cc
  add_symbols_covers [] index low symbol e (inr there) = there
  add_symbols_covers ((k, b) ∷ books) index low symbol e (inr (s, h)) =
      add_symbols_covers books _ low symbol e (
        inr (elim (Bool-cases (text_eq (map to_lower k) low)) [
          | inl same ↦ (k, ground (arith, find_text-assign_text low (map to_lower k) k index))
          | inr other ↦ (s, ground (arith, find_text-assign_text low (map to_lower k) k index))
        ]))
  add_symbols_covers ((k, b) ∷ books) index low symbol e (inl (x, h)) =
      elim (Bool-cases (text_eq k symbol)) [
        | inl same ↦
            let here : map to_lower k ≡ low = rw (eq_of_text_eq k symbol same) e in
            add_symbols_covers books _ low symbol e
              (inr (k, rw here (find_text-assign_text_self low k index)))
        | inr other ↦ add_symbols_covers books _ low symbol e (inl (x, rw other at h))
      ]

-- In every snapshot, the lowercase spelling of the symbol of every registered instrument is in the
-- symbol index, and what the index holds for it is a key of the snapshot's books that has the same
-- lowercase spelling.
pub build_snapshot_covers :
    {D : Type 0} (to_double : ℕ → D) (n : ℕ) (done : Bool) (now : ℕ) (c : Core) (l : ℕ)
    (info : InstrumentInfo)
    → find l c.instruments ≡ some info
    → let snap = build_snapshot to_double n done now c in
      (symbol : List ℕ) × (find_text (map to_lower info.symbol) snap.symbol_index ≡ some symbol)
      × (map to_lower symbol ≡ map to_lower info.symbol)
      × ((book : OrderBookSnapshot D) × (find_text symbol snap.books ≡ some book))
unfolding build_snapshot find_text
build_snapshot_covers to_double n done now c l info h =
    let low = map to_lower info.symbol in
    let books = (build_snapshot to_double n done now c).books in
    let covered = add_instruments_covers to_double l info c.instruments _ h in
    let (symbol, found) = add_symbols_covers books [] low info.symbol refl (inl covered) in
    elim (add_symbols-Points books [] low symbol found) [
      | inl (same, there) ↦ (symbol, found, same, there)
      | inr nothing ↦ cc nothing
    ]
