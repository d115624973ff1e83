-- ===== src/Ladder/Array/Emptied.antt =====
-- The array ladder's `best_idx_` after a write that empties a slot.
use itch_parser.Ladder.Array.Best.{IsBest, IsBest-none, occupied-set_at, count_pos}
use itch_parser.Book.{PriceLevel}
use itch_parser.Ladder.Array.Slots.{
  occupied_lt, count_occupied, some_occupied, scan_down-le, scan_up-le,
}
use itch_parser.Ladder.Array.{occupied, scan_down, scan_up, advance_best_from}
use itch_parser.Ladder.{set_at}
use itch_parser.Prelude.{
  ℕ, ◌+◌, ◌-◌, ◌≤◌, ◌<◌, ◌≡◌, ◌≢◌, Bool, true, false, List, arith, length, ◌==◌, if◌then◌else◌, inl,
  inr, Bool-cases, ==_iff,
}

module _ (slots tick : ℕ) (levels : List PriceLevel) (i : ℕ) (v : PriceLevel)
    (within : i < length levels) where
  -- A write that empties a slot.
  emptied_cases :
      (j : ℕ)
      → v.order_count ≡ 0
      → occupied (set_at i v levels) j ≡ true
      → (i ≢ j) × (occupied levels j ≡ true)
  emptied_cases j z o = elim (Bool-cases (i == j)) [
    | inl same ↦ absurd (ground (arith, occupied-set_at levels i j v within))
    | inr other ↦ (λ e. ground arith, cc (occupied-set_at levels i j v within, other, o))
  ]

  emptied_other : (j : ℕ) → i ≢ j → occupied levels j ≡ true → occupied (set_at i v levels) j ≡ true
  emptied_other j n o = elim (Bool-cases (i == j)) [
    | inl same ↦ absurd (n ((==_iff i j).0 same))
    | inr other ↦ cc (occupied-set_at levels i j v within, other, o)
  ]

  -- The best slot stays, if another slot is emptied.
  IsBest-stays :
      (is_bid : Bool) (best : ℕ)
      → v.order_count ≡ 0
      → i ≢ best
      → IsBest is_bid levels best
      → IsBest is_bid (set_at i v levels) best
  IsBest-stays is_bid best z n b = record {
    top = λ filled.
        let (j, o) = some_occupied (set_at i v levels) filled in
        emptied_other best n (b.top (count_pos levels j (emptied_cases j z o).1));
    first = λ j o. b.first j (emptied_cases j z o).1;
  }

  -- The scan finds the next best slot, if the best one is emptied.
  IsBest-scanned :
      (is_bid : Bool)
      → length levels ≡ slots
      → v.order_count ≡ 0
      → IsBest is_bid levels i
      → IsBest is_bid (set_at i v levels) (
          if is_bid
          then scan_down is_bid slots tick (set_at i v levels) i
          else scan_up is_bid slots tick (set_at i v levels) (slots - 1 - i) i)
  IsBest-scanned true size z b =
      let below : (j : ℕ) → occupied (set_at i v levels) j ≡ true → j < i =
        λ j o. let (n, old) = emptied_cases j z o in omega (arith, b.first j old, n) in
      record {
        top = λ filled.
            let (j, o) = some_occupied (set_at i v levels) filled in
            (scan_down-le true slots tick (set_at i v levels) i j (below j o) o).0;
        first = λ j o. (scan_down-le true slots tick (set_at i v levels) i j (below j o) o).1;
      }
  IsBest-scanned false size z b =
      let above : (j : ℕ)
          → occupied (set_at i v levels) j ≡ true
          → (i < j) × (j ≤ i + (slots - 1 - i)) =
        λ j o.
          let (n, old) = emptied_cases j z o in
          (omega (arith, b.first j old, n), omega (arith, occupied_lt levels j old, size)) in
      record {
        top = λ filled.
            let (j, o) = some_occupied (set_at i v levels) filled in
            let (l, u) = above j o in
            (scan_up-le false slots tick (set_at i v levels) (slots - 1 - i) i j l u o).0;
        first = λ j o.
            let (l, u) = above j o in
            (scan_up-le false slots tick (set_at i v levels) (slots - 1 - i) i j l u o).1;
      }

  pub IsBest-emptied :
      (is_bid : Bool) (best : ℕ)
      → length levels ≡ slots
      → v.order_count ≡ 0
      → IsBest is_bid levels best
      → let levels' = set_at i v levels in
        IsBest is_bid levels' (
          if i == best
          then advance_best_from is_bid slots tick i (count_occupied levels') levels'
          else best)
  unfolding advance_best_from
  IsBest-emptied is_bid best size z b = elim (Bool-cases (i == best)) [
    | inl same ↦
        let e : i ≡ best = (==_iff i best).0 same in
        let b' : IsBest is_bid levels i = rw e b in
        rw same elim (Bool-cases (count_occupied (set_at i v levels) == 0)) [
          | inl none_left ↦ rw none_left (IsBest-none is_bid slots ((==_iff _ 0).0 none_left))
          | inr left ↦ rw left (IsBest-scanned is_bid size z b')
        ]
    | inr other ↦ rw other (IsBest-stays is_bid best z (λ e. ground arith) b)
  ]
