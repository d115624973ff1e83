-- ===== src/Ladder/Array/Writes.antt =====
-- A write to a slot keeps the array ladder's counters and its best level true.
use itch_parser.Book.{PriceLevel}
use itch_parser.Ladder.Array.Best.{IsBest, IsBest-same, IsBest-filled}
use itch_parser.Ladder.Array.Emptied.{IsBest-emptied}
use itch_parser.Ladder.Array.Slots.{
  level_of-set_at, length-set_at, count_occupied, count_occupied-set_at, count_occupied-le,
}
use itch_parser.Ladder.Array.{
  ArrayLadder, level_of, occupied, update_best_after_add, advance_best_from,
}
use itch_parser.Ladder.{set_at}
use itch_parser.Prelude.{
  ℕ, ◌+◌, ◌-◌, ◌%◌, ◌^◌, ◌≤◌, ◌<◌, ◌≡◌, ◌≢◌, sym, ◌∙◌, Bool, not, arith, length, ◌==◌,
  if◌then◌else◌, inl, inr, Bool-cases,
}

-- At most k orders rest in a slot.
pub record IsTracked (is_bid : Bool) (slots k : ℕ) (a : ArrayLadder) : Type 0 where
  pub sized : length a.levels ≡ slots
  pub counted : a.nonempty_count ≡ count_occupied a.levels
  pub bounded : (i : ℕ) → (level_of a.levels i).order_count ≤ k
  pub best : IsBest is_bid a.levels a.best_idx

module _ (is_bid : Bool) (slots tick k k' : ℕ) (a : ArrayLadder) (i : ℕ) (v : PriceLevel)
    (few : slots < 2 ^ 32) (grows : k ≤ k') (t : IsTracked is_bid slots k a) (in_band : i < slots)
    (fits : v.order_count ≤ k') where
  within : i < length a.levels
  within = omega (arith, t.sized)

  written_bound : (j : ℕ) → (level_of (set_at i v a.levels) j).order_count ≤ k'
  written_bound j = elim (Bool-cases (i == j)) [
    | inl same ↦ rw (level_of-set_at a.levels i j v within, same) fits
    | inr other ↦ rw (level_of-set_at a.levels i j v within, other) (omega (arith, t.bounded j))
  ]

  -- A write that leaves the slot occupied or empty, as it was.
  pub IsTracked-same :
      not (v.order_count == 0) ≡ occupied a.levels i
      → IsTracked is_bid slots k' (record a { levels = set_at i v a.levels })
  IsTracked-same e = record {
    sized = length-set_at a.levels i v ∙ t.sized;
    counted = ground (arith, t.counted, count_occupied-set_at a.levels i v within);
    bounded = written_bound;
    best = IsBest-same slots tick a.levels i v within is_bid a.best_idx e t.best;
  }

  -- A write that fills an empty slot.
  pub IsTracked-filled :
      (level_of a.levels i).order_count ≡ 0
      → v.order_count ≢ 0
      → let count = (a.nonempty_count + 1) % 2 ^ 32 in
        IsTracked is_bid slots k' (record a {
          nonempty_count = count;
          best_idx = update_best_after_add is_bid slots tick i count a.best_idx;
          levels = set_at i v a.levels;
        })
  IsTracked-filled e f =
      let counts : count_occupied (set_at i v a.levels) ≡ count_occupied a.levels + 1 =
        ground (arith, count_occupied-set_at a.levels i v within) in
      let count : (a.nonempty_count + 1) % 2 ^ 32 ≡ count_occupied a.levels + 1 = omega (
        arith,
        t.counted,
        counts,
        count_occupied-le (set_at i v a.levels),
        length-set_at a.levels i v,
        t.sized,
      ) in
      record {
        sized = length-set_at a.levels i v ∙ t.sized;
        counted = count ∙ sym counts;
        bounded = written_bound;
        best =
            rw count (
              IsBest-filled slots tick a.levels i v within is_bid a.best_idx (ground arith) t.best);
      }

  -- A write that empties an occupied slot.
  emptied_count :
      (level_of a.levels i).order_count ≢ 0
      → v.order_count ≡ 0
      → (a.nonempty_count + 2 ^ 32 - 1) % 2 ^ 32 ≡ count_occupied (set_at i v a.levels)
  emptied_count f e =
      let counts : count_occupied (set_at i v a.levels) + 1 ≡ count_occupied a.levels =
        ground (arith, count_occupied-set_at a.levels i v within) in
      omega (arith, t.counted, counts, count_occupied-le a.levels, t.sized)

  pub IsTracked-emptied :
      (level_of a.levels i).order_count ≢ 0
      → v.order_count ≡ 0
      → let levels = set_at i v a.levels in
        let count = (a.nonempty_count + 2 ^ 32 - 1) % 2 ^ 32 in
        IsTracked is_bid slots k' (record a {
          levels = levels;
          nonempty_count = count;
          best_idx =
              if i == a.best_idx
              then advance_best_from is_bid slots tick i count levels
              else a.best_idx;
        })
  IsTracked-emptied f e =
      let count : (a.nonempty_count + 2 ^ 32 - 1) % 2 ^ 32 ≡ count_occupied (set_at i v a.levels) =
        emptied_count f e in
      record {
        sized = length-set_at a.levels i v ∙ t.sized;
        counted = count;
        bounded = written_bound;
        best =
            rw count
              (IsBest-emptied slots tick a.levels i v within is_bid a.best_idx t.sized e t.best);
      }
