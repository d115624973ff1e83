-- ===== src/Ladder/Array/Tracked.antt =====
-- The array ladder over any sequence of operations: its counters and its best level.
use itch_parser.Book.{PriceLevel, empty_level}
use itch_parser.Ladder.Array.Best.{NoBetter, IsBest-none}
use itch_parser.Ladder.Array.Slots.{
  occupied_lt, get_elem-level_of, count_occupied, count_occupied-replicate, count_occupied_pos,
}
use itch_parser.Ladder.Array.Writes.{IsTracked, IsTracked-same, IsTracked-filled, IsTracked-emptied}
use itch_parser.Ladder.Array.{
  ArrayLadder, level_of, occupied, new_array_ladder, idx_of, grown, array_add_shares,
  array_remove_shares, array_best,
}
use itch_parser.Ladder.Equivalence.{Operation, add_shares, remove_shares}
use itch_parser.Ladder.{shrunk}
use itch_parser.Messages.{Price}
use itch_parser.Prelude.{
  ℕ, zero, suc, ◌+◌, ◌^◌, ◌≤◌, ◌<◌, ◌≡◌, ◌≢◌, ap, sym, ◌∙◌, Bool, true, false, not, List, [], ◌∷◌,
  some, arith, length, length-replicate, replicate, leb, ◌==◌, inl, inr, Bool-cases, ==_iff,
}

shrunk_count :
    (shares k : ℕ) (full : Bool) (lvl : PriceLevel)
    → lvl.order_count ≢ 0
    → lvl.order_count ≤ k
    → k < 2 ^ 32
    → (shrunk shares full lvl).order_count ≤ k
shrunk_count shares k true lvl n b h = omega arith
shrunk_count shares k false lvl n b h = b

empty_bound : (n i : ℕ) → (level_of (replicate n empty_level) i).order_count ≤ 0
empty_bound zero i = omega arith
empty_bound (suc n) zero = omega arith
empty_bound (suc n) (suc i) = empty_bound n i

module _ (is_bid : Bool) (slots tick : ℕ) where
  grow :
      (k k' : ℕ) (a : ArrayLadder)
      → k ≤ k'
      → IsTracked is_bid slots k a
      → IsTracked is_bid slots k' a
  grow k k' a h t = record {
    sized = t.sized;
    counted = t.counted;
    bounded = λ j. omega (arith, t.bounded j);
    best = t.best;
  }

  pub array_add_shares-IsTracked :
      (p : Price) (shares k : ℕ) (a : ArrayLadder)
      → slots < 2 ^ 32
      → k + 1 < 2 ^ 32
      → IsTracked is_bid slots k a
      → IsTracked is_bid slots (k + 1) (array_add_shares is_bid slots tick p shares a)
  unfolding array_add_shares
  array_add_shares-IsTracked p shares k a few fits t =
      let i = idx_of is_bid slots tick a.base_raw p in
      let lvl = level_of a.levels i in
      let lvl' = grown is_bid slots tick p shares lvl in
      elim (Bool-cases (leb slots i)) [
        | inl out ↦ rw out (grow k (k + 1) a (omega arith) t)
        | inr in_band ↦
            let count : lvl'.order_count ≡ lvl.order_count + 1 = omega (arith, t.bounded i) in
            let bound : lvl'.order_count ≤ k + 1 = omega (arith, t.bounded i, count) in
            rw in_band elim (Bool-cases (lvl.order_count == 0)) [
              | inl empty ↦ rw empty (
                  IsTracked-filled is_bid slots tick k (k + 1) a i _ few (omega arith) t
                    (ground arith) bound (ground arith) (λ e. omega (arith, count, e)))
              | inr filled ↦ rw filled (
                  IsTracked-same is_bid slots tick k (k + 1) a i _ few (omega arith) t
                    (ground arith) bound (ground (arith, count, filled)))
            ]
      ]

  pub array_remove_shares-IsTracked :
      (p : Price) (shares k : ℕ) (full : Bool) (a : ArrayLadder)
      → slots < 2 ^ 32
      → k < 2 ^ 32
      → IsTracked is_bid slots k a
      → IsTracked is_bid slots k (array_remove_shares is_bid slots tick p shares full a)
  unfolding array_remove_shares
  array_remove_shares-IsTracked p shares k full a few fits t =
      let i = idx_of is_bid slots tick a.base_raw p in
      let lvl = level_of a.levels i in
      let lvl' = shrunk shares full lvl in
      elim (Bool-cases (leb slots i)) [
        | inl out ↦ rw out t
        | inr in_band ↦ rw in_band elim (Bool-cases (lvl.order_count == 0)) [
          | inl empty ↦ rw empty t
          | inr filled ↦
              let some : lvl.order_count ≢ 0 = λ e. ground (arith, filled) in
              let bound : lvl'.order_count ≤ k =
                shrunk_count shares k full lvl some (t.bounded i) fits in
              rw filled elim (Bool-cases (lvl'.order_count == 0)) [
                | inl gone ↦ rw gone (
                    IsTracked-emptied is_bid slots tick k k a i lvl' few (omega arith) t
                      (ground arith) bound some ((==_iff _ 0).0 gone))
                | inr kept ↦ rw kept (
                    IsTracked-same is_bid slots tick k k a i lvl' few (omega arith) t (ground arith)
                      bound (ap not (kept ∙ sym filled)))
              ]
        ]
      ]

  pub new_array_ladder-IsTracked :
      (base_raw : ℕ) → IsTracked is_bid slots 0 (new_array_ladder is_bid slots tick base_raw)
  unfolding new_array_ladder
  new_array_ladder-IsTracked base_raw = record {
    sized = length-replicate slots empty_level;
    counted = sym (count_occupied-replicate slots);
    bounded = empty_bound slots;
    best = IsBest-none is_bid slots (count_occupied-replicate slots);
  }

  abbrev pub run_array : List Operation → ArrayLadder → ArrayLadder
  run_array [] a = a
  run_array (add_shares p shares ∷ ops) a =
      run_array ops (array_add_shares is_bid slots tick p shares a)
  run_array (remove_shares p shares full ∷ ops) a =
      run_array ops (array_remove_shares is_bid slots tick p shares full a)

  pub run_array-IsTracked :
      (ops : List Operation) (k : ℕ) (a : ArrayLadder)
      → slots < 2 ^ 32
      → k + length ops < 2 ^ 32
      → IsTracked is_bid slots k a
      → IsTracked is_bid slots (k + length ops) (run_array ops a)
  run_array-IsTracked [] k a few fits t = grow k (k + 0) a (omega arith) t
  run_array-IsTracked (add_shares p shares ∷ ops) k a few fits t =
      grow (k + 1 + length ops) (k + suc (length ops)) _ (omega arith) (
        run_array-IsTracked ops (k + 1) _ few (omega arith)
          (array_add_shares-IsTracked p shares k a few (omega arith) t))
  run_array-IsTracked (remove_shares p shares full ∷ ops) k a few fits t =
      grow (k + length ops) (k + suc (length ops)) _ (omega arith) (
        run_array-IsTracked ops k _ few (omega arith)
          (array_remove_shares-IsTracked p shares k full a few (omega arith) t))

  -- After any sequence of less than 2 ^ 32 calls on a new array ladder of less than 2 ^ 32 slots, if
  -- orders rest in slot i, then `size()` is the number of slots in which orders rest, and `best()` is
  -- the level of such a slot that is no worse than slot i on the ladder's side.
  pub array_best-run_array :
      (base_raw i : ℕ) (ops : List Operation)
      → slots < 2 ^ 32
      → length ops < 2 ^ 32
      → let a = run_array ops (new_array_ladder is_bid slots tick base_raw) in
        occupied a.levels i ≡ true
        → (a.nonempty_count ≡ count_occupied a.levels)
          × (array_best is_bid slots tick a ≡ some (level_of a.levels a.best_idx))
          × (occupied a.levels a.best_idx ≡ true)
          × NoBetter is_bid i a.best_idx
  unfolding array_best
  array_best-run_array base_raw i ops few short here =
      let a = run_array ops (new_array_ladder is_bid slots tick base_raw) in
      let t =
        run_array-IsTracked ops 0 _ few (omega (arith, short))
          (new_array_ladder-IsTracked base_raw) in
      let top = t.best.top (λ e. absurd (omega (arith, count_occupied_pos a.levels i here))) in
      let some_left : (a.nonempty_count == 0) ≡ false =
        ground (arith, t.counted, count_occupied_pos a.levels i here) in
      let got = get_elem-level_of a.levels a.best_idx (occupied_lt a.levels a.best_idx top) in
      (t.counted, rw some_left got, top, t.best.first i here)
