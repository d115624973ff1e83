-- ===== src/Ladder/Array/Whole.antt =====
-- What the clients of the array ladder and of the map ladder see.
use itch_parser.Book.Order.{All-place}
use itch_parser.Book.{PriceLevel}
use itch_parser.Ladder.Adds.{levels_of, IsFiled}
use itch_parser.Ladder.Array.Agreement.{Agrees}
use itch_parser.Ladder.Array.Reference.{IsInBand, leaves_nothing, run_array-Agrees, new-Agrees}
use itch_parser.Ladder.Array.Sequence.{levels_of-visit_down, levels_of-visit_up}
use itch_parser.Ladder.Array.Slots.{occupied_lt}
use itch_parser.Ladder.Array.Tracked.{run_array, run_array-IsTracked, new_array_ladder-IsTracked}
use itch_parser.Ladder.Array.Writes.{IsTracked}
use itch_parser.Ladder.Array.Visits.{
  array_for_each-occupied_levels, visit_up-occupied_up, visit_down-occupied_down,
}
use itch_parser.Ladder.Array.{ArrayLadder, new_array_ladder, array_for_each}
use itch_parser.Ladder.Equivalence.{
  Operation, add_shares, remove_shares, run_map, map_add_shares-IsSorted, map_add_shares-IsFiled,
  map_remove_shares-keeps,
}
use itch_parser.Ladder.Observers.{map_for_each-levels_of}
use itch_parser.Ladder.{shrunk, map_add_shares, map_remove_shares, map_for_each, flat_for_each}
use itch_parser.Map.Ordered.{Compare, IsSorted, less, greater}
use itch_parser.Map.Total.{All-assign, All-erase}
use itch_parser.Map.{Map, find}
use itch_parser.Messages.{Price}
use itch_parser.Prelude.{
  ℕ, ◌+◌, ◌*◌, ◌^◌, ◌<◌, ◌≡◌, refl, ap, sym, ◌≤◌, ◌∙◌, Bool, true, false, List, [], ◌∷◌, arith,
  length, All, ◌==◌, inl, inr, Bool-cases, Option-cases,
}

-- The comparator of a side.
abbrev pub map_compare : Bool → Compare
map_compare true = greater
map_compare false = less

flat_for_each_lem : (levels : List PriceLevel) → flat_for_each levels ≡ levels
unfolding flat_for_each
flat_for_each_lem [] = refl
flat_for_each_lem (lvl ∷ levels) = ap (◌∷◌ lvl) (flat_for_each_lem levels)

module _ (slots tick base : ℕ) (c : Compare) where
  -- The entry's key is the price of one of the slots.
  abbrev IsSlot : ℕ × PriceLevel → Type 0
  IsSlot e = (j : ℕ) × (j < slots) × (e.0 ≡ base + j * tick)

  map_remove_shares-All :
      (p : Price) (shares : ℕ) (full : Bool) (m : Map PriceLevel)
      → ((j : ℕ) × (j < slots) × (p.raw ≡ base + j * tick))
      → All IsSlot m
      → All IsSlot (map_remove_shares c p shares full m)
  unfolding map_remove_shares
  map_remove_shares-All p shares full m own b = elim (Option-cases (find p.raw m)) [
    | inl absent ↦ rw (map_remove_shares, absent) b
    | inr (lvl, there) ↦ elim (Bool-cases ((shrunk shares full lvl).order_count == 0)) [
      | inl gone ↦ rw (map_remove_shares, there, gone) (All-erase IsSlot p.raw m b)
      | inr kept ↦
          rw (map_remove_shares, there, kept)
            (All-assign IsSlot p.raw (shrunk shares full lvl) m own b)
    ]
  ]

  map_add_shares-All :
      (p : Price) (shares : ℕ) (m : Map PriceLevel)
      → ((j : ℕ) × (j < slots) × (p.raw ≡ base + j * tick))
      → All IsSlot m
      → All IsSlot (map_add_shares c p shares m)
  unfolding map_add_shares
  map_add_shares-All p shares m own b = All-place IsSlot c.before p.raw _ m own b

  pub run_map-keeps :
      (ops : List Operation) (m : Map PriceLevel)
      → All (IsInBand slots tick base) ops
      → IsSorted c m
      → IsFiled m
      → All IsSlot m
      → IsSorted c (run_map c ops m) × All IsSlot (run_map c ops m)
  run_map-keeps [] m bands s f b = (s, b)
  run_map-keeps (add_shares p shares ∷ ops) m bands s f b =
      run_map-keeps ops _ bands.1 (map_add_shares-IsSorted c p shares m s)
        (map_add_shares-IsFiled c p shares m f) (map_add_shares-All p shares m bands.0 b)
  run_map-keeps (remove_shares p shares full ∷ ops) m bands s f b =
      let (s', f') = map_remove_shares-keeps c p shares full m s f in
      run_map-keeps ops _ bands.1 s' f' (map_remove_shares-All p shares full m bands.0 b)

module _ (slots tick base : ℕ) (ticks : 0 < tick) where
  -- Both visit the same levels in the same order, where the map agrees with the slots.
  levels_of-array_for_each :
      (is_bid : Bool) (k : ℕ) (a : ArrayLadder) (m : Map PriceLevel)
      → IsTracked is_bid slots k a
      → Agrees slots tick base ticks a.levels m
      → IsSorted (map_compare is_bid) m
      → All (λ e. (j : ℕ) × (j < slots) × (e.0 ≡ base + j * tick)) m
      → levels_of m ≡ array_for_each is_bid slots tick a
  levels_of-array_for_each true k a m t g s b =
      levels_of-visit_down true slots tick base ticks a.levels slots m s b (λ i h. g.found i)
      ∙ visit_down-occupied_down true slots tick a.levels slots (omega (arith, t.sized))
          (λ j o. omega (arith, occupied_lt a.levels j o, t.sized))
      ∙ sym (array_for_each-occupied_levels slots tick k a true t)
  levels_of-array_for_each false k a m t g s b =
      levels_of-visit_up false slots tick base ticks a.levels slots 0 slots m (omega arith) s
        (from_zero m b) (λ j h. g.found j)
      ∙ visit_up-occupied_up false slots tick a.levels 0 slots (omega (arith, t.sized))
          (λ j o. omega arith)
      ∙ sym (array_for_each-occupied_levels slots tick k a false t)
    where
      from_zero :
          (m : Map PriceLevel)
          → All (λ e. (j : ℕ) × (j < slots) × (e.0 ≡ base + j * tick)) m
          → All (λ e. (j : ℕ) × (0 ≤ j) × (j < slots) × (e.0 ≡ base + j * tick)) m
      from_zero [] b = tt
      from_zero (e ∷ m) b = let (j, lt, at) = b.0 in ((j, omega arith, lt, at), from_zero m b.1)

  -- After the same operations on a new array ladder and on an empty map ladder of the same side,
  -- fewer than 2 ^ 32 operations, all at prices of the array's slots, where a removal that empties
  -- a level takes all of its shares: `for_each` of the two ladders visits the same levels in the
  -- same order.
  pub map_for_each-array_for_each :
      (is_bid : Bool) (ops : List Operation)
      → slots < 2 ^ 32
      → length ops < 2 ^ 32
      → All (IsInBand slots tick base) ops
      → leaves_nothing (map_compare is_bid) ops [] ≡ true
      → map_for_each (run_map (map_compare is_bid) ops [])
        ≡ array_for_each is_bid slots tick
            (run_array is_bid slots tick ops (new_array_ladder is_bid slots tick base))
  unfolding new_array_ladder
  map_for_each-array_for_each is_bid ops few short bands clean =
      let c = map_compare is_bid in
      let start = new_array_ladder is_bid slots tick base in
      let m = run_map c ops [] in
      let (s, b) = run_map-keeps slots tick base c ops [] bands tt tt tt in
      let t =
        run_array-IsTracked is_bid slots tick ops 0 start few (omega (arith, short))
          (new_array_ladder-IsTracked is_bid slots tick base) in
      let g =
        run_array-Agrees slots tick base ticks is_bid c few ops 0 start [] (omega (arith, short))
          bands clean refl (new_array_ladder-IsTracked is_bid slots tick base)
          (new-Agrees slots tick base ticks is_bid c few) in
      map_for_each-levels_of m
      ∙ flat_for_each_lem (levels_of m)
      ∙ levels_of-array_for_each is_bid _ _ m t g s b
