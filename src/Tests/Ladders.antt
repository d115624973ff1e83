-- ===== src/Tests/Ladders.antt =====
-- The ladders on a short sequence of operations.
use itch_parser.Ladder.Adds.{levels_of}
use itch_parser.Ladder.Array.Best.{NoBetter}
use itch_parser.Ladder.Array.Whole.{map_for_each-array_for_each}
use itch_parser.Map.{find, place, erase, assign}
use itch_parser.Ladder.Array.Slots.{count_occupied}
use itch_parser.Ladder.Array.Tracked.{run_array, array_best-run_array}
use itch_parser.Ladder.Array.Visits.{array_for_each-run_array, occupied_levels}
use itch_parser.Ladder.Array.{
  ArrayLadder, level_of, occupied, new_array_ladder, array_best, array_for_each, array_add_shares,
  array_remove_shares, idx_of, update_best_after_add, advance_best_from, scan_down, visit_down,
}
use itch_parser.Ladder.Equivalence.{
  Operation, add_shares, remove_shares, run_map, run_flat, run_map-run_flat_empty,
}
use itch_parser.Ladder.{map_add_shares, map_remove_shares, map_for_each}
use itch_parser.Map.Ordered.{greater}
use itch_parser.Messages.{Price}
use itch_parser.Prelude.{ℕ, map, ◌*◌, ◌≡◌, refl, some, true, false, List, [], ◌∷◌, arith}

abbrev dollars : ℕ → Price
dollars n = record { raw = n * 10000 }

abbrev operations : List Operation
operations =
    add_shares (dollars 10) 100
    ∷ add_shares (dollars 12) 50
    ∷ add_shares (dollars 10) 20
    ∷ remove_shares (dollars 12) 50 true
    ∷ remove_shares (dollars 11) 5 false
    ∷ []

run_map-run_flat_empty_example :
    levels_of (run_map greater operations []) ≡ run_flat greater operations []
run_map-run_flat_empty_example =
    run_map-run_flat_empty greater operations
      (omega arith, (omega arith, (omega arith, (omega arith, (omega arith, tt)))))

-- Eight slots of a dollar from 8 dollars on.
abbrev ladder : ArrayLadder
ladder = run_array true 8 10000 operations (new_array_ladder true 8 10000 80000)

array_best-run_array_example :
    (ladder.nonempty_count ≡ count_occupied ladder.levels)
    × (array_best true 8 10000 ladder ≡ some (level_of ladder.levels ladder.best_idx))
    × (occupied ladder.levels ladder.best_idx ≡ true)
    × NoBetter true 2 ladder.best_idx
unfolding array_add_shares array_remove_shares idx_of update_best_after_add advance_best_from
    scan_down new_array_ladder
array_best-run_array_example =
    array_best-run_array true 8 10000 80000 2 operations (omega arith) (omega arith) refl

best_after : ladder.best_idx ≡ 2
unfolding array_add_shares array_remove_shares idx_of update_best_after_add advance_best_from
    scan_down new_array_ladder
best_after = refl

array_for_each-run_array_example :
    array_for_each true 8 10000 ladder ≡ occupied_levels true ladder.levels
array_for_each-run_array_example =
    array_for_each-run_array true 8 10000 80000 operations (omega arith) (omega arith)

map_for_each-array_for_each_example :
    map_for_each (run_map greater operations []) ≡ array_for_each true 8 10000 ladder
unfolding map_add_shares map_remove_shares find place erase assign
map_for_each-array_for_each_example =
    map_for_each-array_for_each 8 10000 80000 (omega arith) true operations (omega arith)
      (omega arith)
      (
        (2, omega arith, refl),
        (
          (4, omega arith, refl),
          ((2, omega arith, refl), ((4, omega arith, refl), ((3, omega arith, refl), tt))),
        ),
      )
      refl

-- A removal that empties a level and leaves shares: the array adds to them, the map does not.
abbrev unbalanced : List Operation
unbalanced =
    add_shares (dollars 10) 100
    ∷ remove_shares (dollars 10) 40 true
    ∷ add_shares (dollars 10) 5
    ∷ []

array_keeps_shares :
    map
      (λ lvl. lvl.total_shares)
      (array_for_each true 8 10000
        (run_array true 8 10000 unbalanced (new_array_ladder true 8 10000 80000)))
    ≡ 65 ∷ []
unfolding array_add_shares array_remove_shares idx_of update_best_after_add advance_best_from
    scan_down new_array_ladder array_for_each visit_down
array_keeps_shares = refl

map_drops_shares :
    map (λ lvl. lvl.total_shares) (map_for_each (run_map greater unbalanced [])) ≡ 5 ∷ []
unfolding map_add_shares map_remove_shares find place erase assign map_for_each
map_drops_shares = refl
