-- ===== src/Ladder/Observers.antt =====
-- What the clients of the map ladder and of the flat ladder see.
use itch_parser.Ladder.Adds.{levels_of}
use itch_parser.Ladder.Equivalence.{
  Operation, FitsOperation, run_map, run_flat, run_map-run_flat_empty,
}
use itch_parser.Book.{PriceLevel}
use itch_parser.Ladder.{map_best, map_size, map_for_each, flat_best, flat_size, flat_for_each}
use itch_parser.Map.Ordered.{Compare}
use itch_parser.Map.{Map}
use itch_parser.Prelude.{suc, ◌≡◌, refl, ap, ◌∙◌, List, [], ◌∷◌, All}

pub map_best-levels_of : (m : Map PriceLevel) → map_best m ≡ flat_best (levels_of m)
unfolding map_best flat_best
map_best-levels_of [] = refl
map_best-levels_of (e ∷ m) = refl

pub map_size-levels_of : (m : Map PriceLevel) → map_size m ≡ flat_size (levels_of m)
unfolding map_size flat_size
map_size-levels_of [] = refl
map_size-levels_of (e ∷ m) = ap (λ n. suc n) (map_size-levels_of m)

pub map_for_each-levels_of : (m : Map PriceLevel) → map_for_each m ≡ flat_for_each (levels_of m)
unfolding map_for_each flat_for_each
map_for_each-levels_of [] = refl
map_for_each-levels_of (e ∷ m) = ap (◌∷◌ e.1) (map_for_each-levels_of m)

-- After the same operations from empty ladders, with shares of 32 bits, the map ladder and the flat
-- ladder give the same best level, the same size and the same levels in the same order to
-- `for_each`, on either side.
pub map_ladder-flat_ladder :
    (c : Compare) (ops : List Operation)
    → All FitsOperation ops
    → let m = run_map c ops [] in
      let levels = run_flat c ops [] in
      (map_best m ≡ flat_best levels)
      × (map_size m ≡ flat_size levels)
      × (map_for_each m ≡ flat_for_each levels)
map_ladder-flat_ladder c ops fits =
    let m = run_map c ops [] in
    let same = run_map-run_flat_empty c ops fits in
    (
      map_best-levels_of m ∙ ap flat_best same,
      map_size-levels_of m ∙ ap flat_size same,
      map_for_each-levels_of m ∙ ap flat_for_each same,
    )
