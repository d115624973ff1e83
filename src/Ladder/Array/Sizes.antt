-- ===== src/Ladder/Array/Sizes.antt =====
-- `size()` of the array ladder and of the map ladder, where shares may be left behind in a level
-- that a removal empties.
use itch_parser.Book.{PriceLevel, level_or_empty}
use itch_parser.Ladder.Array.Agreement.{shown}
use itch_parser.Ladder.Array.Orders.{
  AgreesOrders, or_empty_count, run_array-AgreesOrders, new-AgreesOrders,
}
use itch_parser.Ladder.Array.Reference.{IsInBand}
use itch_parser.Ladder.Array.Tracked.{run_array, run_array-IsTracked, new_array_ladder-IsTracked}
use itch_parser.Ladder.Array.Whole.{run_map-keeps}
use itch_parser.Ladder.Equivalence.{Operation, run_map}
use itch_parser.Ladder.Array.Sequence.{levels_of-visit_down}
use itch_parser.Ladder.Array.Slots.{count_occupied, weight}
use itch_parser.Ladder.Array.Writes.{IsTracked}
use itch_parser.Ladder.Array.{ArrayLadder, new_array_ladder, level_of, visit_down}
use itch_parser.Ladder.Observers.{map_size-levels_of}
use itch_parser.Ladder.{map_size, flat_size}
use itch_parser.Map.Ordered.{IsSorted, greater}
use itch_parser.Map.{Map, find}
use itch_parser.Prelude.{
  ℕ, zero, suc, ◌+◌, ◌*◌, ◌^◌, ◌<◌, ◌≡◌, refl, ap, sym, ◌∙◌, true, false, List, [], ◌∷◌, length,
  All, arith, ◌==◌, if◌then◌else◌, inl, inr, Bool-cases, Option-cases,
}

-- The occupied slots below n.
abbrev below : ℕ → List PriceLevel → ℕ
below zero levels = 0
below (suc n) levels = weight (level_of levels n) + below n levels

below-cons :
    (n : ℕ) (lvl : PriceLevel) (levels : List PriceLevel)
    → below (suc n) (lvl ∷ levels) ≡ weight lvl + below n levels
below-cons zero lvl levels = refl
below-cons (suc n) lvl levels = omega (arith, below-cons n lvl levels)

count_occupied-below :
    (levels : List PriceLevel) → count_occupied levels ≡ below (length levels) levels
unfolding count_occupied
count_occupied-below [] = refl
count_occupied-below (lvl ∷ levels) =
    omega (arith, count_occupied-below levels, below-cons (length levels) lvl levels)

below-agree :
    (n : ℕ) (levels levels' : List PriceLevel)
    → ((i : ℕ) → i < n → (level_of levels i).order_count ≡ (level_of levels' i).order_count)
    → below n levels ≡ below n levels'
below-agree zero levels levels' h = refl
below-agree (suc n) levels levels' h =
    let here : weight (level_of levels n) ≡ weight (level_of levels' n) =
      ap (λ k. if k == 0 then 0 else 1) (h n (omega arith)) in
    omega (arith, here, below-agree n levels levels' (λ i lt. h i (omega (arith, lt))))

length-visit_down :
    (slots tick n : ℕ) (levels : List PriceLevel)
    → length (visit_down true slots tick levels n) ≡ below n levels
unfolding visit_down
length-visit_down slots tick zero levels = refl
length-visit_down slots tick (suc n) levels =
    elim (Bool-cases ((level_of levels n).order_count == 0)) [
      | inl empty ↦ rw (visit_down, empty) (length-visit_down slots tick n levels ∙ omega arith)
      | inr filled ↦
          rw (visit_down, filled) (ap suc (length-visit_down slots tick n levels) ∙ omega arith)
    ]

-- The levels that a function gives for the first n slots.
abbrev tabulate : ℕ → (ℕ → PriceLevel) → List PriceLevel
tabulate zero f = []
tabulate (suc n) f = f 0 ∷ tabulate n (λ i. f (suc i))

level_of-tabulate : (n i : ℕ) (f : ℕ → PriceLevel) → i < n → level_of (tabulate n f) i ≡ f i
level_of-tabulate zero i f h = absurd (omega arith)
level_of-tabulate (suc n) zero f h = refl
level_of-tabulate (suc n) (suc i) f h = level_of-tabulate n i (λ j. f (suc j)) (omega arith)

module _ (slots tick base : ℕ) (ticks : 0 < tick) where
  -- A map of the slots' prices has as many levels as the array has occupied slots.
  pub map_size-nonempty_count :
      (k : ℕ) (a : ArrayLadder) (m : Map PriceLevel)
      → IsTracked true slots k a
      → AgreesOrders slots tick base ticks a.levels m
      → IsSorted greater m
      → All (λ e. (j : ℕ) × (j < slots) × (e.0 ≡ base + j * tick)) m
      → map_size m ≡ a.nonempty_count
  unfolding flat_size
  map_size-nonempty_count k a m t g s b =
      let read : ℕ → PriceLevel = λ i. level_or_empty (find (base + i * tick) m) in
      let levels = tabulate slots read in
      let found : (i : ℕ) → i < slots → find (base + i * tick) m ≡ shown (level_of levels i) =
        λ i lt. elim (Option-cases (find (base + i * tick) m)) [
          | inl absent ↦ rw (level_of-tabulate slots i read lt, absent) refl
          | inr (lvl, there) ↦
              let some_left : (lvl.order_count == 0) ≡ false =
                ground (arith, g.filled i lvl there) in
              rw (level_of-tabulate slots i read lt, there, some_left) refl
        ] in
      let visited = levels_of-visit_down true slots tick base ticks levels slots m s b found in
      let same : below slots levels ≡ below slots a.levels =
        below-agree slots levels a.levels (λ i lt.
          ap (λ l. l.order_count) (level_of-tabulate slots i read lt)
          ∙ or_empty_count (find (base + i * tick) m)
          ∙ g.orders i) in
      map_size-levels_of m
      ∙ ap length visited
      ∙ length-visit_down slots tick slots levels
      ∙ same
      ∙ sym (t.counted ∙ count_occupied-below a.levels ∙ ap (λ n. below n a.levels) t.sized)

  -- After the same operations on a new array ladder and on an empty map ladder of bids, fewer than
  -- 2 ^ 32 and at prices of the slots, the two ladders have the same size.
  pub map_size-run_array :
      (ops : List Operation)
      → slots < 2 ^ 32
      → length ops < 2 ^ 32
      → All (IsInBand slots tick base) ops
      → map_size (run_map greater ops [])
        ≡ (run_array true slots tick ops (new_array_ladder true slots tick base)).nonempty_count
  unfolding new_array_ladder
  map_size-run_array ops few short bands =
      let start = new_array_ladder true slots tick base in
      let t = new_array_ladder-IsTracked true slots tick base in
      let (sorted, slot_keys) = run_map-keeps slots tick base greater ops [] bands tt tt tt in
      map_size-nonempty_count (0 + length ops) (run_array true slots tick ops start)
        (run_map greater ops [])
        (run_array-IsTracked true slots tick ops 0 start few (omega (arith, short)) t)
        (run_array-AgreesOrders slots tick base ticks true greater few ops 0 start []
          (omega (arith, short)) bands refl t
          (new-AgreesOrders slots tick base ticks true greater few))
        sorted slot_keys
