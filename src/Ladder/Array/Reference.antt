-- ===== src/Ladder/Array/Reference.antt =====
-- The array ladder against the map ladder over any sequence of operations in its band.
use itch_parser.Book.{PriceLevel, empty_level}
use itch_parser.Ladder.Array.Agreement.{shown, Agrees}
use itch_parser.Ladder.Array.Steps.{
  add_levels, remove_levels, array_add_shares-Agrees, array_remove_shares-Agrees,
}
use itch_parser.Ladder.Array.Tracked.{
  run_array, array_add_shares-IsTracked, array_remove_shares-IsTracked, new_array_ladder-IsTracked,
}
use itch_parser.Ladder.Array.Writes.{IsTracked}
use itch_parser.Ladder.Array.{ArrayLadder, level_of, new_array_ladder}
use itch_parser.Ladder.Equivalence.{Operation, add_shares, remove_shares, run_map}
use itch_parser.Ladder.{shrunk, map_add_shares, map_remove_shares}
use itch_parser.Map.Ordered.{Compare}
use itch_parser.Map.{Map, find}
use itch_parser.Messages.{Price}
use itch_parser.Prelude.{
  ℕ, zero, suc, ◌+◌, ◌*◌, ◌^◌, ◌<◌, ◌≡◌, refl, ap, sym, ◌∙◌, Bool, true, false, ◌&&◌, not, List, [],
  ◌∷◌, Option, none, some, arith, length, replicate, ◌==◌, if◌then◌else◌, All,
}

abbrev pub price_of : Operation → Price
price_of (add_shares p shares) = p
price_of (remove_shares p shares full) = p

-- Whether a removal that empties a level takes all of its shares, at every removal.
abbrev pub empties_level : ℕ → Bool → Option PriceLevel → Bool
empties_level shares full none = true
empties_level shares full (some lvl) =
    if (shrunk shares full lvl).order_count == 0
    then (shrunk shares full lvl).total_shares == 0
    else true

abbrev pub leaves_nothing : Compare → List Operation → Map PriceLevel → Bool
leaves_nothing c [] m = true
leaves_nothing c (add_shares p shares ∷ ops) m = leaves_nothing c ops (map_add_shares c p shares m)
leaves_nothing c (remove_shares p shares full ∷ ops) m =
    empties_level shares full (find p.raw m)
    && leaves_nothing c ops (map_remove_shares c p shares full m)

and_left : (x y : Bool) → x && y ≡ true → x ≡ true
and_left true y h = refl
and_left false y h = h

and_right : (x y : Bool) → x && y ≡ true → y ≡ true
and_right true y h = h
and_right false y h = absurd (cc h)

emptied :
    (shares : ℕ) (full : Bool) (lvl : PriceLevel)
    → empties_level shares full (some lvl) ≡ true
    → ((shrunk shares full lvl).order_count == 0) ≡ true
    → (shrunk shares full lvl).total_shares ≡ 0
emptied shares full lvl h e = ground (arith, h, e)

pub level_of-replicate : (n i : ℕ) → level_of (replicate n empty_level) i ≡ empty_level
level_of-replicate zero i = refl
level_of-replicate (suc n) zero = refl
level_of-replicate (suc n) (suc i) = level_of-replicate n i

-- The operation's price is that of one of the slots.
abbrev pub IsInBand : ℕ → ℕ → ℕ → Operation → Type 0
IsInBand slots tick base op = (j : ℕ) × (j < slots) × ((price_of op).raw ≡ base + j * tick)

module _ (slots tick base : ℕ) (ticks : 0 < tick) (is_bid : Bool) (c : Compare)
    (few : slots < 2 ^ 32) where
  pub run_array-Agrees :
      (ops : List Operation) (k : ℕ) (a : ArrayLadder) (m : Map PriceLevel)
      → k + length ops < 2 ^ 32
      → All (IsInBand slots tick base) ops
      → leaves_nothing c ops m ≡ true
      → a.base_raw ≡ base
      → IsTracked is_bid slots k a
      → Agrees slots tick base ticks a.levels m
      → Agrees slots tick base ticks (run_array is_bid slots tick ops a).levels (run_map c ops m)
  run_array-Agrees [] k a m short bands clean based t g = g
  run_array-Agrees (add_shares p shares ∷ ops) k a m short bands clean based t g =
      let (j, inside, at) = bands.0 in
      run_array-Agrees ops (k + 1) _ _ (omega arith) bands.1 clean
        ((add_levels slots tick base ticks is_bid a j p based inside at shares).1 ∙ based)
        (array_add_shares-IsTracked is_bid slots tick p shares k a few (omega arith) t)
        (array_add_shares-Agrees slots tick base ticks is_bid a j p based inside at c k m few t g
          shares (omega arith))
  run_array-Agrees (remove_shares p shares full ∷ ops) k a m short bands clean based t g =
      let (j, inside, at) = bands.0 in
      let lvl = level_of a.levels j in
      let now = and_left (empties_level shares full (find p.raw m)) _ clean in
      let next = and_right (empties_level shares full (find p.raw m)) _ clean in
      let looked : find p.raw m ≡ shown lvl = ap (λ q. find q m) at ∙ g.found j in
      run_array-Agrees ops k _ _ (omega arith) bands.1 next
        ((remove_levels slots tick base ticks is_bid a j p based inside at shares full).1 ∙ based)
        (array_remove_shares-IsTracked is_bid slots tick p shares k full a few (omega arith) t)
        (array_remove_shares-Agrees slots tick base ticks is_bid a j p based inside at c k m few t g
          shares full
          (λ filled gone.
            let there : find p.raw m ≡ some lvl = looked ∙ rw filled refl in
            emptied shares full lvl (ap (empties_level shares full) (sym there) ∙ now) gone))

  pub new-Agrees : Agrees slots tick base ticks (new_array_ladder is_bid slots tick base).levels []
  unfolding new_array_ladder find
  new-Agrees = record {
    found = λ i. ap shown (sym (level_of-replicate slots i));
    priced =
        λ i o. absurd (cc (o, ap (λ l. not (l.order_count == 0)) (level_of-replicate slots i)));
    cleared = λ i o. ap (λ l. l.total_shares) (level_of-replicate slots i);
  }

  -- After the same operations on a new array ladder and on an empty map ladder, fewer than 2 ^ 32
  -- operations, all at prices of the array's slots, where a removal that empties a level takes all
  -- of its shares: for every slot, the level that the array has there, if orders rest in it, is
  -- the level that the map has at the slot's price, and where none rest the map has no such level.
  pub run_array-run_map :
      (ops : List Operation) (i : ℕ)
      → length ops < 2 ^ 32
      → All (IsInBand slots tick base) ops
      → leaves_nothing c ops [] ≡ true
      → let a = run_array is_bid slots tick ops (new_array_ladder is_bid slots tick base) in
        find (base + i * tick) (run_map c ops []) ≡ shown (level_of a.levels i)
  unfolding new_array_ladder
  run_array-run_map ops i short bands clean =
      (run_array-Agrees ops 0 (new_array_ladder is_bid slots tick base) [] (omega (arith, short))
          bands clean refl (new_array_ladder-IsTracked is_bid slots tick base) new-Agrees).found
        i
