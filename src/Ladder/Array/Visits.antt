-- ===== src/Ladder/Array/Visits.antt =====
-- `for_each` of the array ladder: the levels it visits, and their order.
use itch_parser.Book.{PriceLevel}
use itch_parser.Ladder.Array.Slots.{count_occupied_pos, occupied_lt}
use itch_parser.Ladder.Array.Tracked.{run_array, run_array-IsTracked, new_array_ladder-IsTracked}
use itch_parser.Ladder.Array.Writes.{IsTracked}
use itch_parser.Ladder.Array.{
  ArrayLadder, level_of, occupied, new_array_ladder, visit_down, visit_up, array_for_each,
}
use itch_parser.Ladder.Equivalence.{Operation}
use itch_parser.Prelude.{
  ℕ, zero, suc, ◌+◌, ◌-◌, ◌^◌, ◌≤◌, ◌<◌, ◌≡◌, refl, ap, sym, ◌∙◌, Bool, true, false, not, List, [],
  ◌∷◌, ◌++◌, arith, length, ◌==◌, if◌then◌else◌, inl, inr, Bool-cases, ==_iff,
}

-- The level alone, if orders rest in it.
abbrev pub if_occupied : PriceLevel → List PriceLevel
if_occupied lvl = if lvl.order_count == 0 then [] else lvl ∷ []

-- The occupied levels by rising and by falling price.
pub occupied_up : List PriceLevel → List PriceLevel
occupied_up [] = []
occupied_up (lvl ∷ levels) = if_occupied lvl ++ occupied_up levels

pub occupied_down : List PriceLevel → List PriceLevel
occupied_down [] = []
occupied_down (lvl ∷ levels) = occupied_down levels ++ if_occupied lvl

module _ (is_bid : Bool) (slots tick : ℕ) where
  visit_up-suc :
      (x : PriceLevel) (xs : List PriceLevel) (k i : ℕ)
      → visit_up is_bid slots tick (x ∷ xs) k (suc i) ≡ visit_up is_bid slots tick xs k i
  unfolding visit_up
  visit_up-suc x xs zero i = refl
  visit_up-suc x xs (suc k) i =
      let shifted : suc i + 1 ≡ suc (i + 1) = omega arith in
      let rest = ap (visit_up is_bid slots tick (x ∷ xs) k) shifted ∙ visit_up-suc x xs k (i + 1) in
      ap (λ r. if occupied xs i then level_of xs i ∷ r else r) rest

  visit_down-suc :
      (x : PriceLevel) (xs : List PriceLevel) (n : ℕ)
      → visit_down is_bid slots tick (x ∷ xs) (suc n)
        ≡ visit_down is_bid slots tick xs n ++ if_occupied x
  unfolding visit_down
  visit_down-suc x xs zero = elim (Bool-cases (x.order_count == 0)) [
    | inl empty ↦ rw empty refl
    | inr filled ↦ rw filled refl
  ]
  visit_down-suc x xs (suc n) = elim (Bool-cases (occupied xs n)) [
    | inl here ↦ rw here (ap (λ r. level_of xs n ∷ r) (visit_down-suc x xs n))
    | inr gone ↦ rw gone (visit_down-suc x xs n)
  ]

  if_occupied_none : (x : PriceLevel) → (not (x.order_count == 0) ≡ true → ⊥) → if_occupied x ≡ []
  if_occupied_none x f = elim (Bool-cases (x.order_count == 0)) [
    | inl empty ↦ rw empty refl
    | inr filled ↦ absurd (f (ap not filled))
  ]

  pub visit_up-occupied_up :
      (levels : List PriceLevel) (i k : ℕ)
      → i + k ≡ length levels
      → ((j : ℕ) → occupied levels j ≡ true → i ≤ j)
      → visit_up is_bid slots tick levels k i ≡ occupied_up levels
  unfolding occupied_up visit_up
  visit_up-occupied_up [] i zero h f = refl
  visit_up-occupied_up [] i (suc k) h f = absurd (omega arith)
  visit_up-occupied_up (x ∷ xs) zero zero h f = absurd (omega arith)
  visit_up-occupied_up (x ∷ xs) zero (suc k) h f =
      let rest =
        visit_up-suc x xs k 0 ∙ visit_up-occupied_up xs 0 k (omega arith) (λ j o. omega arith) in
      elim (Bool-cases (x.order_count == 0)) [
        | inl empty ↦ rw empty rest
        | inr filled ↦ rw filled (ap (λ r. x ∷ r) rest)
      ]
  visit_up-occupied_up (x ∷ xs) (suc i) k h f =
      visit_up-suc x xs k i
      ∙ visit_up-occupied_up xs i k (omega arith) (λ j o. omega (arith, f (suc j) o))
      ∙ ap (λ r. r ++ occupied_up xs) (sym (if_occupied_none x (λ o. omega (arith, f 0 o))))

  pub visit_down-occupied_down :
      (levels : List PriceLevel) (n : ℕ)
      → n ≤ length levels
      → ((j : ℕ) → occupied levels j ≡ true → j < n)
      → visit_down is_bid slots tick levels n ≡ occupied_down levels
  unfolding occupied_down visit_down
  visit_down-occupied_down [] zero h f = refl
  visit_down-occupied_down [] (suc n) h f = absurd (omega arith)
  visit_down-occupied_down (x ∷ xs) zero h f =
      ap (λ r. r ++ [])
        (visit_down-occupied_down xs 0 (omega arith) (λ j o. omega (arith, f (suc j) o)))
      ∙ ap (λ r. occupied_down xs ++ r) (sym (if_occupied_none x (λ o. omega (arith, f 0 o))))
  visit_down-occupied_down (x ∷ xs) (suc n) h f =
      visit_down-suc x xs n
      ∙ ap (λ r. r ++ if_occupied x)
          (visit_down-occupied_down xs n (omega arith) (λ j o. omega (arith, f (suc j) o)))

-- The occupied levels from the best one of a side on.
abbrev pub occupied_levels : Bool → List PriceLevel → List PriceLevel
occupied_levels true levels = occupied_down levels
occupied_levels false levels = occupied_up levels

module _ (slots tick k : ℕ) (a : ArrayLadder) where
  none_left :
      (is_bid : Bool) (j : ℕ)
      → IsTracked is_bid slots k a
      → (a.nonempty_count == 0) ≡ true
      → occupied a.levels j ≡ true
      → ⊥
  none_left is_bid j t e o =
      omega (arith, t.counted, (==_iff a.nonempty_count 0).0 e, count_occupied_pos a.levels j o)

  best_lt :
      (is_bid : Bool)
      → IsTracked is_bid slots k a
      → (a.nonempty_count == 0) ≡ false
      → a.best_idx < length a.levels
  best_lt is_bid t e =
      occupied_lt a.levels a.best_idx (t.best.top (λ z. ground (arith, t.counted, z, e)))

  pub array_for_each-occupied_levels :
      (is_bid : Bool)
      → IsTracked is_bid slots k a
      → array_for_each is_bid slots tick a ≡ occupied_levels is_bid a.levels
  unfolding array_for_each visit_down visit_up
  array_for_each-occupied_levels true t = elim (Bool-cases (a.nonempty_count == 0)) [
    | inl empty ↦ rw empty (
        visit_down-occupied_down true slots tick a.levels 0 (omega arith)
          (λ j o. absurd (none_left true j t empty o)))
    | inr filled ↦ rw filled (
        visit_down-occupied_down true slots tick a.levels (a.best_idx + 1)
          (omega (arith, best_lt true t filled)) (λ j o. omega (arith, t.best.first j o)))
  ]
  array_for_each-occupied_levels false t = elim (Bool-cases (a.nonempty_count == 0)) [
    | inl empty ↦ rw empty (
        visit_up-occupied_up false slots tick a.levels (length a.levels) 0 (omega arith)
          (λ j o. absurd (none_left false j t empty o)))
    | inr filled ↦ rw filled (
        visit_up-occupied_up false slots tick a.levels a.best_idx (slots - a.best_idx)
          (omega (arith, best_lt false t filled, t.sized)) t.best.first)
  ]

-- After any sequence of less than 2 ^ 32 calls on a new array ladder of less than 2 ^ 32 slots,
-- `for_each` visits exactly the levels in which orders rest, each once, from the highest slot down
-- for bids and from the lowest slot up for asks.
pub array_for_each-run_array :
    (is_bid : Bool) (slots tick base_raw : ℕ) (ops : List Operation)
    → slots < 2 ^ 32
    → length ops < 2 ^ 32
    → let a = run_array is_bid slots tick ops (new_array_ladder is_bid slots tick base_raw) in
      array_for_each is_bid slots tick a ≡ occupied_levels is_bid a.levels
array_for_each-run_array is_bid slots tick base_raw ops few short =
    array_for_each-occupied_levels slots tick (0 + length ops)
      (run_array is_bid slots tick ops (new_array_ladder is_bid slots tick base_raw)) is_bid
      (run_array-IsTracked is_bid slots tick ops 0 _ few (omega (arith, short))
        (new_array_ladder-IsTracked is_bid slots tick base_raw))
