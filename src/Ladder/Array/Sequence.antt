-- ===== src/Ladder/Array/Sequence.antt =====
-- A sorted map that agrees with the slots of an array has the levels that the array's loops visit.
use itch_parser.Book.{PriceLevel}
use itch_parser.Ladder.Adds.{levels_of}
use itch_parser.Ladder.Array.Agreement.{shown}
use itch_parser.Ladder.Array.{level_of, visit_down, visit_up}
use itch_parser.Map.Ordered.{IsFirst, IsSorted, less, greater}
use itch_parser.Map.{Map, find}
use itch_parser.Prelude.{
  ℕ, zero, suc, ◌*◌, ◌≤◌, ◌<◌, ◌≡◌, ◌≢◌, refl, ap, sym, ◌∙◌, subst, Bool, true, false, not, List,
  [], ◌∷◌, none, some, arith, ◌==◌, ◌+◌, inl, inr, Bool-cases, ==_iff, All,
}
use native.Mathlib.Nat.{lt_of_mul-lt-mul_right, eq_of_mul-eq-mul_right}

find-none : (k : ℕ) (m : Map PriceLevel) → All (λ e. e.0 ≢ k) m → find k m ≡ none
unfolding find
find-none k [] h = refl
find-none k ((q, v) ∷ m) h =
    let other : (q == k) ≡ false = ground (arith, h.0) in rw other (find-none k m h.1)

shown-none : (lvl : PriceLevel) → shown lvl ≡ none → not (lvl.order_count == 0) ≡ false
shown-none lvl h = elim (Bool-cases (lvl.order_count == 0)) [
  | inl empty ↦ ap not empty
  | inr filled ↦
      let e : shown lvl ≡ some lvl = rw filled refl in
      let e' : some lvl ≡ none = sym e ∙ h in absurd (cc e')
]

shown-some :
    (lvl v : PriceLevel) → shown lvl ≡ some v → (not (lvl.order_count == 0) ≡ true) × (lvl ≡ v)
shown-some lvl v h = elim (Bool-cases (lvl.order_count == 0)) [
  | inl empty ↦
      let e : shown lvl ≡ none = rw empty refl in
      let e' : none ≡ some v = sym e ∙ h in absurd (cc e')
  | inr filled ↦
      let e : shown lvl ≡ some lvl = rw filled refl in
      let e' : some lvl ≡ some v = sym e ∙ h in (ap not filled, cc e')
]

module _ (is_bid : Bool) (slots tick base : ℕ) (ticks : 0 < tick) (levels : List PriceLevel) where
  abbrev price : ℕ → ℕ
  price i = base + i * tick

  slot_lt : (i j : ℕ) → price i < price j → i < j
  slot_lt i j h = let h' : i * tick < j * tick = omega (arith, h) in lt_of_mul-lt-mul_right tick h'

  -- The keys are prices of slots below n.
  abbrev IsBelow : ℕ → Map PriceLevel → Type 0
  IsBelow n = All (λ e. (j : ℕ) × (j < n) × (e.0 ≡ price j))

  -- What comes after the price of slot n, from the highest price down, is below n.
  IsFirst-IsBelow :
      (n l : ℕ) (m : Map PriceLevel) → IsFirst greater (price n) m → IsBelow l m → IsBelow n m
  IsFirst-IsBelow n l [] f b = tt
  IsFirst-IsBelow n l ((q, v) ∷ m) f b =
      let (j, lt, at) = b.0 in
      let after : price j < price n = ground (arith, f.0, at) in
      ((j, slot_lt j n after, at), IsFirst-IsBelow n l m f.1 b.1)

  IsBelow-none : (n : ℕ) (m : Map PriceLevel) → IsBelow n m → find (price n) m ≡ none
  IsBelow-none n m b = find-none (price n) m (apart m b)
    where
      apart : (m : Map PriceLevel) → IsBelow n m → All (λ e. e.0 ≢ price n) m
      apart [] b = tt
      apart ((q, v) ∷ m) b =
          let (j, lt, at) = b.0 in
          (
            λ e.
                let same : j ≡ n = eq_of_mul-eq-mul_right tick ticks j n (omega (arith, e, at)) in
                absurd (omega (arith, same, lt)),
            apart m b.1,
          )

  -- The map has the levels of the slots below n.
  abbrev FoundBelow : ℕ → Map PriceLevel → Type 0
  FoundBelow n m = (i : ℕ) → i < n → find (price i) m ≡ shown (level_of levels i)

  find_tail :
      (q i : ℕ) (v : PriceLevel) (m : Map PriceLevel)
      → q ≢ price i
      → find (price i) ((q, v) ∷ m) ≡ find (price i) m
  unfolding find
  find_tail q i v m n = let other : (q == price i) ≡ false = ground (arith, n) in rw other refl

  find_head : (q k : ℕ) (v : PriceLevel) (m : Map PriceLevel) → q ≡ k → find k ((q, v) ∷ m) ≡ some v
  unfolding find
  find_head q k v m e = let same : (q == k) ≡ true = ground (arith, e) in rw same refl

  price_apart : (i j : ℕ) → i < j → price j ≢ price i
  price_apart i j h = λ e.
      let same : j ≡ i = eq_of_mul-eq-mul_right tick ticks j i (omega (arith, e)) in
      absurd (omega (arith, same, h))

  pub levels_of-visit_down :
      (n : ℕ) (m : Map PriceLevel)
      → IsSorted greater m
      → IsBelow n m
      → FoundBelow n m
      → levels_of m ≡ visit_down is_bid slots tick levels n
  unfolding visit_down
  levels_of-visit_down zero [] s b f = refl
  levels_of-visit_down zero ((q, v) ∷ m) s b f = let (j, lt, at) = b.0 in absurd (omega (arith, lt))
  levels_of-visit_down (suc n) [] s b f =
      let none_here : find (price n) [] ≡ none = find-none (price n) [] tt in
      let empty = shown-none (level_of levels n) (sym (f n (omega arith)) ∙ none_here) in
      rw (visit_down, empty) (levels_of-visit_down n [] tt tt (λ i h. f i (omega (arith, h))))
  levels_of-visit_down (suc n) ((q, v) ∷ m) s b f =
      let (j, lt, at) = b.0 in
      elim (Bool-cases (j == n)) [
        | inl same ↦
            let top : q ≡ price n = at ∙ ap price ((==_iff j n).0 same) in
            let (filled, own) =
              shown-some (level_of levels n) v
                (sym (f n (omega arith)) ∙ find_head q (price n) v m top) in
            let first : IsFirst greater (price n) m = subst (λ k. IsFirst greater k m) top s.0 in
            let rest = levels_of-visit_down n m s.1 (IsFirst-IsBelow n (suc n) m first b.1) (λ i h.
              sym (find_tail q i v m (λ e. price_apart i n h (sym top ∙ e)))
              ∙ f i (omega (arith, h))) in
            rw (visit_down, filled, own) (ap (◌∷◌ v) rest)
        | inr other ↦
            let less_than : j < n = ground (arith, lt, other) in
            let after : IsBelow j m =
              IsFirst-IsBelow j (suc n) m (subst (λ k. IsFirst greater k m) at s.0) b.1 in
            let below : IsBelow n ((q, v) ∷ m) =
              ((j, less_than, at), widen j n m less_than after) in
            let empty =
              shown-none (level_of levels n)
                (sym (f n (omega arith)) ∙ IsBelow-none n ((q, v) ∷ m) below) in
            rw (visit_down, empty)
              (levels_of-visit_down n ((q, v) ∷ m) s below (λ i h. f i (omega (arith, h))))
      ]
    where
      widen : (j n : ℕ) (m : Map PriceLevel) → j < n → IsBelow j m → IsBelow n m
      widen j n [] h b = tt
      widen j n (e ∷ m) h b =
          let (i, lt, at) = b.0 in ((i, omega (arith, lt, h), at), widen j n m h b.1)

  -- The keys are prices of slots from i on, below u.
  abbrev IsWithin : ℕ → ℕ → Map PriceLevel → Type 0
  IsWithin i u = All (λ e. (j : ℕ) × (i ≤ j) × (j < u) × (e.0 ≡ price j))

  IsFirst-IsWithin :
      (i l u : ℕ) (m : Map PriceLevel)
      → IsFirst less (price i) m
      → IsWithin l u m
      → IsWithin (i + 1) u m
  IsFirst-IsWithin i l u [] f b = tt
  IsFirst-IsWithin i l u ((q, v) ∷ m) f b =
      let (j, ge, lt, at) = b.0 in
      let after : price i < price j = ground (arith, f.0, at) in
      let above = slot_lt i j after in
      ((j, omega (arith, above), lt, at), IsFirst-IsWithin i l u m f.1 b.1)

  raise_bound : (i j u : ℕ) (m : Map PriceLevel) → i ≤ j → IsWithin j u m → IsWithin i u m
  raise_bound i j u [] h b = tt
  raise_bound i j u (e ∷ m) h b =
      let (l, ge, lt, at) = b.0 in ((l, omega (arith, ge, h), lt, at), raise_bound i j u m h b.1)

  IsWithin-none : (i u : ℕ) (m : Map PriceLevel) → IsWithin (i + 1) u m → find (price i) m ≡ none
  IsWithin-none i u m b = find-none (price i) m (apart m b)
    where
      apart : (m : Map PriceLevel) → IsWithin (i + 1) u m → All (λ e. e.0 ≢ price i) m
      apart [] b = tt
      apart ((q, v) ∷ m) b =
          let (j, ge, lt, at) = b.0 in
          (λ e. price_apart i j (omega (arith, ge)) (sym at ∙ e), apart m b.1)

  pub levels_of-visit_up :
      (k i u : ℕ) (m : Map PriceLevel)
      → i + k ≡ u
      → IsSorted less m
      → IsWithin i u m
      → ((j : ℕ) → i ≤ j → find (price j) m ≡ shown (level_of levels j))
      → levels_of m ≡ visit_up is_bid slots tick levels k i
  unfolding visit_up
  levels_of-visit_up zero i u [] e s b f = refl
  levels_of-visit_up zero i u ((q, v) ∷ m) e s b f =
      let (j, ge, lt, at) = b.0 in absurd (omega (arith, ge, lt, e))
  levels_of-visit_up (suc k) i u [] e s b f =
      let none_here : find (price i) [] ≡ none = find-none (price i) [] tt in
      let empty = shown-none (level_of levels i) (sym (f i (omega arith)) ∙ none_here) in
      rw (visit_up, empty)
        (levels_of-visit_up k (i + 1) u [] (omega (arith, e)) tt tt (λ j h. f j (omega (arith, h))))
  levels_of-visit_up (suc k) i u ((q, v) ∷ m) e s b f =
      let (j, ge, lt, at) = b.0 in
      elim (Bool-cases (j == i)) [
        | inl same ↦
            let top : q ≡ price i = at ∙ ap price ((==_iff j i).0 same) in
            let (filled, own) =
              shown-some (level_of levels i) v
                (sym (f i (omega arith)) ∙ find_head q (price i) v m top) in
            let first : IsFirst less (price i) m = subst (λ l. IsFirst less l m) top s.0 in
            let rest =
              levels_of-visit_up k (i + 1) u m (omega (arith, e)) s.1
                (IsFirst-IsWithin i i u m first b.1)
                (λ l h.
                  sym (find_tail q l v m (λ w. price_apart i l (omega (arith, h)) (sym w ∙ top)))
                  ∙ f l (omega (arith, h))) in
            rw (visit_up, filled, own) (ap (◌∷◌ v) rest)
        | inr other ↦
            let above : i + 1 ≤ j = ground (arith, ge, other) in
            let after : IsWithin (j + 1) u m =
              IsFirst-IsWithin j i u m (subst (λ l. IsFirst less l m) at s.0) b.1 in
            let within : IsWithin (i + 1) u ((q, v) ∷ m) =
              ((j, above, lt, at), raise_bound (i + 1) (j + 1) u m (omega (arith, above)) after) in
            let empty =
              shown-none (level_of levels i)
                (sym (f i (omega arith)) ∙ IsWithin-none i u ((q, v) ∷ m) within) in
            rw (visit_up, empty)
              (levels_of-visit_up k (i + 1) u ((q, v) ∷ m) (omega (arith, e)) s within
                (λ l h. f l (omega (arith, h))))
      ]
