-- ===== src/Bench/Draws.antt =====
-- What the workloads of bench/ draw from, and the vectors of live orders that they keep.
use itch_parser.Prelude.Int.{ℤ}
use itch_parser.Prelude.{
  ℕ, zero, suc, ◌+◌, ◌≤◌, ◌<◌, ◌≡◌, ◌≢◌, refl, List, [], ◌∷◌, ◌++◌, length, arith, ◌==◌,
  if◌then◌else◌, Bool, ◌∙◌,
}
use itch_parser.Ladder.{set_at}

-- The generator and the distributions of the standard library, with their state `G` and its
-- `double` type `D`. `rng` is a call of the generator, `lognormal` a sample of the distribution
-- with parameters 0.0 and 0.6, `uniform a b` one of the integers from a to b.
pub record Random (G D : Type 0) : Type 0 where
  pub rng : G → ℕ × G
  pub lognormal : G → D × G
  pub uniform : ℕ → ℕ → G → ℕ × G
  -- `(up ? 1.0 : -1.0) * s * spread`
  pub signed_offset : Bool → D → ℕ → D
  -- The cast to `int64_t`.
  pub int64_t : D → ℤ
  pub uniform_low : (a b : ℕ) (g : G) → a ≤ b → a ≤ (uniform a b g).0
  pub uniform_high : (a b : ℕ) (g : G) → a ≤ b → (uniform a b g).0 ≤ b

-- `v[i]`; the callers stay within the vector.
abbrev pub item : List ℕ → ℕ → ℕ
item [] i = 0
item (x ∷ xs) zero = x
item (x ∷ xs) (suc i) = item xs i

abbrev pub back : List ℕ → ℕ
back [] = 0
back (x ∷ []) = x
back (x ∷ y ∷ xs) = back (y ∷ xs)

abbrev pub pop_back : List ℕ → List ℕ
pop_back [] = []
pop_back (x ∷ []) = []
pop_back (x ∷ y ∷ xs) = x ∷ pop_back (y ∷ xs)

abbrev pub push_back : List ℕ → ℕ → List ℕ
push_back xs x = xs ++ x ∷ []

-- `live[idx] = live.back(); live.pop_back();`
abbrev pub swap_remove : ℕ → List ℕ → List ℕ
swap_remove i live = pop_back (set_at i (back live) live)

abbrev pub one : ℕ → ℕ → ℕ
one k x = if x == k then 1 else 0

pub item-set_at :
    (xs : List ℕ) (i j v : ℕ)
    → i < length xs
    → item (set_at i v xs) j ≡ (if i == j then v else item xs j)
item-set_at [] i j v h = absurd (omega arith)
item-set_at (x ∷ xs) zero zero v h = refl
item-set_at (x ∷ xs) zero (suc j) v h = ground arith
item-set_at (x ∷ xs) (suc i) zero v h = ground arith
item-set_at (x ∷ xs) (suc i) (suc j) v h = ground (arith, item-set_at xs i j v)

-- How often k stands in a vector.
abbrev pub count : ℕ → List ℕ → ℕ
count k [] = 0
count k (x ∷ xs) = one k x + count k xs

pub count-push_back : (k x : ℕ) (xs : List ℕ) → count k (push_back xs x) ≡ count k xs + one k x
count-push_back k x [] = omega arith
count-push_back k x (y ∷ ys) = omega (arith, count-push_back k x ys)

pub length-push_back : (x : ℕ) (xs : List ℕ) → length (push_back xs x) ≡ suc (length xs)
length-push_back x [] = refl
length-push_back x (y ∷ ys) = omega (arith, length-push_back x ys)

pub count-item : (i : ℕ) (xs : List ℕ) → i < length xs → 1 ≤ count (item xs i) xs
count-item i [] h = absurd (omega arith)
count-item zero (x ∷ xs) h = ground arith
count-item (suc i) (x ∷ xs) h = omega (arith, count-item i xs (omega arith))

pub count-le : (k : ℕ) (xs : List ℕ) → count k xs ≤ length xs
count-le k [] = omega arith
count-le k (x ∷ xs) = ground (arith, count-le k xs)

count-set_at :
    (k i z : ℕ) (xs : List ℕ)
    → i < length xs
    → count k (set_at i z xs) + one k (item xs i) ≡ count k xs + one k z
count-set_at k i z [] h = absurd (omega arith)
count-set_at k zero z (x ∷ xs) h = omega arith
count-set_at k (suc i) z (x ∷ xs) h = omega (arith, count-set_at k i z xs (omega arith))

count-pop_back :
    (k : ℕ) (xs : List ℕ) → length xs ≢ 0 → count k (pop_back xs) + one k (back xs) ≡ count k xs
count-pop_back k [] h = absurd (h refl)
count-pop_back k (x ∷ []) h = omega arith
count-pop_back k (x ∷ y ∷ xs) h = omega (arith, count-pop_back k (y ∷ xs) (λ e. omega (arith, e)))

length-pop_back : (xs : List ℕ) → length xs ≢ 0 → suc (length (pop_back xs)) ≡ length xs
length-pop_back [] h = absurd (h refl)
length-pop_back (x ∷ []) h = refl
length-pop_back (x ∷ y ∷ xs) h = omega (arith, length-pop_back (y ∷ xs) (λ e. omega (arith, e)))

-- A write of the last element leaves it the last.
back-set_at : (i z : ℕ) (xs : List ℕ) → i < length xs → z ≡ back xs → back (set_at i z xs) ≡ z
back-set_at i z [] h e = absurd (omega arith)
back-set_at zero z (x ∷ []) h e = refl
back-set_at zero z (x ∷ y ∷ xs) h e = omega (arith, e)
back-set_at (suc i) z (x ∷ []) h e = absurd (omega arith)
back-set_at (suc zero) z (x ∷ y ∷ xs) h e = back-set_at zero z (y ∷ xs) (omega arith) e
back-set_at (suc (suc i)) z (x ∷ y ∷ xs) h e = back-set_at (suc i) z (y ∷ xs) (omega arith) e

pub length-set_at : (i z : ℕ) (xs : List ℕ) → length (set_at i z xs) ≡ length xs
length-set_at i z [] = refl
length-set_at zero z (x ∷ xs) = refl
length-set_at (suc i) z (x ∷ xs) = omega (arith, length-set_at i z xs)

-- The element at the index is gone, and no other.
pub count-swap_remove :
    (k i : ℕ) (xs : List ℕ)
    → i < length xs
    → count k (swap_remove i xs) + one k (item xs i) ≡ count k xs
count-swap_remove k i xs h =
    let z = back xs in
    let sized = length-set_at i z xs in
    let last : back (set_at i z xs) ≡ z = back-set_at i z xs h refl in
    let popped : count k (pop_back (set_at i z xs)) + one k z ≡ count k (set_at i z xs) =
      rw last at (count-pop_back k (set_at i z xs) (λ e. omega (arith, sized, e))) in
    omega (arith, popped, count-set_at k i z xs h)

pub length-swap_remove :
    (i : ℕ) (xs : List ℕ) → i < length xs → suc (length (swap_remove i xs)) ≡ length xs
length-swap_remove i xs h =
    let sized = length-set_at i (back xs) xs in
    length-pop_back (set_at i (back xs) xs) (λ e. omega (arith, sized, e)) ∙ sized
