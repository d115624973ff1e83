-- ===== src/Engine/Digits.antt =====
-- What `std::to_string` writes: the decimal digits of the number.
use itch_parser.Engine.{digits_of, to_string}
use itch_parser.Prelude.{
  ℕ, zero, suc, ◌+◌, ◌-◌, ◌*◌, ◌/◌, ◌%◌, ◌^◌, ◌≤◌, ◌<◌, ◌≡◌, ap, ◌∙◌, List, [], ◌∷◌, ltb, All,
  arith, length, inl, inr, Bool-cases,
}
use native.Mathlib.Nat.{pow-suc}

abbrev pub IsDigit : ℕ → Type 0
IsDigit c = (b'0' ≤ c) × (c ≤ b'9')

-- The number that digits denote, after the number `acc`.
abbrev pub value : ℕ → List ℕ → ℕ
value acc [] = acc
value acc (c ∷ s) = value (acc * 10 + (c - b'0')) s

digits_of-All :
    (fuel n : ℕ) (tail : List ℕ) → All IsDigit tail → All IsDigit (digits_of fuel n tail)
unfolding digits_of
digits_of-All zero n tail h = h
digits_of-All (suc fuel) n tail h = elim (Bool-cases (ltb n 10)) [
  | inl one ↦ rw one ((omega arith, ground arith), h)
  | inr more ↦ rw more (digits_of-All fuel (n / 10) _ ((omega arith, omega arith), h))
]

value-digits_of :
    (fuel n : ℕ) (tail : List ℕ) → n < 10 ^ fuel → value 0 (digits_of fuel n tail) ≡ value n tail
unfolding digits_of
value-digits_of zero n tail h = let none_left : n ≡ 0 = omega arith in rw none_left
value-digits_of (suc fuel) n tail h = elim (Bool-cases (ltb n 10)) [
  | inl one ↦
      let digit : 0 * 10 + (b'0' + n - b'0') ≡ n = omega arith in
      rw one (ap (λ q. value q tail) digit)
  | inr more ↦
      let below : n / 10 < 10 ^ fuel = omega (arith, pow-suc 10 fuel) in
      let digit : n / 10 * 10 + (b'0' + n % 10 - b'0') ≡ n = omega arith in
      rw more (value-digits_of fuel (n / 10) _ below ∙ ap (λ q. value q tail) digit)
]

length-digits_of : (fuel n : ℕ) (tail : List ℕ) → length tail ≤ length (digits_of fuel n tail)
unfolding digits_of
length-digits_of zero n tail = omega arith
length-digits_of (suc fuel) n tail = elim (Bool-cases (ltb n 10)) [
  | inl one ↦ rw one (omega arith)
  | inr more ↦ rw more (omega (arith, length-digits_of fuel (n / 10) ((b'0' + n % 10) ∷ tail)))
]

pub to_string-All : (n : ℕ) → All IsDigit (to_string n)
unfolding to_string
to_string-All n = digits_of-All 20 n [] tt

pub value-to_string : (n : ℕ) → n < 10 ^ 20 → value 0 (to_string n) ≡ n
unfolding to_string
value-to_string n h = value-digits_of 20 n [] h

length-digits_of-suc :
    (fuel n : ℕ) (tail : List ℕ) → length tail < length (digits_of (suc fuel) n tail)
unfolding digits_of
length-digits_of-suc fuel n tail = elim (Bool-cases (ltb n 10)) [
  | inl one ↦ rw one (omega arith)
  | inr more ↦ rw more (omega (arith, length-digits_of fuel (n / 10) ((b'0' + n % 10) ∷ tail)))
]

pub length-to_string : (n : ℕ) → 0 < length (to_string n)
unfolding to_string
length-to_string n = length-digits_of-suc 19 n []
