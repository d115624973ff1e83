-- ===== src/Prelude/Bits.antt =====
-- `|` of disjoint fields as a sum, from the digit recursion that the native operation stands for.
use Prim.Native.Nat.{
  ℕ, zero, suc, ◌+◌, ◌*◌, ◌/◌, ◌%◌, ◌^◌, ◌≤◌, ◌<◌, max, bit_or, digits, bit_or-bitwise,
}
use mathlib.Core.Path.{◌≡◌, refl, ◌∙◌}
use native.Mathlib.Nat.{pow-suc}
use native.Mathlib.Omega.{arith}

abbrev or_digits : ℕ → ℕ → ℕ → ℕ
or_digits n a b = digits (λ b. b) max n a b

-- More fuel than the left number changes nothing.
or_digits_fuel : (x y i j : ℕ) → x ≤ j → x ≤ i → or_digits i x y ≡ or_digits j x y
or_digits_fuel zero y (suc i) (suc j) low high = refl
or_digits_fuel zero y (suc i) zero low high = refl
or_digits_fuel zero y zero (suc j) low high = refl
or_digits_fuel zero y zero zero low high = refl
or_digits_fuel (suc x) y (suc i) zero low high = absurd (omega arith)
or_digits_fuel (suc x) y zero j low high = absurd (omega arith)
or_digits_fuel (suc x) y (suc i) (suc j) low high =
    omega (arith, or_digits_fuel (suc x / 2) (y / 2) i j (omega arith) (omega arith))

zero-bit_or : (b : ℕ) → bit_or 0 b ≡ b
zero-bit_or b = bit_or-bitwise 0 b

bit_or_step : (a b : ℕ) → bit_or a b ≡ bit_or (a / 2) (b / 2) * 2 + max (a % 2) (b % 2)
bit_or_step zero b = omega (arith, zero-bit_or b, zero-bit_or (b / 2))
bit_or_step (suc a) b = omega (
  arith,
  bit_or-bitwise (suc a) b,
  bit_or-bitwise (suc a / 2) (b / 2),
  or_digits_fuel (suc a / 2) (b / 2) a (suc a / 2) (omega arith) (omega arith),
)

bit_or-zero_fuel : (n a : ℕ) → a ≤ n → bit_or a 0 ≡ a
bit_or-zero_fuel n zero h = refl
bit_or-zero_fuel zero (suc a) h = absurd (omega arith)
bit_or-zero_fuel (suc n) (suc a) h =
    omega (arith, bit_or_step (suc a) 0, bit_or-zero_fuel n (suc a / 2) (omega arith))

-- A field above bit k and one below it.
pub bit_or_disjoint : (k hi lo : ℕ) → lo < 2 ^ k → bit_or (hi * 2 ^ k) lo ≡ hi * 2 ^ k + lo
bit_or_disjoint zero hi lo h =
    let empty : lo ≡ 0 = omega arith in
    rw empty (bit_or-zero_fuel (hi * 1) (hi * 1) (omega arith) ∙ omega arith)
bit_or_disjoint (suc k) hi lo h =
    let double : 2 ^ suc k ≡ 2 ^ k * 2 = pow-suc 2 k in
    let doubled : hi * 2 ^ suc k ≡ hi * 2 ^ k * 2 = rw double (omega arith) in
    let half : hi * 2 ^ suc k / 2 ≡ hi * 2 ^ k = omega arith in
    bit_or_step (hi * 2 ^ suc k) lo
    ∙ rw (half, bit_or_disjoint k hi (lo / 2) (omega arith)) (omega arith)
