-- ===== src/Rest/Numbers.antt =====
-- The check of `depth`.
use itch_parser.Engine.Digits.{IsDigit, value, to_string-All, value-to_string, length-to_string}
use itch_parser.Engine.{to_string}
use itch_parser.Prelude.Int.{pos}
use itch_parser.Prelude.{
  ℕ, ◌+◌, ◌-◌, ◌*◌, ◌^◌, ◌≤◌, ◌<◌, ◌≡◌, refl, ap, ◌∙◌, true, false, List, [], ◌∷◌, Option, none,
  some, ◌==◌, ltb, if◌then◌else◌, arith, length, All,
}
use itch_parser.Rest.{count_spaces, read_digits, stoi, sign_of, accepted, refused, parse_depth}

read_digits-All :
    (acc : ℕ) (s : List ℕ) → All IsDigit s → read_digits acc s ≡ (value acc s, length s)
unfolding read_digits
read_digits-All acc [] h = refl
read_digits-All acc (c ∷ s) h = ground (arith, read_digits-All (acc * 10 + (c - b'0')) s h.1)

-- Digits have no space and no sign in front.
count_spaces-All : (s : List ℕ) → All IsDigit s → count_spaces s ≡ 0
unfolding count_spaces
count_spaces-All [] h = refl
count_spaces-All (c ∷ s) h = ground arith

sign_of-All : (s : List ℕ) → All IsDigit s → sign_of s ≡ (false, 0)
sign_of-All [] h = refl
sign_of-All (c ∷ s) h = ground arith

stoi-All :
    (s : List ℕ)
    → All IsDigit s
    → 0 < length s
    → value 0 s < 2 ^ 31
    → stoi s ≡ some (pos (value 0 s), length s)
unfolding stoi
stoi-All s h filled fits =
    let digits = read_digits-All 0 s h in
    let some_digit : (length s == 0) ≡ false = ground arith in
    let small : ltb (value 0 s) (2 ^ 31) ≡ true = ground arith in
    rw (count_spaces-All s h, sign_of-All s h, digits, some_digit, small)
      (ap (λ n. some (pos (value 0 s), n)) (omega arith))

-- A depth that the check lets through is one from 1 to 50.
pub parse_depth_bounds :
    (d : Option (List ℕ)) (n : ℕ) → parse_depth d ≡ accepted n → (1 ≤ n) × (n ≤ 50)
unfolding parse_depth
parse_depth_bounds none n e = ground arith
parse_depth_bounds (some d) n e = ground arith

-- The decimal spelling of a number below 2 ^ 31 is let through exactly when the number lies between
-- 1 and 50, and then the depth is this number; otherwise the error says which bound it breaks.
pub parse_depth-to_string :
    (n : ℕ)
    → n < 2 ^ 31
    → parse_depth (some (to_string n)) ≡ (
        if n == 0
        then refused "depth must be at least 1"
        else if ltb 50 n
        then refused "depth must not exceed 50"
        else accepted n)
unfolding parse_depth
parse_depth-to_string n h =
    let whole = value-to_string n (omega arith) in
    let read : stoi (to_string n) ≡ some (pos n, length (to_string n)) =
      stoi-All (to_string n) (to_string-All n) (length-to_string n) (omega (arith, whole))
      ∙ ap (λ q. some (pos q, length (to_string n))) whole in
    let all_read : (length (to_string n) == length (to_string n)) ≡ true = ground arith in
    ground (arith, read, all_read)
