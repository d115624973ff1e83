-- ===== src/Bench/Snapshots/Symbols.antt =====
-- The symbols of bench/bench_snapshot.cpp: the letters are the digits of the locate to the base 26.
use itch_parser.Bench.Snapshots.{symbol_loop, symbol_for}
use itch_parser.Ladder.{set_at}
use itch_parser.Prelude.{
  ℕ, zero, suc, ◌+◌, ◌-◌, ◌*◌, ◌/◌, ◌%◌, ◌^◌, ◌≤◌, ◌<◌, ◌≡◌, refl, ap, ◌∙◌, List, [], ◌∷◌,
  replicate, arith, ◌==◌, if◌then◌else◌, inl, inr, Bool-cases, length, length-append,
  length-replicate, ◌++◌, ◌⊎◌, All,
}
use native.Mathlib.Nat.{pow-suc}

-- The number that a symbol stands for: spaces are no digits.
abbrev pub digit : ℕ → ℕ
digit c = if c == b' ' then 0 else c - b'A'

abbrev pub locate_of : ℕ → List ℕ → ℕ
locate_of n [] = n
locate_of n (c ∷ s) = locate_of (n * 26 + digit c) s

locate_of-spaces :
    (i : ℕ) (tail : List ℕ) → locate_of 0 (replicate i b' ' ++ tail) ≡ locate_of 0 tail
locate_of-spaces zero tail = refl
locate_of-spaces (suc i) tail = locate_of-spaces i tail

set_at-spaces :
    (i c : ℕ) (tail : List ℕ)
    → set_at i c (replicate (suc i) b' ' ++ tail) ≡ replicate i b' ' ++ c ∷ tail
set_at-spaces zero c tail = refl
set_at-spaces (suc i) c tail = ap (◌∷◌ b' ') (set_at-spaces i c tail)

-- A space or an upper-case letter.
abbrev pub IsSymbolChar : ℕ → Type 0
IsSymbolChar c = (c ≡ b' ') ⊎ ((b'A' ≤ c) × (c ≤ b'Z'))

All-spaces :
    (i : ℕ) (tail : List ℕ) → All IsSymbolChar tail → All IsSymbolChar (replicate i b' ' ++ tail)
All-spaces zero tail h = h
All-spaces (suc i) tail h = (inl refl, All-spaces i tail h)

module _ (i v : ℕ) (tail : List ℕ) where
  digit_lem : locate_of (v / 26) ((b'A' + v % 26) ∷ tail) ≡ locate_of v tail
  digit_lem =
      let same : v / 26 * 26 + digit (b'A' + v % 26) ≡ v = ground arith in
      ap (λ n. locate_of n tail) same

symbol_loop_lem :
    (i v : ℕ) (tail : List ℕ)
    → v < 26 ^ i
    → All IsSymbolChar tail
    → let s = symbol_loop i v (replicate i b' ' ++ tail) in
      (locate_of 0 s ≡ locate_of v tail) × (length s ≡ i + length tail) × All IsSymbolChar s
unfolding symbol_loop
symbol_loop_lem zero v tail h all =
    let none_left : 0 ≡ v = omega arith in (ap (λ n. locate_of n tail) none_left, omega arith, all)
symbol_loop_lem (suc i) v tail h all = elim (Bool-cases (v == 0)) [
  | inl done ↦
      let none_left : 0 ≡ v = ground (arith, done) in
      rw (symbol_loop, done)
        (
          locate_of-spaces (suc i) tail ∙ ap (λ n. locate_of n tail) none_left,
          length-append (replicate (suc i) b' ') tail
              ∙ omega (arith, length-replicate {A = ℕ} (suc i) b' '),
          All-spaces (suc i) tail all,
        )
  | inr more ↦
      let c = b'A' + v % 26 in
      let below : v / 26 < 26 ^ i = omega (arith, pow-suc 26 i) in
      let (value, size, letters) =
        symbol_loop_lem i (v / 26) (c ∷ tail) below (inr (omega arith, omega arith), all) in
      rw (symbol_loop, more, set_at-spaces i c tail)
        (value ∙ digit_lem i v tail, size ∙ omega arith, letters)
]

-- The symbol of a locate has eight characters, spaces and upper-case letters, and read as a number
-- to the base 26, where A is 0, it gives the locate back: so the instruments of the benchmark have
-- different symbols.
pub locate_of-symbol_for :
    (locate : ℕ)
    → locate < 2 ^ 16
    → (locate_of 0 (symbol_for locate) ≡ locate)
      × (length (symbol_for locate) ≡ 8)
      × All IsSymbolChar (symbol_for locate)
unfolding symbol_for
locate_of-symbol_for locate h = symbol_loop_lem 8 locate [] (omega arith) tt
