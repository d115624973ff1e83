-- ===== src/Wire/Alpha.antt =====
-- `read_alpha` of src/parser.cpp against the padding of the wire format.
use itch_parser.Prelude.{
  ℕ, zero, suc, ◌≤◌, ◌≡◌, refl, ap, ◌∙◌, ◌≢◌, ◌⊎◌, inl, inr, List, [], ◌∷◌, none, some, arith,
  length, take, drop,
}
use itch_parser.Prelude.Result.{ok}
use itch_parser.Wire.{find_last_not_space, read_alpha}

-- A field of n bytes, left justified and padded with spaces; a longer text is cut off. The bytes
-- are written out one by one, so that a read at a fixed offset behind the field computes.
abbrev first_or_space : List ℕ → ℕ
first_or_space [] = b' '
first_or_space (c ∷ s) = c

abbrev rest_of : List ℕ → List ℕ
rest_of [] = []
rest_of (c ∷ s) = s

abbrev pub write_alpha : ℕ → List ℕ → List ℕ → List ℕ
write_alpha zero s rest = rest
write_alpha (suc n) s rest = first_or_space s ∷ write_alpha n (rest_of s) rest

-- A text that a field of n bytes can carry: it fits, and does not end in a space.
abbrev pub EndsPlain : List ℕ → Type 0
EndsPlain [] = Unit {0}
EndsPlain (c ∷ []) = c ≢ b' '
EndsPlain (c ∷ d ∷ s) = EndsPlain (d ∷ s)

pub record FitsAlpha (n : ℕ) (s : List ℕ) : Type 0 where
  pub short : length s ≤ n
  pub plain : EndsPlain s

-- `find_last_not_of` and `resize` in one: the text up to its last byte that is no space.
pub strip : List ℕ → List ℕ
strip s = elim (find_last_not_space s) [ none ↦ [] | some last ↦ take (suc last) s ]

pub strip-cons_plain :
    (c : ℕ) (s : List ℕ) → (c ≢ b' ') ⊎ (strip s ≢ []) → strip (c ∷ s) ≡ c ∷ strip s
unfolding strip find_last_not_space
strip-cons_plain c s h = ground arith

pub strip-cons_space : (s : List ℕ) → strip s ≡ [] → strip (b' ' ∷ s) ≡ []
unfolding strip find_last_not_space
strip-cons_space [] h = refl
strip-cons_space (c ∷ s) h = ground arith

pub strip_nil : strip [] ≡ []
unfolding strip find_last_not_space
strip_nil = refl

strip-write_nil : (n : ℕ) → strip (write_alpha n [] []) ≡ []
strip-write_nil zero = strip_nil
strip-write_nil (suc n) = strip-cons_space (write_alpha n [] []) (strip-write_nil n)

strip-write_alpha :
    (n : ℕ) (s : List ℕ) → length s ≤ n → EndsPlain s → strip (write_alpha n s []) ≡ s
strip-write_alpha zero [] h e = strip_nil
strip-write_alpha zero (c ∷ s) h e = absurd (omega arith)
strip-write_alpha (suc n) [] h e = strip-write_nil (suc n)
strip-write_alpha (suc n) (c ∷ []) h e =
    strip-cons_plain c (write_alpha n [] []) (inl e) ∙ ap (◌∷◌ c) (strip-write_nil n)
strip-write_alpha (suc n) (c ∷ d ∷ s) h e =
    let rest : strip (write_alpha n (d ∷ s) []) ≡ d ∷ s =
      strip-write_alpha n (d ∷ s) (omega arith) e in
    strip-cons_plain c (write_alpha n (d ∷ s) []) (inr (λ q. cc rest)) ∙ ap (◌∷◌ c) rest

take-write_alpha : (n : ℕ) (s rest : List ℕ) → take n (write_alpha n s rest) ≡ write_alpha n s []
take-write_alpha zero s rest = refl
take-write_alpha (suc n) s rest = ap (◌∷◌ (first_or_space s)) (take-write_alpha n (rest_of s) rest)

length-write_alpha : (n : ℕ) (s rest : List ℕ) → n ≤ length (write_alpha n s rest)
length-write_alpha zero s rest = omega arith
length-write_alpha (suc n) s rest = omega (arith, length-write_alpha n (rest_of s) rest)

-- A read within the buffer succeeds, with the stripped text.
pub read_alpha-strip : (p : List ℕ) (n : ℕ) → n ≤ length p → read_alpha p n ≡ ok (strip (take n p))
unfolding read_alpha strip
read_alpha-strip p n h = ground arith

-- The reader strips exactly the padding, whatever follows the field.
pub read_alpha-write_alpha :
    (n : ℕ) (s rest : List ℕ) → FitsAlpha n s → read_alpha (write_alpha n s rest) n ≡ ok s
read_alpha-write_alpha n s rest f =
    read_alpha-strip (write_alpha n s rest) n (length-write_alpha n s rest)
    ∙ ap ok (ap strip (take-write_alpha n s rest) ∙ strip-write_alpha n s f.short f.plain)

strip-cons_cases :
    (c : ℕ) (s : List ℕ)
    → (strip (c ∷ s) ≡ c ∷ strip s) ⊎ ((c ≡ b' ') × (strip s ≡ []) × (strip (c ∷ s) ≡ []))
unfolding strip find_last_not_space
strip-cons_cases c s = ground arith

-- Padding a stripped field again gives the field.
pub write_alpha-strip :
    (n : ℕ) (q : List ℕ) → n ≤ length q → write_alpha n (strip (take n q)) (drop n q) ≡ q
write_alpha-strip zero q h = refl
write_alpha-strip (suc n) [] h = absurd (omega arith)
write_alpha-strip (suc n) (c ∷ q) h =
    let rest = write_alpha-strip n q (omega arith) in
    elim (strip-cons_cases c (take n q)) [
      | inl kept ↦ rw kept (ap (◌∷◌ c) rest)
      | inr (space, nothing, gone) ↦ rw (gone, space) (ap (◌∷◌ b' ') (rw nothing at rest))
    ]
