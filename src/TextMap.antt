-- ===== src/TextMap.antt =====
-- `std::unordered_map` with texts for keys, as an association list in the order of iteration.
use itch_parser.Prelude.{
  ℕ, ◌≡◌, refl, Bool, true, false, ◌&&◌, List, [], ◌∷◌, ◌++◌, Bool-cases, inl, inr, Option, none,
  some, ◌==◌, arith, if◌then◌else◌,
}

unfoldable pub text_eq : List ℕ → List ℕ → Bool
text_eq [] [] = true
text_eq [] (d ∷ t) = false
text_eq (c ∷ s) [] = false
text_eq (c ∷ s) (d ∷ t) = (c == d) && text_eq s t

pub eq_of_text_eq : (s t : List ℕ) → text_eq s t ≡ true → s ≡ t
unfolding text_eq
eq_of_text_eq [] [] h = refl
eq_of_text_eq [] (d ∷ t) h = cc
eq_of_text_eq (c ∷ s) [] h = cc
eq_of_text_eq (c ∷ s) (d ∷ t) h = ground (arith, eq_of_text_eq s t)

pub text_eq_refl : (s : List ℕ) → text_eq s s ≡ true
unfolding text_eq
text_eq_refl [] = refl
text_eq_refl (c ∷ s) = ground (arith, text_eq_refl s)

abbrev pub TextMap {ℓ} : Type ℓ → Type ℓ
TextMap V = List (List ℕ × V)

module _ {ℓ} {V : Type ℓ} where
  unfoldable pub find_text : List ℕ → TextMap V → Option V
  find_text k [] = none
  find_text k ((j, v) ∷ m) = if text_eq j k then some v else find_text k m

  -- `m[k] = v`
  unfoldable pub assign_text : List ℕ → V → TextMap V → TextMap V
  assign_text k v [] = (k, v) ∷ []
  assign_text k v ((j, w) ∷ m) = if text_eq j k then (k, v) ∷ m else (j, w) ∷ assign_text k v m

  pub find_text-assign_text_self :
      (k : List ℕ) (v : V) (m : TextMap V) → find_text k (assign_text k v m) ≡ some v
  unfolding find_text assign_text
  find_text-assign_text_self k v [] = rw (text_eq_refl k)
  find_text-assign_text_self k v ((i, w) ∷ m) =
      ground (arith, find_text-assign_text_self k v m, text_eq_refl k)

  pub find_text-assign_text :
      (j k : List ℕ) (v : V) (m : TextMap V)
      → find_text j (assign_text k v m) ≡ (if text_eq k j then some v else find_text j m)
  unfolding find_text assign_text
  find_text-assign_text j k v [] = refl
  find_text-assign_text j k v ((i, w) ∷ m) = ground (
    arith,
    find_text-assign_text j k v m,
    eq_of_text_eq i k,
    eq_of_text_eq i j,
    eq_of_text_eq k j,
    text_eq_refl j,
  )

  -- The entry that a lookup finds, between those before it and those after it.
  pub find_text_split :
      (k : List ℕ) (v : V) (m : TextMap V)
      → find_text k m ≡ some v
      → (before after : TextMap V) × (j : List ℕ) × (m ≡ before ++ (j, v) ∷ after)
  unfolding find_text
  find_text_split k v [] h = absurd (cc h)
  find_text_split k v ((j, w) ∷ m) h = elim (Bool-cases (text_eq j k)) [
    | inl here ↦
        let found : some w ≡ some v = ground (arith, h, here) in
        let same : w ≡ v = cc found in ([], m, j, rw same refl)
    | inr other ↦
        let (before, after, i, split) = find_text_split k v m (ground (arith, h, other)) in
        ((j, w) ∷ before, after, i, rw split refl)
  ]
