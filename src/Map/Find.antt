-- ===== src/Map/Find.antt =====
-- What `find` sees after each operation, and maps whose keys are distinct.
use itch_parser.Prelude.{ℕ, ◌≡◌, refl, Bool, [], ◌∷◌, none, some, ◌==◌, arith, if◌then◌else◌}
use itch_parser.Map.{Map, find, assign, erase, place}

module _ {ℓ} {V : Type ℓ} where
  pub find-assign :
      (j k : ℕ) (v : V) (m : Map V) → find j (assign k v m) ≡ (if k == j then some v else find j m)
  unfolding find assign
  find-assign j k v [] = refl
  find-assign j k v ((i, w) ∷ m) = ground (arith, find-assign j k v m)

  pub find-erase : (j k : ℕ) (m : Map V) → find j (erase k m) ≡ (if k == j then none else find j m)
  unfolding find erase
  find-erase j k [] = ground arith
  find-erase j k ((i, w) ∷ m) = ground (arith, find-erase j k m)

  pub find-place :
      (before : ℕ → ℕ → Bool) (j k : ℕ) (v : V) (m : Map V)
      → find j (place before k v m) ≡ (if k == j then some v else find j m)
  unfolding find place
  find-place before j k v [] = refl
  find-place before j k v ((i, w) ∷ m) = ground (arith, find-place before j k v m)

  pub erase_absent : (k : ℕ) (m : Map V) → find k m ≡ none → erase k m ≡ m
  unfolding find erase
  erase_absent k [] h = refl
  erase_absent k ((i, w) ∷ m) h = ground (arith, erase_absent k m)

  -- Every key occurs once.
  abbrev pub IsDistinct : Map V → Type ℓ
  IsDistinct [] = Unit
  IsDistinct ((k, v) ∷ m) = (find k m ≡ none) × IsDistinct m

  pub assign-IsDistinct : (k : ℕ) (v : V) (m : Map V) → IsDistinct m → IsDistinct (assign k v m)
  unfolding assign find
  assign-IsDistinct k v [] d = (refl, tt)
  assign-IsDistinct k v ((i, w) ∷ m) d =
      ground (arith, assign-IsDistinct k v m d.1, find-assign i k v m)

  pub erase-IsDistinct : (k : ℕ) (m : Map V) → IsDistinct m → IsDistinct (erase k m)
  unfolding erase
  erase-IsDistinct k [] d = tt
  erase-IsDistinct k ((i, w) ∷ m) d = ground (arith, erase-IsDistinct k m d.1, find-erase i k m)

  -- A second write of one key, and a write before an erasure, leave no trace.
  pub assign-assign : (k : ℕ) (v w : V) (m : Map V) → assign k v (assign k w m) ≡ assign k v m
  unfolding assign
  assign-assign k v w [] = ground arith
  assign-assign k v w ((i, u) ∷ m) = ground (arith, assign-assign k v w m)

  pub erase-assign : (k : ℕ) (v : V) (m : Map V) → erase k (assign k v m) ≡ erase k m
  unfolding assign erase
  erase-assign k v [] = ground arith
  erase-assign k v ((i, u) ∷ m) = ground (arith, erase-assign k v m)
