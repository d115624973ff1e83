-- ===== src/Map/Total.antt =====
-- The sum of a weight over the entries of a map, after each operation.
use itch_parser.Map.Find.{IsDistinct, erase_absent}
use itch_parser.Map.{Map, find, assign, erase}
use itch_parser.Prelude.{
  ℕ, ◌+◌, ◌≤◌, ◌≡◌, [], ◌∷◌, none, some, arith, ==_iff, Bool-cases, inl, inr, ◌==◌, length, All,
}

module _ {ℓ} {V : Type ℓ} (weight : V → ℕ) where
  unfoldable pub total : Map V → ℕ
  total [] = 0
  total ((k, v) ∷ m) = weight v + total m

  pub total-assign_new :
      (k : ℕ) (v : V) (m : Map V) → find k m ≡ none → total (assign k v m) ≡ total m + weight v
  unfolding total assign find
  total-assign_new k v [] h = omega arith
  total-assign_new k v ((i, w) ∷ m) h = ground (arith, total-assign_new k v m)

  pub total-assign_old :
      (k : ℕ) (v old : V) (m : Map V)
      → find k m ≡ some old
      → total (assign k v m) + weight old ≡ total m + weight v
  unfolding total assign find
  total-assign_old k v old [] h = cc
  total-assign_old k v old ((i, w) ∷ m) h = ground (arith, total-assign_old k v old m)

  pub total-erase :
      (k : ℕ) (old : V) (m : Map V)
      → IsDistinct m
      → find k m ≡ some old
      → total (erase k m) + weight old ≡ total m
  unfolding total erase find
  total-erase k old [] d h = cc
  total-erase k old ((i, w) ∷ m) d h = ground (arith, total-erase k old m d.1, erase_absent k m)

module _ {ℓ} {V : Type ℓ} where
  pub length-assign_new :
      (k : ℕ) (v : V) (m : Map V) → find k m ≡ none → length (assign k v m) ≡ length m + 1
  unfolding assign find
  length-assign_new k v [] h = omega arith
  length-assign_new k v ((i, w) ∷ m) h = ground (arith, length-assign_new k v m)

  pub length-assign_old :
      (k : ℕ) (v old : V) (m : Map V) → find k m ≡ some old → length (assign k v m) ≡ length m
  unfolding assign find
  length-assign_old k v old [] h = cc
  length-assign_old k v old ((i, w) ∷ m) h = ground (arith, length-assign_old k v old m)

  pub length-erase-le : (k : ℕ) (m : Map V) → length (erase k m) ≤ length m
  unfolding erase
  length-erase-le k [] = omega arith
  length-erase-le k ((i, w) ∷ m) = ground (arith, length-erase-le k m)

  pub length-erase :
      (k : ℕ) (old : V) (m : Map V)
      → IsDistinct m
      → find k m ≡ some old
      → length (erase k m) + 1 ≡ length m
  unfolding erase find
  length-erase k old [] d h = cc
  length-erase k old ((i, w) ∷ m) d h = ground (arith, length-erase k old m d.1, erase_absent k m)

  pub All-assign {κ} :
      (P : ℕ × V → Type κ) (k : ℕ) (v : V) (m : Map V) → P (k, v) → All P m → All P (assign k v m)
  unfolding assign
  All-assign P k v [] h a = (h, tt)
  All-assign P k v ((i, w) ∷ m) h a = ground (arith, All-assign P k v m h a.1)

  pub All-erase {κ} : (P : ℕ × V → Type κ) (k : ℕ) (m : Map V) → All P m → All P (erase k m)
  unfolding erase
  All-erase P k [] a = tt
  All-erase P k ((i, w) ∷ m) a = ground (arith, All-erase P k m a.1)

  pub All-find {κ} :
      (P : ℕ × V → Type κ) (k : ℕ) (v : V) (m : Map V) → find k m ≡ some v → All P m → P (k, v)
  unfolding find
  All-find P k v [] h a = cc
  All-find P k v ((i, w) ∷ m) h a = elim (Bool-cases (i == k)) [
    | inl same ↦
        let here : some w ≡ some v = rw same at h in
        let value : w ≡ v = cc here in
        let at_k : P (k, w) = rw ((==_iff i k).0 same) at a.0 in rw value at at_k
    | inr other ↦ All-find P k v m (rw other at h) a.1
  ]
