-- ===== src/Map.antt =====
-- The standard library's maps, as the engine and the snapshots use them: `std::unordered_map` (or
-- `ankerl::unordered_dense::map`) and `std::map`, with numbers for keys. Both are lists of entries
-- in the order of iteration and share `find` and `erase`; they differ in where a new key goes.
-- The iteration order of an unordered map is not specified: here a new key comes last.
pub mod Find
pub mod Ordered
pub mod Total
use itch_parser.Prelude.{ℕ, Bool, List, [], ◌∷◌, Option, none, some, ◌==◌, if◌then◌else◌}

abbrev pub Map {ℓ} : Type ℓ → Type ℓ
Map V = List (ℕ × V)

module _ {ℓ} {V : Type ℓ} where
  unfoldable pub find : ℕ → Map V → Option V
  find k [] = none
  find k ((j, v) ∷ m) = if j == k then some v else find k m

  -- `m[k] = v` on an unordered map.
  unfoldable pub assign : ℕ → V → Map V → Map V
  assign k v [] = (k, v) ∷ []
  assign k v ((j, w) ∷ m) = if j == k then (k, v) ∷ m else (j, w) ∷ assign k v m

  unfoldable pub erase : ℕ → Map V → Map V
  erase k [] = []
  erase k ((j, w) ∷ m) = if j == k then erase k m else (j, w) ∷ erase k m

  -- `m[k] = v` on a `std::map` whose comparator is `before`.
  unfoldable pub place : (ℕ → ℕ → Bool) → ℕ → V → Map V → Map V
  place before k v [] = (k, v) ∷ []
  place before k v ((j, w) ∷ m) =
      if j == k
      then (k, v) ∷ m
      else if before k j
      then (k, v) ∷ (j, w) ∷ m
      else (j, w) ∷ place before k v m

  -- The key of `*m.begin()`.
  abbrev pub first_key : Map V → Option ℕ
  first_key [] = none
  first_key ((j, w) ∷ m) = some j
