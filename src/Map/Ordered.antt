-- ===== src/Map/Ordered.antt =====
-- Maps that are sorted by a comparator, as `std::map` keeps them.
use itch_parser.Prelude.{
  ℕ, ◌≡◌, ◌≢◌, refl, sym, Bool, true, false, [], ◌∷◌, some, ◌==◌, arith, ltb, ◌⊎◌, inl, inr,
  Bool-cases, ==_iff,
}
use itch_parser.Map.{Map, find, assign, erase, place, first_key}

-- `std::less` and `std::greater`: what `std::map` asks of its comparator.
pub record Compare : Type 0 where
  pub before : ℕ → ℕ → Bool
  pub before_trans : (a b c : ℕ) → before a b ≡ true → before b c ≡ true → before a c ≡ true
  pub before_irrefl : (a : ℕ) → before a a ≡ false
  pub before_total : (a b : ℕ) → a ≢ b → before a b ≡ false → before b a ≡ true

pub ltb_trans : (a b c : ℕ) → ltb a b ≡ true → ltb b c ≡ true → ltb a c ≡ true
ltb_trans a b c p q = ground arith

pub ltb_irrefl : (a : ℕ) → ltb a a ≡ false
ltb_irrefl a = ground arith

pub ltb_total : (a b : ℕ) → a ≢ b → ltb a b ≡ false → ltb b a ≡ true
ltb_total a b n p = ground arith

abbrev pub less : Compare
less = record {
  before = ltb;
  before_trans = ltb_trans;
  before_irrefl = ltb_irrefl;
  before_total = ltb_total;
}

abbrev pub greater : Compare
greater = record {
  before = λ a b. ltb b a;
  before_trans = λ a b c p q. ltb_trans c b a q p;
  before_irrefl = ltb_irrefl;
  before_total = λ a b n p. ltb_total b a (λ e. n (sym e)) p;
}

module _ {ℓ} {V : Type ℓ} (c : Compare) where
  -- `k` comes before every key of the map.
  abbrev pub IsFirst : ℕ → Map V → Type 0
  IsFirst k [] = Unit
  IsFirst k ((j, w) ∷ m) = (c.before k j ≡ true) × IsFirst k m

  abbrev pub IsSorted : Map V → Type 0
  IsSorted [] = Unit
  IsSorted ((j, w) ∷ m) = IsFirst j m × IsSorted m

module _ {ℓ} {V : Type ℓ} (c : Compare) where
  pub IsFirst-trans : (a b : ℕ) (m : Map V) → c.before a b ≡ true → IsFirst c b m → IsFirst c a m
  IsFirst-trans a b [] h f = tt
  IsFirst-trans a b ((j, w) ∷ m) h f = (c.before_trans a b j h f.0, IsFirst-trans a b m h f.1)

  place-IsFirst :
      (a k : ℕ) (v : V) (m : Map V)
      → c.before a k ≡ true
      → IsFirst c a m
      → IsFirst c a (place c.before k v m)
  unfolding place
  place-IsFirst a k v [] h f = (h, tt)
  place-IsFirst a k v ((j, w) ∷ m) h f = ground (arith, place-IsFirst a k v m h f.1)

  pub place-IsSorted :
      (k : ℕ) (v : V) (m : Map V) → IsSorted c m → IsSorted c (place c.before k v m)
  unfolding place
  place-IsSorted k v [] s = (tt, tt)
  place-IsSorted k v ((j, w) ∷ m) s = elim (Bool-cases (j == k)) [
    | inl same ↦ let e : j ≡ k = (==_iff j k).0 same in rw (place, same, ← e) s
    | inr other ↦ elim (Bool-cases (c.before k j)) [
      | inl first ↦ rw (place, other, first) ((first, IsFirst-trans k j m first s.0), s)
      | inr later ↦
          let after : c.before j k ≡ true = c.before_total k j (ground arith) later in
          rw (place, other, later) (place-IsFirst j k v m after s.0, place-IsSorted k v m s.1)
    ]
  ]

  erase-IsFirst : (a k : ℕ) (m : Map V) → IsFirst c a m → IsFirst c a (erase k m)
  unfolding erase
  erase-IsFirst a k [] f = tt
  erase-IsFirst a k ((j, w) ∷ m) f = ground (arith, erase-IsFirst a k m f.1)

  pub erase-IsSorted : (k : ℕ) (m : Map V) → IsSorted c m → IsSorted c (erase k m)
  unfolding erase
  erase-IsSorted k [] s = tt
  erase-IsSorted k ((j, w) ∷ m) s = ground (arith, erase-IsSorted k m s.1, erase-IsFirst j k m s.0)

  assign-IsFirst :
      (a k : ℕ) (v w : V) (m : Map V)
      → find k m ≡ some w
      → IsFirst c a m
      → IsFirst c a (assign k v m)
  unfolding assign find
  assign-IsFirst a k v w [] h f = cc
  assign-IsFirst a k v w ((j, u) ∷ m) h f = ground (arith, assign-IsFirst a k v w m)

  -- A write through an iterator.
  pub assign-IsSorted :
      (k : ℕ) (v w : V) (m : Map V) → find k m ≡ some w → IsSorted c m → IsSorted c (assign k v m)
  unfolding assign find
  assign-IsSorted k v w [] h s = cc
  assign-IsSorted k v w ((j, u) ∷ m) h s =
      ground (arith, assign-IsSorted k v w m, assign-IsFirst j k v w m)

  -- The first key is a key of the map, and comes before all the others.
  pub first_key-find :
      (m : Map V) (k : ℕ) (v : V)
      → IsSorted c m
      → find k m ≡ some v
      → (b : ℕ) × (w : V) × (first_key m ≡ some b)
        × (find b m ≡ some w)
        × ((b ≡ k) ⊎ (c.before b k ≡ true))
  unfolding find
  first_key-find [] k v s h = cc
  first_key-find ((j, u) ∷ m) k v s h = (
    j,
    u,
    refl,
    ground arith,
    elim (Bool-cases (j == k)) [
      | inl same ↦ inl ((==_iff j k).0 same)
      | inr other ↦ inr (later m s.0 (ground arith))
    ],
  )
    where
      later : (m : Map V) → IsFirst c j m → find k m ≡ some v → c.before j k ≡ true
      later [] f e = cc
      later ((i, x) ∷ n) f e = ground (arith, later n f.1)
