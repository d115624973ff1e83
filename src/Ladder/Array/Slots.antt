-- ===== src/Ladder/Array/Slots.antt =====
-- The slots of an array: which are occupied after a write, how many, and what the scans find.
use itch_parser.Book.{PriceLevel, empty_level}
use itch_parser.Ladder.Array.{level_of, occupied, scan_down, scan_up}
use itch_parser.Ladder.{set_at}
use itch_parser.Prelude.{
  ℕ, zero, suc, ◌+◌, ◌≤◌, ◌<◌, ◌≡◌, ◌≢◌, refl, ap, Bool, true, false, List, [], ◌∷◌, arith, length,
  get_elem?, some, replicate, ◌==◌, if◌then◌else◌, inl, inr, Bool-cases, ==_iff,
}

pub level_of-set_at :
    (levels : List PriceLevel) (i j : ℕ) (v : PriceLevel)
    → i < length levels
    → level_of (set_at i v levels) j ≡ (if i == j then v else level_of levels j)
level_of-set_at [] i j v h = absurd (omega arith)
level_of-set_at (x ∷ xs) zero zero v h = refl
level_of-set_at (x ∷ xs) zero (suc j) v h = ground arith
level_of-set_at (x ∷ xs) (suc i) zero v h = ground arith
level_of-set_at (x ∷ xs) (suc i) (suc j) v h = ground (arith, level_of-set_at xs i j v)

pub length-set_at :
    (levels : List PriceLevel) (i : ℕ) (v : PriceLevel) → length (set_at i v levels) ≡ length levels
length-set_at [] i v = refl
length-set_at (x ∷ xs) zero v = refl
length-set_at (x ∷ xs) (suc i) v = ap suc (length-set_at xs i v)

pub occupied_lt : (levels : List PriceLevel) (i : ℕ) → occupied levels i ≡ true → i < length levels
occupied_lt [] i h = ground arith
occupied_lt (x ∷ xs) zero h = omega arith
occupied_lt (x ∷ xs) (suc i) h = omega (arith, occupied_lt xs i h)

pub get_elem-level_of :
    (levels : List PriceLevel) (i : ℕ)
    → i < length levels
    → get_elem? levels i ≡ some (level_of levels i)
get_elem-level_of [] i h = absurd (omega arith)
get_elem-level_of (x ∷ xs) zero h = refl
get_elem-level_of (x ∷ xs) (suc i) h = get_elem-level_of xs i (omega arith)

pub occupied-replicate : (n i : ℕ) → occupied (replicate n empty_level) i ≡ false
occupied-replicate zero i = refl
occupied-replicate (suc n) zero = refl
occupied-replicate (suc n) (suc i) = occupied-replicate n i

abbrev pub weight : PriceLevel → ℕ
weight lvl = if lvl.order_count == 0 then 0 else 1

-- How many slots are occupied.
unfoldable pub count_occupied : List PriceLevel → ℕ
count_occupied [] = 0
count_occupied (lvl ∷ levels) = weight lvl + count_occupied levels

pub count_occupied-set_at :
    (levels : List PriceLevel) (i : ℕ) (v : PriceLevel)
    → i < length levels
    → count_occupied (set_at i v levels) + weight (level_of levels i)
      ≡ count_occupied levels + weight v
unfolding count_occupied
count_occupied-set_at [] i v h = absurd (omega arith)
count_occupied-set_at (x ∷ xs) zero v h = omega arith
count_occupied-set_at (x ∷ xs) (suc i) v h = omega (arith, count_occupied-set_at xs i v)

pub count_occupied-le : (levels : List PriceLevel) → count_occupied levels ≤ length levels
unfolding count_occupied
count_occupied-le [] = omega arith
count_occupied-le (x ∷ xs) = ground (arith, count_occupied-le xs)

pub count_occupied-replicate : (n : ℕ) → count_occupied (replicate n empty_level) ≡ 0
unfolding count_occupied
count_occupied-replicate zero = refl
count_occupied-replicate (suc n) = omega (arith, count_occupied-replicate n)

pub count_occupied_pos :
    (levels : List PriceLevel) (i : ℕ) → occupied levels i ≡ true → 1 ≤ count_occupied levels
unfolding count_occupied
count_occupied_pos [] i h = ground arith
count_occupied_pos (x ∷ xs) zero h = ground arith
count_occupied_pos (x ∷ xs) (suc i) h = ground (arith, count_occupied_pos xs i h)

-- A slot that is occupied, where one is.
pub some_occupied :
    (levels : List PriceLevel) → count_occupied levels ≢ 0 → (i : ℕ) × (occupied levels i ≡ true)
unfolding count_occupied
some_occupied [] h = absurd (h refl)
some_occupied (x ∷ xs) h = elim (Bool-cases (x.order_count == 0)) [
  | inl empty ↦ let (i, there) = some_occupied xs (ground arith) in (suc i, there)
  | inr filled ↦ (0, ground arith)
]

ne_below :
    (levels : List PriceLevel) (i j : ℕ)
    → j < suc i
    → occupied levels j ≡ true
    → occupied levels i ≡ false
    → j < i
ne_below levels i j h o gone = elim (Bool-cases (j == i)) [
  | inl same ↦ let e : j ≡ i = (==_iff j i).0 same in cc (o, ap (occupied levels) e, gone)
  | inr other ↦ ground arith
]

ne_above :
    (levels : List PriceLevel) (i j : ℕ)
    → i < j
    → occupied levels j ≡ true
    → occupied levels (i + 1) ≡ false
    → i + 1 < j
ne_above levels i j h o gone = elim (Bool-cases (j == i + 1)) [
  | inl same ↦ let e : j ≡ i + 1 = (==_iff j (i + 1)).0 same in cc (o, ap (occupied levels) e, gone)
  | inr other ↦ ground arith
]

module _ (is_bid : Bool) (slots tick : ℕ) where
  -- The scan down finds an occupied slot below i and above all others below i, if there is one.
  pub scan_down-le :
      (levels : List PriceLevel) (i j : ℕ)
      → j < i
      → occupied levels j ≡ true
      → let r = scan_down is_bid slots tick levels i in (occupied levels r ≡ true) × (j ≤ r)
  unfolding scan_down
  scan_down-le levels zero j h o = absurd (omega arith)
  scan_down-le levels (suc i) j h o = elim (Bool-cases (occupied levels i)) [
    | inl here ↦ rw here (here, omega arith)
    | inr gone ↦
        let below : j < i = ne_below levels i j h o gone in
        rw gone (scan_down-le levels i j below o)
  ]

  -- The same for the scan up.
  pub scan_up-le :
      (levels : List PriceLevel) (k i j : ℕ)
      → i < j
      → j ≤ i + k
      → occupied levels j ≡ true
      → let r = scan_up is_bid slots tick levels k i in (occupied levels r ≡ true) × (r ≤ j)
  unfolding scan_up
  scan_up-le levels zero i j h l o = absurd (omega arith)
  scan_up-le levels (suc k) i j h l o = elim (Bool-cases (occupied levels (i + 1))) [
    | inl here ↦ rw here (here, omega arith)
    | inr gone ↦
        let above : i + 1 < j = ne_above levels i j h o gone in
        rw gone (scan_up-le levels k (i + 1) j above (omega arith) o)
  ]
