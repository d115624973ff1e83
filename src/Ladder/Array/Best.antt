-- ===== src/Ladder/Array/Best.antt =====
-- The array ladder keeps `best_idx_` at its best occupied slot.
use itch_parser.Book.{PriceLevel}
use itch_parser.Ladder.Array.Slots.{
  level_of-set_at, count_occupied, count_occupied_pos, some_occupied,
}
use itch_parser.Ladder.Array.{occupied, update_best_after_add}
use itch_parser.Ladder.{set_at}
use itch_parser.Prelude.{
  ℕ, ◌+◌, ◌≤◌, ◌<◌, ◌≡◌, ◌≢◌, ap, ◌∙◌, sym, ◌⊎◌, Bool, true, false, not, List, arith, length, ltb,
  ◌==◌, if◌then◌else◌, inl, inr, Bool-cases, ==_iff,
}

-- Slot i is not better than slot `best`: prices grow with the index.
abbrev pub NoBetter : Bool → ℕ → ℕ → Type 0
NoBetter true i best = i ≤ best
NoBetter false i best = best ≤ i

-- `best` is the best occupied slot of some levels, if there is one.
pub record IsBest (is_bid : Bool) (levels : List PriceLevel) (best : ℕ) : Type 0 where
  pub top : count_occupied levels ≢ 0 → occupied levels best ≡ true
  pub first : (i : ℕ) → occupied levels i ≡ true → NoBetter is_bid i best

pub none_occupied :
    (levels : List PriceLevel) (i : ℕ) → count_occupied levels ≡ 0 → occupied levels i ≡ false
none_occupied levels i h = elim (Bool-cases (occupied levels i)) [
  | inl there ↦ absurd (omega (arith, count_occupied_pos levels i there))
  | inr gone ↦ gone
]

pub occupied-set_at :
    (levels : List PriceLevel) (i j : ℕ) (v : PriceLevel)
    → i < length levels
    → occupied (set_at i v levels) j
      ≡ (if i == j then not (v.order_count == 0) else occupied levels j)
occupied-set_at levels i j v h = ground (arith, level_of-set_at levels i j v h)

pub count_pos :
    (levels : List PriceLevel) (i : ℕ) → occupied levels i ≡ true → count_occupied levels ≢ 0
count_pos levels i h = λ e. absurd (omega (arith, count_occupied_pos levels i h))

-- Any slot serves where none is occupied.
pub IsBest-none :
    {levels : List PriceLevel} (is_bid : Bool) (best : ℕ)
    → count_occupied levels ≡ 0
    → IsBest is_bid levels best
IsBest-none {levels} is_bid best e = record {
  top = λ some. absurd (some e);
  first = λ i o. absurd (count_pos levels i o e);
}

NoBetter-refl : (is_bid : Bool) (i : ℕ) → NoBetter is_bid i i
NoBetter-refl true i = omega arith
NoBetter-refl false i = omega arith

module _ (slots tick : ℕ) (levels : List PriceLevel) (i : ℕ) (v : PriceLevel)
    (within : i < length levels) where
  -- A write that leaves the occupied slots as they are.
  occupied_same :
      (j : ℕ)
      → not (v.order_count == 0) ≡ occupied levels i
      → occupied (set_at i v levels) j ≡ occupied levels j
  occupied_same j e = elim (Bool-cases (i == j)) [
    | inl same ↦
        let h : i ≡ j = (==_iff i j).0 same in
        cc (occupied-set_at levels i j v within, same, e, ap (occupied levels) h)
    | inr other ↦ cc (occupied-set_at levels i j v within, other)
  ]

  pub IsBest-same :
      (is_bid : Bool) (best : ℕ)
      → not (v.order_count == 0) ≡ occupied levels i
      → IsBest is_bid levels best
      → IsBest is_bid (set_at i v levels) best
  IsBest-same is_bid best e b = record {
    top = λ filled.
        let (j, o) = some_occupied (set_at i v levels) filled in
        occupied_same best e ∙ b.top (count_pos levels j (sym (occupied_same j e) ∙ o));
    first = λ j o. b.first j (sym (occupied_same j e) ∙ o);
  }

  -- A write that fills a slot.
  filled_here : not (v.order_count == 0) ≡ true → occupied (set_at i v levels) i ≡ true
  filled_here f = ground (arith, occupied-set_at levels i i v within)

  filled_other :
      (j : ℕ)
      → not (v.order_count == 0) ≡ true
      → occupied levels j ≡ true
      → occupied (set_at i v levels) j ≡ true
  filled_other j f o = ground (arith, occupied-set_at levels i j v within)

  filled_cases :
      (j : ℕ) → occupied (set_at i v levels) j ≡ true → (i ≡ j) ⊎ (occupied levels j ≡ true)
  filled_cases j o = elim (Bool-cases (i == j)) [
    | inl same ↦ inl ((==_iff i j).0 same)
    | inr other ↦ inr (cc (occupied-set_at levels i j v within, other, o))
  ]

  -- The slot filled is the best one, if it is no worse than the old best one.
  IsBest-new :
      (is_bid : Bool)
      → not (v.order_count == 0) ≡ true
      → ((j : ℕ) → occupied levels j ≡ true → NoBetter is_bid j i)
      → IsBest is_bid (set_at i v levels) i
  IsBest-new is_bid f worse = record {
    top = λ filled. filled_here f;
    first = λ j o. elim (filled_cases j o) [
      | inl same ↦ rw (sym same) (NoBetter-refl is_bid i)
      | inr old ↦ worse j old
    ];
  }

  -- Else the old best one stays.
  IsBest-old :
      (is_bid : Bool) (best : ℕ)
      → not (v.order_count == 0) ≡ true
      → count_occupied levels ≢ 0
      → NoBetter is_bid i best
      → IsBest is_bid levels best
      → IsBest is_bid (set_at i v levels) best
  IsBest-old is_bid best f some worse b = record {
    top = λ filled. filled_other best f (b.top some);
    first =
        λ j o. elim (filled_cases j o) [ inl same ↦ rw (sym same) worse | inr old ↦ b.first j old ];
  }

  IsBest-better :
      (is_bid : Bool) (best : ℕ)
      → not (v.order_count == 0) ≡ true
      → count_occupied levels ≢ 0
      → IsBest is_bid levels best
      → IsBest is_bid
          (set_at i v levels)
          (if is_bid then (if ltb best i then i else best) else (if ltb i best then i else best))
  IsBest-better true best f some b = elim (Bool-cases (ltb best i)) [
    | inl more ↦ rw more (IsBest-new true f (λ j o. ground (arith, b.first j o)))
    | inr less ↦ rw less (IsBest-old true best f some (ground arith) b)
  ]
  IsBest-better false best f some b = elim (Bool-cases (ltb i best)) [
    | inl less ↦ rw less (IsBest-new false f (λ j o. ground (arith, b.first j o)))
    | inr more ↦ rw more (IsBest-old false best f some (ground arith) b)
  ]

  -- The slot filled is the best one, or the old one is, as `update_best_after_add` decides.
  pub IsBest-filled :
      (is_bid : Bool) (best : ℕ)
      → not (v.order_count == 0) ≡ true
      → IsBest is_bid levels best
      → IsBest is_bid
          (set_at i v levels)
          (update_best_after_add is_bid slots tick i (count_occupied levels + 1) best)
  unfolding update_best_after_add
  IsBest-filled is_bid best f b = elim (Bool-cases (count_occupied levels + 1 == 1)) [
    | inl empty ↦
        let e : count_occupied levels ≡ 0 =
          omega (arith, (==_iff (count_occupied levels + 1) 1).0 empty) in
        rw empty (IsBest-new is_bid f (λ j o. absurd (count_pos levels j o e)))
    | inr more ↦ rw more (IsBest-better is_bid best f (λ e. ground arith) b)
  ]
