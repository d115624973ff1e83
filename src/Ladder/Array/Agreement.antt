-- ===== src/Ladder/Array/Agreement.antt =====
-- What it is for the array ladder and the map ladder to agree, slot by slot.
use itch_parser.Book.{PriceLevel}
use itch_parser.Ladder.Array.Slots.{level_of-set_at}
use itch_parser.Ladder.Array.{level_of, occupied, idx_of}
use itch_parser.Ladder.{set_at}
use itch_parser.Map.{Map, find}
use itch_parser.Messages.{Price}
use itch_parser.Prelude.{
  ℕ, ◌+◌, ◌-◌, ◌*◌, ◌/◌, ◌<◌, ◌≡◌, refl, ap, sym, ◌∙◌, subst, not, Bool, true, false, List, Option,
  none, some, arith, length, ltb, ◌==◌, if◌then◌else◌, inl, inr, Bool-cases, ==_iff,
}
use native.Mathlib.Nat.{mul-div_cancel}

-- The level of a slot, where orders rest in it.
abbrev pub shown : PriceLevel → Option PriceLevel
shown lvl = if lvl.order_count == 0 then none else some lvl

module _ (slots tick base : ℕ) (ticks : 0 < tick) where
  -- The price of a slot.
  abbrev pub key : ℕ → ℕ
  key i = base + i * tick

  slot_of_key : (i : ℕ) → (key i - base) / tick ≡ i
  slot_of_key i =
      let e : key i - base ≡ i * tick = omega arith in ap (λ n. n / tick) e ∙ mul-div_cancel i ticks

  pub key_injective : (i j : ℕ) → (key i == key j) ≡ (i == j)
  key_injective i j = elim (Bool-cases (i == j)) [
    | inl same ↦
        let e : i ≡ j = (==_iff i j).0 same in (==_iff (key i) (key j)).1 (ap key e) ∙ sym same
    | inr other ↦ elim (Bool-cases (key i == key j)) [
      | inl keys ↦
          let e : key i ≡ key j = (==_iff (key i) (key j)).0 keys in
          let e' : i ≡ j = sym (slot_of_key i) ∙ ap (λ n. (n - base) / tick) e ∙ slot_of_key j in
          absurd (ground (arith, e', other))
      | inr keys ↦ keys ∙ sym other
    ]
  ]

  pub idx_of-key :
      (is_bid : Bool) (p : Price) (j : ℕ) → p.raw ≡ key j → idx_of is_bid slots tick base p ≡ j
  unfolding idx_of
  idx_of-key is_bid p j e =
      let above : ltb p.raw base ≡ false = ground (arith, e) in
      rw (idx_of, above, e) (slot_of_key j)

  -- In every slot the levels have what the map has at the slot's price, and a slot where no order
  -- rests has no shares.
  pub record Agrees (levels : List PriceLevel) (m : Map PriceLevel) : Type 0 where
    pub found : (i : ℕ) → find (key i) m ≡ shown (level_of levels i)
    pub priced : (i : ℕ) → occupied levels i ≡ true → (level_of levels i).price.raw ≡ key i
    pub cleared : (i : ℕ) → occupied levels i ≡ false → (level_of levels i).total_shares ≡ 0

  -- A level that may stand in slot j.
  pub record Fits (j : ℕ) (v : PriceLevel) : Type 0 where
    pub own : not (v.order_count == 0) ≡ true → v.price.raw ≡ key j
    pub clear : not (v.order_count == 0) ≡ false → v.total_shares ≡ 0

  pub Agrees-Fits :
      (levels : List PriceLevel) (m : Map PriceLevel) (j : ℕ)
      → Agrees levels m
      → Fits j (level_of levels j)
  Agrees-Fits levels m j g = record { own = g.priced j; clear = g.cleared j }

  written_Fits :
      (levels : List PriceLevel) (m : Map PriceLevel) (i j : ℕ) (v : PriceLevel)
      → j < length levels
      → Fits j v
      → Agrees levels m
      → Fits i (level_of (set_at j v levels) i)
  written_Fits levels m i j v within f g = elim (Bool-cases (j == i)) [
    | inl same ↦
        let e : j ≡ i = (==_iff j i).0 same in
        let here : level_of (set_at j v levels) i ≡ v =
          level_of-set_at levels j i v within ∙ rw same refl in
        subst (λ k. Fits k (level_of (set_at j v levels) i)) e (subst (Fits j) (sym here) f)
    | inr other ↦
        let here : level_of (set_at j v levels) i ≡ level_of levels i =
          level_of-set_at levels j i v within ∙ rw other refl in
        subst (Fits i) (sym here) (Agrees-Fits levels m i g)
  ]

  pub Agrees-set_at :
      (levels : List PriceLevel) (m m' : Map PriceLevel) (j : ℕ) (v : PriceLevel)
      → j < length levels
      → Fits j v
      → ((i : ℕ) → find (key i) m' ≡ (if j == i then shown v else find (key i) m))
      → Agrees levels m
      → Agrees (set_at j v levels) m'
  Agrees-set_at levels m m' j v within f written g = record {
    found = λ i. elim (Bool-cases (j == i)) [
      | inl same ↦
          let here : level_of (set_at j v levels) i ≡ v =
            level_of-set_at levels j i v within ∙ rw same refl in
          written i ∙ rw same (ap shown (sym here))
      | inr other ↦
          let here : level_of (set_at j v levels) i ≡ level_of levels i =
            level_of-set_at levels j i v within ∙ rw other refl in
          written i ∙ rw other (g.found i ∙ ap shown (sym here))
    ];
    priced = λ i. (written_Fits levels m i j v within f g).own;
    cleared = λ i. (written_Fits levels m i j v within f g).clear;
  }
