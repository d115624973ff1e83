-- ===== src/Ladder/Adds.antt =====
-- Adding shares to the map ladder and to the flat ladder.
use itch_parser.Book.{PriceLevel, empty_level, level_or_empty}
use itch_parser.Ladder.{merged, map_add_shares, lower_bound, flat_add_shares}
use itch_parser.Map.Ordered.{Compare, IsFirst, IsFirst-trans, IsSorted}
use itch_parser.Map.{Map, find, place}
use itch_parser.Messages.{Price}
use itch_parser.Prelude.{
  ℕ, ◌+◌, ◌%◌, ◌^◌, ◌<◌, ◌≡◌, refl, ap, sym, ◌∙◌, true, false, List, [], ◌∷◌, none, map, All, ◌==◌,
  ==_iff, arith, inl, inr, Bool-cases,
}

-- The levels in the order of `for_each`.
abbrev pub levels_of : Map PriceLevel → List PriceLevel
levels_of = map (λ e. e.1)

-- Each level is filed under its own price.
abbrev pub IsFiled : Map PriceLevel → Type 0
IsFiled = All (λ e. e.0 ≡ e.1.price.raw)

module _ (c : Compare) where
  flat_add_shares-later :
      (p : Price) (shares : ℕ) (lvl : PriceLevel) (levels : List PriceLevel)
      → c.before lvl.price.raw p.raw ≡ true
      → flat_add_shares c p shares (lvl ∷ levels) ≡ lvl ∷ flat_add_shares c p shares levels
  unfolding flat_add_shares lower_bound
  flat_add_shares-later p shares lvl levels h = ground (arith, h)

  pub find-IsFirst : (k : ℕ) (m : Map PriceLevel) → IsFirst c k m → find k m ≡ none
  unfolding find
  find-IsFirst k [] f = refl
  find-IsFirst k ((j, w) ∷ m) f = ground (arith, find-IsFirst k m f.1, c.before_irrefl k)

  -- A key that stands before the price p is another key.
  pub before-ne : (j k : ℕ) → c.before j k ≡ true → (j == k) ≡ false
  before-ne j k h = elim (Bool-cases (j == k)) [
    | inl same ↦
        let e : j ≡ k = (==_iff j k).0 same in
        let no : c.before k k ≡ true = rw e at h in absurd (ground (arith, no, c.before_irrefl k))
    | inr other ↦ other
  ]

  pub not_after : (j k : ℕ) → c.before j k ≡ true → c.before k j ≡ false
  not_after j k h = elim (Bool-cases (c.before k j)) [
    | inl back ↦ absurd (ground (arith, c.before_trans j k j h back, c.before_irrefl j))
    | inr fine ↦ fine
  ]

  find-later :
      (k j : ℕ) (w : PriceLevel) (m : Map PriceLevel)
      → c.before j k ≡ true
      → find k ((j, w) ∷ m) ≡ find k m
  unfolding find
  find-later k j w m h = ground (arith, before-ne j k h)

  place-later :
      (k j : ℕ) (v w : PriceLevel) (m : Map PriceLevel)
      → c.before j k ≡ true
      → place c.before k v ((j, w) ∷ m) ≡ (j, w) ∷ place c.before k v m
  unfolding place
  place-later k j v w m h = ground (arith, before-ne j k h, not_after j k h)

  map_add_shares-later :
      (p : Price) (shares j : ℕ) (w : PriceLevel) (m : Map PriceLevel)
      → c.before j p.raw ≡ true
      → map_add_shares c p shares ((j, w) ∷ m) ≡ (j, w) ∷ map_add_shares c p shares m
  unfolding map_add_shares
  map_add_shares-later p shares j w m h =
      ap (λ o. place c.before p.raw (merged p shares (level_or_empty o)) ((j, w) ∷ m))
        (find-later p.raw j w m h)
      ∙ place-later p.raw j _ w m h

  map_add_shares-same :
      (p : Price) (shares j : ℕ) (w : PriceLevel) (m : Map PriceLevel)
      → j ≡ p.raw
      → map_add_shares c p shares ((j, w) ∷ m) ≡ (p.raw, merged p shares w) ∷ m
  unfolding map_add_shares find place
  map_add_shares-same p shares j w m e = ground arith

  map_add_shares-earlier :
      (p : Price) (shares j : ℕ) (w : PriceLevel) (m : Map PriceLevel)
      → c.before p.raw j ≡ true
      → IsFirst c j m
      → map_add_shares c p shares ((j, w) ∷ m) ≡ (p.raw, merged p shares empty_level) ∷ (j, w) ∷ m
  unfolding map_add_shares find place
  map_add_shares-earlier p shares j w m h first =
      let other : (j == p.raw) ≡ false = ground (arith, before-ne p.raw j h) in
      let absent = find-IsFirst p.raw m (IsFirst-trans c p.raw j m h first) in
      rw (other, h, absent) refl

  flat_add_shares-same :
      (p : Price) (shares : ℕ) (w : PriceLevel) (levels : List PriceLevel)
      → w.price.raw ≡ p.raw
      → flat_add_shares c p shares (w ∷ levels) ≡ merged p shares w ∷ levels
  unfolding flat_add_shares lower_bound
  flat_add_shares-same p shares w levels e =
      let here : c.before w.price.raw p.raw ≡ false = rw e (c.before_irrefl p.raw) in
      let same : (w.price.raw == p.raw) ≡ true = ground arith in
      let kept : flat_add_shares c p shares (w ∷ levels)
          ≡ record w {
            total_shares = (w.total_shares + shares) % 2 ^ 64;
            order_count = (w.order_count + 1) % 2 ^ 32;
          }
            ∷ levels =
        ground (arith, here, same) in
      kept
      ∙ (ap
          (λ r.
            record {
              price = record { raw = r };
              total_shares = (w.total_shares + shares) % 2 ^ 64;
              order_count = (w.order_count + 1) % 2 ^ 32;
            }
            ∷ levels)
          e)

  flat_add_shares-earlier :
      (p : Price) (shares : ℕ) (w : PriceLevel) (levels : List PriceLevel)
      → shares < 2 ^ 64
      → c.before p.raw w.price.raw ≡ true
      → flat_add_shares c p shares (w ∷ levels) ≡ merged p shares empty_level ∷ w ∷ levels
  unfolding flat_add_shares lower_bound
  flat_add_shares-earlier p shares w levels small h =
      let here : c.before w.price.raw p.raw ≡ false = not_after p.raw w.price.raw h in
      let other : (w.price.raw == p.raw) ≡ false = ground (arith, before-ne p.raw w.price.raw h) in
      let kept : (0 + shares) % 2 ^ 64 ≡ shares = omega arith in ground (arith, here, other, kept)

  add_shares_empty :
      (p : Price) (shares : ℕ)
      → shares < 2 ^ 64
      → levels_of (map_add_shares c p shares []) ≡ flat_add_shares c p shares []
  unfolding map_add_shares flat_add_shares lower_bound find place
  add_shares_empty p shares small =
      let kept : (0 + shares) % 2 ^ 64 ≡ shares = omega arith in ground (arith, kept)

  pub levels_of-map_add_shares :
      (p : Price) (shares : ℕ) (m : Map PriceLevel)
      → shares < 2 ^ 64
      → IsSorted c m
      → IsFiled m
      → levels_of (map_add_shares c p shares m) ≡ flat_add_shares c p shares (levels_of m)
  levels_of-map_add_shares p shares [] small s f = add_shares_empty p shares small
  levels_of-map_add_shares p shares ((j, w) ∷ m) small s (filed, f) =
      elim (Bool-cases (c.before j p.raw)) [
        | inl later ↦
            let later' : c.before w.price.raw p.raw ≡ true = rw filed at later in
            ap levels_of (map_add_shares-later p shares j w m later)
            ∙ ap (◌∷◌ w) (levels_of-map_add_shares p shares m small s.1 f)
            ∙ sym (flat_add_shares-later p shares w (levels_of m) later')
        | inr here ↦ elim (Bool-cases (j == p.raw)) [
          | inl same ↦
              let e : j ≡ p.raw = (==_iff j p.raw).0 same in
              ap levels_of (map_add_shares-same p shares j w m e)
              ∙ sym (flat_add_shares-same p shares w (levels_of m) (sym filed ∙ e))
          | inr other ↦
              let first : c.before p.raw j ≡ true = c.before_total j p.raw (ground arith) here in
              let first' : c.before p.raw w.price.raw ≡ true = rw filed at first in
              ap levels_of (map_add_shares-earlier p shares j w m first s.0)
              ∙ sym (flat_add_shares-earlier p shares w (levels_of m) small first')
        ]
      ]
