-- ===== src/Ladder/Removals.antt =====
-- Removing shares from the map ladder and from the flat ladder.
use itch_parser.Ladder.Adds.{levels_of, IsFiled, find-IsFirst, before-ne, not_after}
use itch_parser.Book.{PriceLevel}
use itch_parser.Ladder.{shrunk, map_remove_shares, lower_bound, flat_remove_shares}
use itch_parser.Map.Find.{erase_absent}
use itch_parser.Map.Ordered.{Compare, IsFirst, IsFirst-trans, IsSorted}
use itch_parser.Map.{Map, find, assign, erase}
use itch_parser.Messages.{Price}
use itch_parser.Prelude.{
  ℕ, ◌≡◌, refl, ap, sym, ◌∙◌, Bool, true, false, List, [], ◌∷◌, none, ◌==◌, ==_iff, arith,
  if◌then◌else◌, inl, inr, Bool-cases,
}

module _ (c : Compare) where
  flat_remove_shares-later :
      (p : Price) (shares : ℕ) (full : Bool) (w : PriceLevel) (levels : List PriceLevel)
      → c.before w.price.raw p.raw ≡ true
      → flat_remove_shares c p shares full (w ∷ levels)
        ≡ w ∷ flat_remove_shares c p shares full levels
  unfolding flat_remove_shares lower_bound
  flat_remove_shares-later p shares full w levels h = ground (arith, h)

  flat_remove_shares-earlier :
      (p : Price) (shares : ℕ) (full : Bool) (w : PriceLevel) (levels : List PriceLevel)
      → c.before p.raw w.price.raw ≡ true
      → flat_remove_shares c p shares full (w ∷ levels) ≡ w ∷ levels
  unfolding flat_remove_shares lower_bound
  flat_remove_shares-earlier p shares full w levels h =
      let here : c.before w.price.raw p.raw ≡ false = not_after c p.raw w.price.raw h in
      let other : (w.price.raw == p.raw) ≡ false =
        ground (arith, before-ne c p.raw w.price.raw h) in
      ground (arith, here, other)

  flat_remove_shares-same :
      (p : Price) (shares : ℕ) (full : Bool) (w : PriceLevel) (levels : List PriceLevel)
      → w.price.raw ≡ p.raw
      → flat_remove_shares c p shares full (w ∷ levels) ≡ (
          if (shrunk shares full w).order_count == 0 then levels else shrunk shares full w ∷ levels)
  unfolding flat_remove_shares lower_bound
  flat_remove_shares-same p shares full w levels e =
      let here : c.before w.price.raw p.raw ≡ false = rw e (c.before_irrefl p.raw) in
      let same : (w.price.raw == p.raw) ≡ true = ground arith in ground (arith, here, same)

  map_remove_shares-later :
      (p : Price) (shares : ℕ) (full : Bool) (j : ℕ) (w : PriceLevel) (m : Map PriceLevel)
      → c.before j p.raw ≡ true
      → map_remove_shares c p shares full ((j, w) ∷ m)
        ≡ (j, w) ∷ map_remove_shares c p shares full m
  unfolding map_remove_shares find erase assign
  map_remove_shares-later p shares full j w m h = ground (arith, before-ne c j p.raw h)

  map_remove_shares-absent :
      (p : Price) (shares : ℕ) (full : Bool) (m : Map PriceLevel)
      → find p.raw m ≡ none
      → map_remove_shares c p shares full m ≡ m
  unfolding map_remove_shares
  map_remove_shares-absent p shares full m h = ground (arith, h)

  map_remove_shares-same :
      (p : Price) (shares : ℕ) (full : Bool) (j : ℕ) (w : PriceLevel) (m : Map PriceLevel)
      → j ≡ p.raw
      → IsFirst c j m
      → map_remove_shares c p shares full ((j, w) ∷ m)
        ≡ (if (shrunk shares full w).order_count == 0 then m else (p.raw, shrunk shares full w) ∷ m)
  unfolding map_remove_shares find erase assign
  map_remove_shares-same p shares full j w m e first =
      let absent : find p.raw m ≡ none = find-IsFirst c p.raw m (rw e at first) in
      ground (arith, e, erase_absent p.raw m absent)

  levels_of-if :
      (b : Bool) (m n : Map PriceLevel)
      → levels_of (if b then m else n) ≡ (if b then levels_of m else levels_of n)
  levels_of-if true m n = refl
  levels_of-if false m n = refl

  remove_shares_empty :
      (p : Price) (shares : ℕ) (full : Bool)
      → levels_of (map_remove_shares c p shares full []) ≡ flat_remove_shares c p shares full []
  unfolding map_remove_shares flat_remove_shares lower_bound find
  remove_shares_empty p shares full = refl

  pub levels_of-map_remove_shares :
      (p : Price) (shares : ℕ) (full : Bool) (m : Map PriceLevel)
      → IsSorted c m
      → IsFiled m
      → levels_of (map_remove_shares c p shares full m)
        ≡ flat_remove_shares c p shares full (levels_of m)
  levels_of-map_remove_shares p shares full [] s f = remove_shares_empty p shares full
  levels_of-map_remove_shares p shares full ((j, w) ∷ m) s (filed, f) =
      elim (Bool-cases (c.before j p.raw)) [
        | inl later ↦
            let later' : c.before w.price.raw p.raw ≡ true = rw filed at later in
            ap levels_of (map_remove_shares-later p shares full j w m later)
            ∙ ap (◌∷◌ w) (levels_of-map_remove_shares p shares full m s.1 f)
            ∙ sym (flat_remove_shares-later p shares full w (levels_of m) later')
        | inr here ↦ elim (Bool-cases (j == p.raw)) [
          | inl same ↦
              let e : j ≡ p.raw = (==_iff j p.raw).0 same in
              ap levels_of (map_remove_shares-same p shares full j w m e s.0)
              ∙ levels_of-if ((shrunk shares full w).order_count == 0) m _
              ∙ sym (flat_remove_shares-same p shares full w (levels_of m) (sym filed ∙ e))
          | inr other ↦
              let first : c.before p.raw j ≡ true = c.before_total j p.raw (ground arith) here in
              let first' : c.before p.raw w.price.raw ≡ true = rw filed at first in
              let absent : find p.raw ((j, w) ∷ m) ≡ none =
                find-IsFirst c p.raw ((j, w) ∷ m) (first, IsFirst-trans c p.raw j m first s.0) in
              ap levels_of (map_remove_shares-absent p shares full ((j, w) ∷ m) absent)
              ∙ sym (flat_remove_shares-earlier p shares full w (levels_of m) first')
        ]
      ]
