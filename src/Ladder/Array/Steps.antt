-- ===== src/Ladder/Array/Steps.antt =====
-- An operation on the array ladder and on the map ladder keeps their agreement.
use itch_parser.Ladder.Array.Agreement.{
  shown, key, key_injective, idx_of-key, Agrees, Fits, Agrees-Fits, Agrees-set_at,
}
use itch_parser.Book.{PriceLevel, level_or_empty}
use itch_parser.Ladder.Array.Writes.{IsTracked}
use itch_parser.Ladder.Array.{
  ArrayLadder, level_of, idx_of, grown, array_add_shares, array_remove_shares,
}
use itch_parser.Ladder.{set_at, shrunk, merged, map_add_shares, map_remove_shares}
use itch_parser.Map.Find.{find-assign, find-erase, find-place}
use itch_parser.Map.Ordered.{Compare}
use itch_parser.Map.{Map, find}
use itch_parser.Messages.{Price}
use itch_parser.Prelude.{
  ℕ, ◌+◌, ◌%◌, ◌^◌, ◌<◌, ◌≡◌, refl, ap, sym, ◌∙◌, not, Bool, true, false, none, some, arith, length,
  leb, ◌==◌, if◌then◌else◌, inl, inr, Bool-cases, ==_iff,
}

module _ (slots tick base : ℕ) (ticks : 0 < tick) where
  -- What an addition writes, in the array and in the map.
  map_add_shares_found :
      (c : Compare) (p : Price) (shares i j : ℕ) (lvl : PriceLevel) (m : Map PriceLevel)
      → p.raw ≡ key slots tick base ticks j
      → find (key slots tick base ticks j) m ≡ shown lvl
      → find (key slots tick base ticks i) (map_add_shares c p shares m) ≡ (
          if j == i
          then some (merged p shares (level_or_empty (shown lvl)))
          else find (key slots tick base ticks i) m)
  unfolding map_add_shares
  map_add_shares_found c p shares i j lvl m at here =
      let looked : find p.raw m ≡ shown lvl = ap (λ k. find k m) at ∙ here in
      let same_slot : (p.raw == key slots tick base ticks i) ≡ (j == i) =
        ap (λ k. k == key slots tick base ticks i) at ∙ key_injective slots tick base ticks j i in
      find-place c.before (key slots tick base ticks i) p.raw
        (merged p shares (level_or_empty (find p.raw m))) m
      ∙ rw (looked, same_slot) refl

  merged-grown :
      (is_bid : Bool) (p : Price) (shares j : ℕ) (lvl : PriceLevel)
      → p.raw ≡ key slots tick base ticks j
      → lvl.order_count + 1 < 2 ^ 32
      → Fits slots tick base ticks j lvl
      → some (merged p shares (level_or_empty (shown lvl)))
        ≡ shown (grown is_bid slots tick p shares lvl)
  merged-grown is_bid p shares j lvl at few f = elim (Bool-cases (lvl.order_count == 0)) [
    | inl empty ↦
        let none_left : lvl.order_count ≡ 0 = (==_iff lvl.order_count 0).0 empty in
        let clear : lvl.total_shares ≡ 0 = f.clear (ap not empty) in
        rw (empty, none_left, clear) refl
    | inr filled ↦
        let own : p ≡ lvl.price = ap (λ r. record { raw = r }) (at ∙ sym (f.own (ap not filled))) in
        let kept : ((lvl.order_count + 1) % 2 ^ 32 == 0) ≡ false = ground arith in
        rw (filled, kept, own) refl
  ]

  -- What a removal writes where orders rest, in the array and in the map.
  map_remove_shares_found :
      (c : Compare) (p : Price) (shares i j : ℕ) (full : Bool) (lvl : PriceLevel)
      (m : Map PriceLevel)
      → p.raw ≡ key slots tick base ticks j
      → find (key slots tick base ticks j) m ≡ some lvl
      → find (key slots tick base ticks i) (map_remove_shares c p shares full m)
        ≡ (if j == i then shown (shrunk shares full lvl) else find (key slots tick base ticks i) m)
  unfolding map_remove_shares
  map_remove_shares_found c p shares i j full lvl m at here =
      let looked : find p.raw m ≡ some lvl = ap (λ k. find k m) at ∙ here in
      let lvl' = shrunk shares full lvl in
      let same_slot : (p.raw == key slots tick base ticks i) ≡ (j == i) =
        ap (λ k. k == key slots tick base ticks i) at ∙ key_injective slots tick base ticks j i in
      elim (Bool-cases (lvl'.order_count == 0)) [
        | inl gone ↦
            rw (map_remove_shares, looked, gone)
              (find-erase (key slots tick base ticks i) p.raw m ∙ rw same_slot refl)
        | inr kept ↦
            rw (map_remove_shares, looked, kept)
              (find-assign (key slots tick base ticks i) p.raw lvl' m ∙ rw same_slot refl)
      ]

  map_remove_shares-none :
      (c : Compare) (p : Price) (shares j : ℕ) (full : Bool) (m : Map PriceLevel)
      → p.raw ≡ key slots tick base ticks j
      → find (key slots tick base ticks j) m ≡ none
      → map_remove_shares c p shares full m ≡ m
  unfolding map_remove_shares
  map_remove_shares-none c p shares j full m at here =
      let looked : find p.raw m ≡ none = ap (λ k. find k m) at ∙ here in
      rw (map_remove_shares, looked) refl

  shrunk-Fits :
      (shares j : ℕ) (full : Bool) (lvl : PriceLevel)
      → (lvl.order_count == 0) ≡ false
      → Fits slots tick base ticks j lvl
      → (((shrunk shares full lvl).order_count == 0) ≡ true
          → (shrunk shares full lvl).total_shares ≡ 0)
      → Fits slots tick base ticks j (shrunk shares full lvl)
  shrunk-Fits shares j full lvl filled f empties = record {
    own = λ h. f.own (ap not filled);
    clear = λ h. empties (ground (arith, h));
  }

  grown-Fits :
      (is_bid : Bool) (p : Price) (shares j : ℕ) (lvl : PriceLevel)
      → p.raw ≡ key slots tick base ticks j
      → lvl.order_count + 1 < 2 ^ 32
      → Fits slots tick base ticks j lvl
      → Fits slots tick base ticks j (grown is_bid slots tick p shares lvl)
  grown-Fits is_bid p shares j lvl at few f = record {
    own = λ h. ground (arith, at, f.own);
    clear = λ h. absurd (ground (arith, h, few));
  }

  module _ (is_bid : Bool) (a : ArrayLadder) (j : ℕ) (p : Price) (based : a.base_raw ≡ base)
      (in_band : j < slots) (at : p.raw ≡ key slots tick base ticks j) where
    here_idx : idx_of is_bid slots tick a.base_raw p ≡ j
    here_idx = rw based (idx_of-key slots tick base ticks is_bid p j at)

    pub add_levels :
        (shares : ℕ)
        → let b = array_add_shares is_bid slots tick p shares a in
          (b.levels ≡ set_at j (grown is_bid slots tick p shares (level_of a.levels j)) a.levels)
          × (b.base_raw ≡ a.base_raw)
    unfolding array_add_shares
    add_levels shares =
        let inside : leb slots j ≡ false = ground arith in
        elim (Bool-cases ((level_of a.levels j).order_count == 0)) [
          | inl empty ↦ rw (here_idx, inside, empty) (refl, refl)
          | inr filled ↦ rw (here_idx, inside, filled) (refl, refl)
        ]

    pub remove_levels :
        (shares : ℕ) (full : Bool)
        → let b = array_remove_shares is_bid slots tick p shares full a in
          let lvl = level_of a.levels j in
          (b.levels ≡ (
            if lvl.order_count == 0 then a.levels else set_at j (shrunk shares full lvl) a.levels))
          × (b.base_raw ≡ a.base_raw)
    unfolding array_remove_shares
    remove_levels shares full =
        let inside : leb slots j ≡ false = ground arith in
        let lvl = level_of a.levels j in
        elim (Bool-cases (lvl.order_count == 0)) [
          | inl empty ↦ rw (here_idx, inside, empty) (refl, refl)
          | inr filled ↦ elim (Bool-cases ((shrunk shares full lvl).order_count == 0)) [
            | inl gone ↦ rw (here_idx, inside, filled, gone) (refl, refl)
            | inr kept ↦ rw (here_idx, inside, filled, kept) (refl, refl)
          ]
        ]

    module _ (c : Compare) (k : ℕ) (m : Map PriceLevel) (few : slots < 2 ^ 32)
        (t : IsTracked is_bid slots k a) (g : Agrees slots tick base ticks a.levels m) where
      within : j < length a.levels
      within = omega (arith, t.sized)

      pub array_add_shares-Agrees :
          (shares : ℕ)
          → k + 1 < 2 ^ 32
          → Agrees slots tick base ticks
              (array_add_shares is_bid slots tick p shares a).levels
              (map_add_shares c p shares m)
      array_add_shares-Agrees shares fits =
          let lvl = level_of a.levels j in
          let lvl' = grown is_bid slots tick p shares lvl in
          let bound : lvl.order_count + 1 < 2 ^ 32 = omega (arith, t.bounded j) in
          let f = Agrees-Fits slots tick base ticks a.levels m j g in
          rw ((add_levels shares).0) (
            Agrees-set_at slots tick base ticks a.levels m (map_add_shares c p shares m) j lvl'
              within (grown-Fits is_bid p shares j lvl at bound f)
              (λ i.
                map_add_shares_found c p shares i j lvl m at (g.found j)
                ∙ ap (λ r. if j == i then r else find (key slots tick base ticks i) m)
                    (merged-grown is_bid p shares j lvl at bound f))
              g)

      pub array_remove_shares-Agrees :
          (shares : ℕ) (full : Bool)
          → (let lvl' = shrunk shares full (level_of a.levels j) in
              ((level_of a.levels j).order_count == 0) ≡ false
              → (lvl'.order_count == 0) ≡ true
              → lvl'.total_shares ≡ 0)
          → Agrees slots tick base ticks
              (array_remove_shares is_bid slots tick p shares full a).levels
              (map_remove_shares c p shares full m)
      array_remove_shares-Agrees shares full empties =
          let lvl = level_of a.levels j in
          let lvl' = shrunk shares full lvl in
          elim (Bool-cases (lvl.order_count == 0)) [
            | inl empty ↦
                let absent : find (key slots tick base ticks j) m ≡ none =
                  g.found j ∙ rw empty refl in
                rw
                  (
                    (remove_levels shares full).0,
                    empty,
                    map_remove_shares-none c p shares j full m at absent,
                  )
                  g
            | inr filled ↦
                let present : find (key slots tick base ticks j) m ≡ some lvl =
                  g.found j ∙ rw filled refl in
                rw ((remove_levels shares full).0, filled)
                  (Agrees-set_at slots tick base ticks a.levels m
                    (map_remove_shares c p shares full m) j lvl' within
                    (shrunk-Fits shares j full lvl filled
                      (Agrees-Fits slots tick base ticks a.levels m j g) (empties filled))
                    (λ i. map_remove_shares_found c p shares i j full lvl m at present) g)
          ]
