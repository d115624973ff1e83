-- ===== src/Ladder/Array/Orders.antt =====
-- The numbers of orders that the array ladder and the map ladder hold, where shares may be left
-- behind in a level that a removal empties.
use itch_parser.Book.{PriceLevel, level_or_empty}
use itch_parser.Ladder.Array.Agreement.{key, key_injective}
use itch_parser.Ladder.Array.Reference.{IsInBand, level_of-replicate}
use itch_parser.Ladder.Array.Tracked.{
  run_array, array_add_shares-IsTracked, array_remove_shares-IsTracked, new_array_ladder-IsTracked,
}
use itch_parser.Ladder.Equivalence.{Operation, add_shares, remove_shares, run_map}
use itch_parser.Ladder.Array.Slots.{level_of-set_at}
use itch_parser.Ladder.Array.Steps.{add_levels, remove_levels}
use itch_parser.Ladder.Array.Writes.{IsTracked}
use itch_parser.Ladder.Array.{
  ArrayLadder, new_array_ladder, level_of, grown, array_add_shares, array_remove_shares,
}
use itch_parser.Ladder.{set_at, shrunk, merged, map_add_shares, map_remove_shares}
use itch_parser.Map.Find.{find-assign, find-erase, find-place}
use itch_parser.Map.Ordered.{Compare}
use itch_parser.Map.{Map, find}
use itch_parser.Messages.{Price}
use itch_parser.Prelude.{
  ℕ, ◌+◌, ◌-◌, ◌%◌, ◌^◌, ◌<◌, ◌≡◌, ◌≢◌, refl, ap, sym, ◌∙◌, Bool, true, false, List, [], ◌∷◌, ◌*◌,
  Option, All, none, some, arith, length, ◌==◌, if◌then◌else◌, inl, inr, Bool-cases, Option-cases,
  ==_iff,
}

-- The orders of the level that a map has at a price.
abbrev pub orders_of : Option PriceLevel → ℕ
orders_of none = 0
orders_of (some lvl) = lvl.order_count

pub or_empty_count : (e : Option PriceLevel) → (level_or_empty e).order_count ≡ orders_of e
or_empty_count none = refl
or_empty_count (some lvl) = refl

abbrev lowered_count : ℕ → Bool → ℕ
lowered_count n full = if full then (n + 2 ^ 32 - 1) % 2 ^ 32 else n

module _ (slots tick base : ℕ) (ticks : 0 < tick) where
  -- Slot by slot the map has as many orders as the levels, and none of its levels is empty.
  pub record AgreesOrders (levels : List PriceLevel) (m : Map PriceLevel) : Type 0 where
    pub orders :
        (i : ℕ) → orders_of (find (key slots tick base ticks i) m) ≡ (level_of levels i).order_count
    pub filled :
        (i : ℕ) (lvl : PriceLevel)
        → find (key slots tick base ticks i) m ≡ some lvl
        → lvl.order_count ≢ 0

  module _ (is_bid : Bool) (a : ArrayLadder) (j : ℕ) (p : Price) (based : a.base_raw ≡ base)
      (in_band : j < slots) (at : p.raw ≡ key slots tick base ticks j) (c : Compare) (k : ℕ)
      (m : Map PriceLevel) (t : IsTracked is_bid slots k a) (g : AgreesOrders a.levels m) where
    abbrev here : ℕ
    here = (level_of a.levels j).order_count

    within : j < length a.levels
    within = omega (arith, t.sized)

    same_slot : (i : ℕ) → (p.raw == key slots tick base ticks i) ≡ (j == i)
    same_slot i =
        ap (λ q. q == key slots tick base ticks i) at ∙ key_injective slots tick base ticks j i

    found_here : orders_of (find p.raw m) ≡ here
    found_here = ap (λ q. orders_of (find q m)) at ∙ g.orders j

    -- A write of a slot, and of the map at its price.
    AgreesOrders-set_at :
        (lvl : PriceLevel) (entry : Option PriceLevel) (m' : Map PriceLevel)
        → ((i : ℕ)
            → find (key slots tick base ticks i) m' ≡ (
                if p.raw == key slots tick base ticks i
                then entry
                else find (key slots tick base ticks i) m))
        → orders_of entry ≡ lvl.order_count
        → ((w : PriceLevel) → entry ≡ some w → w.order_count ≢ 0)
        → AgreesOrders (set_at j lvl a.levels) m'
    AgreesOrders-set_at lvl entry m' written same some_left =
        let k = key slots tick base ticks in
        let now : (i : ℕ) → find (k i) m' ≡ (if j == i then entry else find (k i) m) =
          λ i. written i ∙ rw (same_slot i) refl in
        let here : (i : ℕ)
            → level_of (set_at j lvl a.levels) i ≡ (if j == i then lvl else level_of a.levels i) =
          λ i. level_of-set_at a.levels j i lvl within in
        record {
          orders = λ i. elim (Bool-cases (j == i)) [
            | inl own ↦ rw (now i, here i, own) same
            | inr other ↦ rw (now i, here i, other) (g.orders i)
          ];
          filled = λ i w there. elim (Bool-cases (j == i)) [
            | inl own ↦ some_left w (rw (now i, own) at there)
            | inr other ↦ g.filled i w (rw (now i, other) at there)
          ];
        }

    pub array_add_shares-AgreesOrders :
        (shares : ℕ)
        → k + 1 < 2 ^ 32
        → AgreesOrders
            (array_add_shares is_bid slots tick p shares a).levels
            (map_add_shares c p shares m)
    unfolding map_add_shares
    array_add_shares-AgreesOrders shares fits =
        let lvl = grown is_bid slots tick p shares (level_of a.levels j) in
        let lvl' = merged p shares (level_or_empty (find p.raw m)) in
        let before : (level_or_empty (find p.raw m)).order_count ≡ here =
          or_empty_count (find p.raw m) ∙ found_here in
        rw ((add_levels slots tick base ticks is_bid a j p based in_band at shares).0) (
          AgreesOrders-set_at lvl (some lvl') (map_add_shares c p shares m)
            (λ i. find-place c.before (key slots tick base ticks i) p.raw lvl' m)
            (ap (λ n. (n + 1) % 2 ^ 32) before)
            (λ w e.
              let own : lvl' ≡ w = cc e in
              λ z. absurd (omega (arith, t.bounded j, before, ap (λ l. l.order_count) own, z))))

    pub array_remove_shares-AgreesOrders :
        (shares : ℕ) (full : Bool)
        → AgreesOrders
            (array_remove_shares is_bid slots tick p shares full a).levels
            (map_remove_shares c p shares full m)
    unfolding map_remove_shares
    array_remove_shares-AgreesOrders shares full =
        let written =
          (remove_levels slots tick base ticks is_bid a j p based in_band at shares full).0 in
        elim (Option-cases (find p.raw m)) [
          | inl absent ↦
              let empty : (here == 0) ≡ true =
                (==_iff here 0).1 (sym found_here ∙ ap orders_of absent) in
              rw (written, empty, map_remove_shares, absent) g
          | inr (lvl, there) ↦
              let same : lvl.order_count ≡ here = sym (ap orders_of there) ∙ found_here in
              let some_left : (here == 0) ≡ false =
                ground (arith, same, g.filled j lvl (ap (λ q. find q m) (sym at) ∙ there)) in
              let lvl' = shrunk shares full lvl in
              let count : lvl'.order_count
                  ≡ (shrunk shares full (level_of a.levels j)).order_count =
                ap (λ n. lowered_count n full) same in
              rw (written, some_left)
                (elim (Bool-cases (lvl'.order_count == 0)) [
                  | inl gone ↦
                      rw (map_remove_shares, there, gone)
                        (AgreesOrders-set_at _ none _
                          (λ i. find-erase (key slots tick base ticks i) p.raw m)
                          (sym ((==_iff lvl'.order_count 0).0 gone) ∙ count) (λ w e. absurd (cc e)))
                  | inr kept ↦
                      rw (map_remove_shares, there, kept)
                        (AgreesOrders-set_at _ (some lvl') _
                          (λ i. find-assign (key slots tick base ticks i) p.raw lvl' m) count
                          (λ w e z.
                            let own : lvl' ≡ w = cc e in
                            ground (arith, kept, ap (λ l. l.order_count) own, z)))
                ])
        ]

module _ (slots tick base : ℕ) (ticks : 0 < tick) (is_bid : Bool) (c : Compare)
    (few : slots < 2 ^ 32) where
  pub run_array-AgreesOrders :
      (ops : List Operation) (k : ℕ) (a : ArrayLadder) (m : Map PriceLevel)
      → k + length ops < 2 ^ 32
      → All (IsInBand slots tick base) ops
      → a.base_raw ≡ base
      → IsTracked is_bid slots k a
      → AgreesOrders slots tick base ticks a.levels m
      → AgreesOrders slots tick base ticks
          (run_array is_bid slots tick ops a).levels
          (run_map c ops m)
  run_array-AgreesOrders [] k a m short bands based t g = g
  run_array-AgreesOrders (add_shares p shares ∷ ops) k a m short bands based t g =
      let (j, inside, at) = bands.0 in
      run_array-AgreesOrders ops (k + 1) _ _ (omega arith) bands.1
        ((add_levels slots tick base ticks is_bid a j p based inside at shares).1 ∙ based)
        (array_add_shares-IsTracked is_bid slots tick p shares k a few (omega arith) t)
        (array_add_shares-AgreesOrders slots tick base ticks is_bid a j p based inside at c k m t g
          shares (omega arith))
  run_array-AgreesOrders (remove_shares p shares full ∷ ops) k a m short bands based t g =
      let (j, inside, at) = bands.0 in
      run_array-AgreesOrders ops k _ _ (omega arith) bands.1
        ((remove_levels slots tick base ticks is_bid a j p based inside at shares full).1 ∙ based)
        (array_remove_shares-IsTracked is_bid slots tick p shares k full a few (omega arith) t)
        (array_remove_shares-AgreesOrders slots tick base ticks is_bid a j p based inside at c k m t
          g shares full)

  pub new-AgreesOrders :
      AgreesOrders slots tick base ticks (new_array_ladder is_bid slots tick base).levels []
  unfolding new_array_ladder find
  new-AgreesOrders = record {
    orders = λ i. ap (λ l. l.order_count) (sym (level_of-replicate slots i));
    filled = λ i lvl there. absurd (cc there);
  }

  -- Where a removal may leave shares behind as well, the two hold the same number of orders at the
  -- price of every slot.
  pub run_array-run_map_orders :
      (ops : List Operation) (i : ℕ)
      → length ops < 2 ^ 32
      → All (IsInBand slots tick base) ops
      → let a = run_array is_bid slots tick ops (new_array_ladder is_bid slots tick base) in
        orders_of (find (base + i * tick) (run_map c ops [])) ≡ (level_of a.levels i).order_count
  unfolding new_array_ladder
  run_array-run_map_orders ops i short bands =
      (run_array-AgreesOrders ops 0 (new_array_ladder is_bid slots tick base) []
          (omega (arith, short)) bands refl (new_array_ladder-IsTracked is_bid slots tick base)
          new-AgreesOrders).orders
        i
