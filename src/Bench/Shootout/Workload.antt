-- ===== src/Bench/Shootout/Workload.antt =====
-- The workload of bench/bench_ladder_shootout.cpp: its prices, and the orders that it leaves live.
use itch_parser.Bench.Draws.{
  item, back, pop_back, push_back, swap_remove, one, count, count-le, count-push_back,
}
use itch_parser.Bench.Shootout.{to_tick, base, slots}
use itch_parser.Book.{PriceLevel, level_or_empty}
use itch_parser.Ladder.Array.Orders.{orders_of, or_empty_count}
use itch_parser.Ladder.{set_at, merged, shrunk, map_add_shares, map_remove_shares}
use itch_parser.Map.Find.{find-place, find-assign, find-erase}
use itch_parser.Map.Ordered.{greater}
use itch_parser.Map.{Map, find}
use itch_parser.Messages.{Price}
use itch_parser.Prelude.Int.{ℤ, pos, negsuc}
use itch_parser.Prelude.{
  ℕ, zero, suc, ◌+◌, ◌-◌, ◌*◌, ◌/◌, ◌^◌, ◌≤◌, ◌<◌, ◌≡◌, ◌≢◌, refl, ap, sym, ◌∙◌, Bool, List, [],
  ◌∷◌, Option, none, some, length, ◌==◌, arith, All, if◌then◌else◌, inl, inr, Bool-cases,
  Option-cases,
}

-- A price of one of the array ladder's slots.
abbrev pub IsSlotPrice : ℕ → Type 0
IsSlotPrice p = (j : ℕ) × (j < slots) × (p ≡ base + j * 100)

pub to_tick-IsSlotPrice : (offset : ℤ) → IsSlotPrice (to_tick offset)
unfolding to_tick
to_tick-IsSlotPrice (pos n) = (to_tick (pos n) / 100 - 9900, ground arith, ground arith)
to_tick-IsSlotPrice (negsuc n) = (to_tick (negsuc n) / 100 - 9900, ground arith, ground arith)

pub All-item : (xs : List ℕ) (i : ℕ) → i < length xs → All IsSlotPrice xs → IsSlotPrice (item xs i)
All-item [] i h all = absurd (omega arith)
All-item (x ∷ xs) zero h all = all.0
All-item (x ∷ xs) (suc i) h all = All-item xs i (omega arith) all.1

pub All-push_back :
    (p : ℕ) (xs : List ℕ) → IsSlotPrice p → All IsSlotPrice xs → All IsSlotPrice (push_back xs p)
All-push_back p [] own all = (own, tt)
All-push_back p (x ∷ xs) own all = (all.0, All-push_back p xs own all.1)

All-back : (xs : List ℕ) → length xs ≢ 0 → All IsSlotPrice xs → IsSlotPrice (back xs)
All-back [] h all = absurd (h refl)
All-back (x ∷ []) h all = all.0
All-back (x ∷ y ∷ xs) h all = All-back (y ∷ xs) (λ e. omega (arith, e)) all.1

All-pop_back : (xs : List ℕ) → All IsSlotPrice xs → All IsSlotPrice (pop_back xs)
All-pop_back [] all = tt
All-pop_back (x ∷ []) all = tt
All-pop_back (x ∷ y ∷ xs) all = (all.0, All-pop_back (y ∷ xs) all.1)

All-set_at :
    (i z : ℕ) (xs : List ℕ) → IsSlotPrice z → All IsSlotPrice xs → All IsSlotPrice (set_at i z xs)
All-set_at i z [] own all = tt
All-set_at zero z (x ∷ xs) own all = (own, all.1)
All-set_at (suc i) z (x ∷ xs) own all = (all.0, All-set_at i z xs own all.1)

pub All-swap_remove :
    (i : ℕ) (xs : List ℕ) → i < length xs → All IsSlotPrice xs → All IsSlotPrice (swap_remove i xs)
All-swap_remove i xs h all =
    All-pop_back (set_at i (back xs) xs)
      (All-set_at i (back xs) xs (All-back xs (λ e. omega (arith, e)) all) all)

-- The map has as many orders at every price as the workload has live ones, and no empty level.
pub record Holds (live : List ℕ) (m : Map PriceLevel) : Type 0 where
  pub orders : (q : ℕ) → orders_of (find q m) ≡ count q live
  pub filled : (q : ℕ) (lvl : PriceLevel) → find q m ≡ some lvl → lvl.order_count ≢ 0

module _ (live : List ℕ) (m : Map PriceLevel) (v : Holds live m) where
  -- A write of the level at one price.
  Holds-write :
      (p : ℕ) (entry : Option PriceLevel) (live' : List ℕ) (m' : Map PriceLevel)
      → ((q : ℕ) → find q m' ≡ (if p == q then entry else find q m))
      → ((q : ℕ) → count q live' ≡ (if p == q then orders_of entry else count q live))
      → ((lvl : PriceLevel) → entry ≡ some lvl → lvl.order_count ≢ 0)
      → Holds live' m'
  Holds-write p entry live' m' written counted some_left = record {
    orders = λ q. elim (Bool-cases (p == q)) [
      | inl same ↦ rw (written q, counted q, same) refl
      | inr other ↦ rw (written q, counted q, other) (v.orders q)
    ];
    filled = λ q lvl there. elim (Bool-cases (p == q)) [
      | inl same ↦ some_left lvl (rw (written q, same) at there)
      | inr other ↦ v.filled q lvl (rw (written q, other) at there)
    ];
  }

  pub map_add_shares-Holds :
      (p : Price) (shares : ℕ)
      → length live + 1 < 2 ^ 32
      → Holds (push_back live p.raw) (map_add_shares greater p shares m)
  unfolding map_add_shares
  map_add_shares-Holds p shares fits =
      let old = level_or_empty (find p.raw m) in
      let few = count-le p.raw live in
      let before : old.order_count ≡ count p.raw live =
        or_empty_count (find p.raw m) ∙ v.orders p.raw in
      Holds-write p.raw (some (merged p shares old)) _ _
        (λ q. find-place (greater.before) q p.raw (merged p shares old) m)
        (λ q. ground (arith, count-push_back q p.raw live, before, few))
        (λ lvl e.
          let own : merged p shares old ≡ lvl = cc e in
          λ z. absurd (omega (arith, few, before, ap (λ l. l.order_count) own, z)))

  -- A removal at a price where orders are live.
  pub map_remove_shares-Holds :
      (p : Price) (shares : ℕ) (full : Bool) (live' : List ℕ)
      → length live < 2 ^ 32
      → 1 ≤ count p.raw live
      → ((q : ℕ) → count q live' + (if full then one q p.raw else 0) ≡ count q live)
      → Holds live' (map_remove_shares greater p shares full m)
  unfolding map_remove_shares
  map_remove_shares-Holds p shares full live' fits here counted =
      elim (Option-cases (find p.raw m)) [
        | inl absent ↦
            let none_left : 0 ≡ count p.raw live = ap orders_of (sym absent) ∙ v.orders p.raw in
            absurd (omega (arith, here, none_left))
        | inr (lvl, there) ↦
            let n : lvl.order_count ≡ count p.raw live =
              ap orders_of (sym there) ∙ v.orders p.raw in
            let few = count-le p.raw live in
            let lvl' = shrunk shares full lvl in
            let left : lvl'.order_count ≡ count p.raw live' =
              ground (arith, n, few, here, counted p.raw) in
            elim (Bool-cases (lvl'.order_count == 0)) [
              | inl gone ↦
                  rw (map_remove_shares, there, gone)
                    (Holds-write p.raw none live' _ (λ q. find-erase q p.raw m)
                      (λ q. ground (arith, left, gone, counted q)) (λ l e. absurd (cc e)))
              | inr kept ↦
                  rw (map_remove_shares, there, kept)
                    (Holds-write p.raw (some lvl') live' _ (λ q. find-assign q p.raw lvl' m)
                      (λ q. ground (arith, left, counted q))
                      (λ l e z.
                        let own : lvl' ≡ l = cc e in
                        ground (arith, kept, ap (λ w. w.order_count) own, z)))
            ]
      ]
