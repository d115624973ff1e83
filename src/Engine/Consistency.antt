-- ===== src/Engine/Consistency.antt =====
-- The engine's central invariant: in every slot the book shows as many orders and as many shares
-- as the live orders of the order index that rest there.
pub mod Writes
pub mod Handlers
pub mod Run
use itch_parser.Book.Levels.{raised, lowered}
use itch_parser.Book.{OrderRecord, OrderBook, reduced, clamped_sub}
use itch_parser.Engine.Slots.{
  Slot, slot_of, same_slot, level, one_in, shares_in, orders_at, shares_at, AreSmall, orders_at-le,
  shares_at-le, orders_at_pos, shares_at-ge,
}
use itch_parser.Engine.{Core}
use itch_parser.Map.Find.{IsDistinct}
use itch_parser.Map.Total.{
  total, total-assign_new, total-assign_old, total-erase, length-assign_new, length-erase,
  All-erase,
}
use itch_parser.Map.{Map, find, assign, erase}
use itch_parser.Prelude.{
  ℕ, zero, ◌+◌, ◌-◌, ◌*◌, ◌^◌, ◌≤◌, ◌<◌, ◌≡◌, ◌≢◌, refl, Bool, true, false, none, some, arith, ◌==◌,
  if◌then◌else◌, length,
}

abbrev pub Agrees : Map OrderBook → Map OrderRecord → Slot → Type 0
Agrees books index slot =
    ((level books slot).order_count ≡ orders_at slot index)
    × ((level books slot).total_shares ≡ shares_at slot index)

pub record IsConsistent (c : Core) : Type 0 where
  pub distinct : IsDistinct c.order_index
  pub small : AreSmall c.order_index
  pub fits : length c.order_index < 2 ^ 32
  pub agrees : (slot : Slot) → Agrees c.books c.order_index slot

module _ (books books' : Map OrderBook) (index : Map OrderRecord) (slot : Slot) (k : ℕ) where
  pub raised-Agrees :
      (rec : OrderRecord)
      → find k index ≡ none
      → rec.shares < 2 ^ 32
      → AreSmall index
      → length index + 1 < 2 ^ 32
      → level books' slot ≡ (
          if same_slot (slot_of rec) slot
          then raised (level books slot) rec.price rec.shares
          else level books slot)
      → Agrees books index slot
      → Agrees books' (assign k rec index) slot
  unfolding one_in shares_in raised
  raised-Agrees rec new h small fits e a = ground (
    arith,
    total-assign_new (one_in slot) k rec index,
    total-assign_new (shares_in slot) k rec index,
    orders_at-le slot index,
    shares_at-le slot index small,
  )

  module _ (rec : OrderRecord) (there : find k index ≡ some rec) (d : IsDistinct index) where
    pub lowered-Agrees_full :
        AreSmall index
        → length index < 2 ^ 32
        → level books' slot ≡ (
            if same_slot (slot_of rec) slot
            then lowered (level books slot) rec.shares true
            else level books slot)
        → Agrees books index slot
        → Agrees books' (erase k index) slot
    unfolding one_in shares_in lowered reduced clamped_sub
    lowered-Agrees_full small fits e a = ground (
      arith,
      total-erase (one_in slot) k rec index d,
      total-erase (shares_in slot) k rec index d,
      orders_at-le slot index,
      shares_at-le slot (erase k index) (All-erase _ k index small),
    )

    pub lowered-Agrees_part :
        (left : ℕ)
        → left ≤ rec.shares
        → left ≢ 0
        → level books' slot ≡ (
            if same_slot (slot_of rec) slot
            then lowered (level books slot) (rec.shares - left) false
            else level books slot)
        → Agrees books index slot
        → Agrees books' (assign k (record rec { shares = left }) index) slot
    unfolding one_in shares_in lowered reduced clamped_sub
    lowered-Agrees_part left h n e a =
        let rec' = record rec { shares = left } in
        ground (
          arith,
          total-assign_old (one_in slot) k rec' rec index,
          total-assign_old (shares_in slot) k rec' rec index,
          total-erase (one_in slot) k rec index d,
        )
