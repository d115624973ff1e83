-- ===== src/Engine/Slots.antt =====
-- The places that orders rest in: one price of one side of one book. An order record names its
-- slot; the orders and the shares of a slot are sums over the order index.
use itch_parser.Book.Levels.{same_bool, level_at, side_of}
use itch_parser.Book.{OrderRecord, OrderBook, PriceLevel, empty_level}
use itch_parser.Map.Total.{total}
use itch_parser.Map.{Map, find}
use itch_parser.Prelude.{
  ℕ, ◌-◌, ◌*◌, ◌^◌, ◌≤◌, ◌<◌, ◌≡◌, Bool, true, ◌&&◌, [], ◌∷◌, none, some, arith, ◌==◌,
  if◌then◌else◌, length, All,
}

pub record Slot : Type 0 where
  pub stock_locate : ℕ
  pub is_bid : Bool
  pub price : ℕ

abbrev pub slot_of : OrderRecord → Slot
slot_of rec = record {
  stock_locate = rec.stock_locate;
  is_bid = rec.side == b'B';
  price = rec.price.raw;
}

unfoldable pub same_slot : Slot → Slot → Bool
same_slot a b =
    (a.stock_locate == b.stock_locate) && (same_bool a.is_bid b.is_bid && (a.price == b.price))

pub same_slot_refl : (a : Slot) → same_slot a a ≡ true
unfolding same_slot
same_slot_refl a = ground arith

-- The weight of a record in a slot: one order, and its shares.
unfoldable pub one_in : Slot → OrderRecord → ℕ
one_in slot rec = if same_slot (slot_of rec) slot then 1 else 0

unfoldable pub shares_in : Slot → OrderRecord → ℕ
shares_in slot rec = if same_slot (slot_of rec) slot then rec.shares else 0

abbrev pub orders_at : Slot → Map OrderRecord → ℕ
orders_at slot = total (one_in slot)

abbrev pub shares_at : Slot → Map OrderRecord → ℕ
shares_at slot = total (shares_in slot)

-- The level that the books show in a slot.
abbrev pub level : Map OrderBook → Slot → PriceLevel
level books slot = elim (find slot.stock_locate books) [
  | none ↦ empty_level
  | some book ↦ level_at slot.price (side_of slot.is_bid book)
]

-- Every record's shares are a `uint32_t`.
abbrev pub AreSmall : Map OrderRecord → Type 0
AreSmall = All (λ e. e.1.shares < 2 ^ 32)

pub orders_at-le : (slot : Slot) (m : Map OrderRecord) → orders_at slot m ≤ length m
unfolding total one_in
orders_at-le slot [] = omega arith
orders_at-le slot ((k, r) ∷ m) = ground (arith, orders_at-le slot m)

pub shares_at-le :
    (slot : Slot) (m : Map OrderRecord)
    → AreSmall m
    → shares_at slot m ≤ orders_at slot m * (2 ^ 32 - 1)
unfolding total one_in shares_in
shares_at-le slot [] a = omega arith
shares_at-le slot ((k, r) ∷ m) a = ground (arith, shares_at-le slot m a.1)

-- A record of the index is counted in its slot.
pub orders_at_pos :
    (k : ℕ) (r : OrderRecord) (m : Map OrderRecord)
    → find k m ≡ some r
    → 1 ≤ orders_at (slot_of r) m
unfolding total one_in find
orders_at_pos k r [] h = cc
orders_at_pos k r ((i, w) ∷ m) h = ground (arith, orders_at_pos k r m, same_slot_refl (slot_of r))

pub shares_at-ge :
    (k : ℕ) (r : OrderRecord) (m : Map OrderRecord)
    → find k m ≡ some r
    → r.shares ≤ shares_at (slot_of r) m
unfolding total shares_in find
shares_at-ge k r [] h = cc
shares_at-ge k r ((i, w) ∷ m) h = ground (arith, shares_at-ge k r m, same_slot_refl (slot_of r))
