-- ===== src/Engine/Consistency/Run.antt =====
-- The invariant over whole histories of messages.
use itch_parser.Engine.Consistency.Handlers.{
  add_order_impl-IsConsistent, handle_delete-IsConsistent, reduce_order-IsConsistent,
  handle_replace-IsConsistent,
}
use itch_parser.Engine.Consistency.{IsConsistent}
use itch_parser.Engine.Slots.{Slot, level, orders_at, shares_at}
use itch_parser.Engine.{
  Core, new_core, handle, handle_all, handle_stock_directory, handle_trading_action,
}
use itch_parser.Map.Total.{total}
use itch_parser.Map.{find, erase}
use itch_parser.Messages.{
  ParsedMessage, stock_directory, stock_trading_action, add_order, add_order_mpid, order_executed,
  order_executed_price, order_cancel, order_delete, order_replace,
}
use itch_parser.Prelude.{
  ◌+◌, ◌^◌, ◌<◌, ◌≡◌, refl, List, [], ◌∷◌, none, arith, length, Option-cases, inl, inr,
}

-- What a message must meet: a new order's reference is not in use, its shares are a `uint32_t`,
-- and the live orders can be counted by a `uint32_t`.
abbrev pub Admissible : ParsedMessage → Core → Type 0
Admissible (add_order m) c =
    (find m.order_ref c.order_index ≡ none)
    × (m.shares < 2 ^ 32)
    × (length c.order_index + 1 < 2 ^ 32)
Admissible (add_order_mpid m) c =
    (find m.order_ref c.order_index ≡ none)
    × (m.shares < 2 ^ 32)
    × (length c.order_index + 1 < 2 ^ 32)
Admissible (order_replace m) c =
    (find m.new_order_ref (erase m.original_order_ref c.order_index) ≡ none) × (m.shares < 2 ^ 32)
Admissible (stock_directory m) c = Unit
Admissible (stock_trading_action m) c = Unit
Admissible (order_executed m) c = Unit
Admissible (order_executed_price m) c = Unit
Admissible (order_cancel m) c = Unit
Admissible (order_delete m) c = Unit

-- Every handler keeps the books consistent with the live orders: with `Admissible` for a message
-- that brings an order, and always for the others, unknown references, oversized executions and
-- cancellations included.
pub handle-IsConsistent :
    (m : ParsedMessage) (c : Core) → Admissible m c → IsConsistent c → IsConsistent (handle m c)
unfolding handle handle_stock_directory handle_trading_action
handle-IsConsistent (stock_directory m) c a v = record {
  distinct = v.distinct;
  small = v.small;
  fits = v.fits;
  agrees = v.agrees;
}
handle-IsConsistent (stock_trading_action m) c a v =
    elim (Option-cases (find m.stock_locate c.instruments)) [
      | inl absent ↦ rw (absent, handle_trading_action) v
      | inr (info, there) ↦
          rw (there, handle_trading_action)
            (record { distinct = v.distinct; small = v.small; fits = v.fits; agrees = v.agrees })
    ]
handle-IsConsistent (add_order m) c (new, h, fits) v =
    add_order_impl-IsConsistent c v m.stock_locate m.order_ref m.side m.shares m.price m.timestamp
      [] new h fits
handle-IsConsistent (add_order_mpid m) c (new, h, fits) v =
    add_order_impl-IsConsistent c v m.stock_locate m.order_ref m.side m.shares m.price m.timestamp
      m.attribution new h fits
handle-IsConsistent (order_executed m) c a v =
    reduce_order-IsConsistent c v m.order_ref m.executed_shares m.timestamp
handle-IsConsistent (order_executed_price m) c a v =
    reduce_order-IsConsistent c v m.order_ref m.executed_shares m.timestamp
handle-IsConsistent (order_cancel m) c a v =
    reduce_order-IsConsistent c v m.order_ref m.cancelled_shares m.timestamp
handle-IsConsistent (order_delete m) c a v = handle_delete-IsConsistent c v m
handle-IsConsistent (order_replace m) c (new, h) v = handle_replace-IsConsistent c v m new h

pub new_core-IsConsistent : IsConsistent new_core
unfolding total find
new_core-IsConsistent = record {
  distinct = tt;
  small = tt;
  fits = omega arith;
  agrees = λ slot. (refl, refl);
}

-- Each message of a history is admissible in the state that the ones before it leave.
abbrev pub AllAdmissible : List ParsedMessage → Core → Type 0
AllAdmissible [] c = Unit
AllAdmissible (m ∷ ms) c = Admissible m c × AllAdmissible ms (handle m c)

pub handle_all-IsConsistent :
    (ms : List ParsedMessage) (c : Core)
    → AllAdmissible ms c
    → IsConsistent c
    → IsConsistent (handle_all ms c)
unfolding handle_all
handle_all-IsConsistent [] c a v = v
handle_all-IsConsistent (m ∷ ms) c a v =
    handle_all-IsConsistent ms (handle m c) a.1 (handle-IsConsistent m c a.0 v)

-- After any history of admissible messages from the empty engine, the book of every locate shows,
-- on each side and at each price, the number of the live orders that rest there and the sum of
-- their shares; where none rests it shows no order and no share.
pub level-handle_all :
    (ms : List ParsedMessage) (slot : Slot)
    → AllAdmissible ms new_core
    → let c = handle_all ms new_core in
      ((level c.books slot).order_count ≡ orders_at slot c.order_index)
      × ((level c.books slot).total_shares ≡ shares_at slot c.order_index)
level-handle_all ms slot a =
    (handle_all-IsConsistent ms new_core a new_core-IsConsistent).agrees slot
