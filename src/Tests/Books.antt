-- ===== src/Tests/Books.antt =====
-- The engine and the snapshots at concrete histories.
use itch_parser.Book.Levels.{side_of}
use itch_parser.Book.{
  insert_shares, remove_shares, refresh_top, clamped_sub, set_mpid_from, mpid_view, OrderBook,
  OrderRecord, PriceLevel, reduced, insert, remove,
}
use itch_parser.Book.Mpid.{mpid_view-set_mpid_from}
use itch_parser.Engine.Consistency.Run.{
  AllAdmissible, handle-IsConsistent, level-handle_all, new_core-IsConsistent,
}
use itch_parser.Engine.Consistency.{IsConsistent}
use itch_parser.Engine.Effects.{reduce_order_lem}
use itch_parser.Engine.Order.{AreOrdered, AsGood, handle-AreOrdered, best-handle_all, top_of}
use itch_parser.Engine.Slots.{Slot, level, orders_at, shares_at}
use itch_parser.Engine.{
  InstrumentInfo, new_core, handle, handle_all, increment, reduce_order, handle_stock_directory,
  add_order_impl, handle_replace, handle_delete, get_or_create_book, stamp_book,
  register_instrument, skip,
}
use itch_parser.Map.{find, erase, assign, place}
use itch_parser.Messages.{stock_directory, add_order}
use itch_parser.Prelude.{
  ℕ, ◌-◌, ◌<◌, ◌≡◌, refl, true, List, [], ◌∷◌, none, some, arith, map, ltb, leb, ◌==◌,
  if◌then◌else◌,
}
use itch_parser.Snapshot.Coverage.{build_snapshot_covers}
use itch_parser.Snapshot.{OrderBookSnapshot, build_snapshot, to_lower}
use itch_parser.Tests.Samples.{listed, buy, sell, history, two_orders}
use itch_parser.TextMap.{find_text}

lt_lem : (a b : ℕ) → ltb a b ≡ true → a < b
lt_lem a b h = ground arith

abbrev price_units : ℕ → ℕ
price_units n = n

abbrev order : OrderRecord
order = record {
  shares = 100;
  price = record { raw = 1500000 };
  stock_locate = 1;
  side = b'B';
  mpid = 0 ∷ 0 ∷ 0 ∷ 0 ∷ [];
}

abbrev pub shown : PriceLevel
shown = record { price = record { raw = 1500000 }; total_shares = 100; order_count = 1 }

abbrev pub offered : PriceLevel
offered = record { price = record { raw = 1500100 }; total_shares = 50; order_count = 1 }

abbrev book : OrderBook
book = record {
  stock_locate = 1;
  last_update_timestamp = 10;
  bids = (1500000, shown) ∷ [];
  asks = (1500100, offered) ∷ [];
  best_bid = some 1500000;
  best_ask = some 1500100;
}

abbrev pub info : InstrumentInfo
info = record {
  stock_locate = 1;
  symbol = listed.stock;
  trading_state = b'T';
  round_lot_size = 100;
  market_category = b'Q';
  financial_status = b'N';
}

abbrev bid_slot : Slot
bid_slot = record { stock_locate = 1; is_bid = true; price = 1499900 }

history-AllAdmissible : AllAdmissible history new_core
unfolding handle handle_all handle_stock_directory add_order_impl reduce_order handle_replace
    handle_delete get_or_create_book stamp_book register_instrument skip find assign erase place
    insert reduced remove insert_shares remove_shares refresh_top clamped_sub set_mpid_from
history-AllAdmissible = (
  tt,
  (
    (refl, omega arith, lt_lem _ _ refl),
    ((refl, omega arith, lt_lem _ _ refl), (tt, ((refl, omega arith), (tt, tt)))),
  ),
)

level-handle_all_example :
    let c = handle_all history new_core in
    ((level c.books bid_slot).order_count ≡ orders_at bid_slot c.order_index)
    × ((level c.books bid_slot).total_shares ≡ shares_at bid_slot c.order_index)
level-handle_all_example = level-handle_all history bid_slot history-AllAdmissible

handle-IsConsistent_example : IsConsistent (handle (add_order buy) new_core)
unfolding find
handle-IsConsistent_example =
    handle-IsConsistent (add_order buy) new_core (refl, omega arith, omega arith)
      new_core-IsConsistent

handle-AreOrdered_example : AreOrdered (handle (add_order buy) new_core).books
handle-AreOrdered_example = handle-AreOrdered (add_order buy) new_core tt

-- The buy order after the fill of 30 shares.
reduce_order_lem_example :
    let d = reduce_order 7 30 11 two_orders in
    (find 7 d.order_index ≡ (
      if 7 == 7
      then (if leb 100 30 then none else some (record order { shares = 100 - 30 }))
      else find 7 two_orders.order_index))
    × (d.corrupt_messages ≡ (
        if ltb 100 30 then increment two_orders.corrupt_messages else two_orders.corrupt_messages))
    × (d.skipped_unknown_ref ≡ two_orders.skipped_unknown_ref)
unfolding handle handle_all handle_stock_directory add_order_impl reduce_order handle_replace
    handle_delete get_or_create_book stamp_book register_instrument skip find assign erase place
    insert reduced remove insert_shares remove_shares refresh_top clamped_sub set_mpid_from
reduce_order_lem_example = reduce_order_lem 7 30 11 7 two_orders order refl

best-handle_all_example :
    (b : ℕ) × (w : PriceLevel) × (top_of true book ≡ some b)
    × (find b (side_of true book) ≡ some w)
    × AsGood true 1500000 b
unfolding handle handle_all handle_stock_directory add_order_impl reduce_order handle_replace
    handle_delete get_or_create_book stamp_book register_instrument skip find assign erase place
    insert reduced remove insert_shares remove_shares refresh_top clamped_sub set_mpid_from
best-handle_all_example =
    best-handle_all (stock_directory listed ∷ add_order buy ∷ add_order sell ∷ []) 1 1500000 true
      book shown refl refl

build_snapshot_covers_example :
    let snap = build_snapshot price_units 3 true 9 two_orders in
    (symbol : List ℕ) × (find_text (map to_lower info.symbol) snap.symbol_index ≡ some symbol)
    × (map to_lower symbol ≡ map to_lower info.symbol)
    × ((x : OrderBookSnapshot ℕ) × (find_text symbol snap.books ≡ some x))
unfolding handle handle_all handle_stock_directory add_order_impl reduce_order handle_replace
    handle_delete get_or_create_book stamp_book register_instrument skip find assign erase place
    insert reduced remove insert_shares remove_shares refresh_top clamped_sub set_mpid_from
build_snapshot_covers_example = build_snapshot_covers price_units 3 true 9 two_orders 1 info refl

-- A two-letter identifier.
mpid_view-set_mpid_from_example :
    mpid_view (set_mpid_from (b'G' ∷ b'S' ∷ []) order).mpid ≡ b'G' ∷ b'S' ∷ []
mpid_view-set_mpid_from_example =
    mpid_view-set_mpid_from (b'G' ∷ b'S' ∷ []) order (omega arith)
      ((λ e. absurd (omega (arith, e))), (λ e. absurd (omega (arith, e))))
