-- ===== src/Parser/RoundTrip.antt =====
-- Each deserialiser, and the dispatcher, give back the message that a sender wrote.
use itch_parser.Messages.{
  ParsedMessage, StockDirectoryMsg, StockTradingActionMsg, AddOrderMsg, AddOrderMpidMsg,
  OrderExecutedMsg, OrderExecutedPriceMsg, OrderCancelMsg, OrderDeleteMsg, OrderReplaceMsg,
  stock_directory, stock_trading_action, add_order, add_order_mpid, order_executed,
  order_executed_price, order_cancel, order_delete, order_replace,
}
use itch_parser.Parser.Encode.{
  write_stock_directory, write_stock_trading_action, write_add_order, write_add_order_mpid,
  write_order_executed, write_order_executed_price, write_order_cancel, write_order_delete,
  write_order_replace, FitsStockDirectoryMsg, FitsStockTradingActionMsg, FitsAddOrderMsg,
  FitsAddOrderMpidMsg, FitsOrderExecutedMsg, FitsOrderExecutedPriceMsg, FitsOrderCancelMsg,
  FitsOrderDeleteMsg, FitsOrderReplaceMsg, write_message, FitsWire,
}
use itch_parser.Parser.Guard.{require_fits}
use itch_parser.Parser.{
  parse_stock_directory, parse_trading_action, parse_add_order, parse_add_order_mpid,
  parse_order_executed, parse_order_executed_price, parse_order_cancel, parse_order_delete,
  parse_order_replace, parse,
}
use itch_parser.Prelude.Result.{ok}
use itch_parser.Prelude.{ℕ, List, ◌≡◌, some, arith}
use itch_parser.Wire.Alpha.{read_alpha-write_alpha}
use itch_parser.Wire.Numbers.{
  read_be16-write_be16, read_be32-write_be32, read_be48-write_be48, read_be64-write_be64,
}

pub parse_stock_directory-write_stock_directory :
    (m : StockDirectoryMsg) (rest : List ℕ)
    → FitsStockDirectoryMsg m
    → parse_stock_directory (write_stock_directory m rest) ≡ ok m
unfolding parse_stock_directory
parse_stock_directory-write_stock_directory m rest f = rw (
  require_fits (write_stock_directory m rest) 39 "StockDirectory" (omega arith),
  read_be16-write_be16 m.stock_locate _ f.stock_locate,
  read_be16-write_be16 m.tracking_number _ f.tracking_number,
  read_be48-write_be48 m.timestamp _ f.timestamp,
  read_alpha-write_alpha 8 m.stock _ f.stock,
  read_be32-write_be32 m.round_lot_size _ f.round_lot_size,
  read_alpha-write_alpha 2 m.issue_sub_type _ f.issue_sub_type,
  read_be32-write_be32 m.etp_leverage_factor _ f.etp_leverage_factor,
)

pub parse_trading_action-write_stock_trading_action :
    (m : StockTradingActionMsg) (rest : List ℕ)
    → FitsStockTradingActionMsg m
    → parse_trading_action (write_stock_trading_action m rest) ≡ ok m
unfolding parse_trading_action
parse_trading_action-write_stock_trading_action m rest f = rw (
  require_fits (write_stock_trading_action m rest) 25 "StockTradingAction" (omega arith),
  read_be16-write_be16 m.stock_locate _ f.stock_locate,
  read_be16-write_be16 m.tracking_number _ f.tracking_number,
  read_be48-write_be48 m.timestamp _ f.timestamp,
  read_alpha-write_alpha 8 m.stock _ f.stock,
  read_alpha-write_alpha 4 m.reason _ f.reason,
)

pub parse_add_order-write_add_order :
    (m : AddOrderMsg) (rest : List ℕ)
    → FitsAddOrderMsg m
    → parse_add_order (write_add_order m rest) ≡ ok m
unfolding parse_add_order
parse_add_order-write_add_order m rest f = rw (
  require_fits (write_add_order m rest) 36 "AddOrder" (omega arith),
  read_be16-write_be16 m.stock_locate _ f.stock_locate,
  read_be16-write_be16 m.tracking_number _ f.tracking_number,
  read_be48-write_be48 m.timestamp _ f.timestamp,
  read_be64-write_be64 m.order_ref _ f.order_ref,
  read_be32-write_be32 m.shares _ f.shares,
  read_alpha-write_alpha 8 m.stock _ f.stock,
  read_be32-write_be32 m.price.raw _ f.price,
)

pub parse_add_order_mpid-write_add_order_mpid :
    (m : AddOrderMpidMsg) (rest : List ℕ)
    → FitsAddOrderMpidMsg m
    → parse_add_order_mpid (write_add_order_mpid m rest) ≡ ok m
unfolding parse_add_order_mpid
parse_add_order_mpid-write_add_order_mpid m rest f = rw (
  require_fits (write_add_order_mpid m rest) 40 "AddOrderMPID" (omega arith),
  read_be16-write_be16 m.stock_locate _ f.stock_locate,
  read_be16-write_be16 m.tracking_number _ f.tracking_number,
  read_be48-write_be48 m.timestamp _ f.timestamp,
  read_be64-write_be64 m.order_ref _ f.order_ref,
  read_be32-write_be32 m.shares _ f.shares,
  read_alpha-write_alpha 8 m.stock _ f.stock,
  read_be32-write_be32 m.price.raw _ f.price,
  read_alpha-write_alpha 4 m.attribution _ f.attribution,
)

pub parse_order_executed-write_order_executed :
    (m : OrderExecutedMsg) (rest : List ℕ)
    → FitsOrderExecutedMsg m
    → parse_order_executed (write_order_executed m rest) ≡ ok m
unfolding parse_order_executed
parse_order_executed-write_order_executed m rest f = rw (
  require_fits (write_order_executed m rest) 31 "OrderExecuted" (omega arith),
  read_be16-write_be16 m.stock_locate _ f.stock_locate,
  read_be16-write_be16 m.tracking_number _ f.tracking_number,
  read_be48-write_be48 m.timestamp _ f.timestamp,
  read_be64-write_be64 m.order_ref _ f.order_ref,
  read_be32-write_be32 m.executed_shares _ f.executed_shares,
  read_be64-write_be64 m.match_number _ f.match_number,
)

pub parse_order_executed_price-write_order_executed_price :
    (m : OrderExecutedPriceMsg) (rest : List ℕ)
    → FitsOrderExecutedPriceMsg m
    → parse_order_executed_price (write_order_executed_price m rest) ≡ ok m
unfolding parse_order_executed_price
parse_order_executed_price-write_order_executed_price m rest f = rw (
  require_fits (write_order_executed_price m rest) 36 "OrderExecutedPrice" (omega arith),
  read_be16-write_be16 m.stock_locate _ f.stock_locate,
  read_be16-write_be16 m.tracking_number _ f.tracking_number,
  read_be48-write_be48 m.timestamp _ f.timestamp,
  read_be64-write_be64 m.order_ref _ f.order_ref,
  read_be32-write_be32 m.executed_shares _ f.executed_shares,
  read_be64-write_be64 m.match_number _ f.match_number,
  read_be32-write_be32 m.execution_price.raw _ f.execution_price,
)

pub parse_order_cancel-write_order_cancel :
    (m : OrderCancelMsg) (rest : List ℕ)
    → FitsOrderCancelMsg m
    → parse_order_cancel (write_order_cancel m rest) ≡ ok m
unfolding parse_order_cancel
parse_order_cancel-write_order_cancel m rest f = rw (
  require_fits (write_order_cancel m rest) 23 "OrderCancel" (omega arith),
  read_be16-write_be16 m.stock_locate _ f.stock_locate,
  read_be16-write_be16 m.tracking_number _ f.tracking_number,
  read_be48-write_be48 m.timestamp _ f.timestamp,
  read_be64-write_be64 m.order_ref _ f.order_ref,
  read_be32-write_be32 m.cancelled_shares _ f.cancelled_shares,
)

pub parse_order_delete-write_order_delete :
    (m : OrderDeleteMsg) (rest : List ℕ)
    → FitsOrderDeleteMsg m
    → parse_order_delete (write_order_delete m rest) ≡ ok m
unfolding parse_order_delete
parse_order_delete-write_order_delete m rest f = rw (
  require_fits (write_order_delete m rest) 19 "OrderDelete" (omega arith),
  read_be16-write_be16 m.stock_locate _ f.stock_locate,
  read_be16-write_be16 m.tracking_number _ f.tracking_number,
  read_be48-write_be48 m.timestamp _ f.timestamp,
  read_be64-write_be64 m.order_ref _ f.order_ref,
)

pub parse_order_replace-write_order_replace :
    (m : OrderReplaceMsg) (rest : List ℕ)
    → FitsOrderReplaceMsg m
    → parse_order_replace (write_order_replace m rest) ≡ ok m
unfolding parse_order_replace
parse_order_replace-write_order_replace m rest f = rw (
  require_fits (write_order_replace m rest) 35 "OrderReplace" (omega arith),
  read_be16-write_be16 m.stock_locate _ f.stock_locate,
  read_be16-write_be16 m.tracking_number _ f.tracking_number,
  read_be48-write_be48 m.timestamp _ f.timestamp,
  read_be64-write_be64 m.original_order_ref _ f.original_order_ref,
  read_be64-write_be64 m.new_order_ref _ f.new_order_ref,
  read_be32-write_be32 m.shares _ f.shares,
  read_be32-write_be32 m.price.raw _ f.price,
)

-- Parsing a buffer that holds a message's wire form gives that message, for every message whose
-- fields fit the wire, and whatever follows it in the buffer.
pub parse-write_message :
    (m : ParsedMessage) (rest : List ℕ) → FitsWire m → parse (write_message m rest) ≡ ok (some m)
unfolding parse
parse-write_message (stock_directory m) rest f =
    rw (parse_stock_directory-write_stock_directory m rest f)
parse-write_message (stock_trading_action m) rest f =
    rw (parse_trading_action-write_stock_trading_action m rest f)
parse-write_message (add_order m) rest f = rw (parse_add_order-write_add_order m rest f)
parse-write_message (add_order_mpid m) rest f =
    rw (parse_add_order_mpid-write_add_order_mpid m rest f)
parse-write_message (order_executed m) rest f =
    rw (parse_order_executed-write_order_executed m rest f)
parse-write_message (order_executed_price m) rest f =
    rw (parse_order_executed_price-write_order_executed_price m rest f)
parse-write_message (order_cancel m) rest f = rw (parse_order_cancel-write_order_cancel m rest f)
parse-write_message (order_delete m) rest f = rw (parse_order_delete-write_order_delete m rest f)
parse-write_message (order_replace m) rest f = rw (parse_order_replace-write_order_replace m rest f)
