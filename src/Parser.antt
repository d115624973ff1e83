-- ===== src/Parser.antt =====
-- src/parser.h and src/parser.cpp: the deserialisers and the dispatcher. The two dispatchers of
-- the source, the jump table and the switch, are one function here.
pub mod Encode
pub mod Guard
pub mod RoundTrip
pub mod Outcome
use itch_parser.Messages.{
  ParsedMessage, StockDirectoryMsg, StockTradingActionMsg, AddOrderMsg, AddOrderMpidMsg,
  OrderExecutedMsg, OrderExecutedPriceMsg, OrderCancelMsg, OrderDeleteMsg, OrderReplaceMsg,
  stock_directory, stock_trading_action, add_order, add_order_mpid, order_executed,
  order_executed_price, order_cancel, order_delete, order_replace,
}
use itch_parser.Prelude.{
  ℕ, String, List, [], ◌∷◌, Option, none, some, drop, length, ltb, ◌==◌, if◌then◌else◌,
}
use itch_parser.Prelude.Result.{
  Result, ok, err, runtime_error, truncated_message, empty_message_buffer, ◌>>=◌, ◌>>◌,
}
use itch_parser.Wire.{byte, read_be16, read_be32, read_be48, read_be64, read_alpha}

-- The exception's text is made of the type's name and the two sizes, which `truncated_message` holds.
unfoldable pub require : List ℕ → ℕ → String → Result (Unit {0})
require buf needed msg_type =
    if ltb (length buf) needed
    then err (runtime_error (truncated_message msg_type needed (length buf)))
    else ok tt

unfoldable pub parse_stock_directory : List ℕ → Result StockDirectoryMsg
unfolding require
parse_stock_directory p = do
  require p 39 "StockDirectory"
  stock_locate ← read_be16 (drop 1 p)
  tracking_number ← read_be16 (drop 3 p)
  timestamp ← read_be48 (drop 5 p)
  stock ← read_alpha (drop 11 p) 8
  market_category ← byte p 19
  financial_status ← byte p 20
  round_lot_size ← read_be32 (drop 21 p)
  round_lots_only ← byte p 25
  issue_classification ← byte p 26
  issue_sub_type ← read_alpha (drop 27 p) 2
  authenticity ← byte p 29
  short_sale_threshold ← byte p 30
  ipo_flag ← byte p 31
  luld_ref_price_tier ← byte p 32
  etp_flag ← byte p 33
  etp_leverage_factor ← read_be32 (drop 34 p)
  inverse_indicator ← byte p 38
  ok (record {
    stock_locate = stock_locate;
    tracking_number = tracking_number;
    timestamp = timestamp;
    stock = stock;
    market_category = market_category;
    financial_status = financial_status;
    round_lot_size = round_lot_size;
    round_lots_only = round_lots_only;
    issue_classification = issue_classification;
    issue_sub_type = issue_sub_type;
    authenticity = authenticity;
    short_sale_threshold = short_sale_threshold;
    ipo_flag = ipo_flag;
    luld_ref_price_tier = luld_ref_price_tier;
    etp_flag = etp_flag;
    etp_leverage_factor = etp_leverage_factor;
    inverse_indicator = inverse_indicator;
  })

unfoldable pub parse_trading_action : List ℕ → Result StockTradingActionMsg
unfolding require
parse_trading_action p = do
  require p 25 "StockTradingAction"
  stock_locate ← read_be16 (drop 1 p)
  tracking_number ← read_be16 (drop 3 p)
  timestamp ← read_be48 (drop 5 p)
  stock ← read_alpha (drop 11 p) 8
  trading_state ← byte p 19
  reserved ← byte p 20
  reason ← read_alpha (drop 21 p) 4
  ok (record {
    stock_locate = stock_locate;
    tracking_number = tracking_number;
    timestamp = timestamp;
    stock = stock;
    trading_state = trading_state;
    reserved = reserved;
    reason = reason;
  })

unfoldable pub parse_add_order : List ℕ → Result AddOrderMsg
unfolding require
parse_add_order p = do
  require p 36 "AddOrder"
  stock_locate ← read_be16 (drop 1 p)
  tracking_number ← read_be16 (drop 3 p)
  timestamp ← read_be48 (drop 5 p)
  order_ref ← read_be64 (drop 11 p)
  side ← byte p 19
  shares ← read_be32 (drop 20 p)
  stock ← read_alpha (drop 24 p) 8
  price ← read_be32 (drop 32 p)
  ok (record {
    stock_locate = stock_locate;
    tracking_number = tracking_number;
    timestamp = timestamp;
    order_ref = order_ref;
    side = side;
    shares = shares;
    stock = stock;
    price = record { raw = price };
  })

unfoldable pub parse_add_order_mpid : List ℕ → Result AddOrderMpidMsg
unfolding require
parse_add_order_mpid p = do
  require p 40 "AddOrderMPID"
  stock_locate ← read_be16 (drop 1 p)
  tracking_number ← read_be16 (drop 3 p)
  timestamp ← read_be48 (drop 5 p)
  order_ref ← read_be64 (drop 11 p)
  side ← byte p 19
  shares ← read_be32 (drop 20 p)
  stock ← read_alpha (drop 24 p) 8
  price ← read_be32 (drop 32 p)
  attribution ← read_alpha (drop 36 p) 4
  ok (record {
    stock_locate = stock_locate;
    tracking_number = tracking_number;
    timestamp = timestamp;
    order_ref = order_ref;
    side = side;
    shares = shares;
    stock = stock;
    price = record { raw = price };
    attribution = attribution;
  })

unfoldable pub parse_order_executed : List ℕ → Result OrderExecutedMsg
unfolding require
parse_order_executed p = do
  require p 31 "OrderExecuted"
  stock_locate ← read_be16 (drop 1 p)
  tracking_number ← read_be16 (drop 3 p)
  timestamp ← read_be48 (drop 5 p)
  order_ref ← read_be64 (drop 11 p)
  executed_shares ← read_be32 (drop 19 p)
  match_number ← read_be64 (drop 23 p)
  ok (record {
    stock_locate = stock_locate;
    tracking_number = tracking_number;
    timestamp = timestamp;
    order_ref = order_ref;
    executed_shares = executed_shares;
    match_number = match_number;
  })

unfoldable pub parse_order_executed_price : List ℕ → Result OrderExecutedPriceMsg
unfolding require
parse_order_executed_price p = do
  require p 36 "OrderExecutedPrice"
  stock_locate ← read_be16 (drop 1 p)
  tracking_number ← read_be16 (drop 3 p)
  timestamp ← read_be48 (drop 5 p)
  order_ref ← read_be64 (drop 11 p)
  executed_shares ← read_be32 (drop 19 p)
  match_number ← read_be64 (drop 23 p)
  printable ← byte p 31
  execution_price ← read_be32 (drop 32 p)
  ok (record {
    stock_locate = stock_locate;
    tracking_number = tracking_number;
    timestamp = timestamp;
    order_ref = order_ref;
    executed_shares = executed_shares;
    match_number = match_number;
    printable = printable;
    execution_price = record { raw = execution_price };
  })

unfoldable pub parse_order_cancel : List ℕ → Result OrderCancelMsg
unfolding require
parse_order_cancel p = do
  require p 23 "OrderCancel"
  stock_locate ← read_be16 (drop 1 p)
  tracking_number ← read_be16 (drop 3 p)
  timestamp ← read_be48 (drop 5 p)
  order_ref ← read_be64 (drop 11 p)
  cancelled_shares ← read_be32 (drop 19 p)
  ok (record {
    stock_locate = stock_locate;
    tracking_number = tracking_number;
    timestamp = timestamp;
    order_ref = order_ref;
    cancelled_shares = cancelled_shares;
  })

unfoldable pub parse_order_delete : List ℕ → Result OrderDeleteMsg
unfolding require
parse_order_delete p = do
  require p 19 "OrderDelete"
  stock_locate ← read_be16 (drop 1 p)
  tracking_number ← read_be16 (drop 3 p)
  timestamp ← read_be48 (drop 5 p)
  order_ref ← read_be64 (drop 11 p)
  ok (record {
    stock_locate = stock_locate;
    tracking_number = tracking_number;
    timestamp = timestamp;
    order_ref = order_ref;
  })

unfoldable pub parse_order_replace : List ℕ → Result OrderReplaceMsg
unfolding require
parse_order_replace p = do
  require p 35 "OrderReplace"
  stock_locate ← read_be16 (drop 1 p)
  tracking_number ← read_be16 (drop 3 p)
  timestamp ← read_be48 (drop 5 p)
  original_order_ref ← read_be64 (drop 11 p)
  new_order_ref ← read_be64 (drop 19 p)
  shares ← read_be32 (drop 27 p)
  price ← read_be32 (drop 31 p)
  ok (record {
    stock_locate = stock_locate;
    tracking_number = tracking_number;
    timestamp = timestamp;
    original_order_ref = original_order_ref;
    new_order_ref = new_order_ref;
    shares = shares;
    price = record { raw = price };
  })

unfoldable pub dispatch : ℕ → List ℕ → Result (Option ParsedMessage)
dispatch t buf =
    if t == b'R'
    then parse_stock_directory buf >>= (λ m. ok (some (stock_directory m)))
    else if t == b'H'
    then parse_trading_action buf >>= (λ m. ok (some (stock_trading_action m)))
    else if t == b'A'
    then parse_add_order buf >>= (λ m. ok (some (add_order m)))
    else if t == b'F'
    then parse_add_order_mpid buf >>= (λ m. ok (some (add_order_mpid m)))
    else if t == b'E'
    then parse_order_executed buf >>= (λ m. ok (some (order_executed m)))
    else if t == b'C'
    then parse_order_executed_price buf >>= (λ m. ok (some (order_executed_price m)))
    else if t == b'X'
    then parse_order_cancel buf >>= (λ m. ok (some (order_cancel m)))
    else if t == b'D'
    then parse_order_delete buf >>= (λ m. ok (some (order_delete m)))
    else if t == b'U'
    then parse_order_replace buf >>= (λ m. ok (some (order_replace m)))
    else ok none

unfoldable pub parse : List ℕ → Result (Option ParsedMessage)
unfolding dispatch
parse [] = err (runtime_error empty_message_buffer)
parse (t ∷ p) = dispatch t (t ∷ p)
