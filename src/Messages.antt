-- ===== src/Messages.antt =====
-- include/itch/messages.h, and `Price` of include/itch/price.h. A `char` is the number of its byte,
-- a `std::string` the list of its bytes; a number's width is a hypothesis where it matters.
use itch_parser.Prelude.{ℕ, List}

pub record Price : Type 0 where
  pub raw : ℕ

pub record StockDirectoryMsg : Type 0 where
  pub stock_locate : ℕ
  pub tracking_number : ℕ
  pub timestamp : ℕ
  pub stock : List ℕ
  pub market_category : ℕ
  pub financial_status : ℕ
  pub round_lot_size : ℕ
  pub round_lots_only : ℕ
  pub issue_classification : ℕ
  pub issue_sub_type : List ℕ
  pub authenticity : ℕ
  pub short_sale_threshold : ℕ
  pub ipo_flag : ℕ
  pub luld_ref_price_tier : ℕ
  pub etp_flag : ℕ
  pub etp_leverage_factor : ℕ
  pub inverse_indicator : ℕ

pub record StockTradingActionMsg : Type 0 where
  pub stock_locate : ℕ
  pub tracking_number : ℕ
  pub timestamp : ℕ
  pub stock : List ℕ
  pub trading_state : ℕ
  pub reserved : ℕ
  pub reason : List ℕ

pub record AddOrderMsg : Type 0 where
  pub stock_locate : ℕ
  pub tracking_number : ℕ
  pub timestamp : ℕ
  pub order_ref : ℕ
  pub side : ℕ
  pub shares : ℕ
  pub stock : List ℕ
  pub price : Price

pub record AddOrderMpidMsg : Type 0 where
  pub stock_locate : ℕ
  pub tracking_number : ℕ
  pub timestamp : ℕ
  pub order_ref : ℕ
  pub side : ℕ
  pub shares : ℕ
  pub stock : List ℕ
  pub price : Price
  pub attribution : List ℕ

pub record OrderExecutedMsg : Type 0 where
  pub stock_locate : ℕ
  pub tracking_number : ℕ
  pub timestamp : ℕ
  pub order_ref : ℕ
  pub executed_shares : ℕ
  pub match_number : ℕ

pub record OrderExecutedPriceMsg : Type 0 where
  pub stock_locate : ℕ
  pub tracking_number : ℕ
  pub timestamp : ℕ
  pub order_ref : ℕ
  pub executed_shares : ℕ
  pub match_number : ℕ
  pub printable : ℕ
  pub execution_price : Price

pub record OrderCancelMsg : Type 0 where
  pub stock_locate : ℕ
  pub tracking_number : ℕ
  pub timestamp : ℕ
  pub order_ref : ℕ
  pub cancelled_shares : ℕ

pub record OrderDeleteMsg : Type 0 where
  pub stock_locate : ℕ
  pub tracking_number : ℕ
  pub timestamp : ℕ
  pub order_ref : ℕ

pub record OrderReplaceMsg : Type 0 where
  pub stock_locate : ℕ
  pub tracking_number : ℕ
  pub timestamp : ℕ
  pub original_order_ref : ℕ
  pub new_order_ref : ℕ
  pub shares : ℕ
  pub price : Price

pub data ParsedMessage : Type 0 where
  stock_directory : StockDirectoryMsg → ParsedMessage
  stock_trading_action : StockTradingActionMsg → ParsedMessage
  add_order : AddOrderMsg → ParsedMessage
  add_order_mpid : AddOrderMpidMsg → ParsedMessage
  order_executed : OrderExecutedMsg → ParsedMessage
  order_executed_price : OrderExecutedPriceMsg → ParsedMessage
  order_cancel : OrderCancelMsg → ParsedMessage
  order_delete : OrderDeleteMsg → ParsedMessage
  order_replace : OrderReplaceMsg → ParsedMessage
