-- ===== src/Parser/Encode.antt =====
-- The wire format of the messages, from the offsets and widths of the ITCH 5.0 layout: what a
-- sender writes. `rest` is what stands behind the message in the buffer.
use itch_parser.Messages.{
  ParsedMessage, StockDirectoryMsg, StockTradingActionMsg, AddOrderMsg, AddOrderMpidMsg,
  OrderExecutedMsg, OrderExecutedPriceMsg, OrderCancelMsg, OrderDeleteMsg, OrderReplaceMsg,
  stock_directory, stock_trading_action, add_order, add_order_mpid, order_executed,
  order_executed_price, order_cancel, order_delete, order_replace,
}
use itch_parser.Prelude.{ℕ, List, ◌∷◌, ◌^◌, ◌<◌}
use itch_parser.Wire.Alpha.{write_alpha, FitsAlpha}
use itch_parser.Wire.Numbers.{write_be16, write_be32, write_be48, write_be64}

abbrev pub write_stock_directory : StockDirectoryMsg → List ℕ → List ℕ
write_stock_directory m rest =
    b'R'
    ∷ write_be16 m.stock_locate (
        write_be16 m.tracking_number (
          write_be48 m.timestamp (
            write_alpha 8 m.stock (
              m.market_category
              ∷ m.financial_status
              ∷ write_be32 m.round_lot_size (
                  m.round_lots_only
                  ∷ m.issue_classification
                  ∷ write_alpha 2 m.issue_sub_type (
                      m.authenticity
                      ∷ m.short_sale_threshold
                      ∷ m.ipo_flag
                      ∷ m.luld_ref_price_tier
                      ∷ m.etp_flag
                      ∷ write_be32 m.etp_leverage_factor (m.inverse_indicator ∷ rest)))))))

-- Every field has a value that its bytes can carry.
pub record FitsStockDirectoryMsg (m : StockDirectoryMsg) : Type 0 where
  pub stock_locate : m.stock_locate < 2 ^ 16
  pub tracking_number : m.tracking_number < 2 ^ 16
  pub timestamp : m.timestamp < 2 ^ 48
  pub stock : FitsAlpha 8 m.stock
  pub round_lot_size : m.round_lot_size < 2 ^ 32
  pub issue_sub_type : FitsAlpha 2 m.issue_sub_type
  pub etp_leverage_factor : m.etp_leverage_factor < 2 ^ 32

abbrev pub write_stock_trading_action : StockTradingActionMsg → List ℕ → List ℕ
write_stock_trading_action m rest =
    b'H'
    ∷ write_be16 m.stock_locate (
        write_be16 m.tracking_number (
          write_be48 m.timestamp
            (write_alpha 8 m.stock (m.trading_state ∷ m.reserved ∷ write_alpha 4 m.reason (rest)))))

-- Every field has a value that its bytes can carry.
pub record FitsStockTradingActionMsg (m : StockTradingActionMsg) : Type 0 where
  pub stock_locate : m.stock_locate < 2 ^ 16
  pub tracking_number : m.tracking_number < 2 ^ 16
  pub timestamp : m.timestamp < 2 ^ 48
  pub stock : FitsAlpha 8 m.stock
  pub reason : FitsAlpha 4 m.reason

abbrev pub write_add_order : AddOrderMsg → List ℕ → List ℕ
write_add_order m rest =
    b'A'
    ∷ write_be16 m.stock_locate (
        write_be16 m.tracking_number (
          write_be48 m.timestamp (
            write_be64 m.order_ref (
              m.side
              ∷ write_be32 m.shares (write_alpha 8 m.stock (write_be32 m.price.raw (rest)))))))

-- Every field has a value that its bytes can carry.
pub record FitsAddOrderMsg (m : AddOrderMsg) : Type 0 where
  pub stock_locate : m.stock_locate < 2 ^ 16
  pub tracking_number : m.tracking_number < 2 ^ 16
  pub timestamp : m.timestamp < 2 ^ 48
  pub order_ref : m.order_ref < 2 ^ 64
  pub shares : m.shares < 2 ^ 32
  pub stock : FitsAlpha 8 m.stock
  pub price : m.price.raw < 2 ^ 32

abbrev pub write_add_order_mpid : AddOrderMpidMsg → List ℕ → List ℕ
write_add_order_mpid m rest =
    b'F'
    ∷ write_be16 m.stock_locate (
        write_be16 m.tracking_number (
          write_be48 m.timestamp (
            write_be64 m.order_ref (
              m.side
              ∷ write_be32 m.shares (
                  write_alpha 8 m.stock
                    (write_be32 m.price.raw (write_alpha 4 m.attribution (rest))))))))

-- Every field has a value that its bytes can carry.
pub record FitsAddOrderMpidMsg (m : AddOrderMpidMsg) : Type 0 where
  pub stock_locate : m.stock_locate < 2 ^ 16
  pub tracking_number : m.tracking_number < 2 ^ 16
  pub timestamp : m.timestamp < 2 ^ 48
  pub order_ref : m.order_ref < 2 ^ 64
  pub shares : m.shares < 2 ^ 32
  pub stock : FitsAlpha 8 m.stock
  pub price : m.price.raw < 2 ^ 32
  pub attribution : FitsAlpha 4 m.attribution

abbrev pub write_order_executed : OrderExecutedMsg → List ℕ → List ℕ
write_order_executed m rest =
    b'E'
    ∷ write_be16 m.stock_locate (
        write_be16 m.tracking_number (
          write_be48 m.timestamp (
            write_be64 m.order_ref
              (write_be32 m.executed_shares (write_be64 m.match_number (rest))))))

-- Every field has a value that its bytes can carry.
pub record FitsOrderExecutedMsg (m : OrderExecutedMsg) : Type 0 where
  pub stock_locate : m.stock_locate < 2 ^ 16
  pub tracking_number : m.tracking_number < 2 ^ 16
  pub timestamp : m.timestamp < 2 ^ 48
  pub order_ref : m.order_ref < 2 ^ 64
  pub executed_shares : m.executed_shares < 2 ^ 32
  pub match_number : m.match_number < 2 ^ 64

abbrev pub write_order_executed_price : OrderExecutedPriceMsg → List ℕ → List ℕ
write_order_executed_price m rest =
    b'C'
    ∷ write_be16 m.stock_locate (
        write_be16 m.tracking_number (
          write_be48 m.timestamp (
            write_be64 m.order_ref (
              write_be32 m.executed_shares (
                write_be64 m.match_number
                  (m.printable ∷ write_be32 m.execution_price.raw (rest)))))))

-- Every field has a value that its bytes can carry.
pub record FitsOrderExecutedPriceMsg (m : OrderExecutedPriceMsg) : Type 0 where
  pub stock_locate : m.stock_locate < 2 ^ 16
  pub tracking_number : m.tracking_number < 2 ^ 16
  pub timestamp : m.timestamp < 2 ^ 48
  pub order_ref : m.order_ref < 2 ^ 64
  pub executed_shares : m.executed_shares < 2 ^ 32
  pub match_number : m.match_number < 2 ^ 64
  pub execution_price : m.execution_price.raw < 2 ^ 32

abbrev pub write_order_cancel : OrderCancelMsg → List ℕ → List ℕ
write_order_cancel m rest =
    b'X'
    ∷ write_be16 m.stock_locate (
        write_be16 m.tracking_number
          (write_be48 m.timestamp (write_be64 m.order_ref (write_be32 m.cancelled_shares (rest)))))

-- Every field has a value that its bytes can carry.
pub record FitsOrderCancelMsg (m : OrderCancelMsg) : Type 0 where
  pub stock_locate : m.stock_locate < 2 ^ 16
  pub tracking_number : m.tracking_number < 2 ^ 16
  pub timestamp : m.timestamp < 2 ^ 48
  pub order_ref : m.order_ref < 2 ^ 64
  pub cancelled_shares : m.cancelled_shares < 2 ^ 32

abbrev pub write_order_delete : OrderDeleteMsg → List ℕ → List ℕ
write_order_delete m rest =
    b'D'
    ∷ write_be16 m.stock_locate
        (write_be16 m.tracking_number (write_be48 m.timestamp (write_be64 m.order_ref (rest))))

-- Every field has a value that its bytes can carry.
pub record FitsOrderDeleteMsg (m : OrderDeleteMsg) : Type 0 where
  pub stock_locate : m.stock_locate < 2 ^ 16
  pub tracking_number : m.tracking_number < 2 ^ 16
  pub timestamp : m.timestamp < 2 ^ 48
  pub order_ref : m.order_ref < 2 ^ 64

abbrev pub write_order_replace : OrderReplaceMsg → List ℕ → List ℕ
write_order_replace m rest =
    b'U'
    ∷ write_be16 m.stock_locate (
        write_be16 m.tracking_number (
          write_be48 m.timestamp (
            write_be64 m.original_order_ref
              (write_be64 m.new_order_ref (write_be32 m.shares (write_be32 m.price.raw (rest)))))))

-- Every field has a value that its bytes can carry.
pub record FitsOrderReplaceMsg (m : OrderReplaceMsg) : Type 0 where
  pub stock_locate : m.stock_locate < 2 ^ 16
  pub tracking_number : m.tracking_number < 2 ^ 16
  pub timestamp : m.timestamp < 2 ^ 48
  pub original_order_ref : m.original_order_ref < 2 ^ 64
  pub new_order_ref : m.new_order_ref < 2 ^ 64
  pub shares : m.shares < 2 ^ 32
  pub price : m.price.raw < 2 ^ 32

abbrev pub write_message : ParsedMessage → List ℕ → List ℕ
write_message (stock_directory m) = write_stock_directory m
write_message (stock_trading_action m) = write_stock_trading_action m
write_message (add_order m) = write_add_order m
write_message (add_order_mpid m) = write_add_order_mpid m
write_message (order_executed m) = write_order_executed m
write_message (order_executed_price m) = write_order_executed_price m
write_message (order_cancel m) = write_order_cancel m
write_message (order_delete m) = write_order_delete m
write_message (order_replace m) = write_order_replace m

abbrev pub FitsWire : ParsedMessage → Type 0
FitsWire (stock_directory m) = FitsStockDirectoryMsg m
FitsWire (stock_trading_action m) = FitsStockTradingActionMsg m
FitsWire (add_order m) = FitsAddOrderMsg m
FitsWire (add_order_mpid m) = FitsAddOrderMpidMsg m
FitsWire (order_executed m) = FitsOrderExecutedMsg m
FitsWire (order_executed_price m) = FitsOrderExecutedPriceMsg m
FitsWire (order_cancel m) = FitsOrderCancelMsg m
FitsWire (order_delete m) = FitsOrderDeleteMsg m
FitsWire (order_replace m) = FitsOrderReplaceMsg m
