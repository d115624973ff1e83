-- ===== src/Parser/Outcome/Directory.antt =====
-- How parsing ends for the stock directory and trading action messages.
use itch_parser.Messages.{stock_directory, stock_trading_action}
use itch_parser.Parser.Guard.{require_fits, require_short}
use itch_parser.Parser.{parse_stock_directory, parse_trading_action}
use itch_parser.Prelude.Result.{ok, ◌>>=◌}
use itch_parser.Prelude.{ℕ, inl, inr, List, ◌∷◌, some, arith, length}
use itch_parser.Wire.Fields.{IsBuffer, byte_at, be16_at, be32_at, be48_at, alpha_at}
use native.Mathlib.Decide.{dec_le}
use itch_parser.Parser.Outcome.{Outcome}

pub parse_stock_directory-Outcome :
    (p : List ℕ)
    → IsBuffer (b'R' ∷ p)
    → Outcome
        (some (39, "StockDirectory"))
        (parse_stock_directory (b'R' ∷ p) >>= (λ m. ok (some (stock_directory m))))
        (b'R' ∷ p)
unfolding parse_stock_directory
parse_stock_directory-Outcome p b =
    let buf = b'R' ∷ p in
    elim (dec_le 39 (length buf)) [
      | no short ↦ inr (omega arith, rw (require_short buf 39 "StockDirectory" (omega arith)))
      | yes fits ↦
          let stock_locate = be16_at 1 buf (omega arith) b in
          let tracking_number = be16_at 3 buf (omega arith) b in
          let timestamp = be48_at 5 buf (omega arith) b in
          let stock = alpha_at 8 11 buf (omega arith) b in
          let market_category = byte_at 19 buf (omega arith) in
          let financial_status = byte_at 20 buf (omega arith) in
          let round_lot_size = be32_at 21 buf (omega arith) b in
          let round_lots_only = byte_at 25 buf (omega arith) in
          let issue_classification = byte_at 26 buf (omega arith) in
          let issue_sub_type = alpha_at 2 27 buf (omega arith) b in
          let authenticity = byte_at 29 buf (omega arith) in
          let short_sale_threshold = byte_at 30 buf (omega arith) in
          let ipo_flag = byte_at 31 buf (omega arith) in
          let luld_ref_price_tier = byte_at 32 buf (omega arith) in
          let etp_flag = byte_at 33 buf (omega arith) in
          let etp_leverage_factor = be32_at 34 buf (omega arith) b in
          let inverse_indicator = byte_at 38 buf (omega arith) in
          inl (
            fits,
            (
              stock_directory (record {
                stock_locate = stock_locate.value;
                tracking_number = tracking_number.value;
                timestamp = timestamp.value;
                stock = stock.value;
                market_category = market_category.value;
                financial_status = financial_status.value;
                round_lot_size = round_lot_size.value;
                round_lots_only = round_lots_only.value;
                issue_classification = issue_classification.value;
                issue_sub_type = issue_sub_type.value;
                authenticity = authenticity.value;
                short_sale_threshold = short_sale_threshold.value;
                ipo_flag = ipo_flag.value;
                luld_ref_price_tier = luld_ref_price_tier.value;
                etp_flag = etp_flag.value;
                etp_leverage_factor = etp_leverage_factor.value;
                inverse_indicator = inverse_indicator.value;
              }),
              rw (
                require_fits buf 39 "StockDirectory" fits,
                stock_locate.reads,
                tracking_number.reads,
                timestamp.reads,
                stock.reads,
                market_category.reads,
                financial_status.reads,
                round_lot_size.reads,
                round_lots_only.reads,
                issue_classification.reads,
                issue_sub_type.reads,
                authenticity.reads,
                short_sale_threshold.reads,
                ipo_flag.reads,
                luld_ref_price_tier.reads,
                etp_flag.reads,
                etp_leverage_factor.reads,
                inverse_indicator.reads,
              ),
              rw (
                inverse_indicator.writes, etp_leverage_factor.writes, etp_flag.writes,
                luld_ref_price_tier.writes, ipo_flag.writes, short_sale_threshold.writes,
                authenticity.writes, issue_sub_type.writes, issue_classification.writes,
                round_lots_only.writes, round_lot_size.writes, financial_status.writes,
                market_category.writes, stock.writes, timestamp.writes, tracking_number.writes,
                stock_locate.writes,
              ),
            ),
          )
    ]

pub parse_trading_action-Outcome :
    (p : List ℕ)
    → IsBuffer (b'H' ∷ p)
    → Outcome
        (some (25, "StockTradingAction"))
        (parse_trading_action (b'H' ∷ p) >>= (λ m. ok (some (stock_trading_action m))))
        (b'H' ∷ p)
unfolding parse_trading_action
parse_trading_action-Outcome p b =
    let buf = b'H' ∷ p in
    elim (dec_le 25 (length buf)) [
      | no short ↦ inr (omega arith, rw (require_short buf 25 "StockTradingAction" (omega arith)))
      | yes fits ↦
          let stock_locate = be16_at 1 buf (omega arith) b in
          let tracking_number = be16_at 3 buf (omega arith) b in
          let timestamp = be48_at 5 buf (omega arith) b in
          let stock = alpha_at 8 11 buf (omega arith) b in
          let trading_state = byte_at 19 buf (omega arith) in
          let reserved = byte_at 20 buf (omega arith) in
          let reason = alpha_at 4 21 buf (omega arith) b in
          inl (
            fits,
            (
              stock_trading_action (record {
                stock_locate = stock_locate.value;
                tracking_number = tracking_number.value;
                timestamp = timestamp.value;
                stock = stock.value;
                trading_state = trading_state.value;
                reserved = reserved.value;
                reason = reason.value;
              }),
              rw (
                require_fits buf 25 "StockTradingAction" fits,
                stock_locate.reads,
                tracking_number.reads,
                timestamp.reads,
                stock.reads,
                trading_state.reads,
                reserved.reads,
                reason.reads,
              ),
              rw (
                reason.writes, reserved.writes, trading_state.writes, stock.writes,
                timestamp.writes, tracking_number.writes, stock_locate.writes,
              ),
            ),
          )
    ]
