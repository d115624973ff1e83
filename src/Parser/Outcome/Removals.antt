-- ===== src/Parser/Outcome/Removals.antt =====
-- How parsing ends for the messages that take shares of an order away.
use itch_parser.Messages.{order_executed, order_executed_price, order_cancel, order_delete}
use itch_parser.Parser.Guard.{require_fits, require_short}
use itch_parser.Parser.{
  parse_order_executed, parse_order_executed_price, parse_order_cancel, parse_order_delete,
}
use itch_parser.Prelude.Result.{ok, ◌>>=◌}
use itch_parser.Prelude.{ℕ, inl, inr, List, ◌∷◌, some, arith, length}
use itch_parser.Wire.Fields.{IsBuffer, byte_at, be16_at, be32_at, be48_at, be64_at}
use native.Mathlib.Decide.{dec_le}
use itch_parser.Parser.Outcome.{Outcome}

pub parse_order_executed-Outcome :
    (p : List ℕ)
    → IsBuffer (b'E' ∷ p)
    → Outcome
        (some (31, "OrderExecuted"))
        (parse_order_executed (b'E' ∷ p) >>= (λ m. ok (some (order_executed m))))
        (b'E' ∷ p)
unfolding parse_order_executed
parse_order_executed-Outcome p b =
    let buf = b'E' ∷ p in
    elim (dec_le 31 (length buf)) [
      | no short ↦ inr (omega arith, rw (require_short buf 31 "OrderExecuted" (omega arith)))
      | yes fits ↦
          let stock_locate = be16_at 1 buf (omega arith) b in
          let tracking_number = be16_at 3 buf (omega arith) b in
          let timestamp = be48_at 5 buf (omega arith) b in
          let order_ref = be64_at 11 buf (omega arith) b in
          let executed_shares = be32_at 19 buf (omega arith) b in
          let match_number = be64_at 23 buf (omega arith) b in
          inl (
            fits,
            (
              order_executed (record {
                stock_locate = stock_locate.value;
                tracking_number = tracking_number.value;
                timestamp = timestamp.value;
                order_ref = order_ref.value;
                executed_shares = executed_shares.value;
                match_number = match_number.value;
              }),
              rw (
                require_fits buf 31 "OrderExecuted" fits,
                stock_locate.reads,
                tracking_number.reads,
                timestamp.reads,
                order_ref.reads,
                executed_shares.reads,
                match_number.reads,
              ),
              rw (
                match_number.writes, executed_shares.writes, order_ref.writes, timestamp.writes,
                tracking_number.writes, stock_locate.writes,
              ),
            ),
          )
    ]

pub parse_order_executed_price-Outcome :
    (p : List ℕ)
    → IsBuffer (b'C' ∷ p)
    → Outcome
        (some (36, "OrderExecutedPrice"))
        (parse_order_executed_price (b'C' ∷ p) >>= (λ m. ok (some (order_executed_price m))))
        (b'C' ∷ p)
unfolding parse_order_executed_price
parse_order_executed_price-Outcome p b =
    let buf = b'C' ∷ p in
    elim (dec_le 36 (length buf)) [
      | no short ↦ inr (omega arith, rw (require_short buf 36 "OrderExecutedPrice" (omega arith)))
      | yes fits ↦
          let stock_locate = be16_at 1 buf (omega arith) b in
          let tracking_number = be16_at 3 buf (omega arith) b in
          let timestamp = be48_at 5 buf (omega arith) b in
          let order_ref = be64_at 11 buf (omega arith) b in
          let executed_shares = be32_at 19 buf (omega arith) b in
          let match_number = be64_at 23 buf (omega arith) b in
          let printable = byte_at 31 buf (omega arith) in
          let execution_price = be32_at 32 buf (omega arith) b in
          inl (
            fits,
            (
              order_executed_price (record {
                stock_locate = stock_locate.value;
                tracking_number = tracking_number.value;
                timestamp = timestamp.value;
                order_ref = order_ref.value;
                executed_shares = executed_shares.value;
                match_number = match_number.value;
                printable = printable.value;
                execution_price = record { raw = execution_price.value };
              }),
              rw (
                require_fits buf 36 "OrderExecutedPrice" fits,
                stock_locate.reads,
                tracking_number.reads,
                timestamp.reads,
                order_ref.reads,
                executed_shares.reads,
                match_number.reads,
                printable.reads,
                execution_price.reads,
              ),
              rw (
                execution_price.writes, printable.writes, match_number.writes,
                executed_shares.writes, order_ref.writes, timestamp.writes, tracking_number.writes,
                stock_locate.writes,
              ),
            ),
          )
    ]

pub parse_order_cancel-Outcome :
    (p : List ℕ)
    → IsBuffer (b'X' ∷ p)
    → Outcome
        (some (23, "OrderCancel"))
        (parse_order_cancel (b'X' ∷ p) >>= (λ m. ok (some (order_cancel m))))
        (b'X' ∷ p)
unfolding parse_order_cancel
parse_order_cancel-Outcome p b =
    let buf = b'X' ∷ p in
    elim (dec_le 23 (length buf)) [
      | no short ↦ inr (omega arith, rw (require_short buf 23 "OrderCancel" (omega arith)))
      | yes fits ↦
          let stock_locate = be16_at 1 buf (omega arith) b in
          let tracking_number = be16_at 3 buf (omega arith) b in
          let timestamp = be48_at 5 buf (omega arith) b in
          let order_ref = be64_at 11 buf (omega arith) b in
          let cancelled_shares = be32_at 19 buf (omega arith) b in
          inl (
            fits,
            (
              order_cancel (record {
                stock_locate = stock_locate.value;
                tracking_number = tracking_number.value;
                timestamp = timestamp.value;
                order_ref = order_ref.value;
                cancelled_shares = cancelled_shares.value;
              }),
              rw (
                require_fits buf 23 "OrderCancel" fits,
                stock_locate.reads,
                tracking_number.reads,
                timestamp.reads,
                order_ref.reads,
                cancelled_shares.reads,
              ),
              rw (
                cancelled_shares.writes, order_ref.writes, timestamp.writes, tracking_number.writes,
                stock_locate.writes,
              ),
            ),
          )
    ]

pub parse_order_delete-Outcome :
    (p : List ℕ)
    → IsBuffer (b'D' ∷ p)
    → Outcome
        (some (19, "OrderDelete"))
        (parse_order_delete (b'D' ∷ p) >>= (λ m. ok (some (order_delete m))))
        (b'D' ∷ p)
unfolding parse_order_delete
parse_order_delete-Outcome p b =
    let buf = b'D' ∷ p in
    elim (dec_le 19 (length buf)) [
      | no short ↦ inr (omega arith, rw (require_short buf 19 "OrderDelete" (omega arith)))
      | yes fits ↦
          let stock_locate = be16_at 1 buf (omega arith) b in
          let tracking_number = be16_at 3 buf (omega arith) b in
          let timestamp = be48_at 5 buf (omega arith) b in
          let order_ref = be64_at 11 buf (omega arith) b in
          inl (
            fits,
            (
              order_delete (record {
                stock_locate = stock_locate.value;
                tracking_number = tracking_number.value;
                timestamp = timestamp.value;
                order_ref = order_ref.value;
              }),
              rw (
                require_fits buf 19 "OrderDelete" fits,
                stock_locate.reads,
                tracking_number.reads,
                timestamp.reads,
                order_ref.reads,
              ),
              rw (order_ref.writes, timestamp.writes, tracking_number.writes, stock_locate.writes),
            ),
          )
    ]
