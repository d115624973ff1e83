-- ===== src/Parser/Outcome/Adds.antt =====
-- How parsing ends for the messages that bring an order.
use itch_parser.Messages.{add_order, add_order_mpid, order_replace}
use itch_parser.Parser.Guard.{require_fits, require_short}
use itch_parser.Parser.{parse_add_order, parse_add_order_mpid, parse_order_replace}
use itch_parser.Prelude.Result.{ok, ◌>>=◌}
use itch_parser.Prelude.{ℕ, inl, inr, List, ◌∷◌, some, arith, length}
use itch_parser.Wire.Fields.{IsBuffer, byte_at, be16_at, be32_at, be48_at, be64_at, alpha_at}
use native.Mathlib.Decide.{dec_le}
use itch_parser.Parser.Outcome.{Outcome}

pub parse_add_order-Outcome :
    (p : List ℕ)
    → IsBuffer (b'A' ∷ p)
    → Outcome
        (some (36, "AddOrder"))
        (parse_add_order (b'A' ∷ p) >>= (λ m. ok (some (add_order m))))
        (b'A' ∷ p)
unfolding parse_add_order
parse_add_order-Outcome p b =
    let buf = b'A' ∷ p in
    elim (dec_le 36 (length buf)) [
      | no short ↦ inr (omega arith, rw (require_short buf 36 "AddOrder" (omega arith)))
      | yes fits ↦
          let stock_locate = be16_at 1 buf (omega arith) b in
          let tracking_number = be16_at 3 buf (omega arith) b in
          let timestamp = be48_at 5 buf (omega arith) b in
          let order_ref = be64_at 11 buf (omega arith) b in
          let side = byte_at 19 buf (omega arith) in
          let shares = be32_at 20 buf (omega arith) b in
          let stock = alpha_at 8 24 buf (omega arith) b in
          let price = be32_at 32 buf (omega arith) b in
          inl (
            fits,
            (
              add_order (record {
                stock_locate = stock_locate.value;
                tracking_number = tracking_number.value;
                timestamp = timestamp.value;
                order_ref = order_ref.value;
                side = side.value;
                shares = shares.value;
                stock = stock.value;
                price = record { raw = price.value };
              }),
              rw (
                require_fits buf 36 "AddOrder" fits,
                stock_locate.reads,
                tracking_number.reads,
                timestamp.reads,
                order_ref.reads,
                side.reads,
                shares.reads,
                stock.reads,
                price.reads,
              ),
              rw (
                price.writes, stock.writes, shares.writes, side.writes, order_ref.writes,
                timestamp.writes, tracking_number.writes, stock_locate.writes,
              ),
            ),
          )
    ]

pub parse_add_order_mpid-Outcome :
    (p : List ℕ)
    → IsBuffer (b'F' ∷ p)
    → Outcome
        (some (40, "AddOrderMPID"))
        (parse_add_order_mpid (b'F' ∷ p) >>= (λ m. ok (some (add_order_mpid m))))
        (b'F' ∷ p)
unfolding parse_add_order_mpid
parse_add_order_mpid-Outcome p b =
    let buf = b'F' ∷ p in
    elim (dec_le 40 (length buf)) [
      | no short ↦ inr (omega arith, rw (require_short buf 40 "AddOrderMPID" (omega arith)))
      | yes fits ↦
          let stock_locate = be16_at 1 buf (omega arith) b in
          let tracking_number = be16_at 3 buf (omega arith) b in
          let timestamp = be48_at 5 buf (omega arith) b in
          let order_ref = be64_at 11 buf (omega arith) b in
          let side = byte_at 19 buf (omega arith) in
          let shares = be32_at 20 buf (omega arith) b in
          let stock = alpha_at 8 24 buf (omega arith) b in
          let price = be32_at 32 buf (omega arith) b in
          let attribution = alpha_at 4 36 buf (omega arith) b in
          inl (
            fits,
            (
              add_order_mpid (record {
                stock_locate = stock_locate.value;
                tracking_number = tracking_number.value;
                timestamp = timestamp.value;
                order_ref = order_ref.value;
                side = side.value;
                shares = shares.value;
                stock = stock.value;
                price = record { raw = price.value };
                attribution = attribution.value;
              }),
              rw (
                require_fits buf 40 "AddOrderMPID" fits,
                stock_locate.reads,
                tracking_number.reads,
                timestamp.reads,
                order_ref.reads,
                side.reads,
                shares.reads,
                stock.reads,
                price.reads,
                attribution.reads,
              ),
              rw (
                attribution.writes, price.writes, stock.writes, shares.writes, side.writes,
                order_ref.writes, timestamp.writes, tracking_number.writes, stock_locate.writes,
              ),
            ),
          )
    ]

pub parse_order_replace-Outcome :
    (p : List ℕ)
    → IsBuffer (b'U' ∷ p)
    → Outcome
        (some (35, "OrderReplace"))
        (parse_order_replace (b'U' ∷ p) >>= (λ m. ok (some (order_replace m))))
        (b'U' ∷ p)
unfolding parse_order_replace
parse_order_replace-Outcome p b =
    let buf = b'U' ∷ p in
    elim (dec_le 35 (length buf)) [
      | no short ↦ inr (omega arith, rw (require_short buf 35 "OrderReplace" (omega arith)))
      | yes fits ↦
          let stock_locate = be16_at 1 buf (omega arith) b in
          let tracking_number = be16_at 3 buf (omega arith) b in
          let timestamp = be48_at 5 buf (omega arith) b in
          let original_order_ref = be64_at 11 buf (omega arith) b in
          let new_order_ref = be64_at 19 buf (omega arith) b in
          let shares = be32_at 27 buf (omega arith) b in
          let price = be32_at 31 buf (omega arith) b in
          inl (
            fits,
            (
              order_replace (record {
                stock_locate = stock_locate.value;
                tracking_number = tracking_number.value;
                timestamp = timestamp.value;
                original_order_ref = original_order_ref.value;
                new_order_ref = new_order_ref.value;
                shares = shares.value;
                price = record { raw = price.value };
              }),
              rw (
                require_fits buf 35 "OrderReplace" fits,
                stock_locate.reads,
                tracking_number.reads,
                timestamp.reads,
                original_order_ref.reads,
                new_order_ref.reads,
                shares.reads,
                price.reads,
              ),
              rw (
                price.writes, shares.writes, new_order_ref.writes, original_order_ref.writes,
                timestamp.writes, tracking_number.writes, stock_locate.writes,
              ),
            ),
          )
    ]
