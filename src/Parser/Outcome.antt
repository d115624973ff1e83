-- ===== src/Parser/Outcome.antt =====
-- How parsing ends, for every buffer: on a known type byte the length alone decides between a
-- message, which holds all the bytes of its fields, and the exception for a truncated one.
pub mod Directory
pub mod Adds
pub mod Removals
pub mod Total
use itch_parser.Messages.{
  ParsedMessage, stock_directory, stock_trading_action, add_order, add_order_mpid, order_executed,
  order_executed_price, order_cancel, order_delete, order_replace,
}
use itch_parser.Parser.Encode.{write_message}
use itch_parser.Parser.Guard.{require_fits, require_short}
use itch_parser.Parser.{
  parse_stock_directory, parse_trading_action, parse_add_order, parse_add_order_mpid,
  parse_order_executed, parse_order_executed_price, parse_order_cancel, parse_order_delete,
  parse_order_replace, parse,
}
use itch_parser.Prelude.Result.{
  Result, ok, err, Error, runtime_error, truncated_message, empty_message_buffer, out_of_bounds,
  ◌>>=◌,
}
use itch_parser.Prelude.{
  ℕ, ◌≡◌, ◌≢◌, ◌≤◌, ◌<◌, ◌⊎◌, inl, inr, List, [], ◌∷◌, Option, none, some, String, arith, length,
  drop, sym, subst, ◌==◌, ==_iff, if◌then◌else◌, Bool-cases, refl,
}
use itch_parser.Wire.Fields.{IsBuffer, byte_at, be16_at, be32_at, be48_at, be64_at, alpha_at}
use native.Mathlib.Decide.{dec_le}

-- The message types of the feed that are in scope, with their sizes.
abbrev pub wire_size : ℕ → Option (ℕ × String)
wire_size t =
    if t == b'R'
    then some (39, "StockDirectory")
    else if t == b'H'
    then some (25, "StockTradingAction")
    else if t == b'A'
    then some (36, "AddOrder")
    else if t == b'F'
    then some (40, "AddOrderMPID")
    else if t == b'E'
    then some (31, "OrderExecuted")
    else if t == b'C'
    then some (36, "OrderExecutedPrice")
    else if t == b'X'
    then some (23, "OrderCancel")
    else if t == b'D'
    then some (19, "OrderDelete")
    else if t == b'U'
    then some (35, "OrderReplace")
    else none

-- The result `r` of parsing `buf`, given the size that its type byte asks for.
abbrev pub Outcome : Option (ℕ × String) → Result (Option ParsedMessage) → List ℕ → Type 0
Outcome none r buf = r ≡ ok none
Outcome (some (n, name)) r buf =
    ((n ≤ length buf)
      × ((m : ParsedMessage) × (r ≡ ok (some m)) × (write_message m (drop n buf) ≡ buf)))
    ⊎ ((length buf < n) × (r ≡ err (runtime_error (truncated_message name n (length buf)))))
