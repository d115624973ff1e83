-- ===== src/Tests/Samples.antt =====
-- Sample messages, buffers and a file that reads from memory.
use itch_parser.Engine.{Core, new_core, handle_all}
use itch_parser.File.Frames.{RegularFile}
use itch_parser.File.{stored}
use itch_parser.Messages.{
  ParsedMessage, StockDirectoryMsg, AddOrderMsg, OrderExecutedMsg, OrderReplaceMsg, OrderDeleteMsg,
  stock_directory, add_order, order_executed, order_replace, order_delete,
}
use itch_parser.Parser.Encode.{write_message}
use itch_parser.Prelude.{
  ℕ, zero, suc, ◌<◌, ◌≤◌, ◌≡◌, refl, ap, Bool, true, ◌&&◌, List, [], ◌∷◌, ◌++◌, ltb, arith, length,
  take, drop, length-take, take-append-drop,
}
use itch_parser.Wire.Fields.{IsBuffer}

abbrev pub buy : AddOrderMsg
buy = record {
  stock_locate = 1;
  tracking_number = 0;
  timestamp = 10;
  order_ref = 7;
  side = b'B';
  shares = 100;
  stock = b'A' ∷ b'A' ∷ b'P' ∷ b'L' ∷ [];
  price = record { raw = 1500000 };
}

abbrev pub sell : AddOrderMsg
sell = record buy { order_ref = 8; side = b'S'; shares = 50; price = record { raw = 1500100 } }

abbrev pub fill : OrderExecutedMsg
fill = record {
  stock_locate = 1;
  tracking_number = 0;
  timestamp = 11;
  order_ref = 7;
  executed_shares = 30;
  match_number = 1;
}

abbrev pub move : OrderReplaceMsg
move = record {
  stock_locate = 1;
  tracking_number = 0;
  timestamp = 12;
  original_order_ref = 7;
  new_order_ref = 9;
  shares = 60;
  price = record { raw = 1499900 };
}

abbrev pub gone : OrderDeleteMsg
gone = record { stock_locate = 1; tracking_number = 0; timestamp = 13; order_ref = 8 }

abbrev pub listed : StockDirectoryMsg
listed = record {
  stock_locate = 1;
  tracking_number = 0;
  timestamp = 1;
  stock = b'A' ∷ b'A' ∷ b'P' ∷ b'L' ∷ [];
  market_category = b'Q';
  financial_status = b'N';
  round_lot_size = 100;
  round_lots_only = b'N';
  issue_classification = b'C';
  issue_sub_type = b'Z' ∷ [];
  authenticity = b'P';
  short_sale_threshold = b'N';
  ipo_flag = b'N';
  luld_ref_price_tier = b'1';
  etp_flag = b'N';
  etp_leverage_factor = 0;
  inverse_indicator = b'N';
}

abbrev pub history : List ParsedMessage
history =
    stock_directory listed
    ∷ add_order buy
    ∷ add_order sell
    ∷ order_executed fill
    ∷ order_replace move
    ∷ order_delete gone
    ∷ []

-- The engine with the buy order and the sell order.
abbrev pub two_orders : Core
two_orders = handle_all (stock_directory listed ∷ add_order buy ∷ add_order sell ∷ []) new_core

abbrev all_bytes : List ℕ → Bool
all_bytes [] = true
all_bytes (b ∷ p) = ltb b 256 && all_bytes p

pub bytes_lem : (p : List ℕ) → all_bytes p ≡ true → IsBuffer p
bytes_lem [] h = tt
bytes_lem (b ∷ p) h = (ground arith, bytes_lem p (ground arith))

-- The bytes of the buy order on the wire.
abbrev pub buy_bytes : List ℕ
buy_bytes = write_message (add_order buy) []

-- A file is the list of the bytes that are not read yet.
abbrev pub memory : RegularFile (List ℕ)
memory = record {
  read = λ p n. stored (take n p) (drop n p);
  contents = λ p. p;
  read_end = end_of_memory;
  read_some = start_of_memory;
}
  where
    end_of_memory :
        (p : List ℕ) (n : ℕ) → 0 < n → p ≡ [] → stored (take n p) (drop n p) ≡ stored [] p
    end_of_memory p zero h e = absurd (omega arith)
    end_of_memory p (suc n) h e = rw e refl

    start_of_memory :
        (p : List ℕ) (n : ℕ)
        → 0 < n
        → 0 < length p
        → (b : ℕ) × (bs : List ℕ) × (q : List ℕ) × (stored (take n p) (drop n p)
            ≡ stored (b ∷ bs) q)
          × (length (b ∷ bs) ≤ n)
          × ((b ∷ bs) ++ q ≡ p)
    start_of_memory p zero h filled = absurd (omega arith)
    start_of_memory [] (suc n) h filled = absurd (omega arith)
    start_of_memory (x ∷ p) (suc n) h filled = (
      x,
      take n p,
      drop n p,
      refl,
      omega (arith, length-take n p),
      ap (◌∷◌ x) (take-append-drop n p),
    )
