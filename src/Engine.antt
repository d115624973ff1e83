-- ===== src/Engine.antt =====
-- `OrderBookEngine` of src/book_engine.h and src/book_engine.cpp: the three indexes and the
-- message handlers. A reference into a map is the key, and what is changed through it is written
-- back. `Engine.Publish` has the counters of `apply` and the snapshots.
pub mod Slots
pub mod Digits
pub mod Levels
pub mod Order
pub mod Effects
pub mod Consistency
use itch_parser.Book.{
  OrderBook, OrderRecord, empty_book, set_mpid_from, clamped_sub, insert_shares, remove_shares,
}
use itch_parser.Map.{Map, find, assign, erase}
use itch_parser.Messages.{
  ParsedMessage, Price, StockDirectoryMsg, StockTradingActionMsg, AddOrderMsg, AddOrderMpidMsg,
  OrderExecutedMsg, OrderExecutedPriceMsg, OrderCancelMsg, OrderDeleteMsg, OrderReplaceMsg,
  stock_directory, stock_trading_action, add_order, add_order_mpid, order_executed,
  order_executed_price, order_cancel, order_delete, order_replace,
}
use itch_parser.Prelude.{
  ℕ, zero, suc, ◌+◌, ◌-◌, ◌/◌, ◌%◌, ◌^◌, Bool, true, false, List, [], ◌∷◌, ◌++◌, Option, none, some,
  replicate, ltb, ◌==◌, if◌then◌else◌, codes,
}

-- include/itch/instrument_info.h
pub record InstrumentInfo : Type 0 where
  pub stock_locate : ℕ
  pub symbol : List ℕ
  pub trading_state : ℕ
  pub round_lot_size : ℕ
  pub market_category : ℕ
  pub financial_status : ℕ

-- What the handlers read and write.
pub record Core : Type 0 where
  pub order_index : Map OrderRecord
  pub books : Map OrderBook
  pub instruments : Map InstrumentInfo
  pub skipped_unknown_ref : ℕ
  pub corrupt_messages : ℕ

abbrev pub new_core : Core
new_core = record {
  order_index = [];
  books = [];
  instruments = [];
  skipped_unknown_ref = 0;
  corrupt_messages = 0;
}

-- `std::to_string` of a number; 20 digits are enough for 64 bits.
digits_of : ℕ → ℕ → List ℕ → List ℕ
digits_of zero n tail = tail
digits_of (suc fuel) n tail =
    let rest = digits_of fuel (n / 10) ((b'0' + n % 10) ∷ tail) in
    if ltb n 10 then (b'0' + n) ∷ tail else rest

unfoldable pub to_string : ℕ → List ℕ
unfolding digits_of
to_string n = digits_of 20 n []

-- An unknown `stock_locate` that has no instrument yet.
unfoldable pub placeholder : ℕ → InstrumentInfo
unfolding to_string
placeholder stock_locate = record {
  stock_locate = stock_locate;
  symbol = codes "UNKNOWN_" ++ to_string stock_locate;
  trading_state = b'T';
  round_lot_size = 0;
  market_category = 0;
  financial_status = 0;
}

unfoldable pub register_instrument : InstrumentInfo → Core → Core
register_instrument info c = record c { instruments = assign info.stock_locate info c.instruments }

unfoldable pub get_book : Core → ℕ → Option OrderBook
get_book c stock_locate = find stock_locate c.books

unfoldable pub get_order : Core → ℕ → Option OrderRecord
get_order c order_ref = find order_ref c.order_index

unfoldable pub get_instrument : Core → ℕ → Option InstrumentInfo
get_instrument c stock_locate = find stock_locate c.instruments

-- The book, and the state in which it exists.
unfoldable pub get_or_create_book : Core → ℕ → OrderBook × Core
get_or_create_book c stock_locate = elim (find stock_locate c.books) [
  | some book ↦ (book, c)
  | none ↦
      let book = record empty_book { stock_locate = stock_locate } in
      (
        book,
        record c {
          instruments = elim (find stock_locate c.instruments) [
            | some info ↦ c.instruments
            | none ↦ assign stock_locate (placeholder stock_locate) c.instruments
          ];
          books = assign stock_locate book c.books;
        },
      )
]

-- The write through the reference that `get_or_create_book` returned.
abbrev pub write_book : ℕ → OrderBook → Core → Core
write_book stock_locate book c = record c { books = assign stock_locate book c.books }

unfoldable pub stamp_book : ℕ → ℕ → Core → Core
stamp_book stock_locate timestamp c = elim (find stock_locate c.books) [
  | none ↦ c
  | some book ↦ write_book stock_locate (record book { last_update_timestamp = timestamp }) c
]

-- `++n` of a `uint64_t`.
abbrev pub increment : ℕ → ℕ
increment n = (n + 1) % 2 ^ 64

unfoldable pub skip : Core → Core
skip c = record c { skipped_unknown_ref = increment c.skipped_unknown_ref }

-- `if (!mpid.empty()) rec.set_mpid_from(mpid)`
abbrev pub with_mpid : List ℕ → OrderRecord → OrderRecord
with_mpid [] rec = rec
with_mpid (b ∷ s) rec = set_mpid_from (b ∷ s) rec

unfoldable pub add_order_impl : ℕ → ℕ → ℕ → ℕ → Price → ℕ → List ℕ → Core → Core
add_order_impl stock_locate order_ref side shares price timestamp mpid c =
    let (book, c') = get_or_create_book c stock_locate in
    let rec : OrderRecord = record {
      shares = shares;
      price = price;
      stock_locate = stock_locate;
      side = side;
      mpid = replicate 4 0;
    } in
    stamp_book stock_locate timestamp (record c' {
      books = assign stock_locate (insert_shares book side price shares) c'.books;
      order_index = assign order_ref (with_mpid mpid rec) c'.order_index;
    })

-- The body that the two execute handlers and the cancel handler have in common.
unfoldable pub reduce_order : ℕ → ℕ → ℕ → Core → Core
reduce_order order_ref amount timestamp c = elim (find order_ref c.order_index) [
  | none ↦ skip c
  | some rec ↦
      let (book, c') = get_or_create_book c rec.stock_locate in
      let (left, corrupt) = clamped_sub rec.shares amount in
      let full_removal = left == 0 in
      let taken = (rec.shares + 2 ^ 32 - left) % 2 ^ 32 in
      let stamped = stamp_book rec.stock_locate timestamp (record c' {
        corrupt_messages = if corrupt then increment c'.corrupt_messages else c'.corrupt_messages;
        order_index = assign order_ref (record rec { shares = left }) c'.order_index;
        books =
            assign rec.stock_locate (remove_shares book rec.side rec.price taken full_removal)
              c'.books;
      }) in
      if full_removal
      then record stamped { order_index = erase order_ref stamped.order_index }
      else stamped
]

unfoldable pub handle_delete : OrderDeleteMsg → Core → Core
handle_delete m c = elim (find m.order_ref c.order_index) [
  | none ↦ skip c
  | some rec ↦
      let (book, c') = get_or_create_book c rec.stock_locate in
      let stamped =
        stamp_book rec.stock_locate m.timestamp (
          write_book rec.stock_locate (remove_shares book rec.side rec.price rec.shares true) c') in
      record stamped { order_index = erase m.order_ref stamped.order_index }
]

unfoldable pub handle_replace : OrderReplaceMsg → Core → Core
handle_replace m c = elim (find m.original_order_ref c.order_index) [
  | none ↦ skip c
  | some old_rec ↦
      let erased = record c { order_index = erase m.original_order_ref c.order_index } in
      let (book, c') = get_or_create_book erased old_rec.stock_locate in
      let book' = remove_shares book old_rec.side old_rec.price old_rec.shares true in
      let rec = record old_rec { shares = m.shares; price = m.price } in
      stamp_book old_rec.stock_locate m.timestamp (record c' {
        books =
            assign old_rec.stock_locate (insert_shares book' old_rec.side m.price m.shares)
              c'.books;
        order_index = assign m.new_order_ref rec c'.order_index;
      })
]

unfoldable pub handle_stock_directory : StockDirectoryMsg → Core → Core
handle_stock_directory m c = record c {
  instruments =
      assign m.stock_locate
        (record {
          stock_locate = m.stock_locate;
          symbol = m.stock;
          trading_state = b'T';
          round_lot_size = m.round_lot_size;
          market_category = m.market_category;
          financial_status = m.financial_status;
        })
        c.instruments;
}

unfoldable pub handle_trading_action : StockTradingActionMsg → Core → Core
handle_trading_action m c = elim (find m.stock_locate c.instruments) [
  | none ↦ c
  | some info ↦ record c {
    instruments =
        assign m.stock_locate (record info { trading_state = m.trading_state }) c.instruments;
  }
]

-- The overloads of `handle`, by the alternative that `std::visit` finds.
unfoldable pub handle : ParsedMessage → Core → Core
handle (stock_directory m) c = handle_stock_directory m c
handle (stock_trading_action m) c = handle_trading_action m c
handle (add_order m) c =
    add_order_impl m.stock_locate m.order_ref m.side m.shares m.price m.timestamp [] c
handle (add_order_mpid m) c =
    add_order_impl m.stock_locate m.order_ref m.side m.shares m.price m.timestamp m.attribution c
handle (order_executed m) c = reduce_order m.order_ref m.executed_shares m.timestamp c
handle (order_executed_price m) c = reduce_order m.order_ref m.executed_shares m.timestamp c
handle (order_cancel m) c = reduce_order m.order_ref m.cancelled_shares m.timestamp c
handle (order_delete m) c = handle_delete m c
handle (order_replace m) c = handle_replace m c

-- The handlers over a sequence of messages.
unfoldable pub handle_all : List ParsedMessage → Core → Core
handle_all [] c = c
handle_all (m ∷ ms) c = handle_all ms (handle m c)
