-- ===== src/Snapshot.antt =====
-- include/itch/snapshot.h and `build_snapshot` of src/book_engine.cpp. The type `double` and the
-- conversion of a price to it are parameters; the wall clock's time is an argument.
pub mod Coverage
pub mod Index
pub mod Origin
use itch_parser.Book.{OrderBook, PriceLevel}
use itch_parser.Engine.{Core, InstrumentInfo}
use itch_parser.Map.{Map, find}
use itch_parser.Prelude.{
  ℕ, ◌+◌, Bool, ◌&&◌, List, [], ◌∷◌, Option, none, some, map, leb, if◌then◌else◌,
}
use itch_parser.TextMap.{TextMap, find_text, assign_text}

-- `std::tolower` of the "C" locale.
unfoldable pub to_lower : ℕ → ℕ
to_lower c = if leb b'A' c && leb c b'Z' then c + 32 else c

pub record PriceLevelSnapshot (D : Type 0) : Type 0 where
  pub price : D
  pub total_shares : ℕ
  pub order_count : ℕ

pub record OrderBookSnapshot (D : Type 0) : Type 0 where
  pub symbol : List ℕ
  pub trading_state : ℕ
  pub bids : List (PriceLevelSnapshot D)
  pub asks : List (PriceLevelSnapshot D)
  pub last_update_timestamp : ℕ
  pub stock_locate : ℕ
  pub round_lot_size : ℕ
  pub market_category : ℕ

pub record SystemSnapshot (D : Type 0) : Type 0 where
  pub books : TextMap (OrderBookSnapshot D)
  pub symbol_index : TextMap (List ℕ)
  pub messages_processed : ℕ
  pub snapshot_timestamp : ℕ
  pub pipeline_complete : Bool

-- The loop that builds the index from lowercase symbols.
unfoldable pub add_symbols :
    {D : Type 0} → TextMap (OrderBookSnapshot D) → TextMap (List ℕ) → TextMap (List ℕ)
add_symbols [] index = index
add_symbols ((symbol, book) ∷ books) index =
    add_symbols books (assign_text (map to_lower symbol) symbol index)

module _ {D : Type 0} (to_double : ℕ → D) where
  -- The two loops over the levels of a side, in the order of the map.
  unfoldable pub side_snapshot : Map PriceLevel → List (PriceLevelSnapshot D)
  side_snapshot [] = []
  side_snapshot ((price, level) ∷ m) =
      record {
        price = to_double price;
        total_shares = level.total_shares;
        order_count = level.order_count;
      }
      ∷ side_snapshot m

  unfoldable pub book_snapshot : InstrumentInfo → OrderBook → OrderBookSnapshot D
  book_snapshot info book = record {
    symbol = info.symbol;
    trading_state = info.trading_state;
    bids = side_snapshot book.bids;
    asks = side_snapshot book.asks;
    last_update_timestamp = book.last_update_timestamp;
    stock_locate = info.stock_locate;
    round_lot_size = info.round_lot_size;
    market_category = info.market_category;
  }

  -- The loop over the books; one without an instrument is passed over.
  unfoldable pub add_books :
      Map OrderBook
      → Map InstrumentInfo
      → TextMap (OrderBookSnapshot D)
      → TextMap (OrderBookSnapshot D)
  add_books [] instruments snap = snap
  add_books ((locate, book) ∷ books) instruments snap =
      add_books books instruments (elim (find locate instruments) [
        | none ↦ snap
        | some info ↦ assign_text info.symbol (book_snapshot info book) snap
      ])

  unfoldable pub empty_snapshot : InstrumentInfo → OrderBookSnapshot D
  empty_snapshot info = record {
    symbol = info.symbol;
    trading_state = info.trading_state;
    bids = [];
    asks = [];
    last_update_timestamp = 0;
    stock_locate = info.stock_locate;
    round_lot_size = info.round_lot_size;
    market_category = info.market_category;
  }

  -- The loop over the instruments that have no book yet.
  unfoldable pub add_instruments :
      Map InstrumentInfo → TextMap (OrderBookSnapshot D) → TextMap (OrderBookSnapshot D)
  add_instruments [] snap = snap
  add_instruments ((locate, info) ∷ instruments) snap =
      add_instruments instruments (elim (find_text info.symbol snap) [
        | some present ↦ snap
        | none ↦ assign_text info.symbol (empty_snapshot info) snap
      ])

  unfoldable pub build_snapshot : ℕ → Bool → ℕ → Core → SystemSnapshot D
  build_snapshot messages_processed pipeline_complete now c =
      let books = add_instruments c.instruments (add_books c.books c.instruments []) in
      record {
        books = books;
        symbol_index = add_symbols books [];
        messages_processed = messages_processed;
        snapshot_timestamp = now;
        pipeline_complete = pipeline_complete;
      }
