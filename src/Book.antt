-- ===== src/Book.antt =====
-- include/itch/order_book.h, include/itch/order_record.h and the functions of src/book_engine.cpp
-- that change one book. A cached pointer to the best level is the key of the map node that it
-- points to, so it dangles when the map has no such key.
pub mod Levels
pub mod Order
pub mod Mpid
use itch_parser.Map.Ordered.{Compare, less, greater}
use itch_parser.Map.{Map, find, assign, erase, place, first_key}
use itch_parser.Messages.{Price}
use itch_parser.Prelude.{
  ℕ, zero, suc, ◌+◌, ◌-◌, ◌%◌, ◌^◌, Bool, true, false, ◌||◌, List, [], ◌∷◌, ◌++◌, Option, none,
  some, take, drop, replicate, length, ltb, ◌==◌, if◌then◌else◌,
}

pub record PriceLevel : Type 0 where
  pub price : Price
  pub total_shares : ℕ
  pub order_count : ℕ

pub record OrderBook : Type 0 where
  pub stock_locate : ℕ
  pub last_update_timestamp : ℕ
  -- highest price first
  pub bids : Map PriceLevel
  -- lowest price first
  pub asks : Map PriceLevel
  pub best_bid : Option ℕ
  pub best_ask : Option ℕ

abbrev pub empty_level : PriceLevel
empty_level = record { price = record { raw = 0 }; total_shares = 0; order_count = 0 }

abbrev pub empty_book : OrderBook
empty_book = record {
  stock_locate = 0;
  last_update_timestamp = 0;
  bids = [];
  asks = [];
  best_bid = none;
  best_ask = none;
}

pub record OrderRecord : Type 0 where
  pub shares : ℕ
  pub price : Price
  pub stock_locate : ℕ
  pub side : ℕ
  pub mpid : List ℕ

-- `mpid.fill(' ')` and the copy of at most four bytes over it.
unfoldable pub set_mpid_from : List ℕ → OrderRecord → OrderRecord
set_mpid_from s rec = record rec { mpid = take 4 s ++ drop (length (take 4 s)) (replicate 4 b' ') }

-- The `while` of `mpid_view` drops spaces and NULs at the end.
unfoldable pub mpid_view : List ℕ → List ℕ
mpid_view [] = []
mpid_view (c ∷ s) = elim (mpid_view s) [
  | [] ↦ if (c == b' ') || (c == 0) then [] else c ∷ []
  | d ∷ r ↦ c ∷ d ∷ r
]

-- The value left, and whether the subtraction was clamped.
unfoldable pub clamped_sub : ℕ → ℕ → ℕ × Bool
clamped_sub val sub = if ltb val sub then (0, true) else (val - sub, false)

abbrev pub level_or_empty : Option PriceLevel → PriceLevel
level_or_empty none = empty_level
level_or_empty (some level) = level

-- The lambda `insert` of `add_order_impl` and of the replace handler.
unfoldable pub insert : Compare → Price → ℕ → Map PriceLevel → Map PriceLevel
insert c price shares side_map =
    let level = level_or_empty (find price.raw side_map) in
    place c.before price.raw
      (record {
        price = price;
        total_shares = (level.total_shares + shares) % 2 ^ 64;
        order_count = (level.order_count + 1) % 2 ^ 32;
      })
      side_map

-- The level after a removal, before it is erased if no order is left.
unfoldable pub reduced : PriceLevel → ℕ → Bool → PriceLevel
reduced level shares full_removal = record level {
  total_shares = (clamped_sub level.total_shares shares).0;
  order_count =
      if full_removal then (level.order_count + 2 ^ 32 - 1) % 2 ^ 32 else level.order_count;
}

-- The lambda `remove` of `remove_shares`. A write through the iterator keeps the entry's place.
unfoldable pub remove : Price → ℕ → Bool → Map PriceLevel → Map PriceLevel
remove price shares full_removal side_map = elim (find price.raw side_map) [
  | none ↦ side_map
  | some level ↦
      let level' = reduced level shares full_removal in
      if level'.order_count == 0 then erase price.raw side_map else assign price.raw level' side_map
]

unfoldable pub refresh_top : OrderBook → OrderBook
refresh_top book = record book { best_bid = first_key book.bids; best_ask = first_key book.asks }

unfoldable pub insert_shares : OrderBook → ℕ → Price → ℕ → OrderBook
unfolding refresh_top
insert_shares book side price shares = refresh_top (
    if side == b'B'
    then record book { bids = insert greater price shares book.bids }
    else record book { asks = insert less price shares book.asks })

unfoldable pub remove_shares : OrderBook → ℕ → Price → ℕ → Bool → OrderBook
unfolding refresh_top
remove_shares book side price shares full_removal = refresh_top (
    if side == b'B'
    then record book { bids = remove price shares full_removal book.bids }
    else record book { asks = remove price shares full_removal book.asks })
