-- ===== src/Book/Levels.antt =====
-- What the insertion and the removal of shares do to each price level of a book.
use itch_parser.Book.{
  PriceLevel, OrderBook, empty_level, level_or_empty, insert, reduced, remove, insert_shares,
  remove_shares,
}
use itch_parser.Map.Find.{find-assign, find-erase, find-place}
use itch_parser.Map.Ordered.{Compare, less, greater}
use itch_parser.Map.{Map, find}
use itch_parser.Messages.{Price}
use itch_parser.Prelude.{
  ℕ, ◌+◌, ◌%◌, ◌^◌, ◌≡◌, Bool, true, false, ◌&&◌, some, arith, ◌==◌, if◌then◌else◌,
}

-- The level at a price, `empty_level` if the map has none.
abbrev pub level_at : ℕ → Map PriceLevel → PriceLevel
level_at price m = level_or_empty (find price m)

abbrev pub same_bool : Bool → Bool → Bool
same_bool true b = b
same_bool false true = false
same_bool false false = true

-- The map of one side: the bids if `is_bid`.
abbrev pub side_of : Bool → OrderBook → Map PriceLevel
side_of true book = book.bids
side_of false book = book.asks

unfoldable pub raised : PriceLevel → Price → ℕ → PriceLevel
raised level price shares = record {
  price = price;
  total_shares = (level.total_shares + shares) % 2 ^ 64;
  order_count = (level.order_count + 1) % 2 ^ 32;
}

unfoldable pub lowered : PriceLevel → ℕ → Bool → PriceLevel
lowered level shares full =
    if (reduced level shares full).order_count == 0 then empty_level else reduced level shares full

find-insert :
    (c : Compare) (price : Price) (shares q : ℕ) (m : Map PriceLevel)
    → find q (insert c price shares m)
      ≡ (if price.raw == q then some (raised (level_at price.raw m) price shares) else find q m)
unfolding insert raised
find-insert c price shares q m = find-place c.before q price.raw _ m

pub level_at-insert :
    (c : Compare) (price : Price) (shares q : ℕ) (m : Map PriceLevel)
    → level_at q (insert c price shares m)
      ≡ (if price.raw == q then raised (level_at q m) price shares else level_at q m)
level_at-insert c price shares q m = ground (arith, find-insert c price shares q m)

pub level_at-remove :
    (price : Price) (shares q : ℕ) (full : Bool) (m : Map PriceLevel) (level : PriceLevel)
    → find price.raw m ≡ some level
    → level_at q (remove price shares full m)
      ≡ (if price.raw == q then lowered (level_at q m) shares full else level_at q m)
unfolding remove lowered
level_at-remove price shares q full m level h =
    ground (arith, find-erase q price.raw m, find-assign q price.raw (reduced level shares full) m)

-- Both operations write one price of one side, and leave every other level alone.
pub side_of-insert_shares :
    (book : OrderBook) (side : ℕ) (price : Price) (shares : ℕ) (is_bid : Bool) (q : ℕ)
    → let before = level_at q (side_of is_bid book) in
      level_at q (side_of is_bid (insert_shares book side price shares)) ≡ (
        if same_bool (side == b'B') is_bid && (price.raw == q)
        then raised before price shares
        else before)
unfolding insert_shares
side_of-insert_shares book side price shares true q =
    ground (arith, level_at-insert greater price shares q book.bids)
side_of-insert_shares book side price shares false q =
    ground (arith, level_at-insert less price shares q book.asks)

pub side_of-remove_shares :
    (book : OrderBook) (side : ℕ) (price : Price) (shares : ℕ) (full is_bid : Bool) (q : ℕ)
    (level : PriceLevel)
    → find price.raw (side_of (side == b'B') book) ≡ some level
    → let before = level_at q (side_of is_bid book) in
      level_at q (side_of is_bid (remove_shares book side price shares full)) ≡ (
        if same_bool (side == b'B') is_bid && (price.raw == q)
        then lowered before shares full
        else before)
unfolding remove_shares
side_of-remove_shares book side price shares full true q level h =
    ground (arith, level_at-remove price shares q full book.bids level)
side_of-remove_shares book side price shares full false q level h =
    ground (arith, level_at-remove price shares q full book.asks level)
