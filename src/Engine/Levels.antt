-- ===== src/Engine/Levels.antt =====
-- What each handler does to the level of every slot, and to the order index.
use itch_parser.Book.Levels.{
  level_at, side_of, raised, lowered, side_of-insert_shares, side_of-remove_shares,
}
use itch_parser.Book.{OrderBook, insert_shares, remove_shares, empty_level, empty_book}
use itch_parser.Engine.Slots.{Slot, same_slot, level}
use itch_parser.Engine.{Core, get_or_create_book, stamp_book}
use itch_parser.Map.Find.{find-assign}
use itch_parser.Map.{Map, find, assign}
use itch_parser.Messages.{Price}
use itch_parser.Prelude.{
  ℕ, ◌≤◌, ◌≡◌, refl, Bool, true, false, some, arith, ◌==◌, if◌then◌else◌, inl, inr, Option-cases,
}

pub level-assign :
    (l : ℕ) (book : OrderBook) (books : Map OrderBook) (slot : Slot)
    → level (assign l book books) slot ≡ (
        if l == slot.stock_locate
        then level_at slot.price (side_of slot.is_bid book)
        else level books slot)
level-assign l book books slot = ground (arith, find-assign slot.stock_locate l book books)

-- Creating the book of a locate changes no level and no order, and the book is the one found.
pub record Opens (c : Core) (l : ℕ) : Type 0 where
  pub index : (get_or_create_book c l).1.order_index ≡ c.order_index
  pub found : find l (get_or_create_book c l).1.books ≡ some (get_or_create_book c l).0
  pub levels : (slot : Slot) → level (get_or_create_book c l).1.books slot ≡ level c.books slot

abbrev fresh_book : ℕ → OrderBook
fresh_book l = record empty_book { stock_locate = l }

level_at-fresh_book :
    (q l : ℕ) (is_bid : Bool) → level_at q (side_of is_bid (fresh_book l)) ≡ empty_level
unfolding find
level_at-fresh_book q l true = refl
level_at-fresh_book q l false = refl

pub get_or_create_book-Opens : (c : Core) (l : ℕ) → Opens c l
unfolding get_or_create_book
get_or_create_book-Opens c l = record {
  index = ground arith;
  found = ground (arith, find-assign l l (fresh_book l) c.books);
  levels = λ slot. ground (
    arith,
    find-assign slot.stock_locate l (fresh_book l) c.books,
    level_at-fresh_book slot.price l slot.is_bid,
  );
}

pub stamp_book-order_index : (l t : ℕ) (c : Core) → (stamp_book l t c).order_index ≡ c.order_index
unfolding stamp_book
stamp_book-order_index l t c = ground arith

pub level-stamp_book :
    (l t : ℕ) (c : Core) (slot : Slot) → level (stamp_book l t c).books slot ≡ level c.books slot
unfolding stamp_book
level-stamp_book l t c slot = elim (Option-cases (find l c.books)) [
  | inl absent ↦ rw (absent, stamp_book)
  | inr (book, present) ↦ ground (
    arith,
    present,
    find-assign slot.stock_locate l (record book { last_update_timestamp = t }) c.books,
  )
]

module _ (books : Map OrderBook) (l side : ℕ) (price : Price) (book : OrderBook) where
  abbrev target : Slot
  target = record { stock_locate = l; is_bid = side == b'B'; price = price.raw }

  -- Shares that are added to a book raise the level of their own slot, and no other.
  pub level-insert_shares :
      (shares : ℕ) (slot : Slot)
      → find l books ≡ some book
      → level (assign l (insert_shares book side price shares) books) slot ≡ (
          if same_slot target slot
          then raised (level books slot) price shares
          else level books slot)
  unfolding same_slot
  level-insert_shares shares slot found = ground (
    arith,
    level-assign l (insert_shares book side price shares) books slot,
    side_of-insert_shares book side price shares slot.is_bid slot.price,
  )

  -- So with shares that are removed from a level that is there.
  pub level-remove_shares :
      (shares : ℕ) (full : Bool) (slot : Slot)
      → find l books ≡ some book
      → 1 ≤ (level books target).order_count
      → level (assign l (remove_shares book side price shares full) books) slot ≡ (
          if same_slot target slot
          then lowered (level books slot) shares full
          else level books slot)
  unfolding same_slot
  level-remove_shares shares full slot found counted =
      elim (Option-cases (find price.raw (side_of (side == b'B') book))) [
        | inl absent ↦ absurd (ground arith)
        | inr (old, there) ↦ ground (
          arith,
          level-assign l (remove_shares book side price shares full) books slot,
          side_of-remove_shares book side price shares full slot.is_bid slot.price old,
        )
      ]
