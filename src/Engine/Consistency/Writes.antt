-- ===== src/Engine/Consistency/Writes.antt =====
-- What each write of the handlers does to the agreement of the books with the order index.
use itch_parser.Book.{OrderRecord, OrderBook, clamped_sub, insert_shares, remove_shares}
use itch_parser.Engine.Consistency.{
  Agrees, IsConsistent, raised-Agrees, lowered-Agrees_full, lowered-Agrees_part,
}
use itch_parser.Engine.Levels.{
  get_or_create_book-Opens, stamp_book-order_index, level-stamp_book, level-insert_shares,
  level-remove_shares,
}
use itch_parser.Engine.Slots.{Slot, slot_of, AreSmall, orders_at_pos}
use itch_parser.Engine.{Core, get_or_create_book, stamp_book}
use itch_parser.Map.Find.{IsDistinct, assign-IsDistinct, erase-IsDistinct}
use itch_parser.Map.Total.{
  length-assign_new, length-assign_old, length-erase-le, All-assign, All-erase,
}
use itch_parser.Map.{Map, find, assign, erase}
use itch_parser.Prelude.{
  ℕ, ◌+◌, ◌-◌, ◌%◌, ◌^◌, ◌≤◌, ◌<◌, ◌≡◌, ◌≢◌, ◌∙◌, true, false, [], ◌∷◌, none, some, arith, length,
}

-- A state is consistent if its index and its levels are those of a consistent pair.
abbrev pub Good : Map OrderBook → Map OrderRecord → Type 0
Good books index =
    IsDistinct index
    × AreSmall index
    × (length index < 2 ^ 32)
    × ((slot : Slot) → Agrees books index slot)

pub stamped :
    (l t : ℕ) (d : Core) (index : Map OrderRecord)
    → d.order_index ≡ index
    → Good d.books index
    → IsConsistent (stamp_book l t d)
stamped l t d index e (distinct, small, fits, agrees) =
    let same = stamp_book-order_index l t d ∙ e in
    record {
      distinct = rw same distinct;
      small = rw same small;
      fits = rw same fits;
      agrees = λ slot. rw (same, level-stamp_book l t d slot) (agrees slot);
    }

-- The same with an index that is written after the stamp.
pub stamped_with :
    (l t : ℕ) (d : Core) (index' index : Map OrderRecord)
    → index' ≡ index
    → Good d.books index
    → IsConsistent (record (stamp_book l t d) { order_index = index' })
stamped_with l t d index' index e (distinct, small, fits, agrees) = record {
  distinct = rw e distinct;
  small = rw e small;
  fits = rw e fits;
  agrees = λ slot. rw (e, level-stamp_book l t d slot) (agrees slot);
}

pub found_small :
    (k : ℕ) (rec : OrderRecord) (m : Map OrderRecord)
    → find k m ≡ some rec
    → AreSmall m
    → rec.shares < 2 ^ 32
unfolding find
found_small k rec [] h a = cc
found_small k rec ((i, w) ∷ m) h a = ground (arith, found_small k rec m)

-- `before - rec.shares` does not wrap.
pub taken_lem :
    (shares amount : ℕ)
    → shares < 2 ^ 32
    → ((clamped_sub shares amount).0 ≤ shares)
      × ((shares + 2 ^ 32 - (clamped_sub shares amount).0) % 2 ^ 32
          ≡ shares - (clamped_sub shares amount).0)
unfolding clamped_sub
taken_lem shares amount h = ground arith

pub opened :
    (c : Core) (l : ℕ) → IsConsistent c → Good (get_or_create_book c l).1.books c.order_index
opened c l v = (
  v.distinct,
  v.small,
  v.fits,
  λ slot. rw ((get_or_create_book-Opens c l).levels slot) (v.agrees slot),
)

module _ (books : Map OrderBook) (index : Map OrderRecord) (k : ℕ) (book : OrderBook)
    (rec : OrderRecord) where
  pub added-Good :
      find rec.stock_locate books ≡ some book
      → find k index ≡ none
      → rec.shares < 2 ^ 32
      → length index + 1 < 2 ^ 32
      → Good books index
      → Good
          (assign rec.stock_locate (insert_shares book rec.side rec.price rec.shares) books)
          (assign k rec index)
  added-Good found new h fits (distinct, small, _, agrees) = (
    assign-IsDistinct k rec index distinct,
    All-assign _ k rec index h small,
    omega (arith, length-assign_new k rec index new),
    λ slot.
        raised-Agrees books _ index slot k rec new h small fits
          (level-insert_shares books rec.stock_locate rec.side rec.price book rec.shares slot found)
          (agrees slot),
  )

  pub removed-Good :
      find rec.stock_locate books ≡ some book
      → find k index ≡ some rec
      → Good books index
      → Good
          (assign rec.stock_locate (remove_shares book rec.side rec.price rec.shares true) books)
          (erase k index)
  removed-Good found there (distinct, small, fits, agrees) = (
    erase-IsDistinct k index distinct,
    All-erase _ k index small,
    omega (arith, length-erase-le k index),
    λ slot.
        lowered-Agrees_full books _ index slot k rec there distinct small fits
          (level-remove_shares books rec.stock_locate rec.side rec.price book rec.shares true slot
            found (omega (arith, orders_at_pos k rec index there, (agrees (slot_of rec)).0)))
          (agrees slot),
  )

  pub reduced-Good :
      (left : ℕ)
      → find rec.stock_locate books ≡ some book
      → find k index ≡ some rec
      → left ≤ rec.shares
      → left ≢ 0
      → rec.shares < 2 ^ 32
      → Good books index
      → Good
          (assign rec.stock_locate
            (remove_shares book rec.side rec.price (rec.shares - left) false)
            books)
          (assign k (record rec { shares = left }) index)
  reduced-Good left found there le n h (distinct, small, fits, agrees) = (
    assign-IsDistinct k _ index distinct,
    All-assign _ k _ index (omega arith) small,
    omega (arith, length-assign_old k (record rec { shares = left }) rec index there),
    λ slot.
        lowered-Agrees_part books _ index slot k rec there distinct left le n
          (level-remove_shares books rec.stock_locate rec.side rec.price book (rec.shares - left)
            false slot found
            (omega (arith, orders_at_pos k rec index there, (agrees (slot_of rec)).0)))
          (agrees slot),
  )
