-- ===== src/Engine/Effects.antt =====
-- What the handlers do to the order index and to the counters, on every branch.
use itch_parser.Book.{OrderRecord, clamped_sub}
use itch_parser.Engine.Levels.{get_or_create_book-Opens, stamp_book-order_index}
use itch_parser.Engine.{
  Core, get_or_create_book, stamp_book, reduce_order, handle_delete, handle_replace, handle, skip,
  increment,
}
use itch_parser.Map.Find.{find-assign, find-erase, erase-assign}
use itch_parser.Map.{find, assign, erase}
use itch_parser.Messages.{
  ParsedMessage, stock_directory, stock_trading_action, add_order, add_order_mpid, order_executed,
  order_executed_price, order_cancel, order_delete, order_replace,
}
use itch_parser.Prelude.{
  ℕ, ◌-◌, ◌≡◌, ◌∙◌, Option, none, some, arith, ltb, leb, ◌==◌, if◌then◌else◌, inl, inr, Bool-cases,
}

-- The order that a message refers to.
abbrev pub refers_to : ParsedMessage → Option ℕ
refers_to (order_executed m) = some m.order_ref
refers_to (order_executed_price m) = some m.order_ref
refers_to (order_cancel m) = some m.order_ref
refers_to (order_delete m) = some m.order_ref
refers_to (order_replace m) = some m.original_order_ref
refers_to (stock_directory m) = none
refers_to (stock_trading_action m) = none
refers_to (add_order m) = none
refers_to (add_order_mpid m) = none

-- A message that refers to an unknown order changes nothing but the count of the skipped.
pub handle_unknown_ref :
    (m : ParsedMessage) (c : Core) (k : ℕ)
    → refers_to m ≡ some k
    → find k c.order_index ≡ none
    → handle m c ≡ record c { skipped_unknown_ref = increment c.skipped_unknown_ref }
unfolding handle reduce_order handle_delete handle_replace skip
handle_unknown_ref (stock_directory m) c k r h = cc
handle_unknown_ref _ c k r h = ground arith

pub stamp_book-counters :
    (l t : ℕ) (c : Core)
    → ((stamp_book l t c).corrupt_messages ≡ c.corrupt_messages)
      × ((stamp_book l t c).skipped_unknown_ref ≡ c.skipped_unknown_ref)
unfolding stamp_book
stamp_book-counters l t c = ground arith

pub get_or_create_book-counters :
    (c : Core) (l : ℕ)
    → ((get_or_create_book c l).1.corrupt_messages ≡ c.corrupt_messages)
      × ((get_or_create_book c l).1.skipped_unknown_ref ≡ c.skipped_unknown_ref)
unfolding get_or_create_book
get_or_create_book-counters c l = ground arith

module _ (k amount t : ℕ) (c : Core) (rec : OrderRecord)
    (there : find k c.order_index ≡ some rec) where
  unfoldable pub left : ℕ
  left = (clamped_sub rec.shares amount).0

  pub reduce_order-order_index : (reduce_order k amount t c).order_index ≡ (
      if left == 0
      then erase k c.order_index
      else assign k (record rec { shares = left }) c.order_index)
  unfolding reduce_order left
  reduce_order-order_index =
      let l = rec.stock_locate in
      elim (Bool-cases (left == 0)) [
        | inl full ↦
            rw
              (
                there,
                reduce_order,
                full,
                stamp_book-order_index,
                (get_or_create_book-Opens c l).index,
              )
              (erase-assign k _ c.order_index)
        | inr part ↦ rw (
          there,
          reduce_order,
          part,
          stamp_book-order_index,
          (get_or_create_book-Opens c l).index,
        )
      ]

  reduce_order-counters :
      ((reduce_order k amount t c).corrupt_messages ≡ (
        if (clamped_sub rec.shares amount).1
        then increment c.corrupt_messages
        else c.corrupt_messages))
      × ((reduce_order k amount t c).skipped_unknown_ref ≡ c.skipped_unknown_ref)
  unfolding reduce_order left
  reduce_order-counters =
      let l = rec.stock_locate in
      let (corrupt, skipped) = get_or_create_book-counters c l in
      elim (Bool-cases (left == 0)) [
        | inl full ↦
            rw (there, reduce_order, full)
              ((stamp_book-counters l t _).0 ∙ rw corrupt, (stamp_book-counters l t _).1 ∙ skipped)
        | inr part ↦
            rw (there, reduce_order, part)
              ((stamp_book-counters l t _).0 ∙ rw corrupt, (stamp_book-counters l t _).1 ∙ skipped)
      ]

-- An execution or a cancellation of a known order leaves the order with what remains of its
-- shares, or takes it out of the index when nothing does; it leaves every other order alone; and
-- it counts as corrupt exactly when it asks for more shares than the order has.
pub reduce_order_lem :
    (k amount t j : ℕ) (c : Core) (rec : OrderRecord)
    → find k c.order_index ≡ some rec
    → let d = reduce_order k amount t c in
      (find j d.order_index ≡ (
        if k == j
        then (if leb rec.shares amount
            then none
            else some (record rec { shares = rec.shares - amount }))
        else find j c.order_index))
      × (d.corrupt_messages
          ≡ (if ltb rec.shares amount then increment c.corrupt_messages else c.corrupt_messages))
      × (d.skipped_unknown_ref ≡ c.skipped_unknown_ref)
unfolding left clamped_sub
reduce_order_lem k amount t j c rec there = ground (
  arith,
  reduce_order-order_index k amount t c rec there,
  reduce_order-counters k amount t c rec there,
  find-assign j k (record rec { shares = rec.shares - amount }) c.order_index,
  find-erase j k c.order_index,
)
