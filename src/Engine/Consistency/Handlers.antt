-- ===== src/Engine/Consistency/Handlers.antt =====
-- Every handler keeps the books consistent with the order index.
use itch_parser.Engine.Consistency.Writes.{
  Good, added-Good, found_small, opened, reduced-Good, removed-Good, stamped, stamped_with,
  taken_lem,
}
use itch_parser.Book.{OrderRecord, set_mpid_from, clamped_sub, insert_shares, remove_shares}
use itch_parser.Engine.Consistency.{IsConsistent}
use itch_parser.Engine.Levels.{get_or_create_book-Opens, stamp_book-order_index}
use itch_parser.Engine.{
  Core, get_or_create_book, stamp_book, skip, add_order_impl, reduce_order, handle_delete,
  handle_replace,
}
use itch_parser.Map.Find.{find-assign, erase-assign, assign-assign}
use itch_parser.Map.Total.{length-erase}
use itch_parser.Map.{find, assign, erase}
use itch_parser.Messages.{Price, OrderDeleteMsg, OrderReplaceMsg}
use itch_parser.Prelude.{
  ℕ, ◌+◌, ◌-◌, ◌%◌, ◌^◌, ◌<◌, ◌≡◌, true, List, [], ◌∷◌, none, some, arith, ◌==◌, length, inl, inr,
  Option-cases, Bool-cases, ==_iff,
}

module _ (c : Core) (v : IsConsistent c) where
  added-IsConsistent :
      (k t : ℕ) (rec : OrderRecord)
      → find k c.order_index ≡ none
      → rec.shares < 2 ^ 32
      → length c.order_index + 1 < 2 ^ 32
      → let (book, c') = get_or_create_book c rec.stock_locate in
        IsConsistent (
          stamp_book rec.stock_locate t (record c' {
            books =
                assign rec.stock_locate (insert_shares book rec.side rec.price rec.shares) c'.books;
            order_index = assign k rec c'.order_index;
          }))
  added-IsConsistent k t rec new h fits =
      let l = rec.stock_locate in
      let o = get_or_create_book-Opens c l in
      let (book, c') = get_or_create_book c l in
      stamped l t _ (assign k rec c.order_index) (rw o.index)
        (added-Good c'.books c.order_index k book rec o.found new h fits (opened c l v))

  pub add_order_impl-IsConsistent :
      (l k side shares : ℕ) (price : Price) (t : ℕ) (mpid : List ℕ)
      → find k c.order_index ≡ none
      → shares < 2 ^ 32
      → length c.order_index + 1 < 2 ^ 32
      → IsConsistent (add_order_impl l k side shares price t mpid c)
  unfolding add_order_impl set_mpid_from
  add_order_impl-IsConsistent l k side shares price t [] new h fits =
      added-IsConsistent k t _ new h fits
  add_order_impl-IsConsistent l k side shares price t (b ∷ s) new h fits =
      added-IsConsistent k t _ new h fits

  skip-IsConsistent : IsConsistent (skip c)
  unfolding skip
  skip-IsConsistent = record {
    distinct = v.distinct;
    small = v.small;
    fits = v.fits;
    agrees = v.agrees;
  }

  pub handle_delete-IsConsistent : (m : OrderDeleteMsg) → IsConsistent (handle_delete m c)
  unfolding handle_delete
  handle_delete-IsConsistent m = elim (Option-cases (find m.order_ref c.order_index)) [
    | inl absent ↦ rw (absent, handle_delete) skip-IsConsistent
    | inr (rec, there) ↦
        let l = rec.stock_locate in
        let o = get_or_create_book-Opens c l in
        let (book, c') = get_or_create_book c l in
        rw (there, handle_delete)
          (stamped_with l m.timestamp _ _ (erase m.order_ref c.order_index)
            (rw (stamp_book-order_index, o.index))
            (removed-Good c'.books c.order_index m.order_ref book rec o.found there (opened c l v)))
  ]

  pub reduce_order-IsConsistent : (k amount t : ℕ) → IsConsistent (reduce_order k amount t c)
  unfolding reduce_order
  reduce_order-IsConsistent k amount t = elim (Option-cases (find k c.order_index)) [
    | inl absent ↦ rw (absent, reduce_order) skip-IsConsistent
    | inr (rec, there) ↦
        let l = rec.stock_locate in
        let o = get_or_create_book-Opens c l in
        let (book, c') = get_or_create_book c l in
        let left = (clamped_sub rec.shares amount).0 in
        let small = found_small k rec c.order_index there v.small in
        let (le, taken) = taken_lem rec.shares amount small in
        elim (Bool-cases (left == 0)) [
          | inl full ↦
              let whole : (rec.shares + 2 ^ 32 - left) % 2 ^ 32 ≡ rec.shares =
                omega (arith, (==_iff left 0).0 full) in
              rw (there, reduce_order, full)
                (stamped_with l t _ _ (erase k c.order_index)
                  (rw (stamp_book-order_index, o.index) (erase-assign k _ c.order_index))
                  (rw whole
                    (removed-Good c'.books c.order_index k book rec o.found there (opened c l v))))
          | inr part ↦
              rw (there, reduce_order, part)
                (stamped l t _ (assign k (record rec { shares = left }) c.order_index) (rw o.index)
                  (rw taken (
                    reduced-Good c'.books c.order_index k book rec left o.found there le
                      (ground arith) small (opened c l v))))
        ]
  ]

  -- A replacement is a removal and an insertion in one write of the book.
  pub handle_replace-IsConsistent :
      (m : OrderReplaceMsg)
      → find m.new_order_ref (erase m.original_order_ref c.order_index) ≡ none
      → m.shares < 2 ^ 32
      → IsConsistent (handle_replace m c)
  unfolding handle_replace
  handle_replace-IsConsistent m new h =
      elim (Option-cases (find m.original_order_ref c.order_index)) [
        | inl absent ↦ rw (absent, handle_replace) skip-IsConsistent
        | inr (rec, there) ↦
            let l = rec.stock_locate in
            let k = m.original_order_ref in
            let index = erase k c.order_index in
            let erased = record c { order_index = index } in
            let o = get_or_create_book-Opens erased l in
            let (book, c') = get_or_create_book erased l in
            let book' = remove_shares book rec.side rec.price rec.shares true in
            let rec' = record rec { shares = m.shares; price = m.price } in
            let start : Good c'.books c.order_index =
              (v.distinct, v.small, v.fits, λ slot. rw (o.levels slot) (v.agrees slot)) in
            let removed = removed-Good c'.books c.order_index k book rec o.found there start in
            let shorter = length-erase k rec c.order_index v.distinct there in
            let reopened : find l (assign l book' c'.books) ≡ some book' =
              ground (arith, find-assign l l book' c'.books) in
            let added =
              added-Good (assign l book' c'.books) index m.new_order_ref book' rec' reopened new h
                (omega (arith, v.fits)) removed in
            rw (there, handle_replace)
              (stamped l m.timestamp _ (assign m.new_order_ref rec' index) (rw o.index)
                (rw assign-assign at added))
      ]
