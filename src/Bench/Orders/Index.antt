-- ===== src/Bench/Orders/Index.antt =====
-- Which orders the engine knows after the messages of the benchmarks.
use itch_parser.Book.{OrderRecord}
use itch_parser.Engine.Effects.{stamp_book-counters, get_or_create_book-counters}
use itch_parser.Engine.Levels.{get_or_create_book-Opens, stamp_book-order_index}
use itch_parser.Engine.{Core, add_order_impl, handle_delete, handle_replace, handle}
use itch_parser.Map.Find.{find-assign, find-erase}
use itch_parser.Map.{Map, find, assign, erase}
use itch_parser.Messages.{
  AddOrderMsg, OrderDeleteMsg, OrderReplaceMsg, add_order, order_delete, order_replace,
}
use itch_parser.Prelude.{
  ℕ, ◌≡◌, refl, ap, sym, ◌∙◌, Bool, true, false, Option, none, some, replicate, arith, ◌==◌,
  if◌then◌else◌, inl, inr, Option-cases,
}

abbrev pub is_some : Option OrderRecord → Bool
is_some none = false
is_some (some rec) = true

-- Whether the order index has an order.
abbrev pub knows : Core → ℕ → Bool
knows c ref = is_some (find ref c.order_index)

pub knows-some :
    (c : Core) (ref : ℕ)
    → knows c ref ≡ true
    → (rec : OrderRecord) × (find ref c.order_index ≡ some rec)
knows-some c ref h = elim (Option-cases (find ref c.order_index)) [
  | inl absent ↦ let e : false ≡ true = sym (ap is_some absent) ∙ h in absurd (cc e)
  | inr found ↦ found
]

pub knows-none : (c : Core) (ref : ℕ) → knows c ref ≡ false → find ref c.order_index ≡ none
knows-none c ref h = elim (Option-cases (find ref c.order_index)) [
  | inl absent ↦ absent
  | inr (rec, there) ↦ let e : true ≡ false = sym (ap is_some there) ∙ h in absurd (cc e)
]

pub knows-assign :
    (k j : ℕ) (rec : OrderRecord) (m : Map OrderRecord)
    → is_some (find j (assign k rec m)) ≡ (if k == j then true else is_some (find j m))
knows-assign k j rec m = ground (arith, find-assign j k rec m)

pub knows-erase :
    (k j : ℕ) (m : Map OrderRecord)
    → is_some (find j (erase k m)) ≡ (if k == j then false else is_some (find j m))
knows-erase k j m = ground (arith, find-erase j k m)

pub order_index-add_order :
    (m : AddOrderMsg) (c : Core)
    → (rec : OrderRecord) × ((handle (add_order m) c).order_index
        ≡ assign m.order_ref rec c.order_index)
unfolding handle add_order_impl
order_index-add_order m c =
    let rec : OrderRecord = record {
      shares = m.shares;
      price = m.price;
      stock_locate = m.stock_locate;
      side = m.side;
      mpid = replicate 4 0;
    } in
    (
      rec,
      rw
          (
            handle,
            add_order_impl,
            stamp_book-order_index,
            (get_or_create_book-Opens c m.stock_locate).index,
          )
          refl,
    )

pub order_index-order_delete :
    (m : OrderDeleteMsg) (c : Core)
    → knows c m.order_ref ≡ true
    → (handle (order_delete m) c).order_index ≡ erase m.order_ref c.order_index
unfolding handle handle_delete
order_index-order_delete m c h =
    let (rec, there) = knows-some c m.order_ref h in
    rw
      (
        handle,
        handle_delete,
        there,
        stamp_book-order_index,
        (get_or_create_book-Opens c rec.stock_locate).index,
      )
      refl

pub knows-add_order :
    (m : AddOrderMsg) (c : Core) (j : ℕ)
    → (knows (handle (add_order m) c) j ≡ (if m.order_ref == j then true else knows c j))
      × ((handle (add_order m) c).skipped_unknown_ref ≡ c.skipped_unknown_ref)
unfolding handle add_order_impl
knows-add_order m c j =
    let l = m.stock_locate in
    let (corrupt, skipped) = get_or_create_book-counters c l in
    rw (handle, add_order_impl, stamp_book-order_index, (get_or_create_book-Opens c l).index)
      (
        knows-assign m.order_ref j _ c.order_index,
        (stamp_book-counters l m.timestamp _).1 ∙ skipped,
      )

pub knows-order_delete :
    (m : OrderDeleteMsg) (c : Core) (j : ℕ)
    → knows c m.order_ref ≡ true
    → (knows (handle (order_delete m) c) j ≡ (if m.order_ref == j then false else knows c j))
      × ((handle (order_delete m) c).skipped_unknown_ref ≡ c.skipped_unknown_ref)
unfolding handle handle_delete
knows-order_delete m c j h =
    let (rec, there) = knows-some c m.order_ref h in
    let l = rec.stock_locate in
    let (corrupt, skipped) = get_or_create_book-counters c l in
    rw (handle, handle_delete, there, stamp_book-order_index, (get_or_create_book-Opens c l).index)
      (knows-erase m.order_ref j c.order_index, (stamp_book-counters l m.timestamp _).1 ∙ skipped)

pub knows-order_replace :
    (m : OrderReplaceMsg) (c : Core) (j : ℕ)
    → knows c m.original_order_ref ≡ true
    → (knows (handle (order_replace m) c) j ≡ (
        if m.new_order_ref == j
        then true
        else if m.original_order_ref == j
        then false
        else knows c j))
      × ((handle (order_replace m) c).skipped_unknown_ref ≡ c.skipped_unknown_ref)
unfolding handle handle_replace
knows-order_replace m c j h =
    let (rec, there) = knows-some c m.original_order_ref h in
    let l = rec.stock_locate in
    let erased = record c { order_index = erase m.original_order_ref c.order_index } in
    let (corrupt, skipped) = get_or_create_book-counters erased l in
    rw
      (
        handle,
        handle_replace,
        there,
        stamp_book-order_index,
        (get_or_create_book-Opens erased l).index,
      )
      (
        knows-assign m.new_order_ref j _ _
            ∙ rw (knows-erase m.original_order_ref j c.order_index) refl,
        (stamp_book-counters l m.timestamp _).1 ∙ skipped,
      )
