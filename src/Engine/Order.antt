-- ===== src/Engine/Order.antt =====
-- Every message leaves every book of the engine ordered, whatever the message says.
use itch_parser.Book.Levels.{side_of}
use itch_parser.Book.Order.{IsOrdered, insert_shares-IsOrdered, remove_shares-IsOrdered}
use itch_parser.Book.{PriceLevel, OrderBook, clamped_sub}
use itch_parser.Engine.{
  Core, new_core, get_or_create_book, stamp_book, add_order_impl, reduce_order, handle_delete,
  handle_replace, handle_stock_directory, handle_trading_action, handle, handle_all, skip,
}
use itch_parser.Map.Ordered.{less, greater, first_key-find}
use itch_parser.Map.Total.{All-assign, All-find}
use itch_parser.Map.{Map, find, assign, erase}
use itch_parser.Messages.{
  ParsedMessage, Price, OrderDeleteMsg, OrderReplaceMsg, stock_directory, stock_trading_action,
  add_order, add_order_mpid, order_executed, order_executed_price, order_cancel, order_delete,
  order_replace,
}
use itch_parser.Prelude.{
  ℕ, ◌≤◌, ◌≡◌, refl, ◌∙◌, Bool, true, false, List, [], ◌∷◌, Option, none, some, arith, All, ◌==◌,
  inl, inr, Bool-cases, Option-cases,
}

abbrev pub AreOrdered : Map OrderBook → Type 0
AreOrdered = All (λ e. IsOrdered e.1)

pub record Opened (c : Core) (l : ℕ) : Type 0 where
  pub book : IsOrdered (get_or_create_book c l).0
  pub books : AreOrdered (get_or_create_book c l).1.books

opened : (c : Core) (l : ℕ) → AreOrdered c.books → Opened c l
unfolding get_or_create_book
opened c l o = elim (Option-cases (find l c.books)) [
  | inl absent ↦ record {
    book = rw (absent, get_or_create_book) new;
    books = rw (absent, get_or_create_book) (All-assign _ l _ c.books new o);
  }
  | inr (book, there) ↦ record {
    book = rw (there, get_or_create_book) (All-find (λ e. IsOrdered e.1) l book c.books there o);
    books = rw (there, get_or_create_book) o;
  }
]
  where
    new : IsOrdered (record {
      stock_locate = l;
      last_update_timestamp = 0;
      bids = [];
      asks = [];
      best_bid = none;
      best_ask = none;
    })
    new = record {
      bids_sorted = tt;
      asks_sorted = tt;
      bids_filed = tt;
      asks_filed = tt;
      bid_top = refl;
      ask_top = refl;
    }

stamped : (l t : ℕ) (d : Core) → AreOrdered d.books → AreOrdered (stamp_book l t d).books
unfolding stamp_book
stamped l t d o = elim (Option-cases (find l d.books)) [
  | inl absent ↦ rw (absent, stamp_book) o
  | inr (book, there) ↦
      let b = All-find (λ e. IsOrdered e.1) l book d.books there o in
      rw (there, stamp_book)
        (All-assign _ l _ d.books
          (record {
            bids_sorted = b.bids_sorted;
            asks_sorted = b.asks_sorted;
            bids_filed = b.bids_filed;
            asks_filed = b.asks_filed;
            bid_top = b.bid_top;
            ask_top = b.ask_top;
          })
          o)
]

-- The shape that all the handlers share: open a book, write an ordered one in its place, stamp it.
written :
    (c d : Core) (l t : ℕ) (after : OrderBook)
    → d.books ≡ assign l after (get_or_create_book c l).1.books
    → AreOrdered c.books
    → IsOrdered after
    → AreOrdered (stamp_book l t d).books
written c d l t after e o h = stamped l t d (rw e (All-assign _ l after _ h (opened c l o).books))

module _ (c : Core) (o : AreOrdered c.books) where
  add_order_impl-AreOrdered :
      (l k side shares : ℕ) (price : Price) (t : ℕ) (mpid : List ℕ)
      → AreOrdered (add_order_impl l k side shares price t mpid c).books
  unfolding add_order_impl
  add_order_impl-AreOrdered l k side shares price t mpid =
      written c _ l t _ refl o (insert_shares-IsOrdered _ side price shares (opened c l o).book)

  reduce_order-AreOrdered : (k amount t : ℕ) → AreOrdered (reduce_order k amount t c).books
  unfolding reduce_order skip
  reduce_order-AreOrdered k amount t = elim (Option-cases (find k c.order_index)) [
    | inl absent ↦ rw (absent, reduce_order) o
    | inr (rec, there) ↦
        let l = rec.stock_locate in
        let left = (clamped_sub rec.shares amount).0 in
        elim (Bool-cases (left == 0)) [
          | inl full ↦
              rw (there, reduce_order, full)
                (written c _ l t _ refl o
                  (remove_shares-IsOrdered _ rec.side rec.price _ (opened c l o).book true))
          | inr part ↦
              rw (there, reduce_order, part)
                (written c _ l t _ refl o
                  (remove_shares-IsOrdered _ rec.side rec.price _ (opened c l o).book false))
        ]
  ]

  handle_delete-AreOrdered : (m : OrderDeleteMsg) → AreOrdered (handle_delete m c).books
  unfolding handle_delete skip
  handle_delete-AreOrdered m = elim (Option-cases (find m.order_ref c.order_index)) [
    | inl absent ↦ rw (absent, handle_delete) o
    | inr (rec, there) ↦
        let l = rec.stock_locate in
        rw (there, handle_delete)
          (written c _ l m.timestamp _ refl o
            (remove_shares-IsOrdered _ rec.side rec.price rec.shares (opened c l o).book true))
  ]

  handle_replace-AreOrdered : (m : OrderReplaceMsg) → AreOrdered (handle_replace m c).books
  unfolding handle_replace skip
  handle_replace-AreOrdered m = elim (Option-cases (find m.original_order_ref c.order_index)) [
    | inl absent ↦ rw (absent, handle_replace) o
    | inr (rec, there) ↦
        let l = rec.stock_locate in
        let erased = record c { order_index = erase m.original_order_ref c.order_index } in
        let book' =
          remove_shares-IsOrdered _ rec.side rec.price rec.shares (opened erased l o).book true in
        rw (there, handle_replace)
          (written erased _ l m.timestamp _ refl o
            (insert_shares-IsOrdered _ rec.side m.price m.shares book'))
  ]

-- Every message keeps every book of the engine ordered: both sides sorted best first, each level
-- filed under its own price, and both cached tops at the first entries. No condition is put on
-- the message.
pub handle-AreOrdered :
    (m : ParsedMessage) (c : Core) → AreOrdered c.books → AreOrdered (handle m c).books
unfolding handle handle_stock_directory handle_trading_action
handle-AreOrdered (stock_directory m) c o = o
handle-AreOrdered (stock_trading_action m) c o =
    elim (Option-cases (find m.stock_locate c.instruments)) [
      | inl absent ↦ rw (absent, handle_trading_action) o
      | inr (info, there) ↦ rw (there, handle_trading_action) o
    ]
handle-AreOrdered (add_order m) c o =
    add_order_impl-AreOrdered c o m.stock_locate m.order_ref m.side m.shares m.price m.timestamp []
handle-AreOrdered (add_order_mpid m) c o =
    add_order_impl-AreOrdered c o m.stock_locate m.order_ref m.side m.shares m.price m.timestamp
      m.attribution
handle-AreOrdered (order_executed m) c o =
    reduce_order-AreOrdered c o m.order_ref m.executed_shares m.timestamp
handle-AreOrdered (order_executed_price m) c o =
    reduce_order-AreOrdered c o m.order_ref m.executed_shares m.timestamp
handle-AreOrdered (order_cancel m) c o =
    reduce_order-AreOrdered c o m.order_ref m.cancelled_shares m.timestamp
handle-AreOrdered (order_delete m) c o = handle_delete-AreOrdered c o m
handle-AreOrdered (order_replace m) c o = handle_replace-AreOrdered c o m

handle_all-AreOrdered :
    (ms : List ParsedMessage) (c : Core) → AreOrdered c.books → AreOrdered (handle_all ms c).books
unfolding handle_all
handle_all-AreOrdered [] c o = o
handle_all-AreOrdered (m ∷ ms) c o = handle_all-AreOrdered ms (handle m c) (handle-AreOrdered m c o)

-- The cached top of a side, and what it is to be at least as good on that side.
abbrev pub top_of : Bool → OrderBook → Option ℕ
top_of true book = book.best_bid
top_of false book = book.best_ask

abbrev pub AsGood : Bool → ℕ → ℕ → Type 0
AsGood true price best = price ≤ best
AsGood false price best = best ≤ price

-- After any history, when a side of a book has a level at a price, the cached top of that side
-- points to a level of the side whose price is at least as good: as high for the bids, as low for
-- the asks. So a cached top never dangles beside a filled side.
pub best-handle_all :
    (ms : List ParsedMessage) (l price : ℕ) (is_bid : Bool) (book : OrderBook) (level : PriceLevel)
    → find l (handle_all ms new_core).books ≡ some book
    → find price (side_of is_bid book) ≡ some level
    → (b : ℕ) × (w : PriceLevel) × (top_of is_bid book ≡ some b)
      × (find b (side_of is_bid book) ≡ some w)
      × AsGood is_bid price b
best-handle_all ms l price is_bid book level found e = best is_bid e (
    All-find (λ e. IsOrdered e.1) l book (handle_all ms new_core).books found
      (handle_all-AreOrdered ms new_core tt))
  where
    best :
        (is_bid : Bool)
        → find price (side_of is_bid book) ≡ some level
        → IsOrdered book
        → (b : ℕ) × (w : PriceLevel) × (top_of is_bid book ≡ some b)
          × (find b (side_of is_bid book) ≡ some w)
          × AsGood is_bid price b
    best true e o =
        let (b, w, first, there, h) =
          first_key-find greater book.bids price level o.bids_sorted e in
        (b, w, o.bid_top ∙ first, there, ground arith)
    best false e o =
        let (b, w, first, there, h) = first_key-find less book.asks price level o.asks_sorted e in
        (b, w, o.ask_top ∙ first, there, ground arith)
