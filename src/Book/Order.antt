-- ===== src/Book/Order.antt =====
-- The sides of a book stay sorted best first, every entry is filed under its own price, and the
-- cached tops are the first entries.
use itch_parser.Book.{
  PriceLevel, OrderBook, insert, reduced, remove, insert_shares, remove_shares, refresh_top,
}
use itch_parser.Map.Ordered.{
  Compare, less, greater, IsSorted, place-IsSorted, erase-IsSorted, assign-IsSorted,
}
use itch_parser.Map.Total.{All-assign, All-erase, All-find}
use itch_parser.Map.{Map, find, place, first_key}
use itch_parser.Messages.{Price}
use itch_parser.Prelude.{
  ℕ, ◌≡◌, refl, Bool, [], ◌∷◌, arith, All, ◌==◌, inl, inr, Bool-cases, Option-cases,
}

-- An entry's level names the price that it is filed under.
abbrev pub IsFiled : Map PriceLevel → Type 0
IsFiled = All (λ e. e.1.price.raw ≡ e.0)

pub record IsOrdered (book : OrderBook) : Type 0 where
  pub bids_sorted : IsSorted greater book.bids
  pub asks_sorted : IsSorted less book.asks
  pub bids_filed : IsFiled book.bids
  pub asks_filed : IsFiled book.asks
  pub bid_top : book.best_bid ≡ first_key book.bids
  pub ask_top : book.best_ask ≡ first_key book.asks

module _ {ℓ κ} {V : Type ℓ} where
  pub All-place :
      (P : ℕ × V → Type κ) (before : ℕ → ℕ → Bool) (k : ℕ) (v : V) (m : Map V)
      → P (k, v)
      → All P m
      → All P (place before k v m)
  unfolding place
  All-place P before k v [] h a = (h, tt)
  All-place P before k v ((i, w) ∷ m) h a = ground (arith, All-place P before k v m h a.1)

module _ (c : Compare) (price : Price) (shares : ℕ) (m : Map PriceLevel) where
  insert-IsSorted : IsSorted c m → IsSorted c (insert c price shares m)
  unfolding insert
  insert-IsSorted s = place-IsSorted c price.raw _ m s

  insert-IsFiled : IsFiled m → IsFiled (insert c price shares m)
  unfolding insert
  insert-IsFiled f = All-place _ c.before price.raw _ m refl f

  module _ (full : Bool) where
    remove-IsSorted : IsSorted c m → IsSorted c (remove price shares full m)
    unfolding remove
    remove-IsSorted s = elim (Option-cases (find price.raw m)) [
      | inl absent ↦ rw (absent, remove) s
      | inr (level, there) ↦ elim (Bool-cases ((reduced level shares full).order_count == 0)) [
        | inl none_left ↦ rw (there, remove, none_left) (erase-IsSorted c price.raw m s)
        | inr some_left ↦
            rw (there, remove, some_left) (assign-IsSorted c price.raw _ level m there s)
      ]
    ]

    remove-IsFiled : IsFiled m → IsFiled (remove price shares full m)
    unfolding remove reduced
    remove-IsFiled f = elim (Option-cases (find price.raw m)) [
      | inl absent ↦ rw (absent, remove) f
      | inr (level, there) ↦ elim (Bool-cases ((reduced level shares full).order_count == 0)) [
        | inl none_left ↦ rw (there, remove, none_left) (All-erase _ price.raw m f)
        | inr some_left ↦
            rw (there, remove, some_left)
              (All-assign _ price.raw _ m
                (All-find (λ e. e.1.price.raw ≡ e.0) price.raw level m there f) f)
      ]
    ]

-- What `refresh_top` leaves is ordered as soon as its two sides are.
refresh_top-IsOrdered :
    (book : OrderBook)
    → IsSorted greater book.bids
    → IsSorted less book.asks
    → IsFiled book.bids
    → IsFiled book.asks
    → IsOrdered (refresh_top book)
unfolding refresh_top
refresh_top-IsOrdered book bs as_ bf af = record {
  bids_sorted = bs;
  asks_sorted = as_;
  bids_filed = bf;
  asks_filed = af;
  bid_top = refl;
  ask_top = refl;
}

module _ (book : OrderBook) (side : ℕ) (price : Price) (shares : ℕ) (o : IsOrdered book) where
  pub insert_shares-IsOrdered : IsOrdered (insert_shares book side price shares)
  unfolding insert_shares
  insert_shares-IsOrdered = elim (Bool-cases (side == b'B')) [
    | inl bid ↦
        rw (bid, insert_shares)
          (refresh_top-IsOrdered (record book { bids = _ })
            (insert-IsSorted greater price shares book.bids o.bids_sorted) o.asks_sorted
            (insert-IsFiled greater price shares book.bids o.bids_filed) o.asks_filed)
    | inr ask ↦
        rw (ask, insert_shares)
          (refresh_top-IsOrdered (record book { asks = _ }) o.bids_sorted
            (insert-IsSorted less price shares book.asks o.asks_sorted) o.bids_filed
            (insert-IsFiled less price shares book.asks o.asks_filed))
  ]

  pub remove_shares-IsOrdered :
      (full : Bool) → IsOrdered (remove_shares book side price shares full)
  unfolding remove_shares
  remove_shares-IsOrdered full = elim (Bool-cases (side == b'B')) [
    | inl bid ↦
        rw (bid, remove_shares)
          (refresh_top-IsOrdered (record book { bids = _ })
            (remove-IsSorted greater price shares book.bids full o.bids_sorted) o.asks_sorted
            (remove-IsFiled greater price shares book.bids full o.bids_filed) o.asks_filed)
    | inr ask ↦
        rw (ask, remove_shares)
          (refresh_top-IsOrdered (record book { asks = _ }) o.bids_sorted
            (remove-IsSorted less price shares book.asks full o.asks_sorted) o.bids_filed
            (remove-IsFiled less price shares book.asks full o.asks_filed))
  ]
