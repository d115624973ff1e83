-- ===== src/Rest/Top.antt =====
-- The route of the best levels: the spread, and its agreement with the book route.
use itch_parser.Book.{PriceLevel}
use itch_parser.Map.{Map}
use itch_parser.Prelude.Int.{pos, sub_ℕ}
use itch_parser.Prelude.Result.{Result, Error, ok, err, int_overflow}
use itch_parser.Prelude.{
  ℕ, zero, suc, ◌^◌, ◌≤◌, ◌<◌, ◌≡◌, refl, ◌∙◌, Bool, true, ◌&&◌, List, [], ◌∷◌, Option, none, some,
  ltb, if◌then◌else◌, arith, length, take,
}
use itch_parser.Publish.{Publisher, current}
use itch_parser.Rest.Books.{book_response_present, get_book-ok}
use itch_parser.Rest.Numbers.{parse_depth_bounds}
use itch_parser.Rest.{
  Request, Document, Response, Double, price_to_double, accepted, parse_depth, top, book, reply,
  not_found, find_book, updated_at, send, top_response, get_book, get_top, front, raw_of, spread_of,
}
use itch_parser.Snapshot.{OrderBookSnapshot, PriceLevelSnapshot, SystemSnapshot, side_snapshot}

module _ {D : Type 0} (double : Double D) where
  abbrev quarter : D
  quarter = double.times double.half double.half

  -- Less than 0.25 away from n.
  abbrev pub IsNear : D → ℕ → Type 0
  IsNear x n =
      (double.less (double.minus (double.of_integer (pos n)) quarter) x ≡ true)
      × (double.less x (double.plus (double.of_integer (pos n)) quarter) ≡ true)

  -- What the handler relies on of `double`: the errors of one division and of one product are far
  -- below 0.25 for numbers of 32 bits, and half added to a number near n has the integer part n.
  pub record Rounding : Type 0 where
    pub scales_back :
        (raw : ℕ)
        → raw < 2 ^ 32
        → IsNear (double.times (price_to_double double raw) double.ten_thousand) raw
    pub half_up :
        (x : D) (n : ℕ)
        → n < 2 ^ 32
        → IsNear x n
        → double.truncated (double.plus x double.half) ≡ pos n

  raw_of-price_to_double :
      (raw : ℕ)
      → Rounding
      → raw < 2 ^ 32
      → raw_of double (price_to_double double raw)
        ≡ (if ltb raw (2 ^ 31) then ok (pos raw) else err int_overflow)
  unfolding raw_of
  raw_of-price_to_double raw law h =
      let x = double.times (price_to_double double raw) double.ten_thousand in
      rw (law.half_up x raw h (law.scales_back raw h)) refl

  -- For a book whose best bid is at the raw price `bid` and whose best ask is at `ask`: below 2 ^ 31
  -- the integer that the spread is divided from is exactly ask - bid, negative for a crossed book,
  -- and `crossed` holds exactly when ask < bid; from 2 ^ 31 on the cast to `int32_t` overflows.
  pub spread_of-side_snapshot :
      (bid ask : ℕ) (x y : PriceLevel) (bids asks : Map PriceLevel)
      → Rounding
      → bid < 2 ^ 32
      → ask < 2 ^ 32
      → spread_of double
          (side_snapshot (price_to_double double) ((bid, x) ∷ bids))
          (side_snapshot (price_to_double double) ((ask, y) ∷ asks))
        ≡ (if ltb bid (2 ^ 31) && ltb ask (2 ^ 31)
            then ok (
              some (double.over (double.of_integer (sub_ℕ ask bid)) double.ten_thousand),
              ltb ask bid,
            )
            else err int_overflow)
  unfolding spread_of side_snapshot
  spread_of-side_snapshot bid ask x y bids asks law hb ha =
      ground (arith, raw_of-price_to_double bid law hb, raw_of-price_to_double ask law ha)

module _ {D : Type 0} (double : Double D) where
  front-take :
      (depth : ℕ) (levels : List (PriceLevelSnapshot D))
      → 1 ≤ depth
      → front (take depth levels) ≡ front levels
  front-take zero levels h = absurd (omega arith)
  front-take (suc depth) [] h = refl
  front-take (suc depth) (level ∷ levels) h = refl

  module _ (req : Request) (p : Publisher D) (snap : SystemSnapshot D)
      (h : current p ≡ some snap) where
    top_response-err :
        (x : Error) → find_book req.symbol snap ≡ err x → top_response double req p ≡ err x
    unfolding top_response
    top_response-err x f = ground (arith, h, f)

    top_response_absent :
        find_book req.symbol snap ≡ ok none → top_response double req p ≡ ok (not_found req.symbol)
    unfolding top_response
    top_response_absent f = ground (arith, h, f)

    top_response_overflow :
        (b : OrderBookSnapshot D) (x : Error)
        → find_book req.symbol snap ≡ ok (some b)
        → spread_of double b.bids b.asks ≡ err x
        → top_response double req p ≡ err x
    unfolding top_response
    top_response_overflow b x f e = ground (arith, h, f, e)

    top_response_present :
        (b : OrderBookSnapshot D) (spread : Option D) (crossed : Bool)
        → find_book req.symbol snap ≡ ok (some b)
        → spread_of double b.bids b.asks ≡ ok (spread, crossed)
        → top_response double req p
          ≡ ok (
              reply (
                top b.symbol
                  (b.trading_state ∷ [])
                  (updated_at b)
                  (front b.bids)
                  (front b.asks)
                  spread
                  crossed))
    unfolding top_response
    top_response_present b spread crossed f e = ground (arith, h, f, e)

  get_top-ok :
      (dump : Document D → Result (List ℕ)) (req : Request) (p : Publisher D) (r : Response D)
      → top_response double req p ≡ ok r
      → get_top dump double req p ≡ send dump r
  unfolding get_top
  get_top-ok dump req p r h = rw h refl

  -- Where `get_top` dumps a document of the best levels, `get_book`, for the same symbol and with a
  -- depth that is let through, dumps a book of the same symbol, trading state and time whose first
  -- bid and first ask are these best levels.
  pub get_top-get_book :
      (dump : Document D → Result (List ℕ)) (req : Request) (p : Publisher D)
      (snap : SystemSnapshot D) (depth : ℕ) (symbol state : List ℕ) (updated : Option ℕ)
      (bid ask : Option (PriceLevelSnapshot D)) (spread : Option D) (crossed : Bool)
      → current p ≡ some snap
      → parse_depth req.depth ≡ accepted depth
      → top_response double req p ≡ ok (reply (top symbol state updated bid ask spread crossed))
      → (bids asks : List (PriceLevelSnapshot D)) × (get_top dump double req p
          ≡ send dump (reply (top symbol state updated bid ask spread crossed)))
        × (get_book dump req p
            ≡ send dump (reply (book symbol state updated (length bids) (length asks) bids asks)))
        × (front bids ≡ bid)
        × (front asks ≡ ask)
  get_top-get_book dump req p snap depth symbol state updated bid ask spread crossed h e answer =
      by_book (find_book req.symbol snap) refl
    where
      Answer : Type 0
      Answer =
          (bids asks : List (PriceLevelSnapshot D)) × (get_top dump double req p
            ≡ send dump (reply (top symbol state updated bid ask spread crossed)))
          × (get_book dump req p
              ≡ send dump (reply (book symbol state updated (length bids) (length asks) bids asks)))
          × (front bids ≡ bid)
          × (front asks ≡ ask)

      by_spread :
          (b : OrderBookSnapshot D) (r : Result (Option D × Bool))
          → find_book req.symbol snap ≡ ok (some b)
          → spread_of double b.bids b.asks ≡ r
          → Answer
      by_spread b (err x) f g = cc (answer, top_response_overflow req p snap h b x f g)
      by_spread b (ok (s, c)) f g =
          let shown = top_response_present req p snap h b s c f g in
          let same : top b.symbol (b.trading_state ∷ []) (updated_at b) (front b.bids)
                (front b.asks) s c
              ≡ top symbol state updated bid ask spread crossed =
            cc (answer, shown) in
          let bounds = parse_depth_bounds req.depth depth e in
          let symbols : b.symbol ≡ symbol = cc same in
          let states : b.trading_state ∷ [] ≡ state = cc same in
          let times : updated_at b ≡ updated = cc same in
          let bids : front b.bids ≡ bid = cc same in
          let asks : front b.asks ≡ ask = cc same in
          (
            take depth b.bids,
            take depth b.asks,
            get_top-ok dump req p _ answer,
            get_book-ok dump req p _
                (book_response_present req p snap h depth b e f ∙ rw (symbols, states, times) refl),
            front-take depth b.bids bounds.0 ∙ bids,
            front-take depth b.asks bounds.0 ∙ asks,
          )

      by_book : (r : Result (Option (OrderBookSnapshot D))) → find_book req.symbol snap ≡ r → Answer
      by_book (err x) f = cc (answer, top_response-err req p snap h x f)
      by_book (ok none) f = cc (answer, top_response_absent req p snap h f)
      by_book (ok (some b)) f = by_spread b (spread_of double b.bids b.asks) f refl
