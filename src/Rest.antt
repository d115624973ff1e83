-- ===== src/Rest.antt =====
-- src/rest_server.cpp: the four routes. The HTTP library and the JSON library are not modelled: a
-- request is what the handlers read of it, a document is the value that is handed to `json`, where
-- a field that may be `null` is an option, and `dump` is a parameter, which may throw. The type
-- `double` and its operations are a parameter.
pub mod Numbers
pub mod Books
pub mod Top
pub mod Listing
use itch_parser.Prelude.Int.{ℤ, pos, negsuc, pos_part, neg_part, ◌-ℤ◌, ltb_ℤ, int64_of, fits_int32}
use itch_parser.Prelude.Result.{Result, ok, err, runtime_error, missing_key, int_overflow, ◌>>=◌}
use itch_parser.Prelude.{
  ℕ, suc, ◌+◌, ◌-◌, ◌*◌, ◌^◌, Bool, true, false, ◌&&◌, ◌||◌, List, [], ◌∷◌, ◌++◌, Option, none,
  some, String, map, codes, length, drop, ltb, leb, ◌==◌, if◌then◌else◌,
}
use itch_parser.Publish.{Publisher, current}
use itch_parser.Snapshot.{PriceLevelSnapshot, OrderBookSnapshot, SystemSnapshot, to_lower}
use itch_parser.TextMap.{TextMap, find_text}

unfoldable pub trading_state_description : ℕ → String
trading_state_description state =
    if state == b'T'
    then "Trading"
    else if state == b'H'
    then "Halted"
    else if state == b'P'
    then "Paused"
    else if state == b'Q'
    then "Quotation only"
    else "Unknown"

-- `std::isspace` of the "C" locale, which `std::stoi` skips at the front.
abbrev pub is_space : ℕ → Bool
is_space c = c == b' ' || (leb 9 c && leb c 13)

abbrev pub is_digit : ℕ → Bool
is_digit c = leb b'0' c && leb c b'9'

unfoldable pub count_spaces : List ℕ → ℕ
count_spaces [] = 0
count_spaces (c ∷ s) = if is_space c then suc (count_spaces s) else 0

-- The value of the digits at the front, after `acc`, and their number.
unfoldable pub read_digits : ℕ → List ℕ → ℕ × ℕ
read_digits acc [] = (acc, 0)
read_digits acc (c ∷ s) =
    let (value, n) = read_digits (acc * 10 + (c - b'0')) s in
    if is_digit c then (value, suc n) else (acc, 0)

-- Whether a minus sign stands at the front, and the number of the sign's bytes.
abbrev pub sign_of : List ℕ → Bool × ℕ
sign_of [] = (false, 0)
sign_of (c ∷ s) = if c == b'-' then (true, 1) else if c == b'+' then (false, 1) else (false, 0)

abbrev pub signed : Bool → ℕ → ℤ
signed true value = pos 0 -ℤ pos value
signed false value = pos value

-- `std::stoi(s, &pos)`: the integer and `pos`, or `none` where it throws, since there is no digit
-- or the integer is no `int`.
unfoldable pub stoi : List ℕ → Option (ℤ × ℕ)
stoi s =
    let k = count_spaces s in
    let (negative, sign) = sign_of (drop k s) in
    let (value, n) = read_digits 0 (drop sign (drop k s)) in
    if n == 0
    then none
    else if fits_int32 (signed negative value)
    then some (signed negative value, k + sign + n)
    else none

pub record Request : Type 0 where
  -- the path parameter of the two book routes
  pub symbol : List ℕ
  -- the query's `depth`
  pub depth : Option (List ℕ)

-- What the check of `depth` gives: a depth, or the error's text.
pub data Depth : Type 0 where
  accepted : ℕ → Depth
  refused : String → Depth

unfoldable pub parse_depth : Option (List ℕ) → Depth
parse_depth none = accepted 10
parse_depth (some d) = elim (stoi d) [
  | none ↦ refused "depth must be an integer"
  | some (depth, pos') ↦
      if pos' == length d
      then (if ltb_ℤ depth (pos 1)
          then refused "depth must be at least 1"
          else if ltb_ℤ (pos 50) depth
          then refused "depth must not exceed 50"
          else accepted (pos_part depth))
      else refused "depth must be an integer"
]

pub record InstrumentEntry : Type 0 where
  pub symbol : List ℕ
  pub stock_locate : ℕ
  pub trading_state : List ℕ
  pub trading_state_description : String
  pub market_category : Option (List ℕ)
  pub round_lot_size : Option ℕ

-- The values that are handed to `json`.
pub data Document (D : Type 0) : Type 0 where
  error : List ℕ → Document D
  -- messages_processed, instruments_tracked, snapshot_timestamp, snapshot_age_ms and
  -- pipeline_complete
  status : ℕ → ℕ → ℕ → Option ℤ → Bool → Document D
  -- count and instruments
  instruments : ℕ → List InstrumentEntry → Document D
  -- symbol, trading_state, last_update_timestamp, bid_count, ask_count, bids and asks
  book :
      List ℕ
      → List ℕ
      → Option ℕ
      → ℕ
      → ℕ
      → List (PriceLevelSnapshot D)
      → List (PriceLevelSnapshot D)
      → Document D
  -- symbol, trading_state, last_update_timestamp, best_bid, best_ask, spread and crossed
  top :
      List ℕ
      → List ℕ
      → Option ℕ
      → Option (PriceLevelSnapshot D)
      → Option (PriceLevelSnapshot D)
      → Option D
      → Bool
      → Document D

-- A handler's answer before `dump`. A status of `none` is one that the handler leaves to the library.
pub record Response (D : Type 0) : Type 0 where
  pub status : Option ℕ
  pub body : Document D

-- What a handler leaves in `res`.
pub record Page : Type 0 where
  pub status : Option ℕ
  pub content : List ℕ

-- The operations of `double` in the handlers, with the numbers 10000.0 and 0.5, and those that the
-- properties of its rounding are about.
pub record Double (D : Type 0) : Type 0 where
  pub of_integer : ℤ → D
  pub ten_thousand : D
  pub half : D
  pub times : D → D → D
  pub over : D → D → D
  pub plus : D → D → D
  pub minus : D → D → D
  pub less : D → D → Bool
  -- the integer part, where it is in the range of the cast
  pub truncated : D → ℤ

-- `Price::to_double`
abbrev pub price_to_double : {D : Type 0} → Double D → ℕ → D
price_to_double double raw = double.over (double.of_integer (pos raw)) double.ten_thousand

module _ {D : Type 0} where
  abbrev pub reply : Document D → Response D
  reply body = record { status = none; body = body }

  abbrev pub refuse : ℕ → List ℕ → Response D
  refuse code text = record { status = some code; body = error text }

  abbrev pub unavailable : Response D
  unavailable = refuse 503 (codes "snapshot not yet available")

  abbrev pub not_found : List ℕ → Response D
  not_found symbol = refuse 404 (codes "instrument not found: " ++ symbol)

  unfoldable pub status_response : ℤ → Publisher D → Response D
  status_response now_ms p = elim (current p) [
    | none ↦ reply (status 0 0 0 none false)
    | some snap ↦ reply (
        status snap.messages_processed (length snap.books) snap.snapshot_timestamp
          (some (now_ms -ℤ int64_of snap.snapshot_timestamp)) snap.pipeline_complete)
  ]

  unfoldable pub entry_of : OrderBookSnapshot D → InstrumentEntry
  entry_of b = record {
    symbol = b.symbol;
    stock_locate = b.stock_locate;
    trading_state = b.trading_state ∷ [];
    trading_state_description = trading_state_description b.trading_state;
    market_category = if b.market_category == 0 then none else some (b.market_category ∷ []);
    round_lot_size = if b.round_lot_size == 0 then none else some b.round_lot_size;
  }

  unfoldable pub instruments_response : Publisher D → Response D
  instruments_response p = elim (current p) [
    | none ↦ unavailable
    | some snap ↦
        let entries = map (λ e. entry_of e.1) snap.books in
        reply (instruments (length entries) entries)
  ]

  -- The loop that pushes levels until `count` reaches the depth; the count is its final value.
  unfoldable pub push_levels : ℕ → ℕ → List (PriceLevelSnapshot D) → List (PriceLevelSnapshot D) × ℕ
  push_levels depth count [] = ([], count)
  push_levels depth count (level ∷ levels) =
      let (pushed, final) = push_levels depth (count + 1) levels in
      if leb depth count then ([], count) else (level ∷ pushed, final)

  -- `snap->books.at(idx_it->second)` for the symbol that was asked for; `none` where the index has
  -- no such symbol.
  unfoldable pub find_book : List ℕ → SystemSnapshot D → Result (Option (OrderBookSnapshot D))
  find_book symbol snap = elim (find_text (map to_lower symbol) snap.symbol_index) [
    | none ↦ ok none
    | some key ↦ elim (find_text key snap.books) [
      | none ↦ err (runtime_error missing_key)
      | some b ↦ ok (some b)
    ]
  ]

  abbrev pub updated_at : OrderBookSnapshot D → Option ℕ
  updated_at b = if ltb 0 b.last_update_timestamp then some b.last_update_timestamp else none

  unfoldable pub book_document : ℕ → OrderBookSnapshot D → Document D
  book_document depth b =
      let (bids, bid_count) = push_levels depth 0 b.bids in
      let (asks, ask_count) = push_levels depth 0 b.asks in
      book b.symbol (b.trading_state ∷ []) (updated_at b) bid_count ask_count bids asks

  unfoldable pub book_response : Request → Publisher D → Result (Response D)
  book_response req p = elim (current p) [
    | none ↦ ok unavailable
    | some snap ↦ elim (parse_depth req.depth) [
      | refused text ↦ ok (refuse 400 (codes text))
      | accepted depth ↦ find_book req.symbol snap >>= λ found. elim found [
        | none ↦ ok (not_found req.symbol)
        | some b ↦ ok (reply (book_document depth b))
      ]
    ]
  ]

  abbrev pub front : List (PriceLevelSnapshot D) → Option (PriceLevelSnapshot D)
  front [] = none
  front (level ∷ levels) = some level

  module _ (double : Double D) where
    -- `static_cast<int32_t>(price * 10000.0 + 0.5)`
    unfoldable pub raw_of : D → Result ℤ
    raw_of price =
        let n =
          double.truncated (double.plus (double.times price double.ten_thousand) double.half) in
        if fits_int32 n then ok n else err int_overflow

    -- `spread` and `crossed`
    unfoldable pub spread_of :
        List (PriceLevelSnapshot D) → List (PriceLevelSnapshot D) → Result (Option D × Bool)
    spread_of bids asks = elim (front bids) [
      | none ↦ ok (none, false)
      | some bid ↦ elim (front asks) [
        | none ↦ ok (none, false)
        | some ask ↦ raw_of ask.price >>= λ ask_raw. raw_of bid.price >>= λ bid_raw.
            if fits_int32 (ask_raw -ℤ bid_raw)
            then ok (
              some (double.over (double.of_integer (ask_raw -ℤ bid_raw)) double.ten_thousand),
              ltb_ℤ ask_raw bid_raw,
            )
            else err int_overflow
      ]
    ]

    unfoldable pub top_response : Request → Publisher D → Result (Response D)
    top_response req p = elim (current p) [
      | none ↦ ok unavailable
      | some snap ↦ find_book req.symbol snap >>= λ found. elim found [
        | none ↦ ok (not_found req.symbol)
        | some b ↦ spread_of b.bids b.asks >>= λ (spread, crossed). ok (
            reply (
              top b.symbol (b.trading_state ∷ []) (updated_at b) (front b.bids) (front b.asks)
                spread crossed))
      ]
    ]

  -- The handlers, to the end: `res.set_content(j.dump(), "application/json")`.
  module _ (dump : Document D → Result (List ℕ)) where
    unfoldable pub send : Response D → Result Page
    send r = dump r.body >>= λ text. ok (record { status = r.status; content = text })

    unfoldable pub get_status : ℤ → Publisher D → Result Page
    get_status now_ms p = send (status_response now_ms p)

    unfoldable pub get_instruments : Publisher D → Result Page
    get_instruments p = send (instruments_response p)

    unfoldable pub get_book : Request → Publisher D → Result Page
    get_book req p = book_response req p >>= send

    unfoldable pub get_top : Double D → Request → Publisher D → Result Page
    get_top double req p = top_response double req p >>= send
