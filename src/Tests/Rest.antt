-- ===== src/Tests/Rest.antt =====
-- The REST routes at concrete requests.
use itch_parser.Book.{
  insert_shares, remove_shares, refresh_top, clamped_sub, set_mpid_from, reduced, insert, remove,
}
use itch_parser.Engine.{
  handle, handle_all, reduce_order, handle_stock_directory, add_order_impl, handle_replace,
  handle_delete, get_or_create_book, stamp_book, register_instrument, skip, to_string,
}
use itch_parser.Map.{find, erase, assign, place}
use itch_parser.Prelude.Int.{ℤ, pos, negsuc, pos_part, sub_ℕ, ◌-ℤ◌, ◌+ℤ◌, ltb_ℤ, int64_of}
use itch_parser.Prelude.Result.{Result, ok, err, runtime_error, invalid_utf8, int_overflow, ◌>>=◌}
use itch_parser.Prelude.{
  ◌++◌, ℕ, suc, ◌*◌, ◌/◌, ◌^◌, ◌<◌, ◌≡◌, refl, true, false, ◌&&◌, List, [], ◌∷◌, some, arith, map,
  length, ltb, ◌==◌, if◌then◌else◌,
}
use itch_parser.Publish.{Publisher, current}
use itch_parser.Rest.Books.{get_book_registered, served}
use itch_parser.Rest.Listing.{get_status-get_instruments}
use itch_parser.Rest.Numbers.{parse_depth-to_string}
use itch_parser.Rest.Top.{IsNear, spread_of-side_snapshot, get_top-get_book}
use itch_parser.Rest.{
  InstrumentEntry, Document, Double, price_to_double, error, top, send, status, instruments,
  get_status, get_instruments, Request, accepted, refused, parse_depth, stoi, read_digits,
  count_spaces, reply, book, top_response, get_book, get_top, front, find_book, spread_of, raw_of,
}
use itch_parser.Snapshot.{
  OrderBookSnapshot, PriceLevelSnapshot, SystemSnapshot, build_snapshot, side_snapshot,
  book_snapshot, add_books, add_instruments, add_symbols, to_lower,
}
use itch_parser.Tests.Books.{shown, offered, info}
use itch_parser.Tests.Samples.{two_orders}
use itch_parser.TextMap.{find_text, assign_text, text_eq}

abbrev spaced : List ℕ
spaced = b' ' ∷ b'+' ∷ b'4' ∷ b'2' ∷ []

spaced-accepted : parse_depth (some spaced) ≡ accepted 42
unfolding parse_depth stoi count_spaces read_digits
spaced-accepted = refl

trailing-refused : parse_depth (some (b'4' ∷ b'x' ∷ [])) ≡ refused "depth must be an integer"
unfolding parse_depth stoi count_spaces read_digits
trailing-refused = refl

negative-refused : parse_depth (some (b'-' ∷ b'4' ∷ [])) ≡ refused "depth must be at least 1"
unfolding parse_depth stoi count_spaces read_digits
negative-refused = refl

parse_depth-to_string_example : parse_depth (some (to_string 51)) ≡ (
    if 51 == 0
    then refused "depth must be at least 1"
    else if ltb 50 51
    then refused "depth must not exceed 50"
    else accepted 51)
parse_depth-to_string_example = parse_depth-to_string 51 (omega arith)

-- Numbers in units of 2 ^ -20, rounded down, where factors and divisors are not negative, stand for
-- `double`.
abbrev scale : (ℕ → ℕ) → ℤ → ℤ
scale f (pos n) = pos (f n)
scale f (negsuc n) = pos 0 -ℤ pos (f (suc n))

abbrev double : Double ℤ
double = record {
  of_integer = scale (λ n. n * 2 ^ 20);
  ten_thousand = pos (10000 * 2 ^ 20);
  half = pos (2 ^ 19);
  times = λ x y. scale (λ n. n * pos_part y / 2 ^ 20) x;
  over = λ x y. if pos_part y == 0 then pos 0 else scale (λ n. n * 2 ^ 20 / pos_part y) x;
  plus = ◌+ℤ◌;
  minus = ◌-ℤ◌;
  less = ltb_ℤ;
  truncated = scale (λ n. n / 2 ^ 20);
}

-- `dump` throws on the bytes that are not ASCII, and writes out the texts alone.
abbrev dump_text : List ℕ → Result (List ℕ)
dump_text [] = ok []
dump_text (c ∷ s) =
    dump_text s >>= λ t. if ltb c 128 then ok (c ∷ t) else err (runtime_error invalid_utf8)

abbrev dump : Document ℤ → Result (List ℕ)
dump (error text) = dump_text text
dump (status _ _ _ _ _) = ok []
dump (instruments _ _) = ok []
dump (book symbol _ _ _ _ _ _) = dump_text symbol
dump (top symbol _ _ _ _ _ _) = dump_text symbol

abbrev snap : SystemSnapshot ℤ
snap = build_snapshot (price_to_double double) 3 true 9 two_orders

abbrev publisher : Publisher ℤ
publisher = record { snapshot = some snap }

abbrev request : Request
request = record { symbol = b'a' ∷ b'A' ∷ b'p' ∷ b'L' ∷ []; depth = some spaced }

get_book_registered_example :
    (b : OrderBookSnapshot ℤ) × (get_book dump request publisher ≡ send dump (reply (served 42 b)))
    × (map to_lower b.symbol ≡ map to_lower info.symbol)
unfolding handle handle_all handle_stock_directory add_order_impl reduce_order handle_replace
    handle_delete get_or_create_book stamp_book register_instrument skip find assign erase place
    insert reduced remove insert_shares remove_shares refresh_top clamped_sub set_mpid_from current
    to_lower
get_book_registered_example =
    get_book_registered dump (price_to_double double) 3 true 9 two_orders request publisher 1 42
      info refl refl refl spaced-accepted

scales_back_lem :
    (raw : ℕ)
    → raw < 2 ^ 32
    → IsNear double (double.times (price_to_double double raw) double.ten_thousand) raw
scales_back_lem raw h = (ground arith, ground arith)

half_up_lem :
    (x : ℤ) (n : ℕ)
    → n < 2 ^ 32
    → IsNear double x n
    → double.truncated (double.plus x double.half) ≡ pos n
half_up_lem (pos x) n h near = ground (arith, near)
half_up_lem (negsuc x) n h near = ground (arith, near)

spread_of-side_snapshot_example :
    spread_of double
      (side_snapshot (price_to_double double) ((1500000, shown) ∷ []))
      (side_snapshot (price_to_double double) ((1500100, offered) ∷ []))
    ≡ (if ltb 1500000 (2 ^ 31) && ltb 1500100 (2 ^ 31)
        then ok (
          some (double.over (double.of_integer (sub_ℕ 1500100 1500000)) double.ten_thousand),
          ltb 1500100 1500000,
        )
        else err int_overflow)
spread_of-side_snapshot_example =
    spread_of-side_snapshot double 1500000 1500100 shown offered [] []
      (record { scales_back = scales_back_lem; half_up = half_up_lem }) (omega arith) (omega arith)

abbrev best_bid : PriceLevelSnapshot ℤ
best_bid = record { price = price_to_double double 1500000; total_shares = 100; order_count = 1 }

abbrev best_ask : PriceLevelSnapshot ℤ
best_ask = record { price = price_to_double double 1500100; total_shares = 50; order_count = 1 }

abbrev a_cent : ℤ
a_cent = double.over (double.of_integer (pos 100)) double.ten_thousand

get_top-get_book_example :
    (bids asks : List (PriceLevelSnapshot ℤ)) × (get_top dump double request publisher
      ≡ send dump (
          reply (
            top info.symbol
              (b'T' ∷ [])
              (some 10)
              (some best_bid)
              (some best_ask)
              (some a_cent)
              false)))
    × (get_book dump request publisher
        ≡ send dump
            (reply (book info.symbol (b'T' ∷ []) (some 10) (length bids) (length asks) bids asks)))
    × (front bids ≡ some best_bid)
    × (front asks ≡ some best_ask)
unfolding handle handle_all handle_stock_directory add_order_impl reduce_order handle_replace
    handle_delete get_or_create_book stamp_book register_instrument skip find assign erase place
    insert reduced remove insert_shares remove_shares refresh_top clamped_sub set_mpid_from current
    to_lower top_response find_book spread_of raw_of build_snapshot side_snapshot book_snapshot
    add_books add_instruments add_symbols find_text assign_text text_eq
get_top-get_book_example =
    get_top-get_book double dump request publisher snap 42 info.symbol (b'T' ∷ []) (some 10)
      (some best_bid) (some best_ask) (some a_cent) false refl spaced-accepted refl

get_status-get_instruments_example :
    (before after : List InstrumentEntry) × (entry : InstrumentEntry) × (let entries =
        before ++ entry ∷ after in
      (get_instruments dump publisher ≡ send dump (reply (instruments (length entries) entries)))
      × (get_status dump (pos 20) publisher
          ≡ send dump (reply (status 3 (length entries) 9 (some (pos 20 -ℤ int64_of 9)) true)))
      × (map to_lower entry.symbol ≡ map to_lower info.symbol))
unfolding handle handle_all handle_stock_directory add_order_impl reduce_order handle_replace
    handle_delete get_or_create_book stamp_book register_instrument skip find assign erase place
    insert reduced remove insert_shares remove_shares refresh_top clamped_sub set_mpid_from current
get_status-get_instruments_example =
    get_status-get_instruments (price_to_double double) 3 true 9 two_orders dump (pos 20) publisher
      1 info refl refl
