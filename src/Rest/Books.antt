-- ===== src/Rest/Books.antt =====
-- The book routes over the snapshots that the engine publishes.
use itch_parser.Engine.{Core, InstrumentInfo}
use itch_parser.Map.{find}
use itch_parser.Prelude.Result.{Result, ok}
use itch_parser.Prelude.{
  ℕ, zero, suc, ◌+◌, ◌≤◌, ◌≡◌, ◌⊎◌, refl, sym, subst, ◌∙◌, Bool, List, [], ◌∷◌, none, some, arith,
  length, take, map, String, codes, Option-cases, inl, inr,
}
use itch_parser.Publish.{Publisher, current}
use itch_parser.Rest.{
  Request, accepted, refused, parse_depth, Response, Page, Document, book, reply, refuse, not_found,
  push_levels, find_book, book_document, updated_at, send, book_response, get_book,
}
use itch_parser.Snapshot.Coverage.{build_snapshot_covers}
use itch_parser.Snapshot.Index.{symbol_index-build_snapshot}
use itch_parser.Snapshot.Origin.{Origin}
use itch_parser.Snapshot.{
  OrderBookSnapshot, PriceLevelSnapshot, SystemSnapshot, build_snapshot, to_lower,
}
use itch_parser.TextMap.{find_text}

module _ {D : Type 0} where
  -- The loop stops after the depth's number of levels.
  push_levels-take :
      (room count depth : ℕ) (levels : List (PriceLevelSnapshot D))
      → depth ≡ count + room
      → push_levels depth count levels ≡ (take room levels, count + length (take room levels))
  unfolding push_levels
  push_levels-take zero count depth [] h = ground arith
  push_levels-take (suc room) count depth [] h = ground arith
  push_levels-take zero count depth (level ∷ levels) h = ground arith
  push_levels-take (suc room) count depth (level ∷ levels) h =
      ground (arith, push_levels-take room (count + 1) depth levels)

  -- The document that a book is served as, at a depth.
  abbrev pub served : ℕ → OrderBookSnapshot D → Document D
  served depth b =
      book b.symbol (b.trading_state ∷ []) (updated_at b) (length (take depth b.bids))
        (length (take depth b.asks)) (take depth b.bids) (take depth b.asks)

  book_document-served :
      (depth : ℕ) (b : OrderBookSnapshot D) → book_document depth b ≡ served depth b
  unfolding book_document
  book_document-served depth b =
      let bids = push_levels-take depth 0 depth b.bids (omega arith) in
      let asks = push_levels-take depth 0 depth b.asks (omega arith) in
      let bid_count : 0 + length (take depth b.bids) ≡ length (take depth b.bids) = omega arith in
      let ask_count : 0 + length (take depth b.asks) ≡ length (take depth b.asks) = omega arith in
      rw (bids, asks, bid_count, ask_count) refl

  find_book_absent :
      (symbol : List ℕ) (snap : SystemSnapshot D)
      → find_text (map to_lower symbol) snap.symbol_index ≡ none
      → find_book symbol snap ≡ ok none
  unfolding find_book
  find_book_absent symbol snap h = ground (arith, h)

  find_book_present :
      (symbol key : List ℕ) (b : OrderBookSnapshot D) (snap : SystemSnapshot D)
      → find_text (map to_lower symbol) snap.symbol_index ≡ some key
      → find_text key snap.books ≡ some b
      → find_book symbol snap ≡ ok (some b)
  unfolding find_book
  find_book_present symbol key b snap h there = ground (arith, h, there)

  module _ (req : Request) (p : Publisher D) (snap : SystemSnapshot D)
      (h : current p ≡ some snap) where
    pub book_response_present :
        (depth : ℕ) (b : OrderBookSnapshot D)
        → parse_depth req.depth ≡ accepted depth
        → find_book req.symbol snap ≡ ok (some b)
        → book_response req p ≡ ok (reply (served depth b))
    unfolding book_response
    book_response_present depth b e f = ground (arith, h, e, f, book_document-served depth b)

  pub get_book-ok :
      (dump : Document D → Result (List ℕ)) (req : Request) (p : Publisher D) (r : Response D)
      → book_response req p ≡ ok r
      → get_book dump req p ≡ send dump r
  unfolding get_book
  get_book-ok dump req p r h = rw h refl

  module _ (dump : Document D → Result (List ℕ)) (to_double : ℕ → D) (n : ℕ) (done : Bool) (now : ℕ)
      (c : Core) where
    abbrev snap : SystemSnapshot D
    snap = build_snapshot to_double n done now c

    -- The symbol is that of one of the snapshot's books, up to the case of its letters.
    abbrev pub Names : List ℕ → OrderBookSnapshot D → Type 0
    Names symbol b =
        (find_text b.symbol snap.books ≡ some b) × (map to_lower b.symbol ≡ map to_lower symbol)

    find_book-build_snapshot :
        (symbol : List ℕ)
        → ((b : OrderBookSnapshot D) × (find_book symbol snap ≡ ok (some b)) × Names symbol b)
          ⊎ ((find_text (map to_lower symbol) snap.symbol_index ≡ none)
              × (find_book symbol snap ≡ ok none))
    find_book-build_snapshot symbol =
        elim (Option-cases (find_text (map to_lower symbol) snap.symbol_index)) [
          | inl absent ↦ inr (absent, find_book_absent symbol snap absent)
          | inr (key, there) ↦
              let (b, found, named, low) =
                symbol_index-build_snapshot to_double n done now c (map to_lower symbol) key
                  there in
              inl (
                b,
                find_book_present symbol key b snap there found,
                subst
                    (λ k.
                      (find_text k snap.books ≡ some b) × (map to_lower k ≡ map to_lower symbol))
                    (sym named) (found, low),
              )
        ]

    -- How `get_book` answers a request: the depth is refused, the symbol is unknown, or the
    -- book is served with at most `depth` levels of each side, 1 ≤ depth ≤ 50.
    pub data Answers (req : Request) (r : Result Page) : Type 0 where
      bad_depth :
          (text : String)
          → parse_depth req.depth ≡ refused text
          → r ≡ send dump (refuse 400 (codes text))
          → Answers req r
      unknown :
          find_text (map to_lower req.symbol) snap.symbol_index ≡ none
          → r ≡ send dump (not_found req.symbol)
          → Answers req r
      found :
          (depth : ℕ) (b : OrderBookSnapshot D)
          → parse_depth req.depth ≡ accepted depth
          → (1 ≤ depth) × (depth ≤ 50)
          → Names req.symbol b
          → Origin to_double c.books c.instruments b
          → r ≡ send dump (reply (served depth b))
          → Answers req r

    -- The symbol of a registered instrument, in any spelling of its letters' case, is never
    -- unknown: with a depth that is let through, a book of that symbol is served.
    pub get_book_registered :
        (req : Request) (p : Publisher D) (l depth : ℕ) (info : InstrumentInfo)
        → current p ≡ some snap
        → find l c.instruments ≡ some info
        → map to_lower req.symbol ≡ map to_lower info.symbol
        → parse_depth req.depth ≡ accepted depth
        → (b : OrderBookSnapshot D) × (get_book dump req p ≡ send dump (reply (served depth b)))
          × (map to_lower b.symbol ≡ map to_lower info.symbol)
    get_book_registered req p l depth info h there same e =
        let (key, indexed, _, _) = build_snapshot_covers to_double n done now c l info there in
        elim (find_book-build_snapshot req.symbol) [
          | inl (b, served', (_, spelling)) ↦ (
            b,
            get_book-ok dump req p _ (book_response_present req p snap h depth b e served'),
            spelling ∙ same,
          )
          | inr (absent, _) ↦
              let here : find_text (map to_lower req.symbol) snap.symbol_index ≡ some key =
                rw same indexed in
              cc (absent, here)
        ]
