-- ===== src/Bench/Mixed.antt =====
-- bench/bench_mixed_workload.cpp: additions at hot and at cold prices, and the helpers that the
-- other workloads of the file share. The synthetic mix is in the child Synth, the replay of a
-- capture in the child Capture.
pub mod Prices
pub mod Synth
pub mod Capture
use itch_parser.Bench.Draws.{Random, item}
use itch_parser.Bench.Loop.{iterate, register_aapl}
use itch_parser.Engine.{increment}
use itch_parser.Messages.{AddOrderMsg, OrderDeleteMsg, OrderExecutedMsg, add_order}
use itch_parser.Prelude.Int.{ℤ, pos, pos_part, ltb_ℤ, ◌+ℤ◌}
use itch_parser.Prelude.Result.{Result, ok, ◌>>=◌}
use itch_parser.Prelude.{ℕ, zero, suc, ◌+◌, ◌-◌, ◌*◌, ◌%◌, ◌^◌, List, [], ◌∷◌, ◌==◌, if◌then◌else◌}
use itch_parser.Publish.{Engine, new_engine, set_snapshot_interval, apply}

abbrev pub make_add : ℕ → ℕ → ℕ → ℕ → ℕ → AddOrderMsg
make_add ref side shares price_raw locate = record {
  stock_locate = locate;
  tracking_number = 0;
  timestamp = 34200000000000;
  order_ref = ref;
  side = side;
  shares = shares;
  stock = [];
  price = record { raw = price_raw };
}

abbrev pub make_delete : ℕ → ℕ → OrderDeleteMsg
make_delete ref locate = record {
  stock_locate = locate;
  tracking_number = 0;
  timestamp = 34200000000001;
  order_ref = ref;
}

abbrev pub make_execute : ℕ → ℕ → ℕ → OrderExecutedMsg
make_execute ref shares locate = record {
  stock_locate = locate;
  tracking_number = 0;
  timestamp = 34200000000002;
  order_ref = ref;
  executed_shares = shares;
  match_number = 0;
}

-- The two bounds of `make_price_distribution`, which are computed in 32 bits.
unfoldable pub capped : ℕ → ℕ → ℤ → ℕ
capped mid_raw spread_raw offset =
    let p = pos mid_raw +ℤ offset in
    let band = (4 * spread_raw) % 2 ^ 32 in
    let low = pos ((mid_raw + 2 ^ 32 - band) % 2 ^ 32) in
    let high = pos ((mid_raw + band) % 2 ^ 32) in
    let p' = if ltb_ℤ p low then low else p in
    let p'' = if ltb_ℤ high p' then high else p' in pos_part p'' % 2 ^ 32

module _ {G D : Type 0} (r : Random G D) where
  unfoldable pub make_price_distribution : ℕ → ℕ → ℕ → G → List ℕ
  make_price_distribution zero mid_raw spread_raw g = []
  make_price_distribution (suc n) mid_raw spread_raw g =
      let (s, g') = r.lognormal g in
      let (bits, g'') = r.rng g' in
      capped mid_raw spread_raw (r.int64_t (r.signed_offset (bits % 2 == 1) s spread_raw))
      ∷ make_price_distribution n mid_raw spread_raw g''

-- `hot_prices`, from index i on.
abbrev pub hot_from : ℕ → ℕ → List ℕ
hot_from zero i = []
hot_from (suc left) i = (1000000 + i * 100) ∷ hot_from left (i + 1)

abbrev pub hot_prices : List ℕ
hot_prices = hot_from 16 0

-- The state of the loops: the next reference, the generator of `BM_AddOrder_HotBand` and the next
-- price of `BM_AddOrder_ColdPrice`.
pub record AddState (S G : Type 0) : Type 0 where
  pub engine : Engine S
  pub ref : ℕ
  pub generator : G
  pub price : ℕ

module _ {S : Type 0} (to_double : ℕ → S) (clock : ℕ → ℕ) {G : Type 0} where
  -- `engine.apply(make_add(ref++, 'B', 100, price))`
  abbrev pub add_at : ℕ → AddState S G → Result (AddState S G)
  add_at price s =
      apply to_double (clock s.engine.messages_processed)
        (add_order (make_add s.ref b'B' 100 price 1)) s.engine
      >>= λ e. ok (record s { engine = e; ref = increment s.ref })

  -- One addition at each price of a list.
  abbrev pub add_prices : List ℕ → AddState S G → Result (AddState S G)
  add_prices [] s = ok s
  add_prices (p ∷ ps) s = add_at p s >>= add_prices ps

  abbrev pub start_state : G → AddState S G
  start_state g = record {
    engine = set_snapshot_interval (2 ^ 64 - 1) (register_aapl new_engine);
    ref = 1;
    generator = g;
    price = 1000000;
  }

  module _ {D : Type 0} (r : Random G D) where
    unfoldable pub hot_round : AddState S G → Result (AddState S G)
    hot_round s =
        let (i, g) = r.uniform 0 15 s.generator in
        add_at (item hot_prices i) (record s { generator = g })

    unfoldable pub bm_add_order_hot_band : ℕ → G → Result (AddState S G)
    bm_add_order_hot_band iterations g =
        add_prices hot_prices (start_state g) >>= iterate hot_round iterations

  unfoldable pub cold_round : AddState S G → Result (AddState S G)
  cold_round s = add_at s.price s >>= λ s'. ok (record s' { price = (s.price + 100) % 2 ^ 32 })

  unfoldable pub bm_add_order_cold_price : ℕ → G → Result (AddState S G)
  bm_add_order_cold_price iterations g = iterate cold_round iterations (start_state g)
