-- ===== src/Bench/Snapshots.antt =====
-- bench/bench_snapshot.cpp: engines with many instruments and levels, and their snapshots.
pub mod Symbols
use itch_parser.Engine.{InstrumentInfo, register_instrument, increment}
use itch_parser.Ladder.{set_at}
use itch_parser.Messages.{AddOrderMsg, add_order}
use itch_parser.Prelude.Result.{Result, ok, ◌>>=◌}
use itch_parser.Prelude.{
  ℕ, zero, suc, ◌+◌, ◌-◌, ◌*◌, ◌/◌, ◌%◌, ◌^◌, List, [], ◌∷◌, replicate, ◌==◌, if◌then◌else◌,
}
use itch_parser.Publish.{Engine, new_engine, set_snapshot_interval, apply}
use itch_parser.Snapshot.{SystemSnapshot, build_snapshot}

abbrev pub make_add : ℕ → ℕ → ℕ → ℕ → ℕ → AddOrderMsg
make_add ref side shares price_raw locate = record {
  stock_locate = locate;
  tracking_number = 0;
  timestamp = 34200000000000;
  order_ref = ref;
  side = side;
  shares = shares;
  stock = [];
  price = record { raw = price_raw };
}

-- The `while` of `symbol_for`, where the first argument is i + 1.
unfoldable pub symbol_loop : ℕ → ℕ → List ℕ → List ℕ
symbol_loop zero v buf = buf
symbol_loop (suc i) v buf =
    let rest = symbol_loop i (v / 26) (set_at i (b'A' + v % 26) buf) in if v == 0 then buf else rest

unfoldable pub symbol_for : ℕ → List ℕ
symbol_for locate = symbol_loop 8 locate (replicate 8 b' ')

abbrev pub instrument_of : ℕ → InstrumentInfo
instrument_of li = record {
  stock_locate = li;
  symbol = symbol_for li;
  trading_state = b'T';
  round_lot_size = 100;
  market_category = 0;
  financial_status = 0;
}

module _ {D : Type 0} (to_double : ℕ → D) (clock : ℕ → ℕ) where
  -- The first loop of `seed_engine`, with `left` rounds from li on.
  unfoldable pub register_all : ℕ → ℕ → Engine D → Engine D
  register_all zero li e = e
  register_all (suc left) li e =
      register_all left (li + 1)
        (record e { core = register_instrument (instrument_of (li % 2 ^ 16)) e.core })

  -- The loop over the levels of one instrument, and the loop over the instruments. The number
  -- returned is the next order reference.
  unfoldable pub add_level_orders : ℕ → ℕ → ℕ → ℕ → Engine D → Result (ℕ × Engine D)
  add_level_orders zero l li ref e = ok (ref, e)
  add_level_orders (suc left) l li ref e =
      let bid = (1000000 + l * 100) % 2 ^ 32 in
      let ask = (1010000 + l * 100) % 2 ^ 32 in
      apply to_double (clock e.messages_processed)
        (add_order (make_add ref b'B' 100 bid (li % 2 ^ 16))) e
      >>= λ e'.
          apply to_double (clock e'.messages_processed)
            (add_order (make_add (increment ref) b'S' 100 ask (li % 2 ^ 16))) e'
          >>= λ e''. add_level_orders left (l + 1) li (increment (increment ref)) e''

  unfoldable pub add_all : ℕ → ℕ → ℕ → ℕ → Engine D → Result (ℕ × Engine D)
  add_all zero levels li ref e = ok (ref, e)
  add_all (suc left) levels li ref e =
      add_level_orders levels 0 li ref e >>= λ (ref', e'). add_all left levels (li + 1) ref' e'

  unfoldable pub seed_engine : ℕ → ℕ → Engine D → Result (Engine D)
  seed_engine n_instr levels e =
      add_all n_instr levels 1 1 (set_snapshot_interval (2 ^ 64 - 1) (register_all n_instr 1 e))
      >>= λ (ref, e'). ok e'

  -- The snapshot that every iteration of `BM_BuildSnapshot` builds.
  unfoldable pub bm_build_snapshot : ℕ → ℕ → Result (SystemSnapshot D)
  bm_build_snapshot n_instr levels = seed_engine n_instr levels new_engine >>= λ e. ok (
      build_snapshot to_double e.messages_processed e.pipeline_complete (clock e.messages_processed)
        e.core)
