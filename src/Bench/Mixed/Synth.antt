-- ===== src/Bench/Mixed/Synth.antt =====
-- `BM_ApplyMixed_Synth` of bench/bench_mixed_workload.cpp: the synthetic mix of deletions, additions
-- and executions. The source replays 100000 steps after the resting orders; here the number is an
-- argument.
pub mod Admissible
pub mod Built
pub mod Pass
use itch_parser.Bench.Draws.{Random, item, push_back, swap_remove}
use itch_parser.Bench.Loop.{iterate, register_aapl}
use itch_parser.Bench.Mixed.{make_add, make_delete, make_execute, make_price_distribution}
use itch_parser.Engine.{increment}
use itch_parser.Messages.{ParsedMessage, add_order, order_delete, order_executed}
use itch_parser.Prelude.Result.{Result, ok, err, out_of_bounds, ◌>>=◌}
use itch_parser.Prelude.{
  ℕ, zero, suc, ◌+◌, ◌-◌, ◌%◌, ◌^◌, not, ◌&&◌, ◌||◌, List, [], ◌∷◌, ◌++◌, none, some, get_elem?,
  length, ltb, ◌==◌, if◌then◌else◌,
}
use itch_parser.Publish.{Engine, new_engine, set_snapshot_interval, apply}

pub data Op : Type 0 where
  op_delete : Op
  op_add : Op
  op_execute : Op

pub record Step : Type 0 where
  pub op : Op
  pub ref : ℕ
  pub price_raw : ℕ
  pub shares : ℕ
  pub side : ℕ

-- What the loops that build the workload keep.
pub record Building (G : Type 0) : Type 0 where
  pub live : List ℕ
  pub next_ref : ℕ
  pub generator : G

module _ {G D : Type 0} (r : Random G D) (prices : List ℕ) (n_distinct : ℕ) where
  -- An addition at a price that is picked, on a side that is picked.
  unfoldable pub add_step : Building G → Step × Building G
  add_step b =
      let (i, g) = r.uniform 0 (n_distinct - 1) b.generator in
      let (s, g') = r.uniform 0 1 g in
      (
        record {
          op = op_add;
          ref = b.next_ref;
          price_raw = item prices i;
          shares = 100;
          side = if s == 0 then b'S' else b'B';
        },
        record {
          live = push_back b.live b.next_ref;
          next_ref = increment b.next_ref;
          generator = g';
        },
      )

  unfoldable pub resting_steps : ℕ → Building G → List Step × Building G
  resting_steps zero b = ([], b)
  resting_steps (suc n) b =
      let (s, b') = add_step b in let (steps, b'') = resting_steps n b' in (s ∷ steps, b'')

  -- The body of the second loop.
  unfoldable pub mix_step : Building G → Step × Building G
  mix_step b =
      let (draw, g) = r.uniform 0 99 b.generator in
      let empty = length b.live == 0 in
      let (idx, g') = r.uniform 0 (length b.live - 1) g in
      let ref = item b.live idx in
      if ltb draw 75 && not empty
      then (
        record { op = op_delete; ref = ref; price_raw = 0; shares = 0; side = 0 },
        record b { live = swap_remove idx b.live; generator = g' },
      )
      else if ltb draw 95 || empty
      then add_step (record b { generator = g })
      else (
        record { op = op_execute; ref = ref; price_raw = 0; shares = 1; side = 0 },
        record b { generator = g' },
      )

  unfoldable pub mix_steps : ℕ → Building G → List Step × Building G
  mix_steps zero b = ([], b)
  mix_steps (suc n) b =
      let (s, b') = mix_step b in let (steps, b'') = mix_steps n b' in (s ∷ steps, b'')

-- The vector `ops`. The prices have their own generator.
unfoldable pub synth_ops : {G D : Type 0} → Random G D → ℕ → ℕ → ℕ → G → G → List Step
synth_ops r n_distinct n_resting n_replay g_prices g =
    let prices = make_price_distribution r n_distinct 1000000 2500 g_prices in
    let (resting, b) =
      resting_steps r prices n_distinct n_resting
        (record { live = []; next_ref = 1; generator = g }) in
    let (steps, b') = mix_steps r prices n_distinct n_replay b in resting ++ steps

-- The `switch` of the timed loop.
abbrev pub message_for : Op → Step → ParsedMessage
message_for op_add s = add_order (make_add s.ref s.side s.shares s.price_raw 1)
message_for op_delete s = order_delete (make_delete s.ref 1)
message_for op_execute s = order_executed (make_execute s.ref s.shares 1)

abbrev pub message_of : Step → ParsedMessage
message_of s = message_for s.op s

module _ {S : Type 0} (to_double : ℕ → S) (clock : ℕ → ℕ) where
  unfoldable pub synth_round : List Step → Engine S × ℕ → Result (Engine S × ℕ)
  synth_round ops (e, idx) = elim (get_elem? ops idx) [
    | none ↦ err out_of_bounds
    | some s ↦ apply to_double (clock e.messages_processed) (message_of s) e >>= λ e'.
        ok (e', (idx + 1) % length ops)
  ]

  unfoldable pub run_synth : List Step → ℕ → Result (Engine S × ℕ)
  run_synth ops iterations =
      iterate (synth_round ops) iterations
        (set_snapshot_interval (2 ^ 64 - 1) (register_aapl new_engine), 0)
