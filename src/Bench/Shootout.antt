-- ===== src/Bench/Shootout.antt =====
-- bench/bench_ladder_shootout.cpp: the workload that the three ladders replay, and the loops.
pub mod Rounds
pub mod Workload
pub mod Live
pub mod Agreement
use itch_parser.Bench.Draws.{Random, item, push_back, swap_remove}
use itch_parser.Book.{PriceLevel}
use itch_parser.Ladder.Array.{
  ArrayLadder, new_array_ladder, array_add_shares, array_remove_shares, array_best,
}
use itch_parser.Ladder.{
  map_add_shares, map_remove_shares, flat_add_shares, flat_remove_shares, map_best, map_size,
  flat_best, flat_size,
}
use itch_parser.Map.Ordered.{greater}
use itch_parser.Map.{Map}
use itch_parser.Messages.{Price}
use itch_parser.Prelude.Int.{ℤ, pos, pos_part, ltb_ℤ, ◌+ℤ◌}
use itch_parser.Prelude.{
  ℕ, zero, suc, ◌+◌, ◌-◌, ◌*◌, ◌/◌, ◌%◌, ◌^◌, Bool, true, false, not, ◌&&◌, ◌||◌, List, [], ◌∷◌,
  ◌++◌, Option, none, some, get_elem?, length, ltb, ◌==◌, if◌then◌else◌,
}

abbrev pub mid : ℕ
mid = 1000000

abbrev pub spread : ℕ
spread = 2500

abbrev pub base : ℕ
base = mid - 4 * spread

abbrev pub slots : ℕ
slots = 1024

pub data Op : Type 0 where
  op_add : Op
  op_remove_partial : Op
  op_remove_full : Op

pub record Step : Type 0 where
  pub op : Op
  pub price_raw : ℕ
  pub shares : ℕ

-- The two bounds of `sample_price`, and the snap to the tick. What is cast to `uint32_t` is not
-- negative, by the lower bound.
unfoldable pub to_tick : ℤ → ℕ
to_tick offset =
    let p = pos mid +ℤ offset in
    let p' = if ltb_ℤ p (pos base) then pos base else p in
    let top = pos (base + (slots - 1) * 100) in
    let p'' = if ltb_ℤ top p' then top else p' in (pos_part p'' / 100 * 100) % 2 ^ 32

module _ {G D : Type 0} (r : Random G D) where
  -- The lambda `sample_price`.
  unfoldable pub sample_price : G → ℕ × G
  sample_price g =
      let (s, g') = r.lognormal g in
      let (bits, g'') = r.rng g' in
      (to_tick (r.int64_t (r.signed_offset (bits % 2 == 1) s spread)), g'')

  -- The steps of the first loop, and the live prices and the generator after it.
  unfoldable pub seed_steps : ℕ → List ℕ → G → List Step × List ℕ × G
  seed_steps zero live g = ([], live, g)
  seed_steps (suc n) live g =
      let (p, g') = sample_price g in
      let (steps, live', g'') = seed_steps n (push_back live p) g' in
      (record { op = op_add; price_raw = p; shares = 100 } ∷ steps, live', g'')

  -- The body of the second loop.
  unfoldable pub replay_step : List ℕ → G → Step × List ℕ × G
  replay_step live g =
      let (draw, g') = r.uniform 0 99 g in
      let empty = length live == 0 in
      if ltb draw 75 && not empty
      then (let (idx, g'') = r.uniform 0 (length live - 1) g' in
          (
            record { op = op_remove_full; price_raw = item live idx; shares = 100 },
            swap_remove idx live,
            g'',
          ))
      else if ltb draw 95 || empty
      then (let (p, g'') = sample_price g' in
          (record { op = op_add; price_raw = p; shares = 100 }, push_back live p, g''))
      else (let (idx, g'') = r.uniform 0 (length live - 1) g' in
          (record { op = op_remove_partial; price_raw = item live idx; shares = 1 }, live, g''))

  unfoldable pub replay_steps : ℕ → List ℕ → G → List Step × List ℕ × G
  replay_steps zero live g = ([], live, g)
  replay_steps (suc n) live g =
      let (step, live', g') = replay_step live g in
      let (steps, live'', g'') = replay_steps n live' g' in (step ∷ steps, live'', g'')

  -- The workload, and the prices of the orders that are live at its end.
  unfoldable pub build_workload : ℕ → ℕ → G → List Step × List ℕ
  build_workload n_seed n_replay g =
      let (seeds, live, g') = seed_steps n_seed [] g in
      let (steps, live', g'') = replay_steps n_replay live g' in (seeds ++ steps, live')

-- What the template parameter `Ladder` provides.
pub record LadderOps (L : Type 0) : Type 0 where
  pub add_shares : Price → ℕ → L → L
  pub remove_shares : Price → ℕ → Bool → L → L
  pub best : L → Option PriceLevel
  pub size : L → ℕ

module _ {L : Type 0} (ladder_ops : LadderOps L) where
  -- The `switch`.
  abbrev pub run_op : Op → Price → ℕ → L → L
  run_op op_add p shares ladder = ladder_ops.add_shares p shares ladder
  run_op op_remove_partial p shares ladder = ladder_ops.remove_shares p shares false ladder
  run_op op_remove_full p shares ladder = ladder_ops.remove_shares p shares true ladder

  unfoldable pub run_step : Step → L → L
  run_step s ladder = run_op s.op (record { raw = s.price_raw }) s.shares ladder

  -- `none` is the undefined behaviour of an index past the end.
  unfoldable pub run_workload_inner : List Step → L → ℕ → Option (L × ℕ)
  run_workload_inner ops ladder idx = elim (get_elem? ops idx) [
    | none ↦ none
    | some s ↦ some (run_step s ladder, if idx + 1 == length ops then 0 else idx + 1)
  ]

  unfoldable pub run_rounds : ℕ → List Step → L → ℕ → Option (L × ℕ)
  run_rounds zero ops ladder idx = some (ladder, idx)
  run_rounds (suc n) ops ladder idx = elim (run_workload_inner ops ladder idx) [
    | none ↦ none
    | some (ladder', idx') ↦ run_rounds n ops ladder' idx'
  ]

  -- The benchmarks `BM_Ladder_*_Bid`: the seeds, then one step for each iteration. The ladder, and
  -- its counter "levels".
  unfoldable pub bid_bench : ℕ → ℕ → List Step → L → Option (L × ℕ)
  bid_bench n_seed iterations ops ladder = elim (run_rounds n_seed ops ladder 0) [
    | none ↦ none
    | some (ladder', idx) ↦ elim (run_rounds iterations ops ladder' idx) [
      | none ↦ none
      | some (ladder'', idx') ↦ some (ladder'', ladder_ops.size ladder'')
    ]
  ]

  -- The levels that `run_top_bench` reads.
  abbrev pub run_top_bench : ℕ → L → List (Option PriceLevel)
  run_top_bench zero ladder = []
  run_top_bench (suc n) ladder = ladder_ops.best ladder ∷ run_top_bench n ladder

  -- The benchmarks `BM_Ladder_*_Top`: one pass of the workload, then the reads.
  unfoldable pub top_bench : ℕ → List Step → L → Option (L × List (Option PriceLevel))
  top_bench iterations ops ladder = elim (run_rounds (length ops) ops ladder 0) [
    | none ↦ none
    | some (ladder', idx) ↦ some (ladder', run_top_bench iterations ladder')
  ]

abbrev pub map_ops : LadderOps (Map PriceLevel)
map_ops = record {
  add_shares = map_add_shares greater;
  remove_shares = map_remove_shares greater;
  best = map_best;
  size = map_size;
}

abbrev pub flat_ops : LadderOps (List PriceLevel)
flat_ops = record {
  add_shares = flat_add_shares greater;
  remove_shares = flat_remove_shares greater;
  best = flat_best;
  size = flat_size;
}

abbrev pub array_ops : LadderOps ArrayLadder
array_ops = record {
  add_shares = array_add_shares true slots 100;
  remove_shares = array_remove_shares true slots 100;
  best = array_best true slots 100;
  size = λ a. a.nonempty_count;
}

-- The benchmarks, with the number of replayed steps, which is 100000 in the source, as an argument.
module _ {G D : Type 0} (r : Random G D) (n_seed n_replay : ℕ) (g : G) (iterations : ℕ) where
  abbrev ops : List Step
  ops = (build_workload r n_seed n_replay g).0

  unfoldable pub bm_ladder_map_bid : Option (Map PriceLevel × ℕ)
  bm_ladder_map_bid = bid_bench map_ops n_seed iterations ops []

  unfoldable pub bm_ladder_flat_bid : Option (List PriceLevel × ℕ)
  bm_ladder_flat_bid = bid_bench flat_ops n_seed iterations ops []

  unfoldable pub bm_ladder_array_bid : Option (ArrayLadder × ℕ)
  bm_ladder_array_bid =
      bid_bench array_ops n_seed iterations ops (new_array_ladder true slots 100 base)

  unfoldable pub bm_ladder_map_top : Option (Map PriceLevel × List (Option PriceLevel))
  bm_ladder_map_top = top_bench map_ops iterations ops []

  unfoldable pub bm_ladder_flat_top : Option (List PriceLevel × List (Option PriceLevel))
  bm_ladder_flat_top = top_bench flat_ops iterations ops []

  unfoldable pub bm_ladder_array_top : Option (ArrayLadder × List (Option PriceLevel))
  bm_ladder_array_top = top_bench array_ops iterations ops (new_array_ladder true slots 100 base)
