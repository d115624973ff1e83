-- ===== src/Bench/Shootout/Agreement.antt =====
-- The three ladders on the workload of bench/bench_ladder_shootout.cpp.
use itch_parser.Bench.Draws.{Random, count}
use itch_parser.Bench.Shootout.Live.{IsStep, build_workload-Made}
use itch_parser.Bench.Shootout.Rounds.{
  visited, index_after, index_after-lt, All-visited, length-visited, visited-append, run_steps,
  run_steps-append, run_rounds-visited, operation, operations, length-operations, run_steps-run_map,
  run_steps-run_flat, run_steps-run_array,
}
use itch_parser.Bench.Shootout.Workload.{IsSlotPrice}
use itch_parser.Bench.Shootout.{
  Step, Op, op_add, op_remove_partial, op_remove_full, LadderOps, build_workload, run_rounds,
  bid_bench, top_bench, map_ops, flat_ops, array_ops, slots, base, bm_ladder_map_bid,
  bm_ladder_flat_bid, bm_ladder_array_bid, bm_ladder_map_top, bm_ladder_flat_top,
  bm_ladder_array_top, run_top_bench,
}
use itch_parser.Ladder.Observers.{map_best-levels_of, map_size-levels_of}
use itch_parser.Ladder.{map_size, flat_best}
use itch_parser.Book.{PriceLevel}
use itch_parser.Ladder.Adds.{levels_of}
use itch_parser.Ladder.Array.Orders.{orders_of, run_array-run_map_orders}
use itch_parser.Ladder.Array.Reference.{IsInBand}
use itch_parser.Ladder.Array.Sizes.{map_size-run_array}
use itch_parser.Ladder.Array.{ArrayLadder, level_of, new_array_ladder}
use itch_parser.Ladder.Equivalence.{FitsOperation, run_map-run_flat_empty}
use itch_parser.Map.Ordered.{greater}
use itch_parser.Map.{Map, find}
use itch_parser.Messages.{Price}
use itch_parser.Prelude.{
  ℕ, true, zero, suc, ◌+◌, ◌*◌, ◌^◌, ◌<◌, ◌≡◌, refl, ap, sym, ◌∙◌, List, [], ◌∷◌, ◌++◌, Option,
  some, length, length-append, All-append, arith, All,
}

module _ {L : Type 0} (ladder_ops : LadderOps L) where
  abbrev with_size : L → L × ℕ
  with_size ladder = (ladder, ladder_ops.size ladder)

  bid_bench-visited :
      (n_seed iterations : ℕ) (ops : List Step) (ladder : L)
      → 0 < length ops
      → let seeds = visited n_seed ops 0 in
        bid_bench ladder_ops n_seed iterations ops ladder
        ≡ some (
            with_size (
              run_steps ladder_ops
                (visited iterations ops (index_after n_seed ops 0))
                (run_steps ladder_ops seeds ladder)))
  unfolding bid_bench
  bid_bench-visited n_seed iterations ops ladder filled =
      rw
        (
          bid_bench,
          run_rounds-visited ladder_ops n_seed ops ladder 0 filled,
          run_rounds-visited ladder_ops iterations ops
              (run_steps ladder_ops (visited n_seed ops 0) ladder) (index_after n_seed ops 0)
              (index_after-lt n_seed ops 0 filled),
        )
        refl

  abbrev with_reads : ℕ → L → L × List (Option PriceLevel)
  with_reads iterations ladder = (ladder, run_top_bench ladder_ops iterations ladder)

  top_bench-run_steps :
      (iterations : ℕ) (ops : List Step) (ladder : L)
      → top_bench ladder_ops iterations ops ladder
        ≡ some (with_reads iterations (run_steps ladder_ops ops ladder))
  unfolding top_bench run_rounds
  top_bench-run_steps iterations [] ladder = refl
  top_bench-run_steps iterations (s ∷ ops) ladder =
      rw
        (
          top_bench,
          run_rounds-visited ladder_ops (length (s ∷ ops)) (s ∷ ops) ladder 0 (omega arith),
        )
        (ap (λ l. some (with_reads iterations (run_steps ladder_ops l ladder)))
          (visited-append [] (s ∷ ops)))

-- The map ladder and the flat ladder with the same levels look the same.
same_reads :
    (n : ℕ) (m : Map PriceLevel)
    → run_top_bench flat_ops n (levels_of m) ≡ run_top_bench map_ops n m
same_reads zero m = refl
same_reads (suc n) m =
    rw (map_best-levels_of m) (ap (◌∷◌ (flat_best (levels_of m))) (same_reads n m))

operation-IsInBand :
    (o : Op) (p : Price) (shares : ℕ)
    → IsSlotPrice p.raw
    → shares < 2 ^ 32
    → IsInBand slots 100 base (operation o p shares) × FitsOperation (operation o p shares)
operation-IsInBand op_add p shares own fits = (own, fits)
operation-IsInBand op_remove_partial p shares own fits = (own, fits)
operation-IsInBand op_remove_full p shares own fits = (own, fits)

IsStep-operations :
    (steps : List Step)
    → All IsStep steps
    → All (IsInBand slots 100 base) (operations steps) × All FitsOperation (operations steps)
IsStep-operations [] h = (tt, tt)
IsStep-operations (s ∷ steps) h =
    let (own, fits) =
      operation-IsInBand s.op (record { raw = s.price_raw }) s.shares (h.0).0 (h.0).1 in
    let (bands, all_fit) = IsStep-operations steps h.1 in ((own, bands), (fits, all_fit))

-- The three ladders after the same steps.
steps_agree :
    (steps : List Step) (i : ℕ)
    → length steps < 2 ^ 32
    → All IsStep steps
    → let m = run_steps map_ops steps [] in
      let a = run_steps array_ops steps (new_array_ladder true slots 100 base) in
      (run_steps flat_ops steps [] ≡ levels_of m)
      × (orders_of (find (base + i * 100) m) ≡ (level_of a.levels i).order_count)
      × (map_size m ≡ a.nonempty_count)
steps_agree steps i short all =
    let (band, fits) = IsStep-operations steps all in
    let ops = operations steps in
    let size = length-operations steps in
    let start = new_array_ladder true slots 100 base in
    rw (run_steps-run_map steps [], run_steps-run_flat steps [], run_steps-run_array steps start)
      (
        sym (run_map-run_flat_empty greater ops fits),
        run_array-run_map_orders slots 100 base (omega arith) true greater (omega arith) ops i
            (omega (arith, size, short)) band,
        map_size-run_array slots 100 base (omega arith) ops (omega arith)
            (omega (arith, size, short)) band,
      )

module _ {G D : Type 0} (r : Random G D) where
  -- Whatever is drawn, and with fewer than 2 ^ 32 rounds on a workload that is not empty, the three
  -- benchmarks on bids run to their end, with no index past the end of the workload. The flat ladder
  -- then has exactly the levels of the map ladder, at the price of every slot the map ladder has as
  -- many orders as the array ladder has in the slot, and the three report the same number of levels.
  pub bm_ladder_bid-agree :
      (n_seed n_replay iterations : ℕ) (g : G) (i : ℕ)
      → 0 < n_seed + n_replay
      → n_seed + n_replay < 2 ^ 32
      → n_seed + iterations < 2 ^ 32
      → (m : Map PriceLevel) × (a : ArrayLadder) × (n : ℕ) × (bm_ladder_map_bid r n_seed n_replay g
            iterations
          ≡ some (m, n))
        × (bm_ladder_flat_bid r n_seed n_replay g iterations ≡ some (levels_of m, n))
        × (bm_ladder_array_bid r n_seed n_replay g iterations ≡ some (a, n))
        × (orders_of (find (base + i * 100) m) ≡ (level_of a.levels i).order_count)
  unfolding bm_ladder_map_bid bm_ladder_flat_bid bm_ladder_array_bid
  bm_ladder_bid-agree n_seed n_replay iterations g i filled fits short =
      let ops = (build_workload r n_seed n_replay g).0 in
      let made = build_workload-Made r n_seed n_replay g fits in
      let within : 0 < length ops = omega (arith, made.sized, filled) in
      let mid = index_after n_seed ops 0 in
      let later = index_after-lt n_seed ops 0 within in
      let first = visited n_seed ops 0 in
      let second = visited iterations ops mid in
      let start = new_array_ladder true slots 100 base in
      let m = run_steps map_ops (first ++ second) [] in
      let size : length (first ++ second) < 2 ^ 32 = omega (
        arith,
        short,
        length-append first second,
        length-visited n_seed ops 0 within,
        length-visited iterations ops mid later,
      ) in
      let priced : All IsStep (first ++ second) =
        All-append IsStep first second (All-visited IsStep n_seed ops 0 within made.priced)
          (All-visited IsStep iterations ops mid later made.priced) in
      let (flat, array, count) = steps_agree (first ++ second) i size priced in
      (
        m,
        run_steps array_ops (first ++ second) start,
        map_size m,
        bid_bench-visited map_ops n_seed iterations ops [] within
            ∙ ap (λ l. some (with_size map_ops l)) (sym (run_steps-append map_ops first second [])),
        bid_bench-visited flat_ops n_seed iterations ops [] within
            ∙ ap (λ l. some (with_size flat_ops l))
                (sym (run_steps-append flat_ops first second []) ∙ flat)
            ∙ ap (λ n. some (levels_of m, n)) (sym (map_size-levels_of m)),
        bid_bench-visited array_ops n_seed iterations ops start within
            ∙ ap (λ l. some (with_size array_ops l))
                (sym (run_steps-append array_ops first second start))
            ∙ ap (λ n. some (run_steps array_ops (first ++ second) start, n)) (sym count),
        array,
      )

  -- After one pass of the workload, whatever is drawn and with fewer than 2 ^ 32 steps, the ladders
  -- whose best level the benchmarks read hold the workload's live orders: the flat ladder has the
  -- levels of the map ladder and shows the same best level at every read, the map ladder has at
  -- every price as many orders as the workload has live ones there, and the array ladder has as many
  -- in the slot of the price; every live order is at the price of a slot.
  pub bm_ladder_top-live :
      (n_seed n_replay iterations : ℕ) (g : G) (i p : ℕ)
      → n_seed + n_replay < 2 ^ 32
      → let live = (build_workload r n_seed n_replay g).1 in
        (m : Map PriceLevel) × (a : ArrayLadder) × (reads : List (Option PriceLevel))
        × (reads' : List (Option PriceLevel)) × (bm_ladder_map_top r n_seed n_replay g iterations
            ≡ some (m, reads))
        × (bm_ladder_flat_top r n_seed n_replay g iterations ≡ some (levels_of m, reads))
        × (bm_ladder_array_top r n_seed n_replay g iterations ≡ some (a, reads'))
        × (orders_of (find p m) ≡ count p live)
        × ((level_of a.levels i).order_count ≡ count (base + i * 100) live)
        × All IsSlotPrice live
  unfolding bm_ladder_map_top bm_ladder_flat_top bm_ladder_array_top
  bm_ladder_top-live n_seed n_replay iterations g i p fits =
      let ops = (build_workload r n_seed n_replay g).0 in
      let made = build_workload-Made r n_seed n_replay g fits in
      let start = new_array_ladder true slots 100 base in
      let m = run_steps map_ops ops [] in
      let a = run_steps array_ops ops start in
      let (flat, array, count) = steps_agree ops i (omega (arith, made.sized, fits)) made.priced in
      (
        m,
        a,
        run_top_bench map_ops iterations m,
        run_top_bench array_ops iterations a,
        top_bench-run_steps map_ops iterations ops [],
        top_bench-run_steps flat_ops iterations ops []
            ∙ ap (λ l. some (with_reads flat_ops iterations l)) flat
            ∙ ap (λ reads. some (levels_of m, reads)) (same_reads iterations m),
        top_bench-run_steps array_ops iterations ops start,
        made.holds.orders p,
        sym array ∙ made.holds.orders (base + i * 100),
        made.band,
      )
