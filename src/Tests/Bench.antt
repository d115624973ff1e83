-- ===== src/Tests/Bench.antt =====
-- The benchmarks' workloads with a generator that counts, and the theorems on them.
use itch_parser.Bench.Buffers.{
  make_add_order, make_order_delete, make_order_replace, make_unknown, bm_parse, header, write_be16,
  write_be32, write_be48, write_be64,
}
use itch_parser.Bench.Draws.{Random, count, item}
use itch_parser.Bench.Mixed.Capture.{load_capture, load_capture-write_frames}
use itch_parser.Bench.Mixed.Synth.Pass.{run_synth_lem}
use itch_parser.Bench.Mixed.Synth
use itch_parser.Bench.Mixed.Synth.{synth_ops, synth_round, run_synth}
use itch_parser.Bench.Shootout.Rounds.{run_steps}
use itch_parser.Bench.Orders.Index.{knows}
use itch_parser.Bench.Orders.Replace.{bm_replace_order_lem, with_skipped}
use itch_parser.Bench.Orders.Delete.{bm_delete_order_lem}
use itch_parser.Bench.Orders.{OrdersState, bm_delete_order, bm_replace_order}
use itch_parser.Bench.Replay.Frames.{replay_main-write_frames}
use itch_parser.Bench.Replay.Tallies.{refusals, types_of}
use itch_parser.Bench.Replay.{Tally, replay_main}
use itch_parser.Bench.Shootout.Agreement.{bm_ladder_bid-agree, bm_ladder_top-live}
use itch_parser.Bench.Shootout.Workload.{IsSlotPrice}
use itch_parser.Bench.Shootout.{
  Step, op_add, op_remove_partial, op_remove_full, run_step, map_ops, array_ops, slots, base,
  build_workload, bm_ladder_map_bid, bm_ladder_flat_bid, bm_ladder_array_bid, bm_ladder_map_top,
  bm_ladder_flat_top, bm_ladder_array_top,
}
use itch_parser.Bench.Snapshots.Symbols.{IsSymbolChar, locate_of, locate_of-symbol_for}
use itch_parser.Bench.Snapshots.{symbol_for}
use itch_parser.Book.{PriceLevel}
use itch_parser.Engine.Slots.{Slot, level, orders_at, shares_at, one_in, same_slot}
use itch_parser.Engine.{
  new_core, handle, handle_all, add_order_impl, get_or_create_book, stamp_book, register_instrument,
}
use itch_parser.Ladder.Adds.{levels_of}
use itch_parser.Ladder.Array.Orders.{orders_of}
use itch_parser.Ladder.Array.{
  ArrayLadder, level_of, new_array_ladder, array_add_shares, array_remove_shares, idx_of,
  update_best_after_add, advance_best_from,
}
use itch_parser.Ladder.{map_add_shares, map_remove_shares}
use itch_parser.Messages.{
  AddOrderMsg, OrderDeleteMsg, OrderReplaceMsg, add_order, order_delete, order_replace,
}
use itch_parser.Parser.Encode.{write_message}
use itch_parser.Parser.{parse}
use itch_parser.Map.{Map, find, assign, erase, place}
use itch_parser.Map.Total.{total}
use itch_parser.Pipeline.FileMode.{write_frames, messages_of}
use itch_parser.Prelude.Int.{ℤ, pos, negsuc}
use itch_parser.Prelude.Result.{Result, ok, err}
use itch_parser.Prelude.{
  ℕ, true, ◌+◌, ◌-◌, ◌*◌, ◌%◌, ◌≤◌, ◌≡◌, refl, ◌&&◌, List, [], ◌∷◌, none, some, length, take, All,
  arith, codes, ltb, leb, if◌then◌else◌, Option,
}
use itch_parser.Publish.{Engine, current, set_snapshot_interval, apply, maybe_publish_snapshot}
use itch_parser.Bench.Loop.{register_aapl}
use itch_parser.Book.{insert_shares, refresh_top, insert}
use itch_parser.Snapshot.{build_snapshot}
use itch_parser.Tests.Samples.{buy_bytes, bytes_lem, memory}
use native.Mathlib.Nat.{mod-lt}

abbrev price_units : ℕ → ℕ
price_units n = n

abbrev clock : ℕ → ℕ
clock n = n + 1000

-- A generator that counts up, and samples far on either side of the middle.
abbrev counting : Random ℕ ℤ
counting = record {
  rng = λ g. (g, g + 1);
  lognormal = λ g. (pos (g * 7), g + 1);
  uniform = λ a b g. (a + g * 31 % (b - a + 1), g + 1);
  signed_offset = λ up s spread. if up then pos (spread * 3) else negsuc spread;
  int64_t = λ d. d;
  uniform_low = λ a b g h. omega arith;
  uniform_high = λ a b g h.
      let below = mod-lt (g * 31) {m = b - a + 1} (omega arith) in omega (arith, below, h);
}

bm_ladder_bid-agree_example :
    (m : Map PriceLevel) × (a : ArrayLadder) × (n : ℕ) × (bm_ladder_map_bid counting 4 6 0 9
      ≡ some (m, n))
    × (bm_ladder_flat_bid counting 4 6 0 9 ≡ some (levels_of m, n))
    × (bm_ladder_array_bid counting 4 6 0 9 ≡ some (a, n))
    × (orders_of (find (base + 75 * 100) m) ≡ (level_of a.levels 75).order_count)
bm_ladder_bid-agree_example =
    bm_ladder_bid-agree counting 4 6 9 0 75 (omega arith) (omega arith) (omega arith)

bm_ladder_top-live_example :
    let live = (build_workload counting 4 6 0).1 in
    (m : Map PriceLevel) × (a : ArrayLadder) × (reads : List (Option PriceLevel)) × (reads' : List
      (Option PriceLevel))
    × (bm_ladder_map_top counting 4 6 0 3 ≡ some (m, reads))
    × (bm_ladder_flat_top counting 4 6 0 3 ≡ some (levels_of m, reads))
    × (bm_ladder_array_top counting 4 6 0 3 ≡ some (a, reads'))
    × (orders_of (find 997400 m) ≡ count 997400 live)
    × ((level_of a.levels 175).order_count ≡ count (base + 175 * 100) live)
    × All IsSlotPrice live
bm_ladder_top-live_example = bm_ladder_top-live counting 4 6 3 0 175 997400 (omega arith)

bm_replace_order_lem_example :
    (s t : OrdersState ℕ) × (bm_replace_order price_units clock 3 3 ≡ ok s)
    × ((r : ℕ) → knows s.engine.core r ≡ (ltb 3 r && leb r (3 + 3)))
    × (s.engine.core.skipped_unknown_ref ≡ 0)
    × (bm_replace_order price_units clock 3 (3 + 2) ≡ ok t)
    × (t.engine.core ≡ with_skipped 2 s.engine.core)
bm_replace_order_lem_example =
    bm_replace_order_lem price_units clock 3 (omega arith) 2 (omega arith)

bm_delete_order_lem_example :
    (s : OrdersState ℕ) × (bm_delete_order price_units clock 3 7 ≡ ok s)
    × (s.idx ≤ 3)
    × ((r : ℕ) → knows s.engine.core r ≡ (ltb s.idx r && leb r 3))
    × (s.engine.core.skipped_unknown_ref ≡ 0)
bm_delete_order_lem_example = bm_delete_order_lem price_units clock 3 (omega arith) (omega arith) 7

run_synth_lem_example :
    let ops = synth_ops counting 5 3 4 0 9 in
    let slot : Slot = record { stock_locate = 1; is_bid = true; price = 997499 } in
    (d : Engine ℕ) × (idx : ℕ) × (run_synth price_units clock ops (length ops) ≡ ok (d, idx))
    × (length ops ≡ 3 + 4)
    × ((level d.core.books slot).order_count ≡ orders_at slot d.core.order_index)
    × ((level d.core.books slot).total_shares ≡ shares_at slot d.core.order_index)
run_synth_lem_example =
    run_synth_lem price_units clock counting 5 3 4 0 9
      (record { stock_locate = 1; is_bid = true; price = 997499 }) (omega arith)

abbrev two_frames : List (List ℕ)
two_frames = buy_bytes ∷ (b'?' ∷ []) ∷ []

abbrev in_memory : List ℕ → Option (List ℕ)
in_memory path = some (write_frames two_frames)

load_capture-write_frames_example :
    load_capture memory.read in_memory 3 (codes "capture") 7 ≡ ok (take 7 (messages_of two_frames))
load_capture-write_frames_example =
    load_capture-write_frames memory in_memory (codes "capture") 7 two_frames
      (write_frames two_frames) refl refl
      (
        (omega arith, omega arith, bytes_lem buy_bytes refl),
        ((omega arith, omega arith, bytes_lem (b'?' ∷ []) refl), tt),
      )

replay_main-write_frames_example :
    let n = length (messages_of two_frames) in
    (d : Engine ℕ) × (s : Tally) × (replay_main price_units clock memory.read in_memory length 3
        (codes "capture" ∷ codes "five5" ∷ [])
      ≡ ok (some 0, d, s))
    × (d.core ≡ handle_all (messages_of two_frames) new_core)
    × (current d.publisher ≡ some (build_snapshot price_units n true (clock n) d.core))
    × (s.messages ≡ n)
    × (s.parse_errors ≡ refusals two_frames)
    × ((t : ℕ) → item s.type_counts t ≡ count t (types_of two_frames))
replay_main-write_frames_example =
    replay_main-write_frames price_units clock memory in_memory length (codes "capture")
      (codes "five5" ∷ []) two_frames (write_frames two_frames) (omega arith) (omega arith)
      (
        (omega arith, omega arith, bytes_lem buy_bytes refl),
        ((omega arith, omega arith, bytes_lem (b'?' ∷ []) refl), tt),
      )
      refl refl

locate_of-symbol_for_example :
    (locate_of 0 (symbol_for 4999) ≡ 4999)
    × (length (symbol_for 4999) ≡ 8)
    × All IsSymbolChar (symbol_for 4999)
locate_of-symbol_for_example = locate_of-symbol_for 4999 (omega arith)

-- A partial removal of one share and a full removal of 100 of the 99 that are left empty the level:
-- the map ladder forgets it, the array ladder's slot keeps the wrapped-around remainder.
abbrev worn_out : List Step
worn_out =
    record { op = op_add; price_raw = 1000000; shares = 100 }
    ∷ record { op = op_remove_partial; price_raw = 1000000; shares = 1 }
    ∷ record { op = op_remove_full; price_raw = 1000000; shares = 100 }
    ∷ record { op = op_add; price_raw = 1000000; shares = 100 }
    ∷ []

worn_out_map :
    run_steps map_ops worn_out []
    ≡ (1000000, record { price = record { raw = 1000000 }; total_shares = 100; order_count = 1 })
      ∷ []
unfolding run_step map_add_shares map_remove_shares find assign erase place
worn_out_map = refl

worn_out_array :
    let a = run_steps array_ops worn_out (new_array_ladder true slots 100 base) in
    (level_of a.levels 100).total_shares ≡ 99
unfolding run_step array_add_shares array_remove_shares new_array_ladder idx_of
    update_best_after_add advance_best_from
worn_out_array = refl

-- A second pass of the synthetic mix adds the live orders once more.
abbrev one_order : List Synth.Step
one_order =
    record { op = Synth.op_add; ref = 1; price_raw = 1000000; shares = 100; side = b'B' } ∷ []

abbrev counts_in : Slot → Result (Engine ℕ × ℕ) → Option (ℕ × ℕ)
counts_in slot (err e) = none
counts_in slot (ok (d, idx)) =
    some ((level d.core.books slot).order_count, orders_at slot d.core.order_index)

two_passes :
    counts_in
      (record { stock_locate = 1; is_bid = true; price = 1000000 })
      (run_synth price_units clock one_order 2)
    ≡ some (2, 1)
unfolding run_synth synth_round apply maybe_publish_snapshot register_aapl register_instrument
    set_snapshot_interval handle add_order_impl get_or_create_book stamp_book insert_shares
    refresh_top insert find assign place total one_in same_slot
two_passes = refl

-- The buffers that the benchmarks parse.
abbrev an_order : AddOrderMsg
an_order = record {
  stock_locate = 1;
  tracking_number = 0;
  timestamp = 34200000000000;
  order_ref = 123456789;
  side = b'B';
  shares = 100;
  stock = codes "AAPL";
  price = record { raw = 1894200 };
}

add_order_buffer : make_add_order ≡ write_message (add_order an_order) []
unfolding make_add_order header write_be16 write_be32 write_be48 write_be64
add_order_buffer = refl

abbrev a_delete : OrderDeleteMsg
a_delete = record {
  stock_locate = 1;
  tracking_number = 0;
  timestamp = 34200000000001;
  order_ref = 123456789;
}

order_delete_buffer : make_order_delete ≡ write_message (order_delete a_delete) []
unfolding make_order_delete header write_be16 write_be32 write_be48 write_be64
order_delete_buffer = refl

abbrev a_replace : OrderReplaceMsg
a_replace = record {
  stock_locate = 1;
  tracking_number = 0;
  timestamp = 34200000000002;
  original_order_ref = 111111111;
  new_order_ref = 222222222;
  shares = 200;
  price = record { raw = 1894300 };
}

order_replace_buffer : make_order_replace ≡ write_message (order_replace a_replace) []
unfolding make_order_replace header write_be16 write_be32 write_be48 write_be64
order_replace_buffer = refl

unknown_buffer : bm_parse make_unknown 1 ≡ ok none ∷ []
unfolding bm_parse parse
unknown_buffer = refl
