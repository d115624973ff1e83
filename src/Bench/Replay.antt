-- ===== src/Bench/Replay.antt =====
-- bench/bench_replay.cpp: a replay of a file through the parser and the engine, in one thread, as
-- it is built without the recorder of bench/hdr_recorder.h. What it prints is in the tally and in
-- the engine that it ends with.
pub mod Tallies
pub mod Frames
use itch_parser.Bench.Draws.{item}
use itch_parser.Engine.{increment}
use itch_parser.File.{Read, next_message}
use itch_parser.Ladder.{set_at}
use itch_parser.Messages.{ParsedMessage}
use itch_parser.Parser.{parse}
use itch_parser.Pipeline.{Ending, at_end, thrown, out_of_fuel}
use itch_parser.Prelude.Result.{
  Result, ok, err, runtime_error, out_of_bounds, division_by_zero, int_overflow, ◌>>=◌,
}
use itch_parser.Prelude.{ℕ, zero, suc, List, [], ◌∷◌, Option, none, some, replicate}
use itch_parser.Publish.{Engine, new_engine, set_snapshot_interval, apply, set_pipeline_complete}

-- The counters of `main`; `type_counts` has a counter for each byte.
pub record Tally : Type 0 where
  pub parse_errors : ℕ
  pub messages : ℕ
  pub type_counts : List ℕ

abbrev pub new_tally : Tally
new_tally = record { parse_errors = 0; messages = 0; type_counts = replicate 256 0 }

abbrev pub type_byte : List ℕ → ℕ
type_byte [] = 0
type_byte (t ∷ p) = t

abbrev pub count_type : List ℕ → Tally → Tally
count_type buf s =
    let t = type_byte buf in
    record s { type_counts = set_at t (increment (item s.type_counts t)) s.type_counts }

-- `argv[2]` by the `strtoull` of the C library, or 1000.
abbrev pub interval_of : (List ℕ → ℕ) → List (List ℕ) → ℕ
interval_of strtoull [] = 1000
interval_of strtoull (arg ∷ rest) = strtoull arg

-- `clock n` is what the clock shows after n messages.
module _ {D : Type 0} (to_double : ℕ → D) (clock : ℕ → ℕ) where
  -- The body of the loop, for one buffer. `catch (...)` takes what the parser throws.
  unfoldable pub replay_message : List ℕ → Engine D → Tally → Result (Engine D × Tally)
  replay_message buf e s = elim (parse buf) [
    | ok none ↦ ok (e, count_type buf s)
    | ok (some msg) ↦ apply to_double (clock e.messages_processed) msg e >>= λ e'.
        ok (e', record (count_type buf s) { messages = increment s.messages })
    | err (runtime_error f) ↦
        ok (e, record (count_type buf s) { parse_errors = increment s.parse_errors })
    | err out_of_bounds ↦ err out_of_bounds
    | err division_by_zero ↦ err division_by_zero
    | err int_overflow ↦ err int_overflow
  ]

  module _ {F : Type 0} (read : F → ℕ → Read F) where
    unfoldable pub replay_loop : ℕ → F → Engine D → Tally → Result (Ending × Engine D × Tally)
    replay_loop zero fd e s = ok (out_of_fuel, e, s)
    replay_loop (suc k) fd e s = elim (next_message read fd) [
      | ok (none, fd') ↦ ok (at_end, e, s)
      | ok (some buf, fd') ↦ replay_message buf e s >>= λ (e', s'). replay_loop k fd' e' s'
      | err (runtime_error f) ↦ ok (thrown f, e, s)
      | err out_of_bounds ↦ err out_of_bounds
      | err division_by_zero ↦ err division_by_zero
      | err int_overflow ↦ err int_overflow
    ]

    -- `main` on the arguments after the program's name: the exit status, `none` where the model's
    -- fuel is used up, with the engine and the counters. `open_path` is the constructor of the reader,
    -- `none` where it throws.
    unfoldable pub replay_main :
        (List ℕ → Option F)
        → (List ℕ → ℕ)
        → ℕ
        → List (List ℕ)
        → Result (Option ℕ × Engine D × Tally)
    replay_main open_path strtoull fuel [] = ok (some 2, new_engine, new_tally)
    replay_main open_path strtoull fuel (path ∷ more) =
        let e = set_snapshot_interval (interval_of strtoull more) new_engine in
        elim (open_path path) [
          | none ↦ ok (some 1, e, new_tally)
          | some fd ↦ replay_loop fuel fd e new_tally >>= λ (ending, d, s). elim ending [
            | at_end ↦
                ok (some 0, set_pipeline_complete to_double (clock d.messages_processed) d, s)
            | thrown f ↦ ok (some 1, d, s)
            | out_of_fuel ↦ ok (none, d, s)
          ]
        ]
