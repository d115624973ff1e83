-- ===== src/Pipeline.antt =====
-- The file mode of src/main.cpp: the reader, the parser and the engine in one loop. The live mode,
-- which puts a queue between two threads, is in the child Live and shares `process`.
pub mod FileMode
pub mod Termination
pub mod Live
use itch_parser.File.{Read, next_message}
use itch_parser.Messages.{ParsedMessage}
use itch_parser.Parser.{parse}
use itch_parser.Prelude.Result.{
  Failure, Result, ok, err, runtime_error, out_of_bounds, division_by_zero, int_overflow, ◌>>=◌,
}
use itch_parser.Prelude.{ℕ, zero, suc, List, [], ◌∷◌, Option, none, some}
use itch_parser.Publish.{Engine, apply, set_pipeline_complete}

-- `catch (const std::exception& e)` around the handling of one message.
abbrev pub recover : {A : Type 0} → A → Result A → Result A
recover e (ok d) = ok d
recover e (err (runtime_error f)) = ok e
recover e (err out_of_bounds) = err out_of_bounds
recover e (err division_by_zero) = err division_by_zero
recover e (err int_overflow) = err int_overflow

-- How the loop over the file ends: at the end of the file, by an exception of the reader, or
-- because the model's fuel is used up.
pub data Ending : Type 0 where
  at_end : Ending
  thrown : Failure → Ending
  out_of_fuel : Ending

-- `clock n` is what the clock shows after n messages.
module _ {D : Type 0} (to_double : ℕ → D) (clock : ℕ → ℕ) where
  -- The lambda `process`, and the body of the file mode's loop.
  unfoldable pub process : List ℕ → Engine D → Result (Engine D)
  process buf e = recover e (
      parse buf >>= λ msg. elim msg [
        | none ↦ ok e
        | some m ↦ apply to_double (clock e.messages_processed) m e
      ])

module _ {D F : Type 0} (to_double : ℕ → D) (clock : ℕ → ℕ) (read : F → ℕ → Read F) where
  unfoldable pub run_loop : ℕ → F → Engine D → Result (Ending × Engine D)
  run_loop zero fd e = ok (out_of_fuel, e)
  run_loop (suc k) fd e = elim (next_message read fd) [
    | ok (none, fd') ↦ ok (at_end, e)
    | ok (some buf, fd') ↦ process to_double clock buf e >>= λ e'. run_loop k fd' e'
    | err (runtime_error f) ↦ ok (thrown f, e)
    | err out_of_bounds ↦ err out_of_bounds
    | err division_by_zero ↦ err division_by_zero
    | err int_overflow ↦ err int_overflow
  ]

  -- The file mode to the end: after an exception of the reader `main` returns 1 at once.
  unfoldable pub run_file : ℕ → F → Engine D → Result (Ending × Engine D)
  run_file fuel fd e = run_loop fuel fd e >>= λ (ending, d). elim ending [
    | at_end ↦ ok (at_end, set_pipeline_complete to_double (clock d.messages_processed) d)
    | thrown f ↦ ok (thrown f, d)
    | out_of_fuel ↦ ok (out_of_fuel, d)
  ]
