-- ===== src/Pipeline/Termination.antt =====
-- The file mode ends on every regular file.
use itch_parser.File.Frames.{RegularFile}
use itch_parser.File.Outcome.{ended, failing, framed, next_message-NextOutcome}
use itch_parser.Pipeline.FileMode.{process_lem, run_loop-next, length-parsed}
use itch_parser.Parser.{parse}
use itch_parser.Pipeline.{Ending, at_end, thrown, run_loop, run_file}
use itch_parser.Prelude.Result.{Result, Failure, ok}
use itch_parser.Prelude.{
  ℕ, zero, suc, ◌+◌, ◌^◌, ◌<◌, ◌≡◌, ◌≢◌, refl, ◌∙◌, ◌⊎◌, inl, inr, arith, length,
}
use itch_parser.Publish.Age.{IsRecent, zero_round}
use itch_parser.Publish.{Engine, current, new_engine, set_snapshot_interval, set_pipeline_complete}
use itch_parser.Wire.Fields.{IsBuffer}

-- The end of the file, or an exception of the reader.
abbrev pub Ends : {D : Type 0} → Result (Ending × Engine D) → Type 0
Ends {D} r = (d : Engine D) × ((r ≡ ok (at_end, d)) ⊎ ((f : Failure) × (r ≡ ok (thrown f, d))))

module _ {D F : Type 0} (to_double : ℕ → D) (clock : ℕ → ℕ) (file : RegularFile F) where
  run_loop-Ends :
      (k : ℕ) (fd : F) (e : Engine D)
      → length (file.contents fd) < k
      → IsBuffer (file.contents fd)
      → e.snapshot_interval ≢ 0
      → e.messages_processed + k < 2 ^ 64
      → IsRecent e
      → Ends (run_loop to_double clock file.read k fd e)
  unfolding run_loop
  run_loop-Ends zero fd e enough b nz counts r = absurd (omega arith)
  run_loop-Ends (suc k) fd e enough b nz counts r = elim (next_message-NextOutcome file fd b) [
    | ended fd' run ↦ (e, inl (rw (run_loop, run) refl))
    | failing f run ↦ (e, inr (f, rw (run_loop, run) refl))
    | framed buf fd' run b1 b2 shorter ↦
        let (e', went, core, counted, interval, recent) =
          process_lem to_double clock buf e b1 nz (omega arith) r in
        let one = length-parsed (parse buf) in
        let (d, rest) =
          run_loop-Ends k fd' e' (omega arith) b2 (rw interval nz) (omega (arith, counted, one))
            recent in
        let step = run_loop-next to_double clock file k fd fd' buf e e' run went in
        elim rest [ inl end ↦ (d, inl (step ∙ end)) | inr (f, stop) ↦ (d, inr (f, step ∙ stop)) ]
  ]

  -- On a regular file of fewer than 2 ^ 64 - 1 bytes, whatever these are, and with a new engine
  -- whose interval is not 0, the file mode returns: it reaches the end of the file, or the reader
  -- throws. One turn of the loop for each byte and one more are enough.
  pub run_file-Ends :
      (interval : ℕ) (fd : F)
      → interval ≢ 0
      → length (file.contents fd) + 1 < 2 ^ 64
      → IsBuffer (file.contents fd)
      → Ends (
          run_file to_double clock file.read
            (suc (length (file.contents fd)))
            fd
            (set_snapshot_interval interval new_engine))
  unfolding run_file set_snapshot_interval current
  run_file-Ends interval fd nz few b =
      let start = set_snapshot_interval interval (new_engine {D = D}) in
      let (d, end) =
        run_loop-Ends (suc (length (file.contents fd))) fd start (omega arith) b nz (omega arith)
          (zero_round interval nz) in
      elim end [
        | inl run ↦
            (set_pipeline_complete to_double (clock d.messages_processed) d, inl (rw run refl))
        | inr (f, run) ↦ (d, inr (f, rw run refl))
      ]
