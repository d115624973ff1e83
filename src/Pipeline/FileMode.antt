-- ===== src/Pipeline/FileMode.antt =====
-- The file mode on a file of complete frames.
use itch_parser.Engine.{Core, new_core, handle, handle_all}
use itch_parser.File.Frames.{RegularFile, next_message-frame, next_message-end}
use itch_parser.File.{next_message}
use itch_parser.Messages.{ParsedMessage}
use itch_parser.Parser.Outcome.Total.{parse-Defined}
use itch_parser.Parser.{parse}
use itch_parser.Pipeline.{at_end, process, run_loop, run_file}
use itch_parser.Prelude.Result.{Result, ok, err}
use itch_parser.Prelude.{
  ℕ, suc, ◌+◌, ◌^◌, ◌<◌, ◌≡◌, ◌≢◌, refl, ap, sym, ◌∙◌, List, [], ◌∷◌, ◌++◌, Option, none, some,
  arith, length, length-append, All, ◌≤◌, inl, inr, true,
}
use itch_parser.Publish.Age.{IsRecent, apply_lem, zero_round}
use itch_parser.Publish.{
  Engine, new_engine, set_snapshot_interval, set_pipeline_complete, current, publish,
}
use itch_parser.Snapshot.{build_snapshot}
use itch_parser.Wire.Fields.{IsBuffer}
use itch_parser.Wire.Numbers.{write_be16}

-- A file of frames.
abbrev pub write_frames : List (List ℕ) → List ℕ
write_frames [] = []
write_frames (buf ∷ bufs) = write_be16 (length buf) (buf ++ write_frames bufs)

abbrev pub FitsFrame : List ℕ → Type 0
FitsFrame buf = (0 < length buf) × (length buf < 2 ^ 16) × IsBuffer buf

abbrev pub parsed : Result (Option ParsedMessage) → List ParsedMessage
parsed (ok (some m)) = m ∷ []
parsed (ok none) = []
parsed (err e) = []

-- The messages of the buffers that the parser understands.
abbrev pub messages_of : List (List ℕ) → List ParsedMessage
messages_of [] = []
messages_of (buf ∷ bufs) = parsed (parse buf) ++ messages_of bufs

pub handle_all-append :
    (xs ys : List ParsedMessage) (c : Core)
    → handle_all (xs ++ ys) c ≡ handle_all ys (handle_all xs c)
unfolding handle_all
handle_all-append [] ys c = refl
handle_all-append (x ∷ xs) ys c = handle_all-append xs ys (handle x c)

pub length-parsed : (r : Result (Option ParsedMessage)) → length (parsed r) ≤ 1
length-parsed (ok (some m)) = omega arith
length-parsed (ok none) = omega arith
length-parsed (err e) = omega arith

module _ {D : Type 0} (to_double : ℕ → D) (clock : ℕ → ℕ) where
  -- What `process` does with a buffer: nothing, or what `apply` does with the message in it.
  pub process_lem :
      (buf : List ℕ) (e : Engine D)
      → IsBuffer buf
      → e.snapshot_interval ≢ 0
      → e.messages_processed + 1 < 2 ^ 64
      → IsRecent e
      → (d : Engine D) × (process to_double clock buf e ≡ ok d)
        × (d.core ≡ handle_all (parsed (parse buf)) e.core)
        × (d.messages_processed ≡ e.messages_processed + length (parsed (parse buf)))
        × (d.snapshot_interval ≡ e.snapshot_interval)
        × IsRecent d
  unfolding process handle_all
  process_lem buf e b nz fits r = elim (parse-Defined buf b) [
    | inr (f, run) ↦ (e, rw run refl, rw run refl, rw run (omega arith), refl, r)
    | inl (none, run) ↦ (e, rw run refl, rw run refl, rw run (omega arith), refl, r)
    | inl (some m, run) ↦
        let a = apply_lem to_double (clock e.messages_processed) m e nz fits r in
        (a.next, rw (run, a.returned) refl, rw run a.core, rw run a.counted, a.interval, a.recent)
  ]

module _ {D F : Type 0} (to_double : ℕ → D) (clock : ℕ → ℕ) (file : RegularFile F) where
  pub run_loop-next :
      (k : ℕ) (fd fd' : F) (buf : List ℕ) (e e' : Engine D)
      → next_message file.read fd ≡ ok (some buf, fd')
      → process to_double clock buf e ≡ ok e'
      → run_loop to_double clock file.read (suc k) fd e
        ≡ run_loop to_double clock file.read k fd' e'
  unfolding run_loop
  run_loop-next k fd fd' buf e e' run went = rw (run_loop, run, went) refl

  run_loop-write_frames :
      (bufs : List (List ℕ)) (fd : F) (e : Engine D)
      → file.contents fd ≡ write_frames bufs
      → All FitsFrame bufs
      → e.snapshot_interval ≢ 0
      → e.messages_processed + length bufs < 2 ^ 64
      → IsRecent e
      → (d : Engine D) × (run_loop to_double clock file.read (suc (length bufs)) fd e
          ≡ ok (at_end, d))
        × (d.core ≡ handle_all (messages_of bufs) e.core)
        × (d.messages_processed ≡ e.messages_processed + length (messages_of bufs))
        × (d.snapshot_interval ≡ e.snapshot_interval)
        × IsRecent d
  unfolding run_loop handle_all
  run_loop-write_frames [] fd e h fits nz counts r =
      (e, rw (run_loop, next_message-end file fd h) refl, refl, omega arith, refl, r)
  run_loop-write_frames (buf ∷ bufs) fd e h fits nz counts r =
      let (filled, few, b) = fits.0 in
      let (fd', run, rest) = next_message-frame file fd buf (write_frames bufs) filled few h in
      let (e', went, core, counted, interval, recent) =
        process_lem to_double clock buf e b nz (omega arith) r in
      let one = length-parsed (parse buf) in
      let total = length-append (parsed (parse buf)) (messages_of bufs) in
      let (d, loop, core', counted', interval', recent') =
        run_loop-write_frames bufs fd' e' rest fits.1 (rw interval nz) (omega (arith, counted, one))
          recent in
      (
        d,
        run_loop-next (suc (length bufs)) fd fd' buf e e' run went ∙ loop,
        core'
            ∙ ap (handle_all (messages_of bufs)) core
            ∙ sym (handle_all-append (parsed (parse buf)) (messages_of bufs) e.core),
        omega (arith, counted, counted', total),
        interval' ∙ interval,
        recent',
      )

  -- On a regular file of fewer than 2 ^ 64 frames, each of 1 to 2 ^ 16 - 1 bytes, and with a new
  -- engine whose interval is not 0, the file mode reaches the end of the file, with one turn of the
  -- loop for each frame and one more. The engine has handled, in order, exactly the messages that
  -- the parser finds in the frames: buffers that it refuses or does not know change nothing. The
  -- published snapshot is the one of this state, marked complete.
  pub run_file-write_frames :
      (interval : ℕ) (bufs : List (List ℕ)) (fd : F)
      → interval ≢ 0
      → length bufs < 2 ^ 64
      → All FitsFrame bufs
      → file.contents fd ≡ write_frames bufs
      → let n = length (messages_of bufs) in
        (d : Engine D) × (run_file to_double clock file.read
            (suc (length bufs))
            fd
            (set_snapshot_interval interval new_engine)
          ≡ ok (at_end, d))
        × (d.core ≡ handle_all (messages_of bufs) new_core)
        × (d.messages_processed ≡ n)
        × (current d.publisher ≡ some (build_snapshot to_double n true (clock n) d.core))
  unfolding run_file set_snapshot_interval current publish set_pipeline_complete
  run_file-write_frames interval bufs fd nz counts fits h =
      let start = set_snapshot_interval interval (new_engine {D = D}) in
      let (d, run, core, counted, same, recent) =
        run_loop-write_frames bufs fd start h fits nz (omega arith) (zero_round interval nz) in
      let all : d.messages_processed ≡ length (messages_of bufs) = omega (arith, counted) in
      (
        set_pipeline_complete to_double (clock d.messages_processed) d,
        rw run refl,
        core,
        all,
        ap (λ n. some (build_snapshot to_double n true (clock n) d.core)) all,
      )
