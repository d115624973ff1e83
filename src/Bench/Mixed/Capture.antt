-- ===== src/Bench/Mixed/Capture.antt =====
-- `BM_ApplyMixed_Capture` of bench/bench_mixed_workload.cpp: the messages of a capture, parsed once
-- and replayed.
use itch_parser.Bench.Loop.{iterate}
use itch_parser.File.Frames.{RegularFile, next_message-frame, next_message-end}
use itch_parser.File.{Read, next_message}
use itch_parser.Messages.{ParsedMessage}
use itch_parser.Parser.Outcome.Total.{parse-Defined}
use itch_parser.Parser.{parse}
use itch_parser.Pipeline.FileMode.{write_frames, FitsFrame, messages_of}
use itch_parser.Pipeline.{Ending, at_end, thrown, out_of_fuel}
use itch_parser.Prelude.Result.{
  Result, ok, err, runtime_error, out_of_bounds, division_by_zero, int_overflow, ◌>>=◌,
}
use itch_parser.Prelude.{
  ℕ, zero, suc, ◌+◌, ◌-◌, ◌^◌, ◌≡◌, refl, List, [], ◌∷◌, Option, none, some, get_elem?, length,
  take, All, ◌==◌, if◌then◌else◌, inl, inr,
}
use itch_parser.Publish.{Engine, new_engine, set_snapshot_interval, apply}

module _ {F : Type 0} (read : F → ℕ → Read F) where
  -- The loop of `load_capture`, where `left` more messages are wanted: how it ends, and the messages
  -- that it adds. Buffers that the parser throws on are passed over.
  unfoldable pub load_loop : ℕ → ℕ → F → Result (Ending × List ParsedMessage)
  load_loop zero left fd = ok (out_of_fuel, [])
  load_loop (suc k) zero fd = ok (at_end, [])
  load_loop (suc k) (suc left) fd = elim (next_message read fd) [
    | ok (none, fd') ↦ ok (at_end, [])
    | ok (some buf, fd') ↦ elim (parse buf) [
      | ok (some m) ↦ load_loop k left fd' >>= λ (ending, ms). ok (ending, m ∷ ms)
      | ok none ↦ load_loop k (suc left) fd'
      | err (runtime_error f) ↦ load_loop k (suc left) fd'
      | err out_of_bounds ↦ err out_of_bounds
      | err division_by_zero ↦ err division_by_zero
      | err int_overflow ↦ err int_overflow
    ]
    | err (runtime_error f) ↦ ok (thrown f, [])
    | err out_of_bounds ↦ err out_of_bounds
    | err division_by_zero ↦ err division_by_zero
    | err int_overflow ↦ err int_overflow
  ]

  -- What the reader throws, its constructor included, ends the loading and is dropped.
  unfoldable pub load_capture : (List ℕ → Option F) → ℕ → List ℕ → ℕ → Result (List ParsedMessage)
  load_capture open_path fuel path max_messages = elim (open_path path) [
    | none ↦ ok []
    | some fd ↦ load_loop fuel max_messages fd >>= λ (ending, ms). ok ms
  ]

module _ {S : Type 0} (to_double : ℕ → S) (clock : ℕ → ℕ) where
  unfoldable pub capture_round : List ParsedMessage → Engine S × ℕ → Result (Engine S × ℕ)
  capture_round msgs (e, idx) = elim (get_elem? msgs idx) [
    | none ↦ err out_of_bounds
    | some m ↦ apply to_double (clock e.messages_processed) m e >>= λ e'.
        ok (e', if idx + 1 == length msgs then 0 else idx + 1)
  ]

  -- The benchmark on the messages loaded; `none` is the skip where there are none.
  unfoldable pub bm_apply_mixed_capture : List ParsedMessage → ℕ → Result (Option (Engine S × ℕ))
  bm_apply_mixed_capture [] iterations = ok none
  bm_apply_mixed_capture (m ∷ msgs) iterations =
      iterate (capture_round (m ∷ msgs)) iterations
        (set_snapshot_interval (2 ^ 64 - 1) new_engine, 0)
      >>= λ s. ok (some s)

module _ {F : Type 0} (file : RegularFile F) where
  load_loop-write_frames :
      (bufs : List (List ℕ)) (left : ℕ) (fd : F)
      → file.contents fd ≡ write_frames bufs
      → All FitsFrame bufs
      → load_loop file.read (suc (length bufs)) left fd ≡ ok (at_end, take left (messages_of bufs))
  unfolding load_loop
  load_loop-write_frames bufs zero fd h fits = refl
  load_loop-write_frames [] (suc left) fd h fits = rw (load_loop, next_message-end file fd h) refl
  load_loop-write_frames (buf ∷ bufs) (suc left) fd h fits =
      let (filled, few, b) = fits.0 in
      let (fd', run, rest) = next_message-frame file fd buf (write_frames bufs) filled few h in
      elim (parse-Defined buf b) [
        | inr (f, threw) ↦
            rw (load_loop, run, threw) (load_loop-write_frames bufs (suc left) fd' rest fits.1)
        | inl (none, unknown) ↦
            rw (load_loop, run, unknown) (load_loop-write_frames bufs (suc left) fd' rest fits.1)
        | inl (some m, got) ↦
            rw (load_loop, run, got, load_loop-write_frames bufs left fd' rest fits.1) refl
      ]

  -- On a regular file of frames, each of 1 to 2 ^ 16 - 1 bytes, that opens, `load_capture` returns
  -- the first messages that the parser finds in the frames, as many as it was asked for, or all of
  -- them where there are fewer.
  pub load_capture-write_frames :
      (open_path : List ℕ → Option F) (path : List ℕ) (max_messages : ℕ) (bufs : List (List ℕ))
      (fd : F)
      → open_path path ≡ some fd
      → file.contents fd ≡ write_frames bufs
      → All FitsFrame bufs
      → load_capture file.read open_path (suc (length bufs)) path max_messages
        ≡ ok (take max_messages (messages_of bufs))
  unfolding load_capture
  load_capture-write_frames open_path path max_messages bufs fd opened h fits =
      rw (load_capture, opened, load_loop-write_frames bufs max_messages fd h fits) refl
