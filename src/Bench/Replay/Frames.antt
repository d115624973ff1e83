-- ===== src/Bench/Replay/Frames.antt =====
-- The replay of bench/bench_replay.cpp on a file of complete frames.
use itch_parser.Bench.Replay.Tallies.{
  Tallied-HasRoom, Tallied-step, count_type_lem, item-replicate, HasRoom, Tallied, types_of,
  refusals,
}
use itch_parser.Bench.Draws.{item, count, length-set_at}
use itch_parser.Bench.Replay.{
  Tally, new_tally, type_byte, count_type, interval_of, replay_message, replay_loop, replay_main,
}
use itch_parser.Engine.{increment, new_core, handle_all}
use itch_parser.File.Frames.{RegularFile, next_message-frame, next_message-end}
use itch_parser.Parser.Outcome.Total.{parse-Defined}
use itch_parser.Parser.{parse}
use itch_parser.Pipeline.FileMode.{
  write_frames, FitsFrame, parsed, messages_of, handle_all-append, length-parsed,
}
use itch_parser.Pipeline.{at_end}
use itch_parser.Prelude.Result.{ok}
use itch_parser.Prelude.{
  ℕ, suc, ◌+◌, ◌^◌, ◌<◌, ◌≡◌, ◌≢◌, refl, ap, sym, ◌∙◌, List, [], ◌∷◌, Option, none, some, arith,
  length, length-append, All, inl, inr, true,
}
use itch_parser.Publish.Age.{IsRecent, apply_lem, zero_round}
use itch_parser.Publish.{
  Engine, new_engine, set_snapshot_interval, set_pipeline_complete, current, publish,
}
use itch_parser.Snapshot.{build_snapshot}
use itch_parser.Wire.Fields.{IsBuffer}

module _ {D : Type 0} (to_double : ℕ → D) (clock : ℕ → ℕ) where
  -- What a buffer does: nothing but its counts, or what `apply` does with the message in it.
  replay_message_lem :
      (buf : List ℕ) (e : Engine D) (s : Tally)
      → IsBuffer buf
      → e.snapshot_interval ≢ 0
      → e.messages_processed + 1 < 2 ^ 64
      → IsRecent e
      → HasRoom 1 s
      → (d : Engine D) × (s' : Tally) × (replay_message to_double clock buf e s ≡ ok (d, s'))
        × (d.core ≡ handle_all (parsed (parse buf)) e.core)
        × (d.messages_processed ≡ e.messages_processed + length (parsed (parse buf)))
        × (d.snapshot_interval ≡ e.snapshot_interval)
        × IsRecent d
        × Tallied (buf ∷ []) s s'
  unfolding replay_message handle_all
  replay_message_lem buf e s b nz fits r room =
      let seen : (t : ℕ)
          → item (count_type buf s).type_counts t
            ≡ item s.type_counts t + count t (type_byte buf ∷ []) =
        λ t. count_type_lem buf s t b room.sized (room.type_counts (type_byte buf)) in
      let t = type_byte buf in
      let size = length-set_at t (increment (item s.type_counts t)) s.type_counts in
      elim (parse-Defined buf b) [
        | inr (f, run) ↦ (
          e,
          record (count_type buf s) { parse_errors = increment s.parse_errors },
          rw (replay_message, run) refl,
          rw run refl,
          rw run (omega arith),
          refl,
          r,
          record {
            messages = rw run (omega arith);
            parse_errors = rw run (omega (arith, room.parse_errors));
            type_counts = seen;
            sized = size;
          },
        )
        | inl (none, run) ↦ (
          e,
          count_type buf s,
          rw (replay_message, run) refl,
          rw run refl,
          rw run (omega arith),
          refl,
          r,
          record {
            messages = rw run (omega arith);
            parse_errors = rw run (omega arith);
            type_counts = seen;
            sized = size;
          },
        )
        | inl (some m, run) ↦
            let a = apply_lem to_double (clock e.messages_processed) m e nz fits r in
            (
              a.next,
              record (count_type buf s) { messages = increment s.messages },
              rw (replay_message, run, a.returned) refl,
              rw run a.core,
              rw run a.counted,
              a.interval,
              a.recent,
              record {
                messages = rw run (omega (arith, room.messages));
                parse_errors = rw run (omega arith);
                type_counts = seen;
                sized = size;
              },
            )
      ]

  module _ {F : Type 0} (file : RegularFile F) where
    replay_loop-write_frames :
        (bufs : List (List ℕ)) (fd : F) (e : Engine D) (s : Tally)
        → file.contents fd ≡ write_frames bufs
        → All FitsFrame bufs
        → e.snapshot_interval ≢ 0
        → e.messages_processed + length bufs < 2 ^ 64
        → IsRecent e
        → HasRoom (length bufs) s
        → (d : Engine D) × (s' : Tally) × (replay_loop to_double clock file.read
              (suc (length bufs))
              fd
              e
              s
            ≡ ok (at_end, d, s'))
          × (d.core ≡ handle_all (messages_of bufs) e.core)
          × (d.messages_processed ≡ e.messages_processed + length (messages_of bufs))
          × Tallied bufs s s'
    unfolding replay_loop handle_all
    replay_loop-write_frames [] fd e s h fits nz counts r room =
        let same : Tallied [] s s = record {
          messages = omega arith;
          parse_errors = omega arith;
          type_counts = λ t. omega arith;
          sized = refl;
        } in
        (e, s, rw (replay_loop, next_message-end file fd h) refl, refl, omega arith, same)
    replay_loop-write_frames (buf ∷ bufs) fd e s h fits nz counts r room =
        let (filled, few, b) = fits.0 in
        let (fd', run, rest) = next_message-frame file fd buf (write_frames bufs) filled few h in
        let (e', s', went, core, counted, interval, recent, tally) =
          replay_message_lem buf e s b nz (omega arith) r (shrink (length bufs) s room) in
        let one = length-parsed (parse buf) in
        let total = length-append (parsed (parse buf)) (messages_of bufs) in
        let (d, s'', loop, core', counted', tally') =
          replay_loop-write_frames bufs fd' e' s' rest fits.1 (rw interval nz)
            (omega (arith, counted, one)) recent
            (Tallied-HasRoom (length bufs) buf s s' room tally) in
        (
          d,
          s'',
          rw (replay_loop, run, went) loop,
          core'
              ∙ ap (handle_all (messages_of bufs)) core
              ∙ sym (handle_all-append (parsed (parse buf)) (messages_of bufs) e.core),
          omega (arith, counted, counted', total),
          Tallied-step buf bufs s s' s'' tally tally',
        )
      where
        shrink : (n : ℕ) (s : Tally) → HasRoom (suc n) s → HasRoom 1 s
        shrink n s room = record {
          messages = omega (arith, room.messages);
          parse_errors = omega (arith, room.parse_errors);
          type_counts = λ t. omega (arith, room.type_counts t);
          sized = room.sized;
        }

    -- On a regular file of fewer than 2 ^ 64 frames, each of 1 to 2 ^ 16 - 1 bytes, that opens, and
    -- with an interval that is not 0, the replay returns 0. Its engine has handled exactly the
    -- messages that the parser finds in the frames, in order, and has published the snapshot of
    -- this state, marked complete. It reports as many messages as the parser finds, as many parse
    -- errors as the parser refuses frames, and for each byte the number of frames that it begins.
    pub replay_main-write_frames :
        (open_path : List ℕ → Option F) (strtoull : List ℕ → ℕ) (path : List ℕ)
        (more bufs : List (List ℕ)) (fd : F)
        → interval_of strtoull more ≢ 0
        → length bufs < 2 ^ 64
        → All FitsFrame bufs
        → open_path path ≡ some fd
        → file.contents fd ≡ write_frames bufs
        → let n = length (messages_of bufs) in
          (d : Engine D) × (s : Tally) × (replay_main to_double clock file.read open_path strtoull
              (suc (length bufs))
              (path ∷ more)
            ≡ ok (some 0, d, s))
          × (d.core ≡ handle_all (messages_of bufs) new_core)
          × (current d.publisher ≡ some (build_snapshot to_double n true (clock n) d.core))
          × (s.messages ≡ n)
          × (s.parse_errors ≡ refusals bufs)
          × ((t : ℕ) → item s.type_counts t ≡ count t (types_of bufs))
    unfolding replay_main set_snapshot_interval current publish set_pipeline_complete
    replay_main-write_frames open_path strtoull path more bufs fd nz counts fits opened h =
        let interval = interval_of strtoull more in
        let start = set_snapshot_interval interval (new_engine {D = D}) in
        let room : HasRoom (length bufs) new_tally = record {
          messages = omega arith;
          parse_errors = omega arith;
          type_counts = λ t. omega (arith, item-replicate 256 t, counts);
          sized = refl;
        } in
        let (d, s, run, core, counted, tally) =
          replay_loop-write_frames bufs fd start new_tally h fits nz (omega arith)
            (zero_round interval nz) room in
        let all : d.messages_processed ≡ length (messages_of bufs) = omega (arith, counted) in
        (
          set_pipeline_complete to_double (clock d.messages_processed) d,
          s,
          rw (replay_main, opened, run) refl,
          core,
          ap (λ n. some (build_snapshot to_double n true (clock n) d.core)) all,
          omega (arith, tally.messages),
          omega (arith, tally.parse_errors),
          λ t. omega (arith, tally.type_counts t, item-replicate 256 t),
        )
