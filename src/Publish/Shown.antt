-- ===== src/Publish/Shown.antt =====
-- Which snapshot a reader gets after a history of messages.
use itch_parser.Engine.{Core, new_core, increment, handle, handle_all}
use itch_parser.Messages.{ParsedMessage}
use itch_parser.Prelude.Result.{ok}
use itch_parser.Prelude.{
  ℕ, ◌+◌, ◌*◌, ◌/◌, ◌%◌, ◌^◌, ◌<◌, ◌≡◌, ◌≢◌, refl, ap, sym, subst, ◌∙◌, false, List, [], ◌∷◌, ◌++◌,
  Option, none, some, ◌==◌, arith, map, length, length-append, append_assoc, append-nil, inl, inr,
  Bool-cases,
}
use itch_parser.Publish.Age.{round_step, round_exact, zero_round}
use itch_parser.Publish.{
  Engine, publish, current, new_engine, maybe_publish_snapshot, apply, apply_all,
  set_snapshot_interval, snapshot_of,
}
use itch_parser.Snapshot.{SystemSnapshot, build_snapshot}

-- The messages of a history, each with the clock's time.
abbrev pub History : Type 0
History = List (ℕ × ParsedMessage)

abbrev pub messages : History → List ParsedMessage
messages = map (λ e. e.1)

abbrev pub last_time : History → Option ℕ
last_time [] = none
last_time ((now, m) ∷ []) = some now
last_time (x ∷ y ∷ ms) = last_time (y ∷ ms)

last_time-snoc :
    (ms : History) (now : ℕ) (m : ParsedMessage) → last_time (ms ++ (now, m) ∷ []) ≡ some now
last_time-snoc [] now m = refl
last_time-snoc (x ∷ []) now m = refl
last_time-snoc (x ∷ y ∷ ms) now m = last_time-snoc (y ∷ ms) now m

handle_all-snoc :
    (ms : History) (now : ℕ) (m : ParsedMessage) (c : Core)
    → handle_all (messages (ms ++ (now, m) ∷ [])) c ≡ handle m (handle_all (messages ms) c)
unfolding handle_all
handle_all-snoc [] now m c = refl
handle_all-snoc ((t, x) ∷ ms) now m c = handle_all-snoc ms now m (handle x c)

module _ {D : Type 0} (to_double : ℕ → D) where
  -- The snapshot of the new engine after a history, of the time of its last message; none for the
  -- empty one.
  abbrev pub snapshot_after : History → Option (SystemSnapshot D)
  snapshot_after ms = elim (last_time ms) [
    | none ↦ none
    | some now ↦
        some (build_snapshot to_double (length ms) false now (handle_all (messages ms) new_core))
  ]

  snapshot_after-snoc :
      (ms : History) (now : ℕ) (m : ParsedMessage)
      → let all = ms ++ (now, m) ∷ [] in
        some (build_snapshot to_double (length all) false now (handle_all (messages all) new_core))
        ≡ snapshot_after all
  snapshot_after-snoc ms now m = rw (snapshot_after, last_time-snoc ms now m) refl

  -- The engine after a history, and the part of the history that its snapshot shows.
  record Shows (ms : History) (e : Engine D) : Type 0 where
    core : e.core ≡ handle_all (messages ms) new_core
    counted : e.messages_processed ≡ length ms
    incomplete : e.pipeline_complete ≡ false
    before : History
    after : History
    split : ms ≡ before ++ after
    size : length before ≡ length ms / e.snapshot_interval * e.snapshot_interval
    shown : current e.publisher ≡ snapshot_after before

  apply-Shows :
      (now : ℕ) (m : ParsedMessage) (ms : History) (e : Engine D)
      → e.snapshot_interval ≢ 0
      → length ms + 1 < 2 ^ 64
      → Shows ms e
      → (d : Engine D) × (apply to_double now m e ≡ ok d)
        × (d.snapshot_interval ≡ e.snapshot_interval)
        × Shows (ms ++ (now, m) ∷ []) d
  unfolding apply maybe_publish_snapshot publish current
  apply-Shows now m ms e nz fits s =
      let i = e.snapshot_interval in
      let all = ms ++ (now, m) ∷ [] in
      let e' : Engine D = record e {
        core = handle m e.core;
        messages_processed = increment e.messages_processed;
      } in
      let n : length all ≡ length ms + 1 = length-append ms ((now, m) ∷ []) in
      let count : increment e.messages_processed ≡ length all = omega (arith, n, s.counted) in
      let core : handle m e.core ≡ handle_all (messages all) new_core =
        ap (handle m) s.core ∙ sym (handle_all-snoc ms now m new_core) in
      let some_interval : (i == 0) ≡ false = ground arith in
      elim (Bool-cases (increment e.messages_processed % i == 0)) [
        | inl due ↦ (
          record e' { publisher = publish (snapshot_of to_double now e') e.publisher },
          rw (some_interval, due) refl,
          refl,
          record {
            core = core;
            counted = count;
            incomplete = s.incomplete;
            before = all;
            after = [];
            split = sym (append-nil all);
            size = sym (round_exact (length all) i (ground (arith, due, count)));
            shown =
                ap
                  (λ k. some (build_snapshot to_double k e.pipeline_complete now (handle m e.core)))
                  count
                ∙ ap (λ p. some (build_snapshot to_double (length all) p now (handle m e.core)))
                    s.incomplete
                ∙ ap (λ c. some (build_snapshot to_double (length all) false now c)) core
                ∙ snapshot_after-snoc ms now m;
          },
        )
        | inr not_due ↦ (
          e',
          rw (some_interval, not_due) refl,
          refl,
          record {
            core = core;
            counted = count;
            incomplete = s.incomplete;
            before = s.before;
            after = s.after ++ (now, m) ∷ [];
            split =
                ap (λ q. q ++ (now, m) ∷ []) s.split
                ∙ append_assoc s.before s.after ((now, m) ∷ []);
            size =
                s.size
                ∙ sym (round_step (length ms) i nz (ground (arith, not_due, count, n)))
                ∙ ap (λ q. q / i * i) (sym n);
            shown = s.shown;
          },
        )
      ]

  apply_all-Shows :
      (ms done : History) (e : Engine D)
      → e.snapshot_interval ≢ 0
      → length done + length ms < 2 ^ 64
      → Shows done e
      → (d : Engine D) × (apply_all to_double ms e ≡ ok d)
        × (d.snapshot_interval ≡ e.snapshot_interval)
        × Shows (done ++ ms) d
  unfolding apply_all
  apply_all-Shows [] done e nz fits s =
      (e, refl, refl, subst (λ q. Shows q e) (sym (append-nil done)) s)
  apply_all-Shows ((now, m) ∷ ms) done e nz fits s =
      let (d, run, same, next) = apply-Shows now m done e nz (omega arith) s in
      let n = length-append done ((now, m) ∷ []) in
      let (d', rest, same', last) =
        apply_all-Shows ms (done ++ (now, m) ∷ []) d (rw same nz) (omega (arith, n)) next in
      (
        d',
        rw run rest,
        same' ∙ same,
        subst (λ q. Shows q d') (append_assoc done ((now, m) ∷ []) ms) last,
      )

  -- With an interval other than 0, applying fewer than 2 ^ 64 messages to the new engine succeeds;
  -- the handlers have run on all of them in order, and every one is counted. What a reader gets is
  -- the snapshot built after the messages up to the last multiple of the interval, of the books and
  -- instruments as these messages leave them and of the time of the last of them, not marked
  -- complete; and nothing where this multiple is 0.
  pub apply_all-new_engine :
      (interval : ℕ) (ms : History)
      → interval ≢ 0
      → length ms < 2 ^ 64
      → (d : Engine D) × (before after : History) × (apply_all to_double ms
            (set_snapshot_interval interval new_engine)
          ≡ ok d)
        × (d.core ≡ handle_all (messages ms) new_core)
        × (d.messages_processed ≡ length ms)
        × (ms ≡ before ++ after)
        × (length before ≡ length ms / interval * interval)
        × (current d.publisher ≡ snapshot_after before)
  unfolding set_snapshot_interval current handle_all
  apply_all-new_engine interval ms nz fits =
      let start = set_snapshot_interval interval (new_engine {D = D}) in
      let (d, run, same, s) = apply_all-Shows ms [] start nz (omega arith) record {
        core = refl;
        counted = refl;
        incomplete = refl;
        before = [];
        after = [];
        split = refl;
        size = zero_round interval nz;
        shown = refl;
      } in
      (
        d,
        s.before,
        s.after,
        run,
        s.core,
        s.counted,
        s.split,
        s.size ∙ ap (λ i. length ms / i * i) same,
        s.shown,
      )
