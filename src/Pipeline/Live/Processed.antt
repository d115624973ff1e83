-- ===== src/Pipeline/Live/Processed.antt =====
-- The engine of the live mode: its state during a run, and what it publishes at the end.
use itch_parser.Engine.{new_core, handle_all}
use itch_parser.Parser.{parse}
use itch_parser.Pipeline.FileMode.{
  messages_of, parsed, process_lem, handle_all-append, length-parsed,
}
use itch_parser.Pipeline.Live.Conserve.{Run-conserves, Step-conserves}
use itch_parser.Pipeline.Live.{
  Fifo, FeedReader, Phase, draining, finished, Live, Event, received_in, processed_in, new_live,
  Step, opens, fails_to_open, receives, closes, throws, signals, takes, yields, notices, finishes,
  Run, here, later,
}
use itch_parser.Pipeline.{process}
use itch_parser.Prelude.Result.{ok}
use itch_parser.Prelude.{
  ℕ, ◌+◌, ◌≤◌, ◌<◌, ◌^◌, ◌≡◌, ◌≢◌, refl, ap, sym, subst, ◌∙◌, true, List, [], ◌∷◌, ◌++◌, some, All,
  All-append_left, All-append_right, length, length-append, append_assoc, append-nil, arith,
}
use itch_parser.Publish.Age.{IsRecent, zero_round}
use itch_parser.Publish.{Engine, current, publish, set_pipeline_complete, set_snapshot_interval}
use itch_parser.Snapshot.{build_snapshot}
use itch_parser.Wire.Fields.{IsBuffer}

messages_of-append :
    (xs ys : List (List ℕ)) → messages_of (xs ++ ys) ≡ messages_of xs ++ messages_of ys
messages_of-append [] ys = refl
messages_of-append (x ∷ xs) ys =
    ap (◌++◌ (parsed (parse x))) (messages_of-append xs ys)
    ∙ sym (append_assoc (parsed (parse x)) (messages_of xs) (messages_of ys))

pub length-messages_of : (bufs : List (List ℕ)) → length (messages_of bufs) ≤ length bufs
length-messages_of [] = omega arith
length-messages_of (x ∷ xs) = omega (
  arith,
  length-parsed (parse x),
  length-messages_of xs,
  length-append (parsed (parse x)) (messages_of xs),
)

-- The engine after the buffers ps, in a phase of its thread.
pub record HasProcessed {D : Type 0} (to_double : ℕ → D) (clock : ℕ → ℕ) (ps : List (List ℕ))
    (phase : Phase) (engine : Engine D) : Type 0 where
  pub core : engine.core ≡ handle_all (messages_of ps) new_core
  pub counted : engine.messages_processed ≡ length (messages_of ps)
  pub interval : engine.snapshot_interval ≢ 0
  pub recent : phase ≢ finished → IsRecent engine
  pub published :
      phase ≡ finished
      → let n = engine.messages_processed in
        current engine.publisher ≡ some (build_snapshot to_double n true (clock n) engine.core)

module _ {D : Type 0} (to_double : ℕ → D) (clock : ℕ → ℕ) where
  -- `process` goes from one to the next.
  pub process-HasProcessed :
      (ps : List (List ℕ)) (buf : List ℕ) (phase : Phase) (e : Engine D)
      → phase ≢ finished
      → IsBuffer buf
      → length ps + 1 < 2 ^ 64
      → HasProcessed to_double clock ps phase e
      → (d : Engine D) × (process to_double clock buf e ≡ ok d)
        × HasProcessed to_double clock (ps ++ buf ∷ []) phase d
  process-HasProcessed ps buf phase e busy b fits p =
      let (d, went, core, counted, same, recent) =
        process_lem to_double clock buf e b p.interval
          (omega (arith, p.counted, length-messages_of ps)) (p.recent busy) in
      let one = parsed (parse buf) in
      let msgs : messages_of (ps ++ buf ∷ []) ≡ messages_of ps ++ one =
        messages_of-append ps (buf ∷ []) ∙ ap (◌++◌ (messages_of ps)) (append-nil one) in
      (
        d,
        went,
        record {
          core =
              core
              ∙ ap (handle_all one) p.core
              ∙ sym (handle_all-append (messages_of ps) one new_core)
              ∙ ap (λ ms. handle_all ms new_core) (sym msgs);
          counted =
              omega (arith, counted, p.counted, ap length msgs, length-append (messages_of ps) one);
          interval = λ z. p.interval (sym same ∙ z);
          recent = λ n. recent;
          published = λ f. absurd (busy f);
        },
      )

module _ {D Q R : Type 0} (to_double : ℕ → D) (clock : ℕ → ℕ) (fifo : Fifo Q)
    (reader : FeedReader R) where
  unchanged :
      (ps : List (List ℕ)) (phase : Phase) (engine : Engine D)
      → HasProcessed to_double clock ps phase engine
      → HasProcessed to_double clock (ps ++ []) phase engine
  unchanged ps phase engine h =
      subst (λ q. HasProcessed to_double clock q phase engine) (sym (append-nil ps)) h

  Step-HasProcessed :
      {s s' : Live D Q R} {e : Event} (ps : List (List ℕ))
      → Step to_double clock fifo reader s e s'
      → All IsBuffer (processed_in e)
      → length (ps ++ processed_in e) < 2 ^ 64
      → HasProcessed to_double clock ps s.phase s.engine
      → HasProcessed to_double clock (ps ++ processed_in e) s'.phase s'.engine
  unfolding current set_pipeline_complete publish
  Step-HasProcessed {s} ps (takes {buf = buf} {e = d} h got run) b fits p =
      let (d', went, next) =
        process-HasProcessed to_double clock ps buf s.phase s.engine h b.0
          (omega (arith, length-append ps (buf ∷ []))) p in
      let agree : ok d' ≡ ok d = sym went ∙ run in
      let same : d' ≡ d = cc agree in
      subst (HasProcessed to_double clock (ps ++ buf ∷ []) s.phase) same next
  Step-HasProcessed {s} ps (finishes h gone) b fits p = unchanged ps finished _ record {
    core = p.core;
    counted = p.counted;
    interval = p.interval;
    recent = λ n. absurd (n refl);
    published = λ f. refl;
  }
  Step-HasProcessed {s} ps (notices h set) b fits p = unchanged ps draining s.engine record {
    core = p.core;
    counted = p.counted;
    interval = p.interval;
    recent = λ n. p.recent (λ f. absurd (cc (f, h)));
    published = λ f. absurd (cc f);
  }
  Step-HasProcessed ps (receives h run) b fits p = unchanged ps _ _ p
  Step-HasProcessed ps (opens h) b fits p = unchanged ps _ _ p
  Step-HasProcessed ps (fails_to_open h) b fits p = unchanged ps _ _ p
  Step-HasProcessed ps (closes h run) b fits p = unchanged ps _ _ p
  Step-HasProcessed ps (throws h run) b fits p = unchanged ps _ _ p
  Step-HasProcessed ps (signals h) b fits p = unchanged ps _ _ p
  Step-HasProcessed ps (yields h) b fits p = unchanged ps _ _ p

module _ {D Q R : Type 0} (to_double : ℕ → D) (clock : ℕ → ℕ) (fifo : Fifo Q)
    (reader : FeedReader R) (interval : ℕ) where
  abbrev Started : List (List ℕ) → List (List ℕ) → Live D Q R → Type 0
  Started = Run to_double clock fifo reader (new_live to_double clock fifo reader interval)

  pub Run-HasProcessed :
      {rs ps : List (List ℕ)} {s : Live D Q R}
      → interval ≢ 0
      → Started rs ps s
      → All IsBuffer rs
      → length rs < 2 ^ 64
      → HasProcessed to_double clock ps s.phase s.engine
  unfolding current set_snapshot_interval handle_all
  Run-HasProcessed nz here b fits = record {
    core = refl;
    counted = refl;
    interval = nz;
    recent = λ n. zero_round interval nz;
    published = λ f. absurd (cc f);
  }
  Run-HasProcessed nz (later {rs} {ps} {s} {s'} {e} run step) b fits =
      let c =
        Step-conserves to_double clock fifo reader rs ps step
          (Run-conserves to_double clock fifo reader interval run) in
      let all : All IsBuffer ((ps ++ processed_in e) ++ fifo.contents s'.queue) =
        subst (All IsBuffer) c b in
      let mine = All-append_right IsBuffer ps (processed_in e) (All-append_left IsBuffer _ _ all) in
      Step-HasProcessed to_double clock fifo reader ps step mine
        (omega (arith, ap length c, length-append (ps ++ processed_in e) (fifo.contents s'.queue)))
        (Run-HasProcessed nz run (All-append_left IsBuffer rs _ b)
          (omega (arith, length-append rs (received_in e))))
