-- ===== src/Pipeline/Live/Drain.antt =====
-- The engine thread catches up with what has been received.
use itch_parser.Engine.{new_core, handle_all}
use itch_parser.Pipeline.FileMode.{messages_of}
use itch_parser.Pipeline.Live.Conserve.{Run-conserves}
use itch_parser.Pipeline.Live.Processed.{process-HasProcessed, Run-HasProcessed}
use itch_parser.Pipeline.Live.Shutdown.{udp_reader_never_done}
use itch_parser.Pipeline.Live.{
  Fifo, FeedReader, udp_reader, polling, finished, Live, new_live, takes, Run, later,
}
use itch_parser.Prelude.{
  ℕ, ◌<◌, ◌^◌, ◌≡◌, ◌≢◌, refl, ap, sym, subst, ◌∙◌, List, [], ◌∷◌, ◌++◌, All, All-append_right,
  length, length-append, append-nil, arith,
}
use itch_parser.Udp.Safety.{IsReceived}
use itch_parser.Udp.{Received, UdpFeedReader}
use itch_parser.Wire.Fields.{IsBuffer}

module _ {D Q R : Type 0} (to_double : ℕ → D) (clock : ℕ → ℕ) (fifo : Fifo Q)
    (reader : FeedReader R) (interval : ℕ) where
  abbrev Started : List (List ℕ) → List (List ℕ) → Live D Q R → Type 0
  Started = Run to_double clock fifo reader (new_live to_double clock fifo reader interval)

  -- A run that goes on until everything received is processed, with nothing more received.
  record CaughtUp (rs : List (List ℕ)) (s : Live D Q R) : Type 0 where
    state : Live D Q R
    run : Started rs rs state
    queue : fifo.contents state.queue ≡ []
    receiver : state.receiver ≡ s.receiver
    phase : state.phase ≡ s.phase
    recv_done : state.recv_done ≡ s.recv_done

  -- While the engine thread is in one of its loops, it takes every buffer left in the queue.
  catches_up :
      (bufs rs ps : List (List ℕ)) (s : Live D Q R)
      → interval ≢ 0
      → Started rs ps s
      → s.phase ≢ finished
      → fifo.contents s.queue ≡ bufs
      → All IsBuffer rs
      → length rs < 2 ^ 64
      → CaughtUp rs s
  catches_up [] rs ps s nz run busy left b fits =
      let all : rs ≡ ps =
        Run-conserves to_double clock fifo reader interval run
        ∙ ap (◌++◌ ps) left
        ∙ append-nil ps in
      record {
        state = s;
        run = subst (λ q. Started rs q s) (sym all) run;
        queue = left;
        receiver = refl;
        phase = refl;
        recv_done = refl;
      }
  catches_up (buf ∷ bufs) rs ps s nz run busy left b fits =
      let (q, got, rest) = fifo.dequeue_some s.queue buf bufs left in
      let c : rs ≡ ps ++ buf ∷ bufs =
        Run-conserves to_double clock fifo reader interval run ∙ ap (◌++◌ ps) left in
      let mine = All-append_right IsBuffer ps (buf ∷ bufs) (subst (All IsBuffer) c b) in
      let p = Run-HasProcessed to_double clock fifo reader interval nz run b fits in
      let (d, went, next) =
        process-HasProcessed to_double clock ps buf s.phase s.engine busy mine.0
          (omega (arith, ap length c, length-append ps (buf ∷ bufs))) p in
      let s' : Live D Q R = record s { queue = q; engine = d } in
      let run' : Started rs (ps ++ buf ∷ []) s' =
        subst (λ r. Started r (ps ++ buf ∷ []) s') (append-nil rs)
          (later run (takes busy got went)) in
      let last = catches_up bufs rs (ps ++ buf ∷ []) s' nz run' busy rest b fits in
      record {
        state = last.state;
        run = last.run;
        queue = last.queue;
        receiver = last.receiver;
        phase = last.phase;
        recv_done = last.recv_done;
      }

-- In the live mode with the UDP reader, with an interval that is not 0, once a message has been
-- received and while fewer than 2 ^ 64 buffers of bytes have been, whatever the two threads have
-- done so far, the run can be continued, with nothing more received and the receive thread where it
-- was, to a state where the engine thread has caught up: the queue is empty, the engine has handled,
-- in order, exactly the messages that the parser finds in the received buffers, and counted them,
-- and its thread is still polling.
pub udp_reader_catches_up :
    {D Q : Type 0} (to_double : ℕ → D) (clock : ℕ → ℕ) (fifo : Fifo Q) (interval : ℕ)
    (incoming : List Received) (rs ps : List (List ℕ))
    (s : Live D Q (List Received × UdpFeedReader))
    → let reader = udp_reader incoming in
      let Started =
        Run to_double clock fifo reader (new_live to_double clock fifo reader interval) in
      interval ≢ 0
      → All IsReceived incoming
      → Started rs ps s
      → rs ≢ []
      → All IsBuffer rs
      → length rs < 2 ^ 64
      → (d : Live D Q (List Received × UdpFeedReader)) × Started rs rs d
        × (d.receiver ≡ s.receiver)
        × (fifo.contents d.queue ≡ [])
        × (d.engine.core ≡ handle_all (messages_of rs) new_core)
        × (d.engine.messages_processed ≡ length (messages_of rs))
        × (d.phase ≡ polling)
udp_reader_catches_up to_double clock fifo interval incoming rs ps s nz i run some_received b fits =
    let reader = udp_reader incoming in
    let (going, still) =
      udp_reader_never_done to_double clock fifo interval incoming rs ps s i run some_received in
    let busy : s.phase ≢ finished = λ f. cc (still, f) in
    let last =
      catches_up to_double clock fifo reader interval (fifo.contents s.queue) rs ps s nz run busy
        refl b fits in
    let p = Run-HasProcessed to_double clock fifo reader interval nz last.run b fits in
    (last.state, last.run, last.receiver, last.queue, p.core, p.counted, last.phase ∙ still)
