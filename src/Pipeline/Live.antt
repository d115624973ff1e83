-- ===== src/Pipeline/Live.antt =====
-- The live mode of src/main.cpp: the receive thread and the engine thread, with a queue between
-- them, as steps of one thread at a time. A step of the receive thread is `next_message` together
-- with the `enqueue` of its message: nothing between the two is visible to the engine thread. A
-- stop of the receive thread is requested only after the engine thread's loops, and not modelled.
pub mod Conserve
pub mod Processed
pub mod Drain
pub mod Shutdown
use itch_parser.Pipeline.{process}
use itch_parser.Prelude.Result.{Result, Failure, ok, err, runtime_error}
use itch_parser.Prelude.{ℕ, ◌≡◌, ◌≢◌, Bool, true, false, List, [], ◌∷◌, ◌++◌, Option, none, some}
use itch_parser.Publish.{Engine, new_engine, set_snapshot_interval, set_pipeline_complete}
use itch_parser.Udp.{
  Answer, Received, UdpFeedReader, new_udp_feed_reader, message, closed, waiting, next_message,
}

-- `moodycamel::ConcurrentQueue` with one producer and one consumer: elements come out in the order
-- in which they went in, and an attempt fails where the queue is empty.
pub record Fifo (Q : Type 0) : Type 0 where
  pub empty_queue : Q
  pub enqueue : List ℕ → Q → Q
  pub try_dequeue : Q → Option (List ℕ × Q)
  pub contents : Q → List (List ℕ)
  pub contents_empty : contents empty_queue ≡ []
  pub contents_enqueue : (buf : List ℕ) (q : Q) → contents (enqueue buf q) ≡ contents q ++ buf ∷ []
  pub dequeue_none : (q : Q) → contents q ≡ [] → try_dequeue q ≡ none
  pub dequeue_some :
      (q : Q) (buf : List ℕ) (bufs : List (List ℕ))
      → contents q ≡ buf ∷ bufs
      → (q' : Q) × (try_dequeue q ≡ some (buf, q')) × (contents q' ≡ bufs)

-- How a call of a reader's `next_message` ends: with a message, with `nullopt`, by an exception, or
-- not at all.
pub data Delivery (R : Type 0) : Type 0 where
  delivers : List ℕ → R → Delivery R
  ends : R → Delivery R
  raises : Failure → Delivery R
  blocks : Delivery R

-- What main.cpp uses of a feed reader; `udp_reader` below is the one that it has. The steps follow
-- the branches of main.cpp, of which some are never taken with that reader (Shutdown).
pub record FeedReader (R : Type 0) : Type 0 where
  pub constructed : R
  pub next : R → Delivery R

-- The UDP reader, with what the calls of `recvfrom` are still to give. A run that would read out of
-- bounds has no next step.
abbrev pub delivery_of : Result Answer → Delivery (List Received × UdpFeedReader)
delivery_of (ok (message buf es r)) = delivers buf (es, r)
delivery_of (ok (closed r)) = ends ([], r)
delivery_of (ok (waiting r)) = blocks
delivery_of (err (runtime_error f)) = raises f
delivery_of (err e) = blocks

abbrev pub udp_reader : List Received → FeedReader (List Received × UdpFeedReader)
udp_reader incoming = record {
  constructed = (incoming, new_udp_feed_reader);
  next = λ (es, r). delivery_of (next_message es r);
}

-- Where the receive thread is: before the reader is constructed, in its loop, after the loop.
pub data Receiver (R : Type 0) : Type 0 where
  opening : Receiver R
  reading : R → Receiver R
  stopped : Receiver R

-- Where the engine thread is: in the loop that waits for `recv_done`, in the loop that drains the
-- queue, after `set_pipeline_complete`.
pub data Phase : Type 0 where
  polling draining finished : Phase

pub record Live (D Q R : Type 0) : Type 0 where
  pub receiver : Receiver R
  pub queue : Q
  pub recv_done : Bool
  pub engine : Engine D
  pub phase : Phase

pub data Event : Type 0 where
  silent : Event
  received processed : List ℕ → Event

abbrev pub received_in : Event → List (List ℕ)
received_in silent = []
received_in (received buf) = buf ∷ []
received_in (processed buf) = []

abbrev pub processed_in : Event → List (List ℕ)
processed_in silent = []
processed_in (received buf) = []
processed_in (processed buf) = buf ∷ []

module _ {D Q R : Type 0} (to_double : ℕ → D) (clock : ℕ → ℕ) (fifo : Fifo Q)
    (reader : FeedReader R) where
  abbrev pub new_live : ℕ → Live D Q R
  new_live interval = record {
    receiver = opening;
    queue = fifo.empty_queue;
    recv_done = false;
    engine = set_snapshot_interval interval new_engine;
    phase = polling;
  }

  pub data Step (s : Live D Q R) : Event → Live D Q R → Type 0 where
    -- the receive thread
    opens :
        s.receiver ≡ opening → Step s silent (record s { receiver = reading reader.constructed })
    fails_to_open : s.receiver ≡ opening → Step s silent (record s { receiver = stopped })
    receives :
        {r r' : R} {buf : List ℕ}
        → s.receiver ≡ reading r
        → reader.next r ≡ delivers buf r'
        → Step s
            (received buf)
            (record s { receiver = reading r'; queue = fifo.enqueue buf s.queue })
    closes :
        {r r' : R}
        → s.receiver ≡ reading r
        → reader.next r ≡ ends r'
        → Step s silent (record s { receiver = stopped })
    throws :
        {r : R} {f : Failure}
        → s.receiver ≡ reading r
        → reader.next r ≡ raises f
        → Step s silent (record s { receiver = stopped })
    signals : s.receiver ≡ stopped → Step s silent (record s { recv_done = true })
    -- the engine thread
    takes :
        {buf : List ℕ} {q : Q} {e : Engine D}
        → s.phase ≢ finished
        → fifo.try_dequeue s.queue ≡ some (buf, q)
        → process to_double clock buf s.engine ≡ ok e
        → Step s (processed buf) (record s { queue = q; engine = e })
    yields : s.phase ≡ polling → Step s silent s
    notices : s.phase ≡ polling → s.recv_done ≡ true → Step s silent (record s { phase = draining })
    finishes :
        s.phase ≡ draining
        → fifo.try_dequeue s.queue ≡ none
        → Step s silent (record s {
          engine = set_pipeline_complete to_double (clock s.engine.messages_processed) s.engine;
          phase = finished;
        })

  -- A run from a state: the buffers received and those processed, in order, and the state after it.
  pub data Run (start : Live D Q R) : List (List ℕ) → List (List ℕ) → Live D Q R → Type 0 where
    here : Run start [] [] start
    later :
        {rs ps : List (List ℕ)} {s s' : Live D Q R} {e : Event}
        → Run start rs ps s
        → Step s e s'
        → Run start (rs ++ received_in e) (ps ++ processed_in e) s'
