-- ===== src/Pipeline/Live/Conserve.antt =====
-- The live mode loses no message: what is received is processed, in order.
use itch_parser.Pipeline.Live.{
  Fifo, FeedReader, stopped, polling, finished, Live, Event, received_in, processed_in, new_live,
  Step, opens, fails_to_open, receives, closes, throws, signals, takes, yields, notices, finishes,
  Run, here, later,
}
use itch_parser.Prelude.{
  ℕ, ◌≡◌, ◌≢◌, refl, ap, sym, ◌∙◌, true, List, [], ◌∷◌, ◌++◌, none, some, append_assoc, append-nil,
}

module _ {D Q R : Type 0} (to_double : ℕ → D) (clock : ℕ → ℕ) (fifo : Fifo Q)
    (reader : FeedReader R) where
  -- The engine thread is past its first loop only after `recv_done`, and past its second one only
  -- with an empty queue; `recv_done` is set only after the receive thread's loop.
  pub record IsOrdered (s : Live D Q R) : Type 0 where
    pub signalled : s.recv_done ≡ true → s.receiver ≡ stopped
    pub noticed : s.phase ≢ polling → s.recv_done ≡ true
    pub drained : s.phase ≡ finished → fifo.contents s.queue ≡ []

  -- A successful attempt takes the first element, and an unsuccessful one finds none.
  dequeued_of :
      (q q' : Q) (buf : List ℕ) (bufs : List (List ℕ))
      → fifo.contents q ≡ bufs
      → fifo.try_dequeue q ≡ some (buf, q')
      → bufs ≡ buf ∷ fifo.contents q'
  dequeued_of q q' buf [] e h = absurd (cc (fifo.dequeue_none q e, h))
  dequeued_of q q' buf (x ∷ xs) e h =
      let (q2, run, rest) = fifo.dequeue_some q x xs e in
      let same : some (x, q2) ≡ some (buf, q') = sym run ∙ h in cc (same, rest)

  dequeued :
      (q q' : Q) (buf : List ℕ)
      → fifo.try_dequeue q ≡ some (buf, q')
      → fifo.contents q ≡ buf ∷ fifo.contents q'
  dequeued q q' buf h = dequeued_of q q' buf (fifo.contents q) refl h

  undequeued_of :
      (q : Q) (bufs : List (List ℕ))
      → fifo.contents q ≡ bufs
      → fifo.try_dequeue q ≡ none
      → bufs ≡ []
  undequeued_of q [] e h = refl
  undequeued_of q (x ∷ xs) e h =
      let (q2, run, rest) = fifo.dequeue_some q x xs e in absurd (cc (run, h))

  pub busy : (s : Live D Q R) → s.receiver ≢ stopped → IsOrdered s → s.recv_done ≢ true
  busy s h o = λ d. h (o.signalled d)

  -- The engine thread waits while the receive thread is in its loop.
  busy_phase : (s : Live D Q R) → s.receiver ≢ stopped → IsOrdered s → s.phase ≢ finished
  busy_phase s h o = λ f. busy s h o (o.noticed (λ w. absurd (cc (w, f))))

  Step-IsOrdered :
      {s s' : Live D Q R} {e : Event}
      → Step to_double clock fifo reader s e s'
      → IsOrdered s
      → IsOrdered s'
  Step-IsOrdered {s} (opens h) o = record {
    signalled = λ d. absurd (busy s (λ e. cc (e, h)) o d);
    noticed = o.noticed;
    drained = o.drained;
  }
  Step-IsOrdered {s} (fails_to_open h) o = record {
    signalled = λ d. refl;
    noticed = o.noticed;
    drained = o.drained;
  }
  Step-IsOrdered {s} (receives h run) o = record {
    signalled = λ d. absurd (busy s (λ e. cc (e, h)) o d);
    noticed = o.noticed;
    drained = λ f. absurd (busy_phase s (λ e. cc (e, h)) o f);
  }
  Step-IsOrdered (closes h run) o = record {
    signalled = λ d. refl;
    noticed = o.noticed;
    drained = o.drained;
  }
  Step-IsOrdered (throws h run) o = record {
    signalled = λ d. refl;
    noticed = o.noticed;
    drained = o.drained;
  }
  Step-IsOrdered (signals h) o = record {
    signalled = λ d. h;
    noticed = λ n. refl;
    drained = o.drained;
  }
  Step-IsOrdered (takes h got run) o = record {
    signalled = o.signalled;
    noticed = o.noticed;
    drained = λ f. absurd (h f);
  }
  Step-IsOrdered (yields h) o = o
  Step-IsOrdered (notices h set) o = record {
    signalled = o.signalled;
    noticed = λ n. set;
    drained = λ f. absurd (cc f);
  }
  Step-IsOrdered {s} (finishes h gone) o = record {
    signalled = o.signalled;
    noticed = λ n. o.noticed (λ w. absurd (cc (w, h)));
    drained = λ f. undequeued_of s.queue (fifo.contents s.queue) refl gone;
  }

  kept : (rs ps left : List (List ℕ)) → rs ≡ ps ++ left → rs ++ [] ≡ (ps ++ []) ++ left
  kept rs ps left c = append-nil rs ∙ c ∙ ap (λ q. q ++ left) (sym (append-nil ps))

  -- What is received is what is processed, and then what is in the queue.
  pub Step-conserves :
      {s s' : Live D Q R} {e : Event} (rs ps : List (List ℕ))
      → Step to_double clock fifo reader s e s'
      → rs ≡ ps ++ fifo.contents s.queue
      → rs ++ received_in e ≡ (ps ++ processed_in e) ++ fifo.contents s'.queue
  Step-conserves {s} rs ps (receives {buf} h run) c =
      ap (λ q. q ++ buf ∷ []) c
      ∙ append_assoc ps (fifo.contents s.queue) (buf ∷ [])
      ∙ ap (◌++◌ ps) (sym (fifo.contents_enqueue buf s.queue))
      ∙ ap (λ q. q ++ fifo.contents (fifo.enqueue buf s.queue)) (sym (append-nil ps))
  Step-conserves {s} rs ps (takes {buf} {q} h got run) c =
      append-nil rs
      ∙ c
      ∙ ap (◌++◌ ps) (dequeued s.queue q buf got)
      ∙ sym (append_assoc ps (buf ∷ []) (fifo.contents q))
  Step-conserves rs ps (opens h) c = kept rs ps _ c
  Step-conserves rs ps (fails_to_open h) c = kept rs ps _ c
  Step-conserves rs ps (closes h run) c = kept rs ps _ c
  Step-conserves rs ps (throws h run) c = kept rs ps _ c
  Step-conserves rs ps (signals h) c = kept rs ps _ c
  Step-conserves rs ps (yields h) c = kept rs ps _ c
  Step-conserves rs ps (notices h set) c = kept rs ps _ c
  Step-conserves rs ps (finishes h gone) c = kept rs ps _ c

module _ {D Q R : Type 0} (to_double : ℕ → D) (clock : ℕ → ℕ) (fifo : Fifo Q)
    (reader : FeedReader R) (interval : ℕ) where
  pub Run-IsOrdered :
      {rs ps : List (List ℕ)} {s : Live D Q R}
      → Run to_double clock fifo reader (new_live to_double clock fifo reader interval) rs ps s
      → IsOrdered to_double clock fifo reader s
  Run-IsOrdered here = record {
    signalled = λ d. absurd (cc d);
    noticed = λ n. absurd (n refl);
    drained = λ f. absurd (cc f);
  }
  Run-IsOrdered (later run step) =
      Step-IsOrdered to_double clock fifo reader step (Run-IsOrdered run)

  -- In every run of the live mode, however the steps of the two threads are interleaved, the
  -- buffers that the receive thread has read are, in order, those that the engine thread has
  -- processed and then those in the queue: none is lost, repeated or moved.
  pub Run-conserves :
      {rs ps : List (List ℕ)} {s : Live D Q R}
      → Run to_double clock fifo reader (new_live to_double clock fifo reader interval) rs ps s
      → rs ≡ ps ++ fifo.contents s.queue
  Run-conserves here = sym fifo.contents_empty
  Run-conserves (later {rs} {ps} run step) =
      Step-conserves to_double clock fifo reader rs ps step (Run-conserves run)
