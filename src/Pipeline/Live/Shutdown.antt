-- ===== src/Pipeline/Live/Shutdown.antt =====
-- When the live mode's receive thread leaves its loop, with the UDP reader.
use itch_parser.Pipeline.Live.Conserve.{Run-IsOrdered, busy}
use itch_parser.Pipeline.Live.{
  Fifo, udp_reader, delivery_of, delivers, ends, raises, Receiver, opening, reading, stopped, Phase,
  polling, draining, finished, Live, Event, received_in, new_live, Step, opens, fails_to_open,
  receives, closes, throws, signals, takes, yields, notices, finishes, Run, here, later,
}
use itch_parser.Prelude.Result.{Failure}
use itch_parser.Prelude.{
  ℕ, ◌≡◌, ◌≢◌, ◌⊎◌, inl, inr, refl, ap, sym, subst, ◌∙◌, true, false, List, [], ◌++◌, All,
  append-nil, Bool-cases,
}
use itch_parser.Udp.Safety.{IsReceived, next_message_open}
use itch_parser.Udp.{Received, UdpFeedReader, next_message}

abbrev UdpState : Type 0
UdpState = List Received × UdpFeedReader

-- The receive thread is stopped only where nothing has been received; in its loop, the reader's
-- socket is open.
abbrev IsListening : List (List ℕ) → Receiver UdpState → Type 0
IsListening rs opening = rs ≡ []
IsListening rs (reading r) = (r.1.is_open ≡ true) × All IsReceived r.0
IsListening rs stopped = rs ≡ []

still-IsListening :
    (rs : List (List ℕ)) (r : Receiver UdpState) → IsListening rs r → IsListening (rs ++ []) r
still-IsListening rs r l = subst (λ q. IsListening q r) (sym (append-nil rs)) l

delivers_lem :
    (r r' : UdpState) (buf : List ℕ)
    → r.1.is_open ≡ true
    → All IsReceived r.0
    → delivery_of (next_message r.0 r.1) ≡ delivers buf r'
    → (r'.1.is_open ≡ true) × All IsReceived r'.0
delivers_lem r r' buf opened b e = elim (next_message_open r.0 r.1 opened b) [
  | inl (m, es, d, run, counted, still, left) ↦
      let same : delivers m (es, d) ≡ delivers buf r' = ap delivery_of (sym run) ∙ e in
      let states : (es, d) ≡ r' = cc same in
      subst (λ q. (q.1.is_open ≡ true) × All IsReceived q.0) states (still, left)
  | inr (d, run, _) ↦ absurd (cc (run, e))
]

never_ends :
    (r r' : UdpState)
    → r.1.is_open ≡ true
    → All IsReceived r.0
    → delivery_of (next_message r.0 r.1) ≢ ends r'
never_ends r r' opened b = λ e. elim (next_message_open r.0 r.1 opened b) [
  | inl (m, es, d, run, _, _, _) ↦ cc (run, e)
  | inr (d, run, _) ↦ cc (run, e)
]

never_raises :
    (r : UdpState) (f : Failure)
    → r.1.is_open ≡ true
    → All IsReceived r.0
    → delivery_of (next_message r.0 r.1) ≢ raises f
never_raises r f opened b = λ e. elim (next_message_open r.0 r.1 opened b) [
  | inl (m, es, d, run, _, _, _) ↦ cc (run, e)
  | inr (d, run, _) ↦ cc (run, e)
]

module _ {D Q : Type 0} (to_double : ℕ → D) (clock : ℕ → ℕ) (fifo : Fifo Q) (interval : ℕ)
    (incoming : List Received) where
  Step-IsListening :
      {s s' : Live D Q UdpState} {e : Event} (rs : List (List ℕ))
      → Step to_double clock fifo (udp_reader incoming) s e s'
      → All IsReceived incoming
      → IsListening rs s.receiver
      → IsListening (rs ++ received_in e) s'.receiver
  Step-IsListening rs (opens h) b l = (refl, b)
  Step-IsListening rs (fails_to_open h) b l = append-nil rs ∙ subst (IsListening rs) h l
  Step-IsListening rs (receives {r} {r'} {buf} h run) b l =
      let (opened, left) = subst (IsListening rs) h l in delivers_lem r r' buf opened left run
  Step-IsListening rs (closes {r} {r'} h run) b l =
      let (opened, left) = subst (IsListening rs) h l in absurd (never_ends r r' opened left run)
  Step-IsListening rs (throws {r} {f} h run) b l =
      let (opened, left) = subst (IsListening rs) h l in absurd (never_raises r f opened left run)
  Step-IsListening {s} rs (signals h) b l = still-IsListening rs s.receiver l
  Step-IsListening {s} rs (takes h got run) b l = still-IsListening rs s.receiver l
  Step-IsListening {s} rs (yields h) b l = still-IsListening rs s.receiver l
  Step-IsListening {s} rs (notices h set) b l = still-IsListening rs s.receiver l
  Step-IsListening {s} rs (finishes h gone) b l = still-IsListening rs s.receiver l

  abbrev Started : List (List ℕ) → List (List ℕ) → Live D Q UdpState → Type 0
  Started =
      Run to_double clock fifo (udp_reader incoming)
        (new_live to_double clock fifo (udp_reader incoming) interval)

  Run-IsListening :
      {rs ps : List (List ℕ)} {s : Live D Q UdpState}
      → Started rs ps s
      → All IsReceived incoming
      → IsListening rs s.receiver
  Run-IsListening here b = refl
  Run-IsListening (later {rs} run step) b = Step-IsListening rs step b (Run-IsListening run b)

  stopped_nothing :
      (rs : List (List ℕ)) (r : Receiver UdpState) → IsListening rs r → r ≡ stopped → rs ≡ []
  stopped_nothing rs opening l e = l
  stopped_nothing rs (reading r) l e = absurd (cc e)
  stopped_nothing rs stopped l e = l

  polling_cases : (p : Phase) → (p ≡ polling) ⊎ (p ≢ polling)
  polling_cases polling = inl refl
  polling_cases draining = inr (λ e. cc e)
  polling_cases finished = inr (λ e. cc e)

  -- With the UDP reader, whatever the datagrams hold, once a message has been received the receive
  -- thread never leaves its loop: `recv_done` is never set, and the engine thread never leaves its
  -- first loop, so that it neither drains the queue nor marks the snapshot complete.
  pub udp_reader_never_done :
      (rs ps : List (List ℕ)) (s : Live D Q UdpState)
      → All IsReceived incoming
      → Started rs ps s
      → rs ≢ []
      → (s.recv_done ≡ false) × (s.phase ≡ polling)
  udp_reader_never_done rs ps s b run some_received =
      let o = Run-IsOrdered to_double clock fifo (udp_reader incoming) interval run in
      let going : s.receiver ≢ stopped =
        λ e. some_received (stopped_nothing rs s.receiver (Run-IsListening run b) e) in
      let unset : s.recv_done ≢ true = busy to_double clock fifo (udp_reader incoming) s going o in
      (
        elim (Bool-cases s.recv_done) [ inl set ↦ absurd (unset set) | inr clear ↦ clear ],
        elim (polling_cases s.phase) [
          | inl still ↦ still
          | inr left ↦ absurd (unset (o.noticed left))
        ],
      )
