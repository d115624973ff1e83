-- ===== src/Udp/Delivery.antt =====
-- `next_message` on a feed whose packets come in order: what its caller gets.
use itch_parser.Prelude.Result.{Result, ok, err, ◌>>=◌}
use itch_parser.Prelude.{
  ℕ, zero, suc, ◌+◌, ◌-◌, ◌^◌, ◌≤◌, ◌<◌, ◌≡◌, refl, ap, ◌∙◌, true, List, [], ◌∷◌, ◌++◌, none, some,
  get_elem?, arith, length, drop, All, length-append,
}
use itch_parser.Udp.Packets.{write_blocks, write_packet, length-write_packet, refill-write_packet}
use itch_parser.Udp.{
  Received, datagram, UdpFeedReader, message, closed, waiting, popped, cleared, refill,
  next_message,
}

-- The messages of up to k calls of `next_message`, fewer where one gives none.
unfoldable pub take_messages :
    ℕ → List Received → UdpFeedReader → Result (List (List ℕ) × UdpFeedReader)
take_messages zero es r = ok ([], r)
take_messages (suc k) es r = next_message es r >>= λ answer. elim answer [
  | message m es' r' ↦ take_messages k es' r' >>= λ (ms, d). ok (m ∷ ms, d)
  | closed d ↦ ok ([], d)
  | waiting d ↦ ok ([], d)
]

abbrev pub concat : List (List (List ℕ)) → List (List ℕ)
concat [] = []
concat (p ∷ ps) = p ++ concat ps

-- The packets of a session, each with the number of its first message.
abbrev pub packets : List ℕ → ℕ → List (List (List ℕ)) → List Received
packets session seq [] = []
packets session seq (p ∷ ps) =
    datagram (write_packet session seq p) ∷ packets session (seq + length p) ps

-- A packet with messages that is no longer than 2048 bytes.
abbrev pub FitsPacket : List (List ℕ) → Type 0
FitsPacket p = (0 < length p) × (20 + length (write_blocks p) ≤ 2048)

drop-nil : (i : ℕ) → drop {A = List ℕ} i [] ≡ []
drop-nil zero = refl
drop-nil (suc i) = refl

get_elem-drop :
    (i : ℕ) (ms : List (List ℕ)) (m : List ℕ) (left : List (List ℕ))
    → drop i ms ≡ m ∷ left
    → (get_elem? ms i ≡ some m) × (drop (suc i) ms ≡ left)
get_elem-drop i [] m left h = ground (arith, drop-nil i)
get_elem-drop zero (x ∷ ms) m left h = ground arith
get_elem-drop (suc i) (x ∷ ms) m left h = get_elem-drop i ms m left h

get_elem-end : (i : ℕ) (ms : List (List ℕ)) → drop i ms ≡ [] → get_elem? ms i ≡ none
get_elem-end i [] h = refl
get_elem-end zero (x ∷ ms) h = ground arith
get_elem-end (suc i) (x ∷ ms) h = get_elem-end i ms h

pub next_message-pending :
    (es : List Received) (r : UdpFeedReader) (m : List ℕ)
    → get_elem? r.pending r.pending_idx ≡ some m
    → next_message es r ≡ ok (message m es (popped r))
unfolding next_message
next_message-pending [] r m h = ground (arith, h)
next_message-pending (e ∷ es) r m h = ground (arith, h)

pub next_message-refill :
    (e : Received) (es : List Received) (r r' : UdpFeedReader)
    → get_elem? r.pending r.pending_idx ≡ none
    → refill e (cleared r) ≡ ok (true, r')
    → next_message (e ∷ es) r ≡ next_message es r'
unfolding next_message
next_message-refill e es r r' h go = ground (arith, h, go)

-- The reader after its pending messages are taken.
abbrev pub taken : List (List ℕ) → UdpFeedReader → UdpFeedReader
taken [] r = r
taken (m ∷ left) r = taken left (popped r)

-- The messages `left`, and then those of another run.
abbrev after :
    List (List ℕ) → Result (List (List ℕ) × UdpFeedReader) → Result (List (List ℕ) × UdpFeedReader)
after left run = run >>= λ (ms, d). ok (left ++ ms, d)

after-nil : (run : Result (List (List ℕ) × UdpFeedReader)) → run ≡ after [] run
after-nil (ok a) = refl
after-nil (err e) = refl

after-cons :
    (m : List ℕ) (left : List (List ℕ)) (run : Result (List (List ℕ) × UdpFeedReader))
    → after (m ∷ []) (after left run) ≡ after (m ∷ left) run
after-cons m left (ok a) = refl
after-cons m left (err e) = refl

take_messages-pending :
    (left more : List (List ℕ)) (es : List Received) (r : UdpFeedReader)
    → drop r.pending_idx r.pending ≡ left
    → take_messages (length (left ++ more)) es r
      ≡ after left (take_messages (length more) es (taken left r))
unfolding take_messages
take_messages-pending [] more es r h = after-nil _
take_messages-pending (m ∷ left) more es r h =
    let (first, rest) = get_elem-drop r.pending_idx r.pending m left h in
    let e : suc r.pending_idx ≡ r.pending_idx + 1 = omega arith in
    let later = take_messages-pending left more es (popped r) (rw (← e) rest) in
    rw (next_message-pending es r m first, later) (after-cons m left _)

taken-keeps :
    (left : List (List ℕ)) (r : UdpFeedReader)
    → drop r.pending_idx r.pending ≡ left
    → r.messages_received + length left < 2 ^ 64
    → let d = taken left r in
      (d.expected_seq ≡ r.expected_seq)
      × (d.gaps_detected ≡ r.gaps_detected)
      × (d.dropped_behind ≡ r.dropped_behind)
      × (d.messages_received ≡ r.messages_received + length left)
      × (drop d.pending_idx d.pending ≡ [])
taken-keeps [] r h fits = (refl, refl, refl, omega arith, h)
taken-keeps (m ∷ left) r h fits =
    let (first, rest) = get_elem-drop r.pending_idx r.pending m left h in
    let e : suc r.pending_idx ≡ r.pending_idx + 1 = omega arith in
    let (seq, gaps, dropped, counted, over) =
      taken-keeps left (popped r) (rw (← e) rest) (omega arith) in
    (seq, gaps, dropped, omega (arith, counted), over)

take_messages-refill :
    (p more : List (List ℕ)) (e : Received) (es : List Received) (r r' : UdpFeedReader)
    → 0 < length p
    → get_elem? r.pending r.pending_idx ≡ none
    → refill e (cleared r) ≡ ok (true, r')
    → take_messages (length (p ++ more)) (e ∷ es) r ≡ take_messages (length (p ++ more)) es r'
unfolding take_messages
take_messages-refill [] more e es r r' filled h go = absurd (omega arith)
take_messages-refill (m ∷ p) more e es r r' filled h go =
    rw (next_message-refill e es r r' h go) refl

-- Where no message is pending and the packets, each with at least one message and of at most 2048
-- bytes, continue the sequence from the expected number, with counters that do not overflow, as
-- many calls of `next_message` as the packets hold messages return exactly these messages in order.
-- Every one is counted as received and none as lost or dropped, and the number after the last is
-- expected next.
pub take_messages-packets :
    (session : List ℕ) (seq : ℕ) (ps : List (List (List ℕ))) (r : UdpFeedReader)
    → length session ≡ 10
    → r.expected_seq ≡ seq
    → All FitsPacket ps
    → drop r.pending_idx r.pending ≡ []
    → seq + length (concat ps) < 2 ^ 64
    → r.messages_received + length (concat ps) < 2 ^ 64
    → r.gaps_detected < 2 ^ 64
    → (d : UdpFeedReader) × (take_messages (length (concat ps)) (packets session seq ps) r
        ≡ ok (concat ps, d))
      × (d.expected_seq ≡ seq + length (concat ps))
      × (d.messages_received ≡ r.messages_received + length (concat ps))
      × (d.gaps_detected ≡ r.gaps_detected)
      × (d.dropped_behind ≡ r.dropped_behind)
unfolding take_messages
take_messages-packets session seq [] r s at fits over seqs counts gaps =
    (r, refl, omega (arith, at), omega arith, refl, refl)
take_messages-packets session seq (p ∷ ps) r s at fits over seqs counts gaps =
    let (filled, short) = fits.0 in
    let size = length-append p (concat ps) in
    let r1 = record (cleared r) {
      gaps_detected = r.gaps_detected + (seq - r.expected_seq);
      expected_seq = seq + length p;
      pending = p;
    } in
    let go : refill (datagram (write_packet session seq p)) (cleared r) ≡ ok (true, r1) =
      refill-write_packet session seq p (cleared r) s filled
        (omega (arith, short, s, length-write_packet session seq p)) (omega (arith, size))
        (omega (arith, at)) (omega (arith, at)) in
    let es = packets session (seq + length p) ps in
    let start =
      take_messages-refill p (concat ps) (datagram (write_packet session seq p)) es r r1 filled
        (get_elem-end r.pending_idx r.pending over) go in
    let taking = take_messages-pending p (concat ps) es r1 refl in
    let (same, gaps1, dropped, counted, none_left) = taken-keeps p r1 refl (omega (arith, size)) in
    let next = taken p r1 in
    let (d, run, seq', counted', gaps', dropped') =
      take_messages-packets session (seq + length p) ps next s same fits.1 none_left
        (omega (arith, size, same)) (omega (arith, size, counted)) (omega (arith, gaps1)) in
    (
      d,
      start ∙ taking ∙ ap (after p) run,
      omega (arith, size, same, seq'),
      omega (arith, size, counted, counted'),
      omega (arith, gaps', gaps1, at),
      dropped' ∙ dropped,
    )
