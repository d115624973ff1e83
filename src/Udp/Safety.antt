-- ===== src/Udp/Safety.antt =====
-- `refill` and `next_message` on arbitrary datagrams: no read past the end of a packet, whatever
-- its bytes are.
use itch_parser.Prelude.Result.{ok}
use itch_parser.Prelude.{
  ℕ, zero, suc, ◌+◌, ◌-◌, ◌%◌, ◌^◌, ◌≤◌, ◌≡◌, refl, ◌∙◌, ◌⊎◌, true, inl, inr, List, [], ◌∷◌, ◌++◌,
  get_elem?, ltb, ◌==◌, arith, length, drop, take, if◌then◌else◌, All, Bool-cases, Option-cases,
}
use itch_parser.Udp.Delivery.{next_message-refill, next_message-pending}
use itch_parser.Udp.{
  Received, failed, datagram, UdpFeedReader, message, waiting, popped, cleared, read_blocks, accept,
  read_packet, refill, next_message,
}
use itch_parser.Wire.Fields.{IsBuffer, be16_at, be64_at}

read_blocks_total :
    (k offset : ℕ) (raw : List ℕ)
    → IsBuffer raw
    → (blocks : List (List ℕ)) × (read_blocks k offset raw ≡ ok blocks) × (length blocks ≤ k)
unfolding read_blocks
read_blocks_total zero offset raw b = ([], refl, omega arith)
read_blocks_total (suc k) offset raw b = elim (Bool-cases (ltb (length raw) (offset + 2))) [
  | inl short ↦ ([], rw short refl, omega arith)
  | inr long ↦
      let prefix = be16_at offset raw (ground arith) b in
      let len = prefix.value in
      elim (Bool-cases (ltb (length raw) (offset + 2 + len))) [
        | inl short ↦ ([], rw (long, prefix.reads, short) refl, omega arith)
        | inr there ↦
            let (blocks, run, few) = read_blocks_total k (offset + 2 + len) raw b in
            (
              take len (drop (offset + 2) raw) ∷ blocks,
              rw (long, prefix.reads, there, run) refl,
              omega (arith, few),
            )
      ]
]

-- What `refill` does with the reader that takes a packet.
record Refilled (r d : UdpFeedReader) : Type 0 where
  open_still : d.is_open ≡ r.is_open
  received_still : d.messages_received ≡ r.messages_received

read_packet_total :
    (raw : List ℕ) (r : UdpFeedReader)
    → IsBuffer raw
    → (d : UdpFeedReader) × (read_packet raw r ≡ ok (true, d)) × Refilled r d
unfolding read_packet accept
read_packet_total raw r b =
    let same : Refilled r r = record { open_still = refl; received_still = refl } in
    elim (Bool-cases (ltb (length raw) 20)) [
      | inl short ↦ (r, rw short refl, same)
      | inr long ↦
          let seq = be64_at 10 raw (ground arith) b in
          let count = be16_at 18 raw (ground arith) b in
          elim (Bool-cases (count.value == 65535)) [
            | inl heartbeat ↦ (r, rw (long, seq.reads, count.reads, heartbeat) refl, same)
            | inr more ↦ elim (Bool-cases (count.value == 0)) [
              | inl empty ↦ (r, rw (long, seq.reads, count.reads, more, empty) refl, same)
              | inr filled ↦ elim (Bool-cases (ltb seq.value r.expected_seq)) [
                | inl behind ↦ (
                  record r { dropped_behind = (r.dropped_behind + 1) % 2 ^ 64 },
                  rw (long, seq.reads, count.reads, more, filled, behind) refl,
                  record { open_still = refl; received_still = refl },
                )
                | inr ahead ↦
                    let (blocks, run, few) = read_blocks_total count.value 20 raw b in
                    (
                      record r {
                        gaps_detected =
                            if ltb r.expected_seq seq.value
                            then (r.gaps_detected + (seq.value - r.expected_seq)) % 2 ^ 64
                            else r.gaps_detected;
                        expected_seq = (seq.value + count.value) % 2 ^ 64;
                        pending = r.pending ++ blocks;
                      },
                      rw (long, seq.reads, count.reads, more, filled, ahead, run) refl,
                      record { open_still = refl; received_still = refl },
                    )
              ]
            ]
          ]
    ]

IsBuffer-take : (n : ℕ) (raw : List ℕ) → IsBuffer raw → IsBuffer (take n raw)
IsBuffer-take zero raw b = tt
IsBuffer-take (suc n) [] b = tt
IsBuffer-take (suc n) (x ∷ raw) b = (b.0, IsBuffer-take n raw b.1)

-- A packet is bytes.
abbrev pub IsReceived : Received → Type 0
IsReceived failed = Unit
IsReceived (datagram raw) = IsBuffer raw

refill_open :
    (e : Received) (r : UdpFeedReader)
    → r.is_open ≡ true
    → IsReceived e
    → (d : UdpFeedReader) × (refill e r ≡ ok (true, d)) × Refilled r d
unfolding refill
refill_open failed r opened b =
    (r, rw opened refl, record { open_still = refl; received_still = refl })
refill_open (datagram packet) r opened b =
    read_packet_total (take 2048 packet) r (IsBuffer-take 2048 packet b)

-- What `next_message` returns on an open socket, and the state that it leaves.
pub next_message_open :
    (es : List Received) (r : UdpFeedReader)
    → r.is_open ≡ true
    → All IsReceived es
    → ((m : List ℕ) × (es' : List Received) × (d : UdpFeedReader) × (next_message es r
          ≡ ok (message m es' d))
        × (d.messages_received ≡ (r.messages_received + 1) % 2 ^ 64)
        × (d.is_open ≡ true)
        × All IsReceived es')
      ⊎ ((d : UdpFeedReader) × (next_message es r ≡ ok (waiting d))
          × (d.messages_received ≡ r.messages_received))
unfolding next_message
next_message_open [] r opened b = elim (Option-cases (get_elem? r.pending r.pending_idx)) [
  | inl empty ↦ inr (cleared r, ground (arith, empty), refl)
  | inr (m, there) ↦ inl (m, [], popped r, next_message-pending [] r m there, refl, opened, tt)
]
next_message_open (e ∷ es) r opened b = elim (Option-cases (get_elem? r.pending r.pending_idx)) [
  | inr (m, there) ↦
      inl (m, e ∷ es, popped r, next_message-pending (e ∷ es) r m there, refl, opened, b)
  | inl empty ↦
      let (d, go, kept) = refill_open e (cleared r) opened b.0 in
      let same = next_message-refill e es r d empty go in
      elim (next_message_open es d (kept.open_still ∙ opened) b.1) [
        | inl (m, es', f, run, counted, still, left) ↦
            inl (m, es', f, same ∙ run, omega (arith, counted, kept.received_still), still, left)
        | inr (f, run, counted) ↦ inr (f, same ∙ run, counted ∙ kept.received_still)
      ]
]

-- On an open socket, whatever the datagrams hold, `next_message` reads nothing outside a packet, and
-- it returns a message, counted as received, or blocks in `recvfrom` with the counter as it was;
-- it never returns `nullopt`.
pub next_message_total :
    (es : List Received) (r : UdpFeedReader)
    → r.is_open ≡ true
    → All IsReceived es
    → ((m : List ℕ) × (es' : List Received) × (d : UdpFeedReader) × (next_message es r
          ≡ ok (message m es' d))
        × (d.messages_received ≡ (r.messages_received + 1) % 2 ^ 64))
      ⊎ ((d : UdpFeedReader) × (next_message es r ≡ ok (waiting d))
          × (d.messages_received ≡ r.messages_received))
next_message_total es r opened b = elim (next_message_open es r opened b) [
  | inl (m, es', d, run, counted, _, _) ↦ inl (m, es', d, run, counted)
  | inr blocked ↦ inr blocked
]
