-- ===== src/Udp.antt =====
-- src/udp_feed_reader.cpp: the reader of MoldUDP64 packets. What the calls of `recvfrom` give is a
-- parameter, a list with an element for each call; the sockets' set-up is in the child Sockets.
pub mod Packets
pub mod Cut
pub mod Delivery
pub mod Safety
pub mod Sockets
use itch_parser.Prelude.{
  ℕ, zero, suc, ◌+◌, ◌-◌, ◌%◌, ◌^◌, Bool, true, false, List, [], ◌∷◌, ◌++◌, none, some, take, drop,
  length, get_elem?, ltb, ◌==◌, if◌then◌else◌,
}
use itch_parser.Prelude.Result.{Result, ok, ◌>>=◌}
use itch_parser.Wire.{read_be16, read_be64}

-- What one call of `recvfrom` meets: an error, or a packet with its bytes.
pub data Received : Type 0 where
  failed : Received
  datagram : List ℕ → Received

pub record UdpFeedReader : Type 0 where
  pub is_open : Bool
  pub expected_seq : ℕ
  pub gaps_detected : ℕ
  pub dropped_behind : ℕ
  pub messages_received : ℕ
  pub pending : List (List ℕ)
  pub pending_idx : ℕ

-- A reader whose socket is open.
abbrev pub new_udp_feed_reader : UdpFeedReader
new_udp_feed_reader = record {
  is_open = true;
  expected_seq = 1;
  gaps_detected = 0;
  dropped_behind = 0;
  messages_received = 0;
  pending = [];
  pending_idx = 0;
}

-- The `for` loop of `refill` with k blocks to go; both truncation warnings end it.
unfoldable pub read_blocks : ℕ → ℕ → List ℕ → Result (List (List ℕ))
read_blocks zero offset raw = ok []
read_blocks (suc k) offset raw =
    if ltb (length raw) (offset + 2)
    then ok []
    else read_be16 (drop offset raw) >>= λ msg_len.
        if ltb (length raw) (offset + 2 + msg_len)
        then ok []
        else read_blocks k (offset + 2 + msg_len) raw >>= λ blocks.
            ok (take msg_len (drop (offset + 2) raw) ∷ blocks)

-- The end of `refill`, for a packet with messages.
unfoldable pub accept : ℕ → ℕ → List ℕ → UdpFeedReader → Result (Bool × UdpFeedReader)
accept seq msg_count raw r =
    if ltb seq r.expected_seq
    then ok (true, record r { dropped_behind = (r.dropped_behind + 1) % 2 ^ 64 })
    else let gaps =
        if ltb r.expected_seq seq
        then (r.gaps_detected + (seq - r.expected_seq)) % 2 ^ 64
        else r.gaps_detected in
      read_blocks msg_count 20 raw >>= λ blocks. ok (
        true,
        record r {
          gaps_detected = gaps;
          expected_seq = (seq + msg_count) % 2 ^ 64;
          pending = r.pending ++ blocks;
        },
      )

-- `refill` with the bytes that `recvfrom` has stored in `raw`.
unfoldable pub read_packet : List ℕ → UdpFeedReader → Result (Bool × UdpFeedReader)
read_packet raw r =
    if ltb (length raw) 20
    then ok (true, r)
    else read_be64 (drop 10 raw) >>= λ seq. read_be16 (drop 18 raw) >>= λ msg_count.
        if msg_count == 65535
        then ok (true, r)
        else if msg_count == 0
        then ok (true, r)
        else accept seq msg_count raw r

-- The Boolean is false only where the socket is closed. `raw` has room for 2048 bytes: the rest of
-- a longer packet is lost.
unfoldable pub refill : Received → UdpFeedReader → Result (Bool × UdpFeedReader)
refill failed r = ok (r.is_open, r)
refill (datagram packet) r = read_packet (take 2048 packet) r

-- How `next_message` ends: with a message, the calls of `recvfrom` still to come and the reader;
-- with `nullopt`; or inside a `recvfrom` that gives nothing any more.
pub data Answer : Type 0 where
  message : List ℕ → List Received → UdpFeedReader → Answer
  closed : UdpFeedReader → Answer
  waiting : UdpFeedReader → Answer

abbrev pub popped : UdpFeedReader → UdpFeedReader
popped r = record r {
  pending_idx = r.pending_idx + 1;
  messages_received = (r.messages_received + 1) % 2 ^ 64;
}

abbrev pub cleared : UdpFeedReader → UdpFeedReader
cleared r = record r { pending = []; pending_idx = 0 }

unfoldable pub next_message : List Received → UdpFeedReader → Result Answer
next_message [] r = elim (get_elem? r.pending r.pending_idx) [
  | some buf ↦ ok (message buf [] (popped r))
  | none ↦ ok (waiting (cleared r))
]
next_message (e ∷ es) r = elim (get_elem? r.pending r.pending_idx) [
  | some buf ↦ ok (message buf (e ∷ es) (popped r))
  | none ↦
      refill e (cleared r) >>= λ (more, r'). if more then next_message es r' else ok (closed r')
]
