-- ===== src/Tests/Live.antt =====
-- A run of the live mode, and the termination of the file mode on bytes that are no frames.
use itch_parser.Engine.{new_core, handle_all}
use itch_parser.Parser.{parse}
use itch_parser.Pipeline.FileMode.{messages_of}
use itch_parser.Pipeline.Live.Conserve.{Run-conserves}
use itch_parser.Pipeline.Live.Drain.{udp_reader_catches_up}
use itch_parser.Pipeline.Live.Shutdown.{udp_reader_never_done}
use itch_parser.Pipeline.Live.{
  Fifo, udp_reader, reading, polling, Live, new_live, opens, receives, takes, Run, here, later,
}
use itch_parser.Pipeline.Termination.{Ends, run_file-Ends}
use itch_parser.Pipeline.{run_file, process}
use itch_parser.Prelude.Result.{Failure, ok, err, runtime_error}
use itch_parser.Prelude.{
  ℕ, ◌+◌, ◌≡◌, refl, true, false, List, [], ◌∷◌, ◌++◌, Option, none, some, arith, length, replicate,
  ◌⊎◌,
}
use itch_parser.Publish.{new_engine, set_snapshot_interval}
use itch_parser.Tests.Samples.{bytes_lem, memory}
use itch_parser.Udp.Sockets.{Calls, open_multicast, destroy, open_multicast_lem}
use itch_parser.Udp.Packets.{write_packet}
use itch_parser.Udp.{
  Received, UdpFeedReader, new_udp_feed_reader, datagram, next_message, refill, read_packet, accept,
  read_blocks,
}
use itch_parser.Wire.{read_be16, read_be64}

abbrev units : ℕ → ℕ
units n = n

abbrev clock : ℕ → ℕ
clock n = n + 1000

-- Two bytes of a prefix for more bytes than there are, and then a byte of a message.
abbrev cut_file : List ℕ
cut_file = 0 ∷ 1 ∷ b'?' ∷ 0 ∷ 9 ∷ 5 ∷ []

run_file-Ends_example :
    Ends (run_file units clock memory.read 7 cut_file (set_snapshot_interval 5 new_engine))
run_file-Ends_example =
    run_file-Ends units clock memory 5 cut_file (omega arith) (omega arith)
      (bytes_lem cut_file refl)

-- A queue that is the list of its elements.
abbrev uncons : List (List ℕ) → Option (List ℕ × List (List ℕ))
uncons [] = none
uncons (x ∷ xs) = some (x, xs)

uncons-none : (q : List (List ℕ)) → q ≡ [] → uncons q ≡ none
uncons-none [] e = refl
uncons-none (x ∷ q) e = absurd (cc e)

uncons-some :
    (q : List (List ℕ)) (buf : List ℕ) (bufs : List (List ℕ))
    → q ≡ buf ∷ bufs
    → (r : List (List ℕ)) × (uncons q ≡ some (buf, r)) × (r ≡ bufs)
uncons-some [] buf bufs e = absurd (cc e)
uncons-some (x ∷ q) buf bufs e = (q, cc e, cc e)

abbrev fifo : Fifo (List (List ℕ))
fifo = record {
  empty_queue = [];
  enqueue = λ buf q. q ++ buf ∷ [];
  try_dequeue = uncons;
  contents = λ q. q;
  contents_empty = refl;
  contents_enqueue = λ buf q. refl;
  dequeue_none = uncons-none;
  dequeue_some = uncons-some;
}

abbrev packet : List ℕ
packet = write_packet (replicate 10 b' ') 1 ((b'?' ∷ 2 ∷ []) ∷ (b'!' ∷ []) ∷ [])

abbrev arrivals : List Received
arrivals = datagram packet ∷ []

abbrev State : Type 0
State = List (List ℕ)

abbrev listening : Live ℕ State (List Received × UdpFeedReader)
listening = record {
  receiver = reading (
    [],
    record new_udp_feed_reader {
      expected_seq = 3;
      messages_received = 1;
      pending = (b'?' ∷ 2 ∷ []) ∷ (b'!' ∷ []) ∷ [];
      pending_idx = 1;
    },
  );
  queue = (b'?' ∷ 2 ∷ []) ∷ [];
  recv_done = false;
  engine = set_snapshot_interval 5 new_engine;
  phase = polling;
}

Run-listening :
    Run units clock fifo
      (udp_reader arrivals)
      (new_live units clock fifo (udp_reader arrivals) 5)
      ((b'?' ∷ 2 ∷ []) ∷ [])
      []
      listening
unfolding next_message refill read_packet accept read_blocks read_be16 read_be64
Run-listening = later (later here (opens refl)) (receives refl refl)

udp_reader_never_done_example : (listening.recv_done ≡ false) × (listening.phase ≡ polling)
udp_reader_never_done_example =
    udp_reader_never_done units clock fifo 5 arrivals ((b'?' ∷ 2 ∷ []) ∷ []) [] listening
      (bytes_lem packet refl, tt) Run-listening (λ e. cc e)

-- The engine thread takes the message, whose type is unknown.
process-unknown : process units clock (b'?' ∷ 2 ∷ []) listening.engine ≡ ok listening.engine
unfolding process parse
process-unknown = refl

abbrev first : List ℕ
first = b'?' ∷ 2 ∷ []

Run-conserves_example : first ∷ [] ≡ (first ∷ []) ++ []
Run-conserves_example =
    Run-conserves units clock fifo (udp_reader arrivals) 5
      (later Run-listening (takes (λ e. cc e) refl process-unknown))

udp_reader_catches_up_example :
    let rs = first ∷ [] in
    let reader = udp_reader arrivals in
    (d : Live ℕ State (List Received × UdpFeedReader)) × Run units clock fifo reader
      (new_live units clock fifo reader 5)
      rs
      rs
      d
    × (d.receiver ≡ listening.receiver)
    × (fifo.contents d.queue ≡ [])
    × (d.engine.core ≡ handle_all (messages_of rs) new_core)
    × (d.engine.messages_processed ≡ length (messages_of rs))
    × (d.phase ≡ polling)
udp_reader_catches_up_example =
    udp_reader_catches_up units clock fifo 5 arrivals ((b'?' ∷ 2 ∷ []) ∷ []) [] listening
      (omega arith) (bytes_lem packet refl, tt) Run-listening (λ e. cc e)
      (bytes_lem (b'?' ∷ 2 ∷ []) refl, tt) (omega arith)

-- The membership of the multicast group is refused.
abbrev calls : Calls
calls = record {
  socket = some 4;
  bind = true;
  group_pton = true;
  iface_pton = true;
  add_membership = false;
}

open_multicast_lem_example :
    let reader : ℕ × UdpFeedReader = (4, new_udp_feed_reader) in
    ((false ≡ true)
      × (open_multicast calls (0 ∷ 1 ∷ []) ≡ (ok reader, 4 ∷ 0 ∷ 1 ∷ []))
      × (destroy reader (4 ∷ 0 ∷ 1 ∷ []) ≡ 0 ∷ 1 ∷ []))
    ⊎ ((false ≡ false)
        × (f : Failure) × (open_multicast calls (0 ∷ 1 ∷ [])
            ≡ (err (runtime_error f), 4 ∷ 0 ∷ 1 ∷ [])))
open_multicast_lem_example = open_multicast_lem calls 4 (0 ∷ 1 ∷ []) refl
