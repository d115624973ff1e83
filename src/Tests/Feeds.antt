-- ===== src/Tests/Feeds.antt =====
-- The parser, the readers and the pipeline at concrete inputs.
use itch_parser.Engine.{new_core, handle_all}
use itch_parser.File.Frames.{next_message-truncated}
use itch_parser.File.{next_message}
use itch_parser.Messages.{ParsedMessage, add_order}
use itch_parser.Parser.Encode.{write_message}
use itch_parser.Parser.Outcome.Total.{parse-Outcome}
use itch_parser.Parser.Outcome.{Outcome, wire_size}
use itch_parser.Parser.RoundTrip.{parse-write_message}
use itch_parser.Parser.{parse, parse_add_order, require}
use itch_parser.Pipeline.FileMode.{run_file-write_frames, messages_of, write_frames}
use itch_parser.Pipeline.{at_end, run_file}
use itch_parser.Prelude.Result.{ok, err, runtime_error, truncated_frame}
use itch_parser.Prelude.{
  ℕ, ◌+◌, ◌-◌, ◌*◌, ◌/◌, ◌%◌, ◌^◌, ◌<◌, ◌≡◌, ◌⊎◌, refl, true, List, [], ◌∷◌, ◌++◌, some, length,
  replicate, arith, map,
}
use itch_parser.Publish.Shown.{History, apply_all-new_engine, snapshot_after}
use itch_parser.Publish.{Engine, new_engine, set_snapshot_interval, apply_all, current}
use itch_parser.Snapshot.{build_snapshot}
use itch_parser.Tests.Samples.{buy, history, buy_bytes, bytes_lem, memory}
use itch_parser.Udp.Delivery.{take_messages, take_messages-packets, packets}
use itch_parser.Udp.Cut.{fitting, refill-long_packet}
use itch_parser.Udp.Packets.{write_packet, refill-write_packet}
use itch_parser.Udp.Safety.{next_message_total}
use itch_parser.Udp.{UdpFeedReader, new_udp_feed_reader, datagram, failed, refill, message, waiting}
use itch_parser.Wire.{read_be16, read_be32, read_be48, read_be64, read_alpha, find_last_not_space}

-- The parser reads the buy order's own bytes.
pub parse-buy : parse buy_bytes ≡ ok (some (add_order buy))
unfolding parse parse_add_order require read_be16 read_be32 read_be48 read_be64 read_alpha
    find_last_not_space
parse-buy = refl

parse-write_message_example :
    parse (write_message (add_order buy) (1 ∷ [])) ≡ ok (some (add_order buy))
parse-write_message_example = parse-write_message (add_order buy) (1 ∷ []) (record {
  stock_locate = omega arith;
  tracking_number = omega arith;
  timestamp = omega arith;
  order_ref = omega arith;
  shares = omega arith;
  stock = record { short = omega arith; plain = λ e. absurd (omega (arith, e)) };
  price = omega arith;
})

parse-Outcome_example : Outcome (wire_size b'D') (parse (b'D' ∷ 0 ∷ 1 ∷ [])) (b'D' ∷ 0 ∷ 1 ∷ [])
parse-Outcome_example = parse-Outcome b'D' (0 ∷ 1 ∷ []) (bytes_lem (b'D' ∷ 0 ∷ 1 ∷ []) refl)

abbrev session : List ℕ
session = replicate 10 b' '

abbrev second : UdpFeedReader
second = record new_udp_feed_reader { expected_seq = 4 }

refill-write_packet_example :
    refill (datagram (write_packet session 6 ((1 ∷ 2 ∷ []) ∷ (3 ∷ []) ∷ []))) second
    ≡ ok (
      true,
      record second {
        gaps_detected = 0 + (6 - 4);
        expected_seq = 6 + 2;
        pending = [] ++ ((1 ∷ 2 ∷ []) ∷ (3 ∷ []) ∷ []);
      },
    )
refill-write_packet_example =
    refill-write_packet session 6 ((1 ∷ 2 ∷ []) ∷ (3 ∷ []) ∷ []) second refl (omega arith)
      (omega arith) (omega arith) (omega arith) (omega arith)

abbrev long_messages : List (List ℕ)
long_messages = replicate 2000 1 ∷ replicate 100 2 ∷ []

refill-long_packet_example :
    refill (datagram (write_packet session 6 long_messages)) second
    ≡ ok (
      true,
      record second {
        gaps_detected = 0 + (6 - 4);
        expected_seq = 6 + 2;
        pending = [] ++ fitting 2028 long_messages;
      },
    )
refill-long_packet_example =
    refill-long_packet session 6 long_messages second refl (omega arith)
      (omega arith, (omega arith, tt)) (omega arith) (omega arith) (omega arith) (omega arith)

abbrev two_packets : List (List (List ℕ))
two_packets = ((1 ∷ 2 ∷ []) ∷ (3 ∷ []) ∷ []) ∷ ((4 ∷ []) ∷ []) ∷ []

take_messages-packets_example :
    (d : UdpFeedReader) × (take_messages 3 (packets session 1 two_packets) new_udp_feed_reader
      ≡ ok ((1 ∷ 2 ∷ []) ∷ (3 ∷ []) ∷ (4 ∷ []) ∷ [], d))
    × (d.expected_seq ≡ 1 + 3)
    × (d.messages_received ≡ 0 + 3)
    × (d.gaps_detected ≡ 0)
    × (d.dropped_behind ≡ 0)
take_messages-packets_example =
    take_messages-packets session 1 two_packets new_udp_feed_reader refl refl
      ((omega arith, omega arith), ((omega arith, omega arith), tt)) refl (omega arith)
      (omega arith) (omega arith)

abbrev noise : List ℕ
noise = 1 ∷ 2 ∷ []

next_message_total_example :
    ((m : List ℕ) × (es' : List itch_parser.Udp.Received) × (d : UdpFeedReader)
      × (itch_parser.Udp.next_message (failed ∷ datagram noise ∷ []) new_udp_feed_reader
          ≡ ok (message m es' d))
      × (d.messages_received ≡ (0 + 1) % 2 ^ 64))
    ⊎ ((d : UdpFeedReader) × (itch_parser.Udp.next_message
            (failed ∷ datagram noise ∷ [])
            new_udp_feed_reader
          ≡ ok (waiting d))
        × (d.messages_received ≡ 0))
next_message_total_example =
    next_message_total (failed ∷ datagram noise ∷ []) new_udp_feed_reader refl
      (tt, (bytes_lem noise refl, tt))

next_message-truncated_example :
    ((0 < 0) × (next_message memory.read (0 ∷ 2 ∷ []) ≡ err (runtime_error truncated_frame)))
    ⊎ ((◌≡◌ {A = List ℕ} [] [])
        × (fd : List ℕ) × (next_message memory.read (0 ∷ 2 ∷ []) ≡ ok (some (0 ∷ 0 ∷ []), fd)))
next_message-truncated_example =
    next_message-truncated memory (0 ∷ 2 ∷ []) 2 [] (omega arith) (omega arith) (omega arith) refl

-- A price as a count of its units stands for its `double`.
abbrev price_units : ℕ → ℕ
price_units n = n

abbrev clock : ℕ → ℕ
clock n = n + 1000

abbrev two_frames : List (List ℕ)
two_frames = buy_bytes ∷ (b'?' ∷ []) ∷ []

run_file-write_frames_example :
    (d : Engine ℕ) × (run_file price_units clock memory.read 3
        (write_frames two_frames)
        (set_snapshot_interval 5 new_engine)
      ≡ ok (at_end, d))
    × (d.core ≡ handle_all (messages_of two_frames) new_core)
    × (d.messages_processed ≡ length (messages_of two_frames))
    × (current d.publisher
        ≡ some (
            build_snapshot price_units
              (length (messages_of two_frames))
              true
              (clock (length (messages_of two_frames)))
              d.core))
run_file-write_frames_example =
    run_file-write_frames price_units clock memory 5 two_frames (write_frames two_frames)
      (omega arith) (omega arith)
      (
        (omega arith, omega arith, bytes_lem buy_bytes refl),
        ((omega arith, omega arith, bytes_lem (b'?' ∷ []) refl), tt),
      )
      refl

abbrev timed : List (ℕ × ParsedMessage)
timed = map (λ m. (7, m)) history

apply_all-new_engine_example :
    (d : Engine ℕ) × (before after : History) × (apply_all price_units timed
        (set_snapshot_interval 4 new_engine)
      ≡ ok d)
    × (d.core ≡ handle_all history new_core)
    × (d.messages_processed ≡ 6)
    × (timed ≡ before ++ after)
    × (length before ≡ 6 / 4 * 4)
    × (current d.publisher ≡ snapshot_after price_units before)
apply_all-new_engine_example = apply_all-new_engine price_units 4 timed (omega arith) (omega arith)
