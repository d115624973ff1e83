-- ===== src/Udp/Packets.antt =====
-- `refill` on packets that are laid out as MoldUDP64 says.
use itch_parser.Prelude.{
  ℕ, zero, suc, ◌+◌, ◌-◌, ◌*◌, ◌%◌, ◌^◌, ◌≤◌, ◌<◌, ◌≡◌, refl, ap, sym, ◌∙◌, true, false, List, [],
  ◌∷◌, ◌++◌, ◌==◌, ltb, arith, if◌then◌else◌, length, take, drop, All, length-append, take-append,
  drop-append,
}
use itch_parser.Prelude.Result.{ok}
use itch_parser.Udp.{datagram, UdpFeedReader, read_blocks, accept, read_packet, refill}
use itch_parser.Wire.Fields.{drop-drop}
use itch_parser.Wire.Numbers.{write_be16, write_be64, read_be16-write_be16, read_be64-write_be64}

-- The message blocks of a packet.
abbrev pub write_blocks : List (List ℕ) → List ℕ
write_blocks [] = []
write_blocks (m ∷ ms) = write_be16 (length m) (m ++ write_blocks ms)

-- A packet with the ten bytes of the session's name.
abbrev pub write_packet : List ℕ → ℕ → List (List ℕ) → List ℕ
write_packet session seq ms = session ++ write_be64 seq (write_be16 (length ms) (write_blocks ms))

abbrev pub FitBlocks : List (List ℕ) → Type 0
FitBlocks = All (λ m. length m < 2 ^ 16)

pub drop-at : (k : ℕ) (head tail : List ℕ) → length head ≡ k → drop k (head ++ tail) ≡ tail
drop-at k head tail h = rw (← h) (drop-append head tail)

take-at : (k : ℕ) (head tail : List ℕ) → length head ≡ k → take k (head ++ tail) ≡ head
take-at k head tail h = rw (← h) (take-append head tail)

pub drop-add : (i j : ℕ) (p q : List ℕ) → drop i p ≡ q → drop (i + j) p ≡ drop j q
drop-add i j p q h = sym (drop-drop (i + j) j i p refl) ∙ ap (drop j) h

pub length-drop-at : (i : ℕ) (p q : List ℕ) → drop i p ≡ q → i ≤ length p → length p ≡ i + length q
length-drop-at zero p q h le = omega (arith, ap length h)
length-drop-at (suc i) [] q h le = absurd (omega arith)
length-drop-at (suc i) (x ∷ p) q h le = omega (arith, length-drop-at i p q h (omega arith))

read_blocks-write_blocks :
    (ms : List (List ℕ)) (offset : ℕ) (raw : List ℕ)
    → FitBlocks ms
    → offset ≤ length raw
    → drop offset raw ≡ write_blocks ms
    → read_blocks (length ms) offset raw ≡ ok ms
unfolding read_blocks
read_blocks-write_blocks [] offset raw f le h = refl
read_blocks-write_blocks (m ∷ ms) offset raw f le h =
    let n = length-drop-at offset raw _ h le in
    let body : drop (offset + 2) raw ≡ m ++ write_blocks ms = drop-add offset 2 raw _ h in
    let rest : drop (offset + 2 + length m) raw ≡ write_blocks ms =
      drop-add (offset + 2) (length m) raw _ body ∙ drop-append m (write_blocks ms) in
    let size = length-append m (write_blocks ms) in
    let prefix = read_be16-write_be16 (length m) (m ++ write_blocks ms) f.0 in
    let later =
      read_blocks-write_blocks ms (offset + 2 + length m) raw f.1 (omega (arith, n, size)) rest in
    let header : ltb (length raw) (offset + 2) ≡ false = ground (arith, n, size) in
    let data_there : ltb (length raw) (offset + 2 + length m) ≡ false = ground (arith, n, size) in
    let shown : take (length m) (drop (offset + 2) raw) ≡ m =
      ap (take (length m)) body ∙ take-append m (write_blocks ms) in
    rw (header, h, prefix, data_there, later, shown)

length-write_blocks : (ms : List (List ℕ)) → length ms * 2 ≤ length (write_blocks ms)
length-write_blocks [] = omega arith
length-write_blocks (m ∷ ms) =
    omega (arith, length-write_blocks ms, length-append m (write_blocks ms))

FitBlocks-write_blocks : (ms : List (List ℕ)) → length (write_blocks ms) < 2 ^ 16 → FitBlocks ms
FitBlocks-write_blocks [] h = tt
FitBlocks-write_blocks (m ∷ ms) h =
    let size = length-append m (write_blocks ms) in
    (omega (arith, h, size), FitBlocks-write_blocks ms (omega (arith, h, size)))

take-short : (n : ℕ) (xs : List ℕ) → length xs ≤ n → take n xs ≡ xs
take-short zero [] h = refl
take-short zero (x ∷ xs) h = absurd (omega arith)
take-short (suc n) [] h = refl
take-short (suc n) (x ∷ xs) h = ap (◌∷◌ x) (take-short n xs (omega arith))

pub length-write_packet :
    (session : List ℕ) (seq : ℕ) (ms : List (List ℕ))
    → length (write_packet session seq ms) ≡ length session + 10 + length (write_blocks ms)
length-write_packet session seq ms =
    omega (arith, length-append session (write_be64 seq (write_be16 (length ms) (write_blocks ms))))

-- A packet with messages that continues the sequence, by what its blocks are read as.
pub read_packet-header :
    (session : List ℕ) (seq count : ℕ) (body : List ℕ) (got : List (List ℕ)) (r : UdpFeedReader)
    → length session ≡ 10
    → 0 < count
    → count < 65535
    → let raw = session ++ write_be64 seq (write_be16 count body) in
      (length raw ≡ 20 + length body → drop 20 raw ≡ body → read_blocks count 20 raw ≡ ok got)
      → seq + count < 2 ^ 64
      → r.expected_seq ≤ seq
      → r.gaps_detected + (seq - r.expected_seq) < 2 ^ 64
      → read_packet raw r
        ≡ ok (
          true,
          record r {
            gaps_detected = r.gaps_detected + (seq - r.expected_seq);
            expected_seq = seq + count;
            pending = r.pending ++ got;
          },
        )
unfolding read_packet accept
read_packet-header session seq count body got r s filled few reads fits order gap =
    let head = write_be64 seq (write_be16 count body) in
    let raw = session ++ head in
    let at_seq : drop 10 raw ≡ head = drop-at 10 session head s in
    let at_count : drop 18 raw ≡ write_be16 count body = drop-add 10 8 raw head at_seq in
    let at_blocks : drop 20 raw ≡ body = drop-add 10 10 raw head at_seq in
    let size : length raw ≡ 20 + length body = omega (arith, s, length-append session head) in
    let long : ltb (length raw) 20 ≡ false = ground (arith, size) in
    let seq_read = read_be64-write_be64 seq (write_be16 count body) (omega arith) in
    let count_read = read_be16-write_be16 count body (omega (arith, few)) in
    let blocks = reads size at_blocks in
    let no_heartbeat : (count == 65535) ≡ false = ground (arith, few) in
    let no_empty : (count == 0) ≡ false = ground arith in
    let in_order : ltb seq r.expected_seq ≡ false = ground arith in
    let next : (seq + count) % 2 ^ 64 ≡ seq + count = omega arith in
    let gaps : (if ltb r.expected_seq seq
          then (r.gaps_detected + (seq - r.expected_seq)) % 2 ^ 64
          else r.gaps_detected)
        ≡ r.gaps_detected + (seq - r.expected_seq) =
      ground arith in
    rw (
      long, at_seq, seq_read, at_count, count_read, no_heartbeat, no_empty, in_order, blocks, next,
      gaps,
    )

-- On a packet of at most 2048 bytes with at least one message, where no counter overflows and whose
-- sequence number is the expected one or a later one, `refill` appends all of its messages to
-- the pending ones in order, expects the number after the last of them next, and counts the numbers
-- that it skips as lost.
pub refill-write_packet :
    (session : List ℕ) (seq : ℕ) (ms : List (List ℕ)) (r : UdpFeedReader)
    → length session ≡ 10
    → 0 < length ms
    → length (write_packet session seq ms) ≤ 2048
    → seq + length ms < 2 ^ 64
    → r.expected_seq ≤ seq
    → r.gaps_detected + (seq - r.expected_seq) < 2 ^ 64
    → refill (datagram (write_packet session seq ms)) r
      ≡ ok (
        true,
        record r {
          gaps_detected = r.gaps_detected + (seq - r.expected_seq);
          expected_seq = seq + length ms;
          pending = r.pending ++ ms;
        },
      )
unfolding refill
refill-write_packet session seq ms r s filled short fits order gap =
    let size = length-write_packet session seq ms in
    let few = length-write_blocks ms in
    rw (take-short 2048 (write_packet session seq ms) short) (
      read_packet-header session seq (length ms) (write_blocks ms) ms r s filled
        (omega (arith, size, short, few))
        (λ n body.
          read_blocks-write_blocks ms 20 (write_packet session seq ms)
            (FitBlocks-write_blocks ms (omega (arith, size, short))) (omega (arith, n)) body)
        fits order gap)
