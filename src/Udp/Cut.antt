-- ===== src/Udp/Cut.antt =====
-- `refill` on packets that are longer than its buffer.
use itch_parser.Prelude.{
  ℕ, zero, suc, ◌+◌, ◌-◌, ◌^◌, ◌≤◌, ◌<◌, ◌≡◌, refl, ap, ◌∙◌, true, false, List, [], ◌∷◌, ◌++◌, inl,
  inr, Bool-cases, ltb, arith, if◌then◌else◌, length, take, drop, length-append, drop-append,
  take-append,
}
use itch_parser.Prelude.Result.{ok}
use itch_parser.Udp.Packets.{write_blocks, write_packet, FitBlocks, drop-add, read_packet-header}
use itch_parser.Udp.{datagram, UdpFeedReader, read_blocks, refill}
use itch_parser.Wire.Numbers.{write_be16, write_be64, read_be16-write_be16}

-- The messages whose blocks lie in the first `room` bytes.
abbrev pub fitting : ℕ → List (List ℕ) → List (List ℕ)
fitting room [] = []
fitting room (m ∷ ms) =
    let rest = fitting (room - (2 + length m)) ms in
    if ltb room (2 + length m) then [] else m ∷ rest

take-append_add : (k : ℕ) (xs ys : List ℕ) → take (length xs + k) (xs ++ ys) ≡ xs ++ take k ys
take-append_add k [] ys = ap (λ n. take n ys) (omega arith)
take-append_add k (x ∷ xs) ys =
    let e : length (x ∷ xs) + k ≡ suc (length xs + k) = omega arith in
    ap (λ n. take n (x ∷ xs ++ ys)) e ∙ ap (◌∷◌ x) (take-append_add k xs ys)

length-take_whole : (n : ℕ) (xs : List ℕ) → n ≤ length xs → length (take n xs) ≡ n
length-take_whole zero [] h = refl
length-take_whole zero (x ∷ xs) h = refl
length-take_whole (suc n) [] h = absurd (omega arith)
length-take_whole (suc n) (x ∷ xs) h = omega (arith, length-take_whole n xs (omega arith))

read_blocks-take :
    (ms : List (List ℕ)) (offset room : ℕ) (raw : List ℕ)
    → FitBlocks ms
    → length raw ≡ offset + room
    → room ≤ length (write_blocks ms)
    → drop offset raw ≡ take room (write_blocks ms)
    → read_blocks (length ms) offset raw ≡ ok (fitting room ms)
unfolding read_blocks
read_blocks-take [] offset room raw f size few h = refl
read_blocks-take (m ∷ ms) offset zero raw f size few h =
    let short : ltb (length raw) (offset + 2) ≡ true = ground (arith, size) in
    let over : ltb 0 (2 + length m) ≡ true = ground arith in rw (short, over) refl
read_blocks-take (m ∷ ms) offset (suc zero) raw f size few h =
    let short : ltb (length raw) (offset + 2) ≡ true = ground (arith, size) in
    let over : ltb 1 (2 + length m) ≡ true = ground arith in rw (short, over) refl
read_blocks-take (m ∷ ms) offset (suc (suc k)) raw f size few h =
    let header : ltb (length raw) (offset + 2) ≡ false = ground (arith, size) in
    let prefix = read_be16-write_be16 (length m) (take k (m ++ write_blocks ms)) f.0 in
    elim (Bool-cases (ltb (suc (suc k)) (2 + length m))) [
      | inl over ↦
          let cut : ltb (length raw) (offset + 2 + length m) ≡ true = ground (arith, size, over) in
          rw (header, h, prefix, cut, over) refl
      | inr fits ↦
          let left = k - length m in
          let k' : k ≡ length m + left = ground (arith, fits) in
          let there : ltb (length raw) (offset + 2 + length m) ≡ false =
            ground (arith, size, fits) in
          let body : drop (offset + 2) raw ≡ m ++ take left (write_blocks ms) =
            drop-add offset 2 raw _ h
            ∙ ap (λ n. take n (m ++ write_blocks ms)) k'
            ∙ take-append_add left m (write_blocks ms) in
          let rest : drop (offset + 2 + length m) raw ≡ take left (write_blocks ms) =
            drop-add (offset + 2) (length m) raw _ body
            ∙ drop-append m (take left (write_blocks ms)) in
          let shown : take (length m) (drop (offset + 2) raw) ≡ m =
            ap (take (length m)) body ∙ take-append m (take left (write_blocks ms)) in
          let all = length-append m (write_blocks ms) in
          let later =
            read_blocks-take ms (offset + 2 + length m) left raw f.1 (omega (arith, size, k'))
              (omega (arith, few, all, k')) rest in
          let same : suc (suc k) - (2 + length m) ≡ left = omega arith in
          rw (header, h, prefix, there, later, shown, fits, same) refl
    ]

take-write_packet :
    (session : List ℕ) (seq : ℕ) (ms : List (List ℕ))
    → length session ≡ 10
    → take 2048 (write_packet session seq ms)
      ≡ session ++ write_be64 seq (write_be16 (length ms) (take 2028 (write_blocks ms)))
take-write_packet session seq ms s =
    let tail = write_be64 seq (write_be16 (length ms) (write_blocks ms)) in
    let e : 2048 ≡ length session + 2038 = omega (arith, s) in
    ap (λ n. take n (session ++ tail)) e ∙ take-append_add 2038 session tail

-- On a packet of more than 2048 bytes, with 1 to 65534 messages of less than 2 ^ 16 bytes, where no
-- counter overflows and whose sequence number is the expected one or a later one, `refill` appends
-- only the messages whose blocks lie whole in the first 2048 bytes; but it expects the number after
-- the last of all its messages next, and counts as lost only the numbers before the packet.
pub refill-long_packet :
    (session : List ℕ) (seq : ℕ) (ms : List (List ℕ)) (r : UdpFeedReader)
    → length session ≡ 10
    → length ms < 65535
    → FitBlocks ms
    → 2028 < length (write_blocks ms)
    → seq + length ms < 2 ^ 64
    → r.expected_seq ≤ seq
    → r.gaps_detected + (seq - r.expected_seq) < 2 ^ 64
    → refill (datagram (write_packet session seq ms)) r
      ≡ ok (
        true,
        record r {
          gaps_detected = r.gaps_detected + (seq - r.expected_seq);
          expected_seq = seq + length ms;
          pending = r.pending ++ fitting 2028 ms;
        },
      )
unfolding refill
refill-long_packet session seq [] r s few f long fits order gap = absurd (omega (arith, long))
refill-long_packet session seq (m ∷ ms) r s few f long fits order gap =
    let blocks = write_blocks (m ∷ ms) in
    let kept = length-take_whole 2028 blocks (omega (arith, long)) in
    rw (take-write_packet session seq (m ∷ ms) s) (
      read_packet-header session seq (length (m ∷ ms)) (take 2028 blocks) (fitting 2028 (m ∷ ms)) r
        s (omega arith) few
        (λ n body.
          read_blocks-take (m ∷ ms) 20 2028 _ f (omega (arith, n, kept)) (omega (arith, long)) body)
        fits order gap)
