-- ===== src/Bench/Buffers.antt =====
-- bench/bench_parser.cpp: the buffers that it parses. `b[i] = x` is a write of a list's element; the
-- writes stay within the buffers.
pub mod Writes
use itch_parser.Ladder.{set_at}
use itch_parser.Messages.{ParsedMessage}
use itch_parser.Parser.{parse}
use itch_parser.Prelude.Result.{Result}
use itch_parser.Prelude.{ℕ, zero, suc, ◌+◌, ◌/◌, ◌%◌, ◌^◌, List, [], ◌∷◌, Option, replicate, codes}

-- Assignments to elements one after another, from an offset on.
abbrev pub put : List ℕ → ℕ → List ℕ → List ℕ
put [] o b = b
put (x ∷ xs) o b = put xs (o + 1) (set_at o x b)

-- `(v >> k) & 0xFF`
abbrev pub shifted_byte : ℕ → ℕ → ℕ
shifted_byte k v = v / 2 ^ k % 256

abbrev pub be16_bytes : ℕ → List ℕ
be16_bytes v = shifted_byte 8 v ∷ shifted_byte 0 v ∷ []

abbrev pub be32_bytes : ℕ → List ℕ
be32_bytes v = shifted_byte 24 v ∷ shifted_byte 16 v ∷ shifted_byte 8 v ∷ shifted_byte 0 v ∷ []

abbrev pub be48_bytes : ℕ → List ℕ
be48_bytes v =
    shifted_byte 40 v
    ∷ shifted_byte 32 v
    ∷ shifted_byte 24 v
    ∷ shifted_byte 16 v
    ∷ shifted_byte 8 v
    ∷ shifted_byte 0 v
    ∷ []

abbrev pub be64_bytes : ℕ → List ℕ
be64_bytes v =
    shifted_byte 56 v
    ∷ shifted_byte 48 v
    ∷ shifted_byte 40 v
    ∷ shifted_byte 32 v
    ∷ shifted_byte 24 v
    ∷ shifted_byte 16 v
    ∷ shifted_byte 8 v
    ∷ shifted_byte 0 v
    ∷ []

unfoldable pub write_be16 : List ℕ → ℕ → ℕ → List ℕ
write_be16 b o v = put (be16_bytes v) o b

unfoldable pub write_be32 : List ℕ → ℕ → ℕ → List ℕ
write_be32 b o v = put (be32_bytes v) o b

unfoldable pub write_be48 : List ℕ → ℕ → ℕ → List ℕ
write_be48 b o v = put (be48_bytes v) o b

unfoldable pub write_be64 : List ℕ → ℕ → ℕ → List ℕ
write_be64 b o v = put (be64_bytes v) o b

-- The type, the locate 1, the tracking number 0 and the timestamp.
unfoldable pub header : ℕ → ℕ → ℕ → List ℕ
unfolding write_be16 write_be48
header size type timestamp =
    write_be48 (write_be16 (write_be16 (set_at 0 type (replicate size 0)) 1 1) 3 0) 5 timestamp

unfoldable pub make_add_order : List ℕ
unfolding header write_be32 write_be64
make_add_order =
    let buf = set_at 19 b'B' (write_be64 (header 36 b'A' 34200000000000) 11 123456789) in
    let named = put (codes "AAPL    ") 24 (write_be32 buf 20 100) in write_be32 named 32 1894200

unfoldable pub make_order_delete : List ℕ
unfolding header write_be64
make_order_delete = write_be64 (header 19 b'D' 34200000000001) 11 123456789

unfoldable pub make_order_replace : List ℕ
unfolding header write_be32 write_be64
make_order_replace =
    let buf = write_be64 (write_be64 (header 35 b'U' 34200000000002) 11 111111111) 19 222222222 in
    write_be32 (write_be32 buf 27 200) 31 1894300

abbrev pub make_unknown : List ℕ
make_unknown = set_at 0 255 (replicate 10 0)

-- What the iterations of a benchmark on a buffer return.
unfoldable pub bm_parse : List ℕ → ℕ → List (Result (Option ParsedMessage))
bm_parse buf zero = []
bm_parse buf (suc n) = parse buf ∷ bm_parse buf n
