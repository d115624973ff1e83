-- ===== src/Wire.antt =====
-- include/itch/byte_order.h and `read_alpha` of src/parser.cpp: the readers of fixed-width fields.
-- A pointer into a buffer is the list of the bytes from it to the buffer's end, so `p + k` is
-- `drop k p`, and a read past the end is the error `out_of_bounds`.
pub mod Numbers
pub mod Alpha
pub mod Fields
use itch_parser.Prelude.{
  ℕ, suc, ◌*◌, ◌%◌, ◌^◌, bit_or, List, [], ◌∷◌, Option, none, some, get_elem?, take, drop, length,
  ltb, ◌==◌, if◌then◌else◌,
}
use itch_parser.Prelude.Result.{Result, ok, err, out_of_bounds, ◌>>=◌}

-- `p[i]`
abbrev pub byte : List ℕ → ℕ → Result ℕ
byte p i = elim (get_elem? p i) [ none ↦ err out_of_bounds | some c ↦ ok c ]

-- `x << k` of an unsigned type of w bits
abbrev pub shl : ℕ → ℕ → ℕ → ℕ
shl w x k = (x * 2 ^ k) % 2 ^ w

unfoldable pub read_be16 : List ℕ → Result ℕ
read_be16 p = do a ← byte p 0; b ← byte p 1; ok (bit_or (shl 32 a 8) b % 2 ^ 16)

unfoldable pub read_be32 : List ℕ → Result ℕ
read_be32 p = do
  a ← byte p 0
  b ← byte p 1
  c ← byte p 2
  d ← byte p 3
  ok (bit_or (bit_or (bit_or (shl 32 a 24) (shl 32 b 16)) (shl 32 c 8)) d)

unfoldable pub read_be48 : List ℕ → Result ℕ
read_be48 p = do
  a ← byte p 0
  b ← byte p 1
  c ← byte p 2
  d ← byte p 3
  e ← byte p 4
  f ← byte p 5
  let high = bit_or (bit_or (shl 64 a 40) (shl 64 b 32)) (shl 64 c 24)
  ok (bit_or (bit_or (bit_or high (shl 64 d 16)) (shl 64 e 8)) f)

unfoldable pub read_be64 : List ℕ → Result ℕ
read_be64 p = do
  a ← byte p 0
  b ← byte p 1
  c ← byte p 2
  d ← byte p 3
  e ← byte p 4
  f ← byte p 5
  g ← byte p 6
  h ← byte p 7
  let high = bit_or (bit_or (bit_or (shl 64 a 56) (shl 64 b 48)) (shl 64 c 40)) (shl 64 d 32)
  ok (bit_or (bit_or (bit_or (bit_or high (shl 64 e 24)) (shl 64 f 16)) (shl 64 g 8)) h)

-- `s.find_last_not_of(' ')`; `none` is `npos`.
unfoldable pub find_last_not_space : List ℕ → Option ℕ
find_last_not_space [] = none
find_last_not_space (c ∷ s) = elim (find_last_not_space s) [
  | some i ↦ some (suc i)
  | none ↦ if c == b' ' then none else some 0
]

-- `std::string s(p, len)` reads `len` bytes.
unfoldable pub read_alpha : List ℕ → ℕ → Result (List ℕ)
read_alpha p len =
    if ltb (length p) len
    then err out_of_bounds
    else let s = take len p in
      elim (find_last_not_space s) [ none ↦ ok [] | some last ↦ ok (take (suc last) s) ]
