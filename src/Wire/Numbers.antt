-- ===== src/Wire/Numbers.antt =====
-- The big-endian readers of include/itch/byte_order.h against the base-256 value of their bytes,
-- and against the writers of the wire format.
use itch_parser.Prelude.{
  ℕ, ◌+◌, ◌*◌, ◌/◌, ◌%◌, ◌^◌, ◌<◌, ◌≡◌, refl, ap, ◌∙◌, List, ◌∷◌, bit_or, arith, bit_or_disjoint,
}
use native.Mathlib.Nat.{mod-eq_of_lt}
use itch_parser.Prelude.Result.{ok}
use itch_parser.Wire.{shl, read_be16, read_be32, read_be48, read_be64}

-- The writers: the wire format's own description, most significant byte first.
abbrev pub write_be16 : ℕ → List ℕ → List ℕ
write_be16 n rest = (n / 2 ^ 8) ∷ (n % 2 ^ 8) ∷ rest

abbrev pub write_be32 : ℕ → List ℕ → List ℕ
write_be32 n rest = write_be16 (n / 2 ^ 16) (write_be16 (n % 2 ^ 16) rest)

abbrev pub write_be48 : ℕ → List ℕ → List ℕ
write_be48 n rest = write_be16 (n / 2 ^ 32) (write_be32 (n % 2 ^ 32) rest)

abbrev pub write_be64 : ℕ → List ℕ → List ℕ
write_be64 n rest = write_be32 (n / 2 ^ 32) (write_be32 (n % 2 ^ 32) rest)

shl_small : (w x k : ℕ) → x * 2 ^ k < 2 ^ w → shl w x k ≡ x * 2 ^ k
shl_small w x k h = mod-eq_of_lt h

-- One more byte below those that are in place.
join_byte :
    (j k x y : ℕ)
    → 2 ^ j ≡ 2 ^ k * 256
    → 0 < 2 ^ k
    → y < 256
    → bit_or (x * 2 ^ j) (y * 2 ^ k) ≡ (x * 256 + y) * 2 ^ k
join_byte j k x y e pos h =
    bit_or_disjoint j x (y * 2 ^ k) (rw e (grind arith)) ∙ rw e (omega arith)

module _ (a b c d : ℕ) (ha : a < 256) (hb : b < 256) (hc : c < 256) (hd : d < 256) where
  pub read_be16-bytes : (p : List ℕ) → read_be16 (a ∷ b ∷ p) ≡ ok (a * 256 + b)
  unfolding read_be16
  read_be16-bytes p =
      let value : bit_or (shl 32 a 8) b ≡ a * 256 + b =
        rw (shl_small 32 a 8 (omega arith)) (bit_or_disjoint 8 a b hb) in
      rw value (ap ok (omega arith))

  pub read_be32-bytes :
      (p : List ℕ) → read_be32 (a ∷ b ∷ c ∷ d ∷ p) ≡ ok (((a * 256 + b) * 256 + c) * 256 + d)
  unfolding read_be32
  read_be32-bytes p = rw (
    shl_small 32 a 24 (omega arith),
    shl_small 32 b 16 (omega arith),
    shl_small 32 c 8 (omega arith),
    join_byte 24 16 a b refl (omega arith) hb,
    join_byte 16 8 (a * 256 + b) c refl (omega arith) hc,
    bit_or_disjoint 8 ((a * 256 + b) * 256 + c) d hd,
  )

  module _ (e f : ℕ) (he : e < 256) (hf : f < 256) where
    pub read_be48-bytes :
        (p : List ℕ)
        → read_be48 (a ∷ b ∷ c ∷ d ∷ e ∷ f ∷ p)
          ≡ ok (((((a * 256 + b) * 256 + c) * 256 + d) * 256 + e) * 256 + f)
    unfolding read_be48
    read_be48-bytes p = rw (
      shl_small 64 a 40 (omega arith),
      shl_small 64 b 32 (omega arith),
      shl_small 64 c 24 (omega arith),
      shl_small 64 d 16 (omega arith),
      shl_small 64 e 8 (omega arith),
      join_byte 40 32 a b refl (omega arith) hb,
      join_byte 32 24 (a * 256 + b) c refl (omega arith) hc,
      join_byte 24 16 ((a * 256 + b) * 256 + c) d refl (omega arith) hd,
      join_byte 16 8 (((a * 256 + b) * 256 + c) * 256 + d) e refl (omega arith) he,
      bit_or_disjoint 8 ((((a * 256 + b) * 256 + c) * 256 + d) * 256 + e) f hf,
    )

    module _ (g h : ℕ) (hg : g < 256) (hh : h < 256) where
      pub read_be64-bytes :
          (p : List ℕ)
          → read_be64 (a ∷ b ∷ c ∷ d ∷ e ∷ f ∷ g ∷ h ∷ p)
            ≡ ok (
                ((((((a * 256 + b) * 256 + c) * 256 + d) * 256 + e) * 256 + f) * 256 + g) * 256 + h)
      unfolding read_be64
      read_be64-bytes p = rw (
        shl_small 64 a 56 (omega arith),
        shl_small 64 b 48 (omega arith),
        shl_small 64 c 40 (omega arith),
        shl_small 64 d 32 (omega arith),
        shl_small 64 e 24 (omega arith),
        shl_small 64 f 16 (omega arith),
        shl_small 64 g 8 (omega arith),
        join_byte 56 48 a b refl (omega arith) hb,
        join_byte 48 40 (a * 256 + b) c refl (omega arith) hc,
        join_byte 40 32 ((a * 256 + b) * 256 + c) d refl (omega arith) hd,
        join_byte 32 24 (((a * 256 + b) * 256 + c) * 256 + d) e refl (omega arith) he,
        join_byte 24 16 ((((a * 256 + b) * 256 + c) * 256 + d) * 256 + e) f refl (omega arith) hf,
        join_byte 16 8 (((((a * 256 + b) * 256 + c) * 256 + d) * 256 + e) * 256 + f) g refl
            (omega arith) hg,
        bit_or_disjoint 8 ((((((a * 256 + b) * 256 + c) * 256 + d) * 256 + e) * 256 + f) * 256 + g)
            h hh,
      )

-- A reader gives back what the writer of its width wrote, for every number of that width.
pub read_be16-write_be16 : (n : ℕ) (p : List ℕ) → n < 2 ^ 16 → read_be16 (write_be16 n p) ≡ ok n
read_be16-write_be16 n p h =
    read_be16-bytes (n / 2 ^ 8) (n % 2 ^ 8) 0 0 (omega arith) (omega arith) (omega arith)
      (omega arith) p
    ∙ ap ok (omega arith)

pub read_be32-write_be32 : (n : ℕ) (p : List ℕ) → n < 2 ^ 32 → read_be32 (write_be32 n p) ≡ ok n
read_be32-write_be32 n p h =
    read_be32-bytes (n / 2 ^ 16 / 2 ^ 8) (n / 2 ^ 16 % 2 ^ 8) (n % 2 ^ 16 / 2 ^ 8)
      (n % 2 ^ 16 % 2 ^ 8) (omega arith) (omega arith) (omega arith) (omega arith) p
    ∙ ap ok (omega arith)

pub read_be48-write_be48 : (n : ℕ) (p : List ℕ) → n < 2 ^ 48 → read_be48 (write_be48 n p) ≡ ok n
read_be48-write_be48 n p h =
    read_be48-bytes (n / 2 ^ 32 / 2 ^ 8) (n / 2 ^ 32 % 2 ^ 8) (n % 2 ^ 32 / 2 ^ 16 / 2 ^ 8)
      (n % 2 ^ 32 / 2 ^ 16 % 2 ^ 8) (omega arith) (omega arith) (omega arith) (omega arith)
      (n % 2 ^ 32 % 2 ^ 16 / 2 ^ 8) (n % 2 ^ 32 % 2 ^ 16 % 2 ^ 8) (omega arith) (omega arith) p
    ∙ ap ok (omega arith)

pub read_be64-write_be64 : (n : ℕ) (p : List ℕ) → n < 2 ^ 64 → read_be64 (write_be64 n p) ≡ ok n
read_be64-write_be64 n p h =
    read_be64-bytes (n / 2 ^ 32 / 2 ^ 16 / 2 ^ 8) (n / 2 ^ 32 / 2 ^ 16 % 2 ^ 8)
      (n / 2 ^ 32 % 2 ^ 16 / 2 ^ 8) (n / 2 ^ 32 % 2 ^ 16 % 2 ^ 8) (omega arith) (omega arith)
      (omega arith) (omega arith) (n % 2 ^ 32 / 2 ^ 16 / 2 ^ 8) (n % 2 ^ 32 / 2 ^ 16 % 2 ^ 8)
      (omega arith) (omega arith) (n % 2 ^ 32 % 2 ^ 16 / 2 ^ 8) (n % 2 ^ 32 % 2 ^ 16 % 2 ^ 8)
      (omega arith) (omega arith) p
    ∙ ap ok (omega arith)
