-- ===== src/Bench/Buffers/Writes.antt =====
-- The buffers of bench/bench_parser.cpp against the wire format.
use itch_parser.Bench.Buffers.{
  put, shifted_byte, be16_bytes, be32_bytes, be48_bytes, be64_bytes, write_be16, write_be32,
  write_be48, write_be64,
}
use itch_parser.Ladder.{set_at}
use itch_parser.Prelude.{
  ℕ, zero, suc, ◌+◌, ◌/◌, ◌%◌, ◌^◌, ◌≤◌, ◌<◌, ◌≡◌, refl, ap, ◌∙◌, List, [], ◌∷◌, ◌++◌, take, drop,
  length, arith,
}
use itch_parser.Wire.Numbers

put_later : (xs : List ℕ) (o y : ℕ) (b : List ℕ) → put xs (suc o) (y ∷ b) ≡ y ∷ put xs o b
put_later [] o y b = refl
put_later (x ∷ xs) o y b =
    ap (λ i. put xs i (y ∷ set_at o x b)) {x = suc o + 1} {y = suc (o + 1)} (omega arith)
    ∙ put_later xs (o + 1) y (set_at o x b)

put_first : (xs b : List ℕ) → length xs ≤ length b → put xs 0 b ≡ xs ++ drop (length xs) b
put_first [] b h = refl
put_first (x ∷ xs) [] h = absurd (omega arith)
put_first (x ∷ xs) (y ∷ b) h = put_later xs 0 x b ∙ ap (◌∷◌ x) (put_first xs b (omega arith))

-- The assignments replace the bytes that they name and leave the others.
put_lem :
    (xs : List ℕ) (o : ℕ) (b : List ℕ)
    → o + length xs ≤ length b
    → put xs o b ≡ take o b ++ (xs ++ drop (o + length xs) b)
put_lem xs zero b h = put_first xs b (omega arith) ∙ ap (λ n. xs ++ drop n b) (omega arith)
put_lem xs (suc o) [] h = absurd (omega arith)
put_lem xs (suc o) (y ∷ b) h =
    put_later xs o y b
    ∙ ap (◌∷◌ y) (put_lem xs o b (omega arith))
    ∙ ap (λ n. y ∷ (take o b ++ (xs ++ drop n (y ∷ b)))) {x = suc (o + length xs)}
        {y = suc o + length xs} (omega arith)

be16_bytes_lem :
    (v : ℕ) (rest : List ℕ) → v < 2 ^ 16 → be16_bytes v ++ rest ≡ Numbers.write_be16 v rest
be16_bytes_lem v rest h =
    let e0 : shifted_byte 8 v ≡ v / 2 ^ 8 = omega arith in
    let e1 : shifted_byte 0 v ≡ v % 2 ^ 8 = omega arith in cc (e0, e1)

be32_bytes_lem :
    (v : ℕ) (rest : List ℕ) → v < 2 ^ 32 → be32_bytes v ++ rest ≡ Numbers.write_be32 v rest
be32_bytes_lem v rest h =
    let e0 : shifted_byte 24 v ≡ (v / 2 ^ 16) / 2 ^ 8 = omega arith in
    let e1 : shifted_byte 16 v ≡ (v / 2 ^ 16) % 2 ^ 8 = omega arith in
    let e2 : shifted_byte 8 v ≡ (v % 2 ^ 16) / 2 ^ 8 = omega arith in
    let e3 : shifted_byte 0 v ≡ (v % 2 ^ 16) % 2 ^ 8 = omega arith in cc (e0, e1, e2, e3)

be48_bytes_lem :
    (v : ℕ) (rest : List ℕ) → v < 2 ^ 48 → be48_bytes v ++ rest ≡ Numbers.write_be48 v rest
be48_bytes_lem v rest h =
    let e0 : shifted_byte 40 v ≡ (v / 2 ^ 32) / 2 ^ 8 = omega arith in
    let e1 : shifted_byte 32 v ≡ (v / 2 ^ 32) % 2 ^ 8 = omega arith in
    let e2 : shifted_byte 24 v ≡ ((v % 2 ^ 32) / 2 ^ 16) / 2 ^ 8 = omega arith in
    let e3 : shifted_byte 16 v ≡ ((v % 2 ^ 32) / 2 ^ 16) % 2 ^ 8 = omega arith in
    let e4 : shifted_byte 8 v ≡ ((v % 2 ^ 32) % 2 ^ 16) / 2 ^ 8 = omega arith in
    let e5 : shifted_byte 0 v ≡ ((v % 2 ^ 32) % 2 ^ 16) % 2 ^ 8 = omega arith in
    cc (e0, e1, e2, e3, e4, e5)

be64_bytes_lem :
    (v : ℕ) (rest : List ℕ) → v < 2 ^ 64 → be64_bytes v ++ rest ≡ Numbers.write_be64 v rest
be64_bytes_lem v rest h =
    let e0 : shifted_byte 56 v ≡ ((v / 2 ^ 32) / 2 ^ 16) / 2 ^ 8 = omega arith in
    let e1 : shifted_byte 48 v ≡ ((v / 2 ^ 32) / 2 ^ 16) % 2 ^ 8 = omega arith in
    let e2 : shifted_byte 40 v ≡ ((v / 2 ^ 32) % 2 ^ 16) / 2 ^ 8 = omega arith in
    let e3 : shifted_byte 32 v ≡ ((v / 2 ^ 32) % 2 ^ 16) % 2 ^ 8 = omega arith in
    let e4 : shifted_byte 24 v ≡ ((v % 2 ^ 32) / 2 ^ 16) / 2 ^ 8 = omega arith in
    let e5 : shifted_byte 16 v ≡ ((v % 2 ^ 32) / 2 ^ 16) % 2 ^ 8 = omega arith in
    let e6 : shifted_byte 8 v ≡ ((v % 2 ^ 32) % 2 ^ 16) / 2 ^ 8 = omega arith in
    let e7 : shifted_byte 0 v ≡ ((v % 2 ^ 32) % 2 ^ 16) % 2 ^ 8 = omega arith in
    cc (e0, e1, e2, e3, e4, e5, e6, e7)

-- Each of the four writers puts the big-endian bytes of a number of its width, as the wire format
-- has them, at the offset, where they fit in the buffer, and leaves every other byte as it is.
pub write_be_lem :
    (b : List ℕ) (o v : ℕ)
    → (o + 2 ≤ length b
        → v < 2 ^ 16
        → write_be16 b o v ≡ take o b ++ Numbers.write_be16 v (drop (o + 2) b))
      × (o + 4 ≤ length b
          → v < 2 ^ 32
          → write_be32 b o v ≡ take o b ++ Numbers.write_be32 v (drop (o + 4) b))
      × (o + 6 ≤ length b
          → v < 2 ^ 48
          → write_be48 b o v ≡ take o b ++ Numbers.write_be48 v (drop (o + 6) b))
      × (o + 8 ≤ length b
          → v < 2 ^ 64
          → write_be64 b o v ≡ take o b ++ Numbers.write_be64 v (drop (o + 8) b))
unfolding write_be16 write_be32 write_be48 write_be64
write_be_lem b o v = (
  λ h f.
      put_lem (be16_bytes v) o b h ∙ ap (λ n. take o b ++ n) (be16_bytes_lem v (drop (o + 2) b) f),
  λ h f.
      put_lem (be32_bytes v) o b h ∙ ap (λ n. take o b ++ n) (be32_bytes_lem v (drop (o + 4) b) f),
  λ h f.
      put_lem (be48_bytes v) o b h ∙ ap (λ n. take o b ++ n) (be48_bytes_lem v (drop (o + 6) b) f),
  λ h f.
      put_lem (be64_bytes v) o b h ∙ ap (λ n. take o b ++ n) (be64_bytes_lem v (drop (o + 8) b) f),
)
