-- ===== src/Wire/Fields.antt =====
-- A field of a buffer: its reader succeeds where the bytes are there, and the writer puts the
-- same bytes back. This is the other half of the round trip, for the bytes of a buffer.
use itch_parser.Prelude.{
  ℕ, zero, suc, ◌+◌, ◌*◌, ◌/◌, ◌%◌, ◌^◌, subst, ◌≤◌, ◌<◌, ◌≡◌, refl, List, [], ◌∷◌, arith, length,
  take, drop, All, length-drop,
}
use itch_parser.Prelude.Result.{Result, ok}
use itch_parser.Wire.Alpha.{write_alpha, read_alpha-strip, write_alpha-strip, strip}
use itch_parser.Wire.Numbers.{
  write_be16, write_be32, write_be48, write_be64, read_be16-bytes, read_be32-bytes, read_be48-bytes,
  read_be64-bytes,
}
use itch_parser.Wire.{byte, read_be16, read_be32, read_be48, read_be64, read_alpha}

-- The elements of a `std::vector<uint8_t>`.
abbrev pub IsBuffer : List ℕ → Type 0
IsBuffer = All (λ b. b < 256)

pub drop-drop {ℓ} : {A : Type ℓ} (i j k : ℕ) (p : List A) → k + j ≡ i → drop j (drop k p) ≡ drop i p
drop-drop i j zero p e = let same : j ≡ i = omega arith in rw same
drop-drop zero j (suc k) p e = absurd (omega arith)
drop-drop (suc i) zero (suc k) [] e = refl
drop-drop (suc i) (suc j) (suc k) [] e = refl
drop-drop (suc i) j (suc k) (x ∷ p) e = drop-drop i j k p (omega arith)

drop-IsBuffer : (k : ℕ) (p : List ℕ) → IsBuffer p → IsBuffer (drop k p)
drop-IsBuffer zero p b = b
drop-IsBuffer (suc k) [] b = b
drop-IsBuffer (suc k) (x ∷ p) b = drop-IsBuffer k p b.1

module _ {A : Type 0} (read : List ℕ → Result A) (write : A → List ℕ → List ℕ) (size : ℕ) where
  -- The field of `size` bytes at the start of a buffer.
  pub record Start (q : List ℕ) : Type 0 where
    pub value : A
    pub reads : read q ≡ ok value
    pub writes : write value (drop size q) ≡ q

  -- The field of `size` bytes at offset k.
  pub record Field (k : ℕ) (p : List ℕ) : Type 0 where
    pub value : A
    pub reads : read (drop k p) ≡ ok value
    pub writes : write value (drop (k + size) p) ≡ drop k p

module _ {A : Type 0} {read : List ℕ → Result A} {write : A → List ℕ → List ℕ} {size : ℕ} where
  at_offset :
      ((q : List ℕ) → size ≤ length q → IsBuffer q → Start read write size q)
      → (k : ℕ) (p : List ℕ) → k + size ≤ length p
      → IsBuffer p
      → Field read write size k p
  at_offset start k p h b =
      let long : size ≤ length (drop k p) = omega (arith, length-drop k p) in
      let f = start (drop k p) long (drop-IsBuffer k p b) in
      record {
        value = f.value;
        reads = f.reads;
        writes = subst (λ q. write f.value q ≡ drop k p) (drop-drop _ size k p refl) f.writes;
      }

be16-Start : (q : List ℕ) → 2 ≤ length q → IsBuffer q → Start read_be16 write_be16 2 q
be16-Start ([]) h b = absurd (omega arith)
be16-Start (s ∷ []) h b = absurd (omega arith)
be16-Start (s ∷ t ∷ q) h b =
    let n : ℕ = s * 256 + t in
    let s_kept : n / 2 ^ 8 ≡ s = omega arith in
    let t_kept : n % 2 ^ 8 ≡ t = omega arith in
    record {
      value = n;
      reads = read_be16-bytes s t 0 0 b.0 b.1.0 (omega arith) (omega arith) q;
      writes = rw (s_kept, t_kept);
    }

be32-Start : (q : List ℕ) → 4 ≤ length q → IsBuffer q → Start read_be32 write_be32 4 q
be32-Start ([]) h b = absurd (omega arith)
be32-Start (s ∷ []) h b = absurd (omega arith)
be32-Start (s ∷ t ∷ []) h b = absurd (omega arith)
be32-Start (s ∷ t ∷ u ∷ []) h b = absurd (omega arith)
be32-Start (s ∷ t ∷ u ∷ v ∷ q) h b =
    let n : ℕ = ((s * 256 + t) * 256 + u) * 256 + v in
    let s_kept : n / 2 ^ 16 / 2 ^ 8 ≡ s = omega arith in
    let t_kept : n / 2 ^ 16 % 2 ^ 8 ≡ t = omega arith in
    let u_kept : n % 2 ^ 16 / 2 ^ 8 ≡ u = omega arith in
    let v_kept : n % 2 ^ 16 % 2 ^ 8 ≡ v = omega arith in
    record {
      value = n;
      reads = read_be32-bytes s t u v b.0 b.1.0 b.1.1.0 b.1.1.1.0 q;
      writes = rw (s_kept, t_kept, u_kept, v_kept);
    }

be48-Start : (q : List ℕ) → 6 ≤ length q → IsBuffer q → Start read_be48 write_be48 6 q
be48-Start ([]) h b = absurd (omega arith)
be48-Start (s ∷ []) h b = absurd (omega arith)
be48-Start (s ∷ t ∷ []) h b = absurd (omega arith)
be48-Start (s ∷ t ∷ u ∷ []) h b = absurd (omega arith)
be48-Start (s ∷ t ∷ u ∷ v ∷ []) h b = absurd (omega arith)
be48-Start (s ∷ t ∷ u ∷ v ∷ w ∷ []) h b = absurd (omega arith)
be48-Start (s ∷ t ∷ u ∷ v ∷ w ∷ x ∷ q) h b =
    let n : ℕ = ((((s * 256 + t) * 256 + u) * 256 + v) * 256 + w) * 256 + x in
    let s_kept : n / 2 ^ 32 / 2 ^ 8 ≡ s = omega arith in
    let t_kept : n / 2 ^ 32 % 2 ^ 8 ≡ t = omega arith in
    let u_kept : n % 2 ^ 32 / 2 ^ 16 / 2 ^ 8 ≡ u = omega arith in
    let v_kept : n % 2 ^ 32 / 2 ^ 16 % 2 ^ 8 ≡ v = omega arith in
    let w_kept : n % 2 ^ 32 % 2 ^ 16 / 2 ^ 8 ≡ w = omega arith in
    let x_kept : n % 2 ^ 32 % 2 ^ 16 % 2 ^ 8 ≡ x = omega arith in
    record {
      value = n;
      reads = read_be48-bytes s t u v b.0 b.1.0 b.1.1.0 b.1.1.1.0 w x b.1.1.1.1.0 b.1.1.1.1.1.0 q;
      writes = rw (s_kept, t_kept, u_kept, v_kept, w_kept, x_kept);
    }

be64-Start : (q : List ℕ) → 8 ≤ length q → IsBuffer q → Start read_be64 write_be64 8 q
be64-Start ([]) h b = absurd (omega arith)
be64-Start (s ∷ []) h b = absurd (omega arith)
be64-Start (s ∷ t ∷ []) h b = absurd (omega arith)
be64-Start (s ∷ t ∷ u ∷ []) h b = absurd (omega arith)
be64-Start (s ∷ t ∷ u ∷ v ∷ []) h b = absurd (omega arith)
be64-Start (s ∷ t ∷ u ∷ v ∷ w ∷ []) h b = absurd (omega arith)
be64-Start (s ∷ t ∷ u ∷ v ∷ w ∷ x ∷ []) h b = absurd (omega arith)
be64-Start (s ∷ t ∷ u ∷ v ∷ w ∷ x ∷ y ∷ []) h b = absurd (omega arith)
be64-Start (s ∷ t ∷ u ∷ v ∷ w ∷ x ∷ y ∷ z ∷ q) h b =
    let n : ℕ =
      ((((((s * 256 + t) * 256 + u) * 256 + v) * 256 + w) * 256 + x) * 256 + y) * 256 + z in
    let s_kept : n / 2 ^ 32 / 2 ^ 16 / 2 ^ 8 ≡ s = omega arith in
    let t_kept : n / 2 ^ 32 / 2 ^ 16 % 2 ^ 8 ≡ t = omega arith in
    let u_kept : n / 2 ^ 32 % 2 ^ 16 / 2 ^ 8 ≡ u = omega arith in
    let v_kept : n / 2 ^ 32 % 2 ^ 16 % 2 ^ 8 ≡ v = omega arith in
    let w_kept : n % 2 ^ 32 / 2 ^ 16 / 2 ^ 8 ≡ w = omega arith in
    let x_kept : n % 2 ^ 32 / 2 ^ 16 % 2 ^ 8 ≡ x = omega arith in
    let y_kept : n % 2 ^ 32 % 2 ^ 16 / 2 ^ 8 ≡ y = omega arith in
    let z_kept : n % 2 ^ 32 % 2 ^ 16 % 2 ^ 8 ≡ z = omega arith in
    record {
      value = n;
      reads =
          read_be64-bytes s t u v b.0 b.1.0 b.1.1.0 b.1.1.1.0 w x b.1.1.1.1.0 b.1.1.1.1.1.0 y z
            b.1.1.1.1.1.1.0 b.1.1.1.1.1.1.1.0 q;
      writes = rw (s_kept, t_kept, u_kept, v_kept, w_kept, x_kept, y_kept, z_kept);
    }

pub be16_at :
    (k : ℕ) (p : List ℕ) → k + 2 ≤ length p → IsBuffer p → Field read_be16 write_be16 2 k p
be16_at = at_offset be16-Start

pub be32_at :
    (k : ℕ) (p : List ℕ) → k + 4 ≤ length p → IsBuffer p → Field read_be32 write_be32 4 k p
be32_at = at_offset be32-Start

pub be48_at :
    (k : ℕ) (p : List ℕ) → k + 6 ≤ length p → IsBuffer p → Field read_be48 write_be48 6 k p
be48_at = at_offset be48-Start

pub be64_at :
    (k : ℕ) (p : List ℕ) → k + 8 ≤ length p → IsBuffer p → Field read_be64 write_be64 8 k p
be64_at = at_offset be64-Start

alpha-Start :
    (n : ℕ) (q : List ℕ)
    → n ≤ length q
    → IsBuffer q
    → Start (λ r. read_alpha r n) (write_alpha n) n q
alpha-Start n q h b = record {
  value = strip (take n q);
  reads = read_alpha-strip q n h;
  writes = write_alpha-strip n q h;
}

pub alpha_at :
    (n k : ℕ) (p : List ℕ)
    → k + n ≤ length p
    → IsBuffer p
    → Field (λ r. read_alpha r n) (write_alpha n) n k p
alpha_at n = at_offset (alpha-Start n)

-- A field of one byte, which the sources read by an index.
pub record ByteField (k : ℕ) (p : List ℕ) : Type 0 where
  pub value : ℕ
  pub reads : byte p k ≡ ok value
  pub writes : value ∷ drop (suc k) p ≡ drop k p

pub byte_at : (k : ℕ) (p : List ℕ) → k < length p → ByteField k p
byte_at k [] h = absurd (omega arith)
byte_at zero (x ∷ p) h = record { value = x; reads = refl; writes = refl }
byte_at (suc k) (x ∷ p) h =
    let f = byte_at k p (omega arith) in
    record { value = f.value; reads = f.reads; writes = f.writes }
