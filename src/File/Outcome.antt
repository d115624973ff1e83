-- ===== src/File/Outcome.antt =====
-- What `next_message` gives on a regular file whose contents are any bytes.
use itch_parser.File.Frames.{
  RegularFile, next_message-frame, next_message-end, next_message-truncated, next_message-cut,
  next_message-zero_length, next_message-prefix,
}
use itch_parser.File.{next_message}
use itch_parser.Prelude.Result.{Failure, ok, err, runtime_error}
use itch_parser.Prelude.{
  ℕ, zero, suc, ◌+◌, ◌*◌, ◌/◌, ◌%◌, ◌^◌, ◌≤◌, ◌<◌, ◌≡◌, refl, ap, List, [], ◌∷◌, ◌++◌, none, some,
  arith, length, replicate, take, drop, length-take, length-drop, take-append-drop, inl, inr,
  Bool-cases, ==_iff, ltb, ◌==◌,
}
use itch_parser.Wire.Fields.{IsBuffer}
use itch_parser.Wire.Numbers.{write_be16}

take-IsBuffer : (n : ℕ) (p : List ℕ) → IsBuffer p → IsBuffer (take n p)
take-IsBuffer zero p b = tt
take-IsBuffer (suc n) [] b = tt
take-IsBuffer (suc n) (x ∷ p) b = (b.0, take-IsBuffer n p b.1)

drop-IsBuffer : (n : ℕ) (p : List ℕ) → IsBuffer p → IsBuffer (drop n p)
drop-IsBuffer zero p b = b
drop-IsBuffer (suc n) [] b = tt
drop-IsBuffer (suc n) (x ∷ p) b = drop-IsBuffer n p b.1

replicate-IsBuffer : (n : ℕ) → IsBuffer (replicate n 0)
replicate-IsBuffer zero = tt
replicate-IsBuffer (suc n) = (omega arith, replicate-IsBuffer n)

module _ {F : Type 0} (file : RegularFile F) where
  -- The end, an exception, or a buffer and a file that is shorter by its prefix at least.
  pub data NextOutcome (fd : F) : Type 0 where
    ended : (fd' : F) → next_message file.read fd ≡ ok (none, fd') → NextOutcome fd
    failing : (f : Failure) → next_message file.read fd ≡ err (runtime_error f) → NextOutcome fd
    framed :
        (buf : List ℕ) (fd' : F)
        → next_message file.read fd ≡ ok (some buf, fd')
        → IsBuffer buf
        → IsBuffer (file.contents fd')
        → length (file.contents fd') + 2 ≤ length (file.contents fd)
        → NextOutcome fd

  cut_frame :
      (fd : F) (n : ℕ) (body : List ℕ)
      → 0 < n
      → n < 2 ^ 16
      → length body < n
      → file.contents fd ≡ write_be16 n body
      → NextOutcome fd
  cut_frame fd n [] positive fits short h =
      let (fd', run, after) = next_message-cut file fd n positive fits h in
      framed (replicate n 0) fd' run (replicate-IsBuffer n) (rw after tt)
        (rw (after, h) (omega arith))
  cut_frame fd n (x ∷ xs) positive fits short h =
      elim (next_message-truncated file fd n (x ∷ xs) positive fits short h) [
        | inl (some_left, run) ↦ failing _ run
        | inr (nothing, fd', run) ↦ absurd (omega (arith, ap length nothing))
      ]

  whole_frame :
      (fd : F) (n : ℕ) (body : List ℕ)
      → 0 < n
      → n < 2 ^ 16
      → n ≤ length body
      → IsBuffer body
      → file.contents fd ≡ write_be16 n body
      → NextOutcome fd
  whole_frame fd n body positive fits long b h =
      let size : length (take n body) ≡ n = omega (arith, length-take n body) in
      let framing : file.contents fd
          ≡ write_be16 (length (take n body)) (take n body ++ drop n body) =
        rw (size, take-append-drop n body) h in
      let (fd', run, after) =
        next_message-frame file fd (take n body) (drop n body) (omega arith) (omega arith)
          framing in
      framed (take n body) fd' run (take-IsBuffer n body b) (rw after (drop-IsBuffer n body b))
        (rw (after, h) (omega (arith, length-drop n body)))

  outcome_of :
      (fd : F) (contents : List ℕ)
      → file.contents fd ≡ contents
      → IsBuffer contents
      → NextOutcome fd
  outcome_of fd [] h b = ended fd (next_message-end file fd h)
  outcome_of fd (x ∷ []) h b = failing _ (next_message-prefix file fd x h)
  outcome_of fd (x ∷ y ∷ body) h b =
      let n = x * 2 ^ 8 + y in
      let high : n / 2 ^ 8 ≡ x = omega (arith, b.1.0) in
      let low : n % 2 ^ 8 ≡ y = omega (arith, b.1.0) in
      let prefix : file.contents fd ≡ write_be16 n body = rw (high, low) h in
      let fits : n < 2 ^ 16 = omega (arith, b.0, b.1.0) in
      elim (Bool-cases (n == 0)) [
        | inl empty ↦
            let z : n ≡ 0 = (==_iff n 0).0 empty in
            failing _ (next_message-zero_length file fd body (rw z at prefix))
        | inr filled ↦
            let positive : 0 < n = ground (arith, filled) in
            elim (Bool-cases (ltb (length body) n)) [
              | inl short ↦ cut_frame fd n body positive fits (ground arith) prefix
              | inr long ↦ whole_frame fd n body positive fits (ground arith) b.1.1 prefix
            ]
      ]

  pub next_message-NextOutcome : (fd : F) → IsBuffer (file.contents fd) → NextOutcome fd
  next_message-NextOutcome fd b = outcome_of fd (file.contents fd) refl b
