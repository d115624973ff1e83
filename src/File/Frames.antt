-- ===== src/File/Frames.antt =====
-- `next_message` on a file whose contents are known.
use itch_parser.File.{Read, stored, read_exact, read_frame, next_message}
use itch_parser.Prelude.Result.{
  ok, err, runtime_error, truncated_read, zero_length_frame, truncated_frame,
}
use itch_parser.Prelude.{
  ℕ, zero, suc, ◌+◌, ◌-◌, ◌/◌, ◌%◌, ◌^◌, ◌≤◌, ◌<◌, ◌≡◌, refl, ap, ◌∙◌, true, false, List, [], ◌∷◌,
  ◌++◌, none, some, arith, length, replicate, ltb, ◌==◌, length-append, append_assoc, append-nil,
  bit_or, inl, inr, ◌⊎◌,
}
use itch_parser.Wire.Numbers.{write_be16, read_be16-write_be16}
use itch_parser.Wire.{read_be16, shl}

-- What POSIX promises of `read` on a regular file where no error occurs: at the end it stores
-- nothing, and elsewhere at least one and at most n bytes, the next ones.
pub record RegularFile (F : Type 0) : Type 0 where
  pub read : F → ℕ → Read F
  pub contents : F → List ℕ
  pub read_end : (fd : F) (n : ℕ) → 0 < n → contents fd ≡ [] → read fd n ≡ stored [] fd
  pub read_some :
      (fd : F) (n : ℕ)
      → 0 < n
      → 0 < length (contents fd)
      → (b : ℕ) × (bs : List ℕ) × (fd' : F) × (read fd n ≡ stored (b ∷ bs) fd')
        × (length (b ∷ bs) ≤ n)
        × ((b ∷ bs) ++ contents fd' ≡ contents fd)

List-cases : (xs : List ℕ) → (xs ≡ []) ⊎ (0 < length xs)
List-cases [] = inl refl
List-cases (x ∷ xs) = inr (omega arith)

-- A chunk of what starts with m, no longer than m, is the start of m.
chunk_split :
    (chunk later m rest : List ℕ)
    → chunk ++ later ≡ m ++ rest
    → length chunk ≤ length m
    → (m' : List ℕ) × (chunk ++ m' ≡ m) × (later ≡ m' ++ rest)
chunk_split [] later m rest h le = (m, refl, h)
chunk_split (x ∷ xs) later [] rest h le = absurd (omega arith)
chunk_split (x ∷ xs) later (y ∷ ys) rest h le =
    let tails : xs ++ later ≡ ys ++ rest = cc in
    let heads : x ≡ y = cc in
    let (m', start, after) = chunk_split xs later ys rest tails (omega arith) in
    (m', rw (heads, start) refl, after)

module _ {F : Type 0} (file : RegularFile F) where
  -- Where the file holds the bytes still missing, `read_exact` reads them, however `read` splits
  -- them into chunks.
  read_exact-full :
      (k n : ℕ) (fd : F) (got missing rest : List ℕ)
      → length missing ≤ k
      → length got + length missing ≡ n
      → file.contents fd ≡ missing ++ rest
      → (fd' : F) × (read_exact file.read k fd got n ≡ ok (true, got ++ missing, fd'))
        × (file.contents fd' ≡ rest)
  unfolding read_exact
  read_exact-full zero n fd got [] rest enough size h = (fd, rw (append-nil got) refl, h)
  read_exact-full zero n fd got (x ∷ xs) rest enough size h = absurd (omega arith)
  read_exact-full (suc k) n fd got [] rest enough size h =
      let full : ltb (length got) n ≡ false = ground arith in
      (fd, rw (full, append-nil got) refl, h)
  read_exact-full (suc k) n fd got (x ∷ xs) rest enough size h =
      let short : ltb (length got) n ≡ true = ground arith in
      let left : 0 < length (file.contents fd) = rw h (omega arith) in
      let (b, bs, fd', run, few, kept) = file.read_some fd (n - length got) (omega arith) left in
      let (m', start, after) =
        chunk_split (b ∷ bs) (file.contents fd') (x ∷ xs) rest (kept ∙ h) (omega (arith, few)) in
      let sizes = length-append (b ∷ bs) m' in
      let sizes' = ap length start in
      let total = length-append got (b ∷ bs) in
      let (fd2, run2, after2) =
        read_exact-full k n fd' (got ++ b ∷ bs) m' rest (omega (arith, sizes, sizes'))
          (omega (arith, sizes, sizes', total)) after in
      let whole = append_assoc got (b ∷ bs) m' ∙ ap (◌++◌ got) start in
      (fd2, rw (short, run) (run2 ∙ ap (λ q. ok (true, q, fd2)) whole), after2)

  read_exact-end :
      (k n : ℕ) (fd : F)
      → 0 < k
      → 0 < n
      → file.contents fd ≡ []
      → read_exact file.read k fd [] n ≡ ok (false, [], fd)
  unfolding read_exact
  read_exact-end zero n fd some_fuel filled h = absurd (omega arith)
  read_exact-end (suc k) n fd some_fuel filled h =
      let short : ltb 0 n ≡ true = ground arith in
      rw (short, file.read_end fd (n - 0) (omega arith) h) refl

  prefix_value : (n : ℕ) → n < 2 ^ 16 → bit_or (shl 32 (n / 2 ^ 8) 8) (n % 2 ^ 8) % 2 ^ 16 ≡ n
  unfolding read_be16
  prefix_value n h =
      let same : ok (bit_or (shl 32 (n / 2 ^ 8) 8) (n % 2 ^ 8) % 2 ^ 16) ≡ ok n =
        read_be16-write_be16 n [] h in
      cc

  -- Where a regular file continues with the frame of a message of 1 to 2 ^ 16 - 1 bytes,
  -- `next_message` returns this message, and what is left of the file is what follows the frame,
  -- however `read` splits the bytes.
  pub next_message-frame :
      (fd : F) (m rest : List ℕ)
      → 0 < length m
      → length m < 2 ^ 16
      → file.contents fd ≡ write_be16 (length m) (m ++ rest)
      → (fd' : F) × (next_message file.read fd ≡ ok (some m, fd')) × (file.contents fd' ≡ rest)
  unfolding next_message read_frame
  next_message-frame fd m rest filled fits h =
      let (fd1, run1, after1) =
        read_exact-full 2 2 fd [] ((length m / 2 ^ 8) ∷ (length m % 2 ^ 8) ∷ []) (m ++ rest)
          (omega arith) refl h in
      let (fd2, run2, after2) =
        read_exact-full (length m) (length m) fd1 [] m rest (omega arith) (omega arith) after1 in
      let some_bytes : (length m == 0) ≡ false = ground arith in
      let no_zeros : length m - length m ≡ 0 = omega arith in
      (
        fd2,
        rw (run1, prefix_value (length m) fits, some_bytes, run2, no_zeros, append-nil m) refl,
        after2,
      )

  -- At the end of the file `next_message` returns `nullopt`.
  pub next_message-end :
      (fd : F) → file.contents fd ≡ [] → next_message file.read fd ≡ ok (none, fd)
  unfolding next_message
  next_message-end fd h = rw (read_exact-end 2 2 fd (omega arith) (omega arith) h) refl

  read_exact-short :
      (k n : ℕ) (fd : F) (got left : List ℕ)
      → n ≤ length got + k
      → 0 < length got + length left
      → length got + length left < n
      → file.contents fd ≡ left
      → read_exact file.read k fd got n ≡ err (runtime_error truncated_read)
  unfolding read_exact
  read_exact-short zero n fd got left enough filled few h = absurd (omega arith)
  read_exact-short (suc k) n fd got [] enough filled few h =
      let short : ltb (length got) n ≡ true = ground arith in
      let partial : (length got == 0) ≡ false = ground arith in
      rw (short, file.read_end fd (n - length got) (omega arith) h, partial) refl
  read_exact-short (suc k) n fd got (x ∷ xs) enough filled few h =
      let short : ltb (length got) n ≡ true = ground arith in
      let some_left : 0 < length (file.contents fd) = rw h (omega arith) in
      let (b, bs, fd', run, size, kept) =
        file.read_some fd (n - length got) (omega arith) some_left in
      let sizes = length-append (b ∷ bs) (file.contents fd') in
      let sizes' = ap length (kept ∙ h) in
      let total = length-append got (b ∷ bs) in
      rw (short, run)
        (read_exact-short k n fd' (got ++ b ∷ bs) (file.contents fd') (omega (arith, total))
          (omega (arith, total)) (omega (arith, total, sizes, sizes')) refl)

  -- A regular file that ends inside a frame of n bytes, 0 < n < 2 ^ 16: where a part of the message
  -- is there, `next_message` throws for a truncated frame; where the file ends right after the
  -- length prefix, it returns n zeros.
  pub next_message-truncated :
      (fd : F) (n : ℕ) (body : List ℕ)
      → 0 < n
      → n < 2 ^ 16
      → length body < n
      → file.contents fd ≡ write_be16 n body
      → ((0 < length body) × (next_message file.read fd ≡ err (runtime_error truncated_frame)))
        ⊎ ((body ≡ []) × (fd' : F) × (next_message file.read fd ≡ ok (some (replicate n 0), fd')))
  unfolding next_message read_frame
  next_message-truncated fd n body positive fits short h =
      let (fd1, run1, after1) =
        read_exact-full 2 2 fd [] ((n / 2 ^ 8) ∷ (n % 2 ^ 8) ∷ []) body (omega arith) refl h in
      let some_bytes : (n == 0) ≡ false = ground arith in
      elim (List-cases body) [
        | inl empty ↦
            let run2 = read_exact-end n n fd1 positive positive (after1 ∙ empty) in
            let all_zeros : n - 0 ≡ n = omega arith in
            inr (empty, fd1, rw (run1, prefix_value n fits, some_bytes, run2, all_zeros) refl)
        | inr filled ↦
            let run2 =
              read_exact-short n n fd1 [] body (omega arith) (omega arith) (omega arith) after1 in
            inl (filled, rw (run1, prefix_value n fits, some_bytes, run2) refl)
      ]

  -- A file that ends right after the prefix is at its end after the call.
  pub next_message-cut :
      (fd : F) (n : ℕ)
      → 0 < n
      → n < 2 ^ 16
      → file.contents fd ≡ write_be16 n []
      → (fd' : F) × (next_message file.read fd ≡ ok (some (replicate n 0), fd'))
        × (file.contents fd' ≡ [])
  unfolding next_message read_frame
  next_message-cut fd n positive fits h =
      let (fd1, run1, after1) =
        read_exact-full 2 2 fd [] ((n / 2 ^ 8) ∷ (n % 2 ^ 8) ∷ []) [] (omega arith) refl h in
      let some_bytes : (n == 0) ≡ false = ground arith in
      let run2 = read_exact-end n n fd1 positive positive after1 in
      let all_zeros : n - 0 ≡ n = omega arith in
      (fd1, rw (run1, prefix_value n fits, some_bytes, run2, all_zeros) refl, after1)

  pub next_message-zero_length :
      (fd : F) (rest : List ℕ)
      → file.contents fd ≡ write_be16 0 rest
      → next_message file.read fd ≡ err (runtime_error zero_length_frame)
  unfolding next_message read_frame
  next_message-zero_length fd rest h =
      let (fd1, run1, after1) = read_exact-full 2 2 fd [] (0 ∷ 0 ∷ []) rest (omega arith) refl h in
      rw run1 refl

  pub next_message-prefix :
      (fd : F) (b : ℕ)
      → file.contents fd ≡ b ∷ []
      → next_message file.read fd ≡ err (runtime_error truncated_read)
  unfolding next_message
  next_message-prefix fd b h =
      rw (read_exact-short 2 2 fd [] (b ∷ []) (omega arith) (omega arith) (omega arith) h) refl
