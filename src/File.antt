-- ===== src/File.antt =====
-- src/feed_reader.cpp: the reader of a file of length-prefixed frames. `read` of the operating
-- system is a parameter; opening and closing the file are in the child Descriptor.
pub mod Frames
pub mod Outcome
pub mod Descriptor
use itch_parser.Prelude.Result.{
  Result, ok, err, runtime_error, truncated_read, read_error, zero_length_frame, truncated_frame,
  ◌>>=◌,
}
use itch_parser.Prelude.{
  ℕ, zero, suc, ◌-◌, ◌%◌, ◌^◌, bit_or, Bool, true, false, not, List, [], ◌∷◌, ◌++◌, Option, none,
  some, length, replicate, ltb, ◌==◌, if◌then◌else◌,
}
use itch_parser.Wire.{byte, shl}

-- What a call of `read` gives: the bytes that it stores, where no bytes are the end of the file, or
-- an error.
pub data Read (F : Type 0) : Type 0 where
  stored : List ℕ → F → Read F
  failed : Read F

module _ {F : Type 0} (read : F → ℕ → Read F) where
  -- The loop of `read_exact`, where `got` are the `total` bytes read. Every turn reads a byte or
  -- returns, so n - total turns, the first argument, are enough: where none is left, total is n.
  -- The number is false where the file ends at once.
  unfoldable pub read_exact : ℕ → F → List ℕ → ℕ → Result (Bool × List ℕ × F)
  read_exact zero fd got n = ok (true, got, fd)
  read_exact (suc k) fd got n =
      if ltb (length got) n
      then elim (read fd (n - length got)) [
        | failed ↦ err (runtime_error read_error)
        | stored [] fd' ↦
            if length got == 0 then ok (false, got, fd') else err (runtime_error truncated_read)
        | stored (b ∷ bs) fd' ↦ read_exact k fd' (got ++ b ∷ bs) n
      ]
      else ok (true, got, fd)

  -- `catch (...)` around the reading of a frame.
  abbrev pub catch_truncated : {A : Type 0} → Result A → Result A
  catch_truncated (ok a) = ok a
  catch_truncated (err e) = err (runtime_error truncated_frame)

  -- The rest of `next_message` after the prefix. The buffer starts as zeros.
  unfoldable pub read_frame : ℕ → F → Result (Option (List ℕ) × F)
  read_frame msg_len fd =
      if msg_len == 0
      then err (runtime_error zero_length_frame)
      else catch_truncated (read_exact msg_len fd [] msg_len) >>= λ (full, got, fd').
          ok (some (got ++ replicate (msg_len - length got) 0), fd')

  -- The message, or `none` for `nullopt`, and the file after the call.
  unfoldable pub next_message : F → Result (Option (List ℕ) × F)
  next_message fd = read_exact 2 fd [] 2 >>= λ (full, len_buf, fd').
      if not full
      then ok (none, fd')
      else byte len_buf 0 >>= λ a.
          byte len_buf 1 >>= λ b. read_frame (bit_or (shl 32 a 8) b % 2 ^ 16) fd'
