-- ===== src/Prelude/Result.antt =====
-- What a call may end in. `runtime_error` is the exception that the sources throw, by its message;
-- the other errors are undefined behaviour, which no run may reach.
use Prim.Native.Nat.{ℕ}
use Prim.Native.String.{String}

pub data Failure : Type 0 where
  empty_message_buffer : Failure
  -- the name of the message's type, the bytes needed, the bytes got
  truncated_message : String → ℕ → ℕ → Failure
  truncated_read read_error zero_length_frame truncated_frame : Failure
  -- `at` of a map, on a key that is not there
  missing_key : Failure
  -- `dump` of the JSON library, on a text that is not UTF-8
  invalid_utf8 : Failure
  -- the constructors of the feed readers
  cannot_open : Failure
  socket_failed bind_failed invalid_group invalid_interface membership_failed : Failure

pub data Error : Type 0 where
  runtime_error : Failure → Error
  out_of_bounds division_by_zero int_overflow : Error

pub data Result {ℓ} (A : Type ℓ) : Type ℓ where
  err : Error → Result A
  ok : A → Result A

-- The first error ends a sequence of calls.
infixl 5 ◌>>=◌ ◌>>◌
abbrev pub ◌>>=◌ {ℓ κ} : {A : Type ℓ} {B : Type κ} → Result A → (A → Result B) → Result B
err failure >>= next = err failure
ok value >>= next = next value

abbrev pub ◌>>◌ {ℓ} : {B : Type ℓ} → Result (Unit {0}) → Result B → Result B
first >> second = first >>= λ _. second
