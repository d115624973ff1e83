-- ===== src/Prelude/Descriptors.antt =====
-- The descriptors that the process has open, in the calls that open and close them.
use itch_parser.Prelude.Result.{Result, Failure, ok, err, runtime_error}
use itch_parser.Prelude.Tests.{◌==◌, if◌then◌else◌}
use Prim.Native.Nat.{ℕ}
use mathlib.Core.Bool.{Bool, true, false}
use mathlib.Core.Path.{◌≡◌}
use native.Mathlib.Omega.{arith}
use mathlib.Core.List.{List, [], ◌∷◌}

-- A call with the descriptors that are open after it, also where it throws.
abbrev pub Opening : Type 0 → Type 0
Opening A = Result A × List ℕ

abbrev pub then_open : {A B : Type 0} → Opening A → (A → List ℕ → Opening B) → Opening B
then_open (ok a, open_fds) next = next a open_fds
then_open (err e, open_fds) next = (err e, open_fds)

abbrev pub check : Bool → Failure → List ℕ → Opening Unit
check true f open_fds = (ok tt, open_fds)
check false f open_fds = (err (runtime_error f), open_fds)

-- `close`
abbrev pub close_fd : ℕ → List ℕ → List ℕ
close_fd fd [] = []
close_fd fd (x ∷ fds) = let rest = close_fd fd fds in if x == fd then fds else x ∷ rest

pub close_fd_first : (fd : ℕ) (fds : List ℕ) → close_fd fd (fd ∷ fds) ≡ fds
close_fd_first fd fds = ground arith
