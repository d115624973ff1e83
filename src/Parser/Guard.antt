-- ===== src/Parser/Guard.antt =====
-- The length guard of the deserialisers.
use itch_parser.Parser.{require}
use itch_parser.Prelude.Result.{ok, err, runtime_error, truncated_message}
use itch_parser.Prelude.{ℕ, List, ◌≡◌, ◌≤◌, ◌<◌, String, arith, length}

pub require_fits : (p : List ℕ) (n : ℕ) (name : String) → n ≤ length p → require p n name ≡ ok tt
unfolding require
require_fits p n name h = ground arith

pub require_short :
    (p : List ℕ) (n : ℕ) (name : String)
    → length p < n
    → require p n name ≡ err (runtime_error (truncated_message name n (length p)))
unfolding require
require_short p n name h = ground arith
