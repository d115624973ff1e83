-- ===== src/Bench/Replay/Tallies.antt =====
-- The counters of bench/bench_replay.cpp after some frames.
use itch_parser.Bench.Draws.{item, count, item-set_at}
use itch_parser.Bench.Replay.{Tally, type_byte, count_type}
use itch_parser.Engine.{increment}
use itch_parser.Messages.{ParsedMessage}
use itch_parser.Parser.{parse}
use itch_parser.Pipeline.FileMode.{parsed, messages_of, length-parsed}
use itch_parser.Prelude.Result.{Result, ok, err}
use itch_parser.Prelude.{
  ℕ, zero, suc, ◌+◌, ◌^◌, ◌<◌, ◌≡◌, refl, ◌∙◌, List, [], ◌∷◌, Option, arith, length, length-append,
  replicate,
}
use itch_parser.Wire.Fields.{IsBuffer}

-- 1 for a buffer that the parser refuses.
abbrev pub refusal : Result (Option ParsedMessage) → ℕ
refusal (ok m) = 0
refusal (err e) = 1

-- How many of the buffers the parser refuses.
abbrev pub refusals : List (List ℕ) → ℕ
refusals [] = 0
refusals (buf ∷ bufs) = refusal (parse buf) + refusals bufs

-- The types of the frames.
abbrev pub types_of : List (List ℕ) → List ℕ
types_of [] = []
types_of (buf ∷ bufs) = type_byte buf ∷ types_of bufs

pub item-replicate : (n i : ℕ) → item (replicate n 0) i ≡ 0
item-replicate zero i = refl
item-replicate (suc n) zero = refl
item-replicate (suc n) (suc i) = item-replicate n i

-- No counter wraps around within n frames.
pub record HasRoom (n : ℕ) (s : Tally) : Type 0 where
  pub messages : s.messages + n < 2 ^ 64
  pub parse_errors : s.parse_errors + n < 2 ^ 64
  pub type_counts : (t : ℕ) → item s.type_counts t + n < 2 ^ 64
  pub sized : length s.type_counts ≡ 256

-- The tally after some buffers.
pub record Tallied (bufs : List (List ℕ)) (s s' : Tally) : Type 0 where
  pub messages : s'.messages ≡ s.messages + length (messages_of bufs)
  pub parse_errors : s'.parse_errors ≡ s.parse_errors + refusals bufs
  pub type_counts : (t : ℕ) → item s'.type_counts t ≡ item s.type_counts t + count t (types_of bufs)
  pub sized : length s'.type_counts ≡ length s.type_counts

pub Tallied-HasRoom :
    (n : ℕ) (buf : List ℕ) (s s' : Tally)
    → HasRoom (suc n) s
    → Tallied (buf ∷ []) s s'
    → HasRoom n s'
Tallied-HasRoom n buf s s' room t =
    let few = length-parsed (parse buf) in
    let total = length-append (parsed (parse buf)) [] in
    record {
      messages = omega (arith, room.messages, t.messages, few, total);
      parse_errors = ground (arith, room.parse_errors, t.parse_errors);
      type_counts = λ b. ground (arith, room.type_counts b, t.type_counts b);
      sized = t.sized ∙ room.sized;
    }

pub Tallied-step :
    (buf : List ℕ) (bufs : List (List ℕ)) (s s' s'' : Tally)
    → Tallied (buf ∷ []) s s'
    → Tallied bufs s' s''
    → Tallied (buf ∷ bufs) s s''
Tallied-step buf bufs s s' s'' first rest =
    let one_more = length-append (parsed (parse buf)) [] in
    let total = length-append (parsed (parse buf)) (messages_of bufs) in
    record {
      messages = omega (arith, first.messages, rest.messages, one_more, total);
      parse_errors = omega (arith, first.parse_errors, rest.parse_errors);
      type_counts = λ b. omega (arith, first.type_counts b, rest.type_counts b);
      sized = rest.sized ∙ first.sized;
    }

type_byte-lt : (buf : List ℕ) → IsBuffer buf → type_byte buf < 256
type_byte-lt [] b = omega arith
type_byte-lt (t ∷ p) b = b.0

-- The first byte of a buffer is counted.
pub count_type_lem :
    (buf : List ℕ) (s : Tally) (t : ℕ)
    → IsBuffer buf
    → length s.type_counts ≡ 256
    → item s.type_counts (type_byte buf) + 1 < 2 ^ 64
    → item (count_type buf s).type_counts t ≡ item s.type_counts t + count t (type_byte buf ∷ [])
count_type_lem buf s t b sized room =
    let few : type_byte buf < 256 = type_byte-lt buf b in
    ground (
      arith,
      item-set_at s.type_counts (type_byte buf) t (increment (item s.type_counts (type_byte buf))),
    )
