-- ===== src/Publish/Age.antt =====
-- How old the published snapshot can be.
use itch_parser.Engine.{increment, handle}
use itch_parser.Messages.{ParsedMessage}
use itch_parser.Prelude.Result.{Result, ok}
use itch_parser.Prelude.{
  ℕ, ◌+◌, ◌*◌, ◌/◌, ◌%◌, ◌^◌, ◌<◌, ◌≡◌, ◌≢◌, refl, Option, none, some, ◌==◌, arith, inl, inr,
  Bool-cases,
}
use itch_parser.Publish.{Engine, publish, current, maybe_publish_snapshot, apply, snapshot_of}
use itch_parser.Snapshot.{SystemSnapshot, build_snapshot}

-- The number of messages that the published snapshot has seen; 0 where there is none.
abbrev pub seen : {D : Type 0} → Option (SystemSnapshot D) → ℕ
seen none = 0
seen (some s) = s.messages_processed

-- The published snapshot is the one of the last multiple of the interval.
abbrev pub IsRecent : {D : Type 0} → Engine D → Type 0
IsRecent e =
    seen (current e.publisher) ≡ e.messages_processed / e.snapshot_interval * e.snapshot_interval

pub round_step : (n i : ℕ) → i ≢ 0 → (n + 1) % i ≢ 0 → (n + 1) / i * i ≡ n / i * i
round_step n i nz h = grind arith

pub round_exact : (n i : ℕ) → n % i ≡ 0 → n / i * i ≡ n
round_exact n i h = grind arith

pub zero_round : (i : ℕ) → i ≢ 0 → 0 ≡ 0 / i * i
zero_round i nz = grind arith

module _ {D : Type 0} (to_double : ℕ → D) where
  -- The state in which `apply` decides whether to publish.
  abbrev applied : ParsedMessage → Engine D → Engine D
  applied m e = record e {
    core = handle m e.core;
    messages_processed = increment e.messages_processed;
  }

  pub record Applied (m : ParsedMessage) (e : Engine D) (r : Result (Engine D)) : Type 0 where
    pub next : Engine D
    pub returned : r ≡ ok next
    pub core : next.core ≡ handle m e.core
    pub counted : next.messages_processed ≡ e.messages_processed + 1
    pub interval : next.snapshot_interval ≡ e.snapshot_interval
    pub recent : IsRecent next

  pub apply_lem :
      (now : ℕ) (m : ParsedMessage) (e : Engine D)
      → e.snapshot_interval ≢ 0
      → e.messages_processed + 1 < 2 ^ 64
      → IsRecent e
      → Applied m e (apply to_double now m e)
  unfolding apply maybe_publish_snapshot publish current build_snapshot
  apply_lem now m e nz fits r =
      let n = increment e.messages_processed in
      let i = e.snapshot_interval in
      elim (Bool-cases (n % i == 0)) [
        | inl due ↦ record {
          next = record (applied m e) {
            publisher = publish (snapshot_of to_double now (applied m e)) e.publisher;
          };
          returned = ground arith;
          core = refl;
          counted = omega arith;
          interval = refl;
          recent = ground (arith, round_exact n i);
        }
        | inr not_due ↦ record {
          next = applied m e;
          returned = ground arith;
          core = refl;
          counted = omega arith;
          interval = refl;
          recent = ground (arith, round_step e.messages_processed i);
        }
      ]
