-- ===== src/Bench/Loop.antt =====
-- The timed loop of the benchmarks, and the engine in it: its snapshots are turned off by an
-- interval of `UINT64_MAX`.
use itch_parser.Engine.{InstrumentInfo, handle, register_instrument}
use itch_parser.Messages.{ParsedMessage}
use itch_parser.Prelude.Result.{Result, ok, err, ◌>>=◌}
use itch_parser.Prelude.{ℕ, zero, suc, ◌+◌, ◌-◌, ◌^◌, ◌≤◌, ◌<◌, ◌≡◌, refl, ap, ◌∙◌, codes, arith}
use itch_parser.Publish.Age.{IsRecent, apply_lem}
use itch_parser.Publish.{Engine, new_engine, set_snapshot_interval, current, apply}

-- `for (auto _ : state)` with n iterations.
module _ {S : Type 0} (body : S → Result S) where
  abbrev pub iterate : ℕ → S → Result S
  iterate zero s = ok s
  iterate (suc n) s = body s >>= iterate n

  pub iterate-add : (n m : ℕ) (s : S) → iterate (n + m) s ≡ (iterate n s >>= iterate m)
  iterate-add zero m s = ap (λ k. iterate k s) (omega arith)
  iterate-add (suc n) m s =
      ap (λ k. iterate k s) {x = suc n + m} {y = suc (n + m)} (omega arith)
      ∙ later (body s) (λ t. iterate-add n m t)
    where
      later :
          (r : Result S)
          → ((t : S) → iterate (n + m) t ≡ (iterate n t >>= iterate m))
          → (r >>= iterate (n + m)) ≡ ((r >>= iterate n) >>= iterate m)
      later (ok t) rest = rest t
      later (err e) rest = refl

-- The instrument that the benchmarks register.
abbrev pub aapl : InstrumentInfo
aapl = record {
  stock_locate = 1;
  symbol = codes "AAPL";
  trading_state = b'T';
  round_lot_size = 100;
  market_category = 0;
  financial_status = 0;
}

module _ {D : Type 0} where
  unfoldable pub register_aapl : Engine D → Engine D
  register_aapl e = record e { core = register_instrument aapl e.core }

  abbrev pub quiet : Engine D → Engine D
  quiet e = set_snapshot_interval (2 ^ 64 - 1) e

  -- At least n more messages can be applied.
  pub record Runs (n : ℕ) (e : Engine D) : Type 0 where
    pub interval : e.snapshot_interval ≡ 2 ^ 64 - 1
    pub room : e.messages_processed + n < 2 ^ 64
    pub recent : IsRecent e

  pub quiet-Runs : (n : ℕ) → n < 2 ^ 64 → Runs n (quiet (register_aapl new_engine))
  unfolding register_aapl set_snapshot_interval current
  quiet-Runs n h = record { interval = refl; room = omega arith; recent = refl }

  pub Runs-le : (n m : ℕ) (e : Engine D) → n ≤ m → Runs m e → Runs n e
  Runs-le n m e h r = record {
    interval = r.interval;
    room = omega (arith, h, r.room);
    recent = r.recent;
  }

  pub apply-Runs :
      (to_double : ℕ → D) (now n : ℕ) (m : ParsedMessage) (e : Engine D)
      → Runs (suc n) e
      → (d : Engine D) × (apply to_double now m e ≡ ok d) × (d.core ≡ handle m e.core) × Runs n d
  apply-Runs to_double now n m e r =
      let a =
        apply_lem to_double now m e (λ z. absurd (omega (arith, r.interval, z)))
          (omega (arith, r.room)) r.recent in
      (
        a.next,
        a.returned,
        a.core,
        record {
          interval = a.interval ∙ r.interval;
          room = omega (arith, a.counted, r.room);
          recent = a.recent;
        },
      )
