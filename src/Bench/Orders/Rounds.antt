-- ===== src/Bench/Orders/Rounds.antt =====
-- The rounds of bench/bench_book_engine.cpp: which orders are live, and which rounds find none.
use itch_parser.Bench.Loop.{aapl, Runs, Runs-le, apply-Runs}
use itch_parser.Bench.Orders.Index.{knows, knows-add_order}
use itch_parser.Bench.Orders.{make_add, seed_orders, seed_engine}
use itch_parser.Engine.{Core, new_core, register_instrument}
use itch_parser.Map.{find}
use itch_parser.Messages.{add_order}
use itch_parser.Prelude.Result.{ok}
use itch_parser.Prelude.{
  ℕ, zero, suc, ◌+◌, ◌-◌, ◌%◌, ◌^◌, ◌<◌, ◌≡◌, refl, ◌∙◌, true, ◌&&◌, arith, ltb, leb, ◌==◌,
  if◌then◌else◌,
}
use itch_parser.Publish.{Engine, new_engine, set_snapshot_interval, current}

pub next_int_lem : (i : ℕ) → i + 1 < 2 ^ 31 → ltb (i + 1) (2 ^ 31) ≡ true
next_int_lem i h = ground (arith, h)

-- The live orders are those with references from a + 1 to b, and no reference was unknown.
pub record HasRange (a b : ℕ) (c : Core) : Type 0 where
  pub live : (r : ℕ) → knows c r ≡ (ltb a r && leb r b)
  pub skipped : c.skipped_unknown_ref ≡ 0

HasRange-to : (a b b' : ℕ) (c : Core) → b ≡ b' → HasRange a b c → HasRange a b' c
HasRange-to a b b' c e h = record { live = λ r. rw e at (h.live r); skipped = h.skipped }

module _ {D : Type 0} (to_double : ℕ → D) (clock : ℕ → ℕ) where
  seed_orders-HasRange :
      (left i room : ℕ) (e : Engine D)
      → i + left < 2 ^ 31
      → Runs (left + room) e
      → HasRange 0 i e.core
      → (d : Engine D) × (seed_orders to_double clock left i e ≡ ok d)
        × Runs room d
        × HasRange 0 (i + left) d.core
  unfolding seed_orders
  seed_orders-HasRange zero i room e small runs h = (
    e,
    refl,
    Runs-le room (0 + room) e (omega arith) runs,
    HasRange-to 0 i (i + 0) e.core (omega arith) h,
  )
  seed_orders-HasRange (suc left) i room e small runs h =
      let m = make_add (i + 1) (if i % 2 == 0 then b'B' else b'S') 100 (1000000 + i % 100) in
      let (d, went, core, runs') =
        apply-Runs to_double (clock e.messages_processed) (left + room) (add_order m) e
          (Runs-le (suc (left + room)) (suc left + room) e (omega arith) runs) in
      let added = knows-add_order m e.core in
      let h' : HasRange 0 (i + 1) d.core = record {
        live = λ r. rw core ((added r).0 ∙ rw (h.live r) (ground arith));
        skipped = rw core ((added 0).1 ∙ h.skipped);
      } in
      let (d', rest, runs'', h'') =
        seed_orders-HasRange left (i + 1) room d (omega (arith, small)) runs' h' in
      let counts : ltb (i + 1) (2 ^ 31) ≡ true = next_int_lem i (omega (arith, small)) in
      (
        d',
        rw (seed_orders, went, counts) rest,
        runs'',
        HasRange-to 0 (i + 1 + left) (i + suc left) d'.core (omega arith) h'',
      )

  pub seed_engine-HasRange :
      (n room : ℕ)
      → n < 2 ^ 31
      → n + room < 2 ^ 64
      → (d : Engine D) × (seed_engine to_double clock n new_engine ≡ ok d)
        × Runs room d
        × HasRange 0 n d.core
  unfolding seed_engine set_snapshot_interval current register_instrument find
  seed_engine-HasRange n room small fits =
      let start : HasRange 0 0 (register_instrument aapl new_core) = record {
        live = λ r. ground arith;
        skipped = refl;
      } in
      let (d, run, runs, h) =
        seed_orders-HasRange n 0 room
          (set_snapshot_interval (2 ^ 64 - 1)
            (record new_engine { core = register_instrument aapl new_core }))
          (omega (arith, small))
          (record { interval = refl; room = omega (arith, fits); recent = refl }) start in
      (d, run, runs, HasRange-to 0 (0 + n) n d.core (omega arith) h)
