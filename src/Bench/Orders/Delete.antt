-- ===== src/Bench/Orders/Delete.antt =====
-- `BM_DeleteOrder` of bench/bench_book_engine.cpp: every round deletes an order that is live.
use itch_parser.Bench.Loop.{iterate, Runs, Runs-le, apply-Runs}
use itch_parser.Bench.Orders.Index.{knows, knows-order_delete}
use itch_parser.Bench.Orders.Rounds.{HasRange, next_int_lem, seed_engine-HasRange}
use itch_parser.Bench.Orders.{OrdersState, make_delete, applied, delete_round, bm_delete_order}
use itch_parser.Messages.{order_delete}
use itch_parser.Prelude.Result.{ok}
use itch_parser.Prelude.{
  ℕ, zero, suc, ◌+◌, ◌-◌, ◌^◌, ◌≤◌, ◌<◌, ◌≡◌, refl, ◌∙◌, true, ◌&&◌, arith, ltb, leb, inl, inr,
  Bool-cases,
}
use itch_parser.Publish.{Engine}

module _ {D : Type 0} (to_double : ℕ → D) (clock : ℕ → ℕ) (n : ℕ) (some_orders : 0 < n)
    (small : n < 2 ^ 31) where
  -- The orders up to `idx` are deleted, and the engine can take the deletions that are left.
  pub record Deleting (idx : ℕ) (e : Engine D) : Type 0 where
    pub runs : Runs (n - idx) e
    pub range : HasRange idx n e.core

  delete-Deleting :
      (idx : ℕ) (e : Engine D)
      → idx < n
      → Deleting idx e
      → (d : Engine D) × (applied to_double clock (order_delete (make_delete (idx + 1))) e ≡ ok d)
        × Deleting (idx + 1) d
  delete-Deleting idx e h v =
      let m = make_delete (idx + 1) in
      let (d, went, core, runs) =
        apply-Runs to_double (clock e.messages_processed) (n - (idx + 1)) (order_delete m) e
          (Runs-le (suc (n - (idx + 1))) (n - idx) e (omega arith) v.runs) in
      let here : knows e.core (idx + 1) ≡ true = v.range.live (idx + 1) ∙ ground arith in
      let deleted = knows-order_delete m e.core in
      (
        d,
        went,
        record {
          runs = runs;
          range = record {
            live = λ r. rw core ((deleted r here).0 ∙ ground (arith, v.range.live r));
            skipped = rw core ((deleted 0 here).1 ∙ v.range.skipped);
          };
        },
      )

  delete_round-Deleting :
      (s : OrdersState D)
      → s.idx ≤ n
      → Deleting s.idx s.engine
      → (t : OrdersState D) × (delete_round to_double clock n s ≡ ok t)
        × (t.idx ≤ n)
        × (0 < t.idx)
        × Deleting t.idx t.engine
  unfolding delete_round
  delete_round-Deleting s h v = elim (Bool-cases (leb n s.idx)) [
    | inl over ↦
        let (e, seeded, runs, range) =
          seed_engine-HasRange to_double clock n n small (omega arith) in
        let (d, went, v') =
          delete-Deleting 0 e some_orders
            (record { runs = Runs-le (n - 0) n e (omega arith) runs; range = range }) in
        (
          record s { engine = d; idx = 1 },
          rw (delete_round, over, seeded, went) refl,
          omega (arith, some_orders),
          omega arith,
          v',
        )
    | inr left ↦
        let below : s.idx < n = ground (arith, left) in
        let (d, went, v') = delete-Deleting s.idx s.engine below v in
        (
          record s { engine = d; idx = s.idx + 1 },
          rw (delete_round, left, went, next_int_lem s.idx (omega (arith, small, below))) refl,
          ground (arith, left),
          omega arith,
          v',
        )
  ]

  iterate-Deleting :
      (k : ℕ) (s : OrdersState D)
      → s.idx ≤ n
      → Deleting s.idx s.engine
      → (t : OrdersState D) × (iterate (delete_round to_double clock n) k s ≡ ok t)
        × (t.idx ≤ n)
        × Deleting t.idx t.engine
  iterate-Deleting zero s h v = (s, refl, h, v)
  iterate-Deleting (suc k) s h v =
      let (t, run, h', more, v') = delete_round-Deleting s h v in
      let (t', rest, h'', v'') = iterate-Deleting k t h' v' in (t', rw run rest, h'', v'')

  -- However many rounds `BM_DeleteOrder` runs on n orders, n not 0 and below 2 ^ 31, it runs to its end, and in the
  -- engine of that time the orders up to `idx` are deleted, the others up to n are live, no other
  -- order is known, and no deletion has referred to an unknown order.
  pub bm_delete_order_lem :
      (iterations : ℕ)
      → (s : OrdersState D) × (bm_delete_order to_double clock n iterations ≡ ok s)
        × (s.idx ≤ n)
        × ((r : ℕ) → knows s.engine.core r ≡ (ltb s.idx r && leb r n))
        × (s.engine.core.skipped_unknown_ref ≡ 0)
  unfolding bm_delete_order
  bm_delete_order_lem iterations =
      let (e, seeded, runs, range) = seed_engine-HasRange to_double clock n n small (omega arith) in
      let (s, run, h, v) =
        iterate-Deleting iterations (record { engine = e; next_ref = 0; idx = 0 }) (omega arith)
          (record { runs = Runs-le (n - 0) n e (omega arith) runs; range = range }) in
      (s, rw seeded run, h, v.range.live, v.range.skipped)
