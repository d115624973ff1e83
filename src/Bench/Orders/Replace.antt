-- ===== src/Bench/Orders/Replace.antt =====
-- `BM_ReplaceOrder` of bench/bench_book_engine.cpp: the first pass over the seeded orders, and what
-- every round after it does.
use itch_parser.Bench.Loop.{iterate, iterate-add, Runs, Runs-le, apply-Runs}
use itch_parser.Bench.Orders.Index.{knows, knows-none, knows-order_replace}
use itch_parser.Bench.Orders.Rounds.{HasRange, next_int_lem, seed_engine-HasRange}
use itch_parser.Bench.Orders.{OrdersState, make_replace, replace_round, bm_replace_order}
use itch_parser.Engine.Effects.{handle_unknown_ref}
use itch_parser.Engine.{Core, increment}
use itch_parser.Messages.{order_replace}
use itch_parser.Prelude.Result.{ok}
use itch_parser.Prelude.{
  ℕ, zero, suc, ◌+◌, ◌%◌, ◌^◌, ◌≤◌, ◌<◌, ◌≡◌, refl, ap, subst, ◌∙◌, true, false, ◌&&◌, arith, ltb,
  leb, ◌==◌,
}
use native.Mathlib.Nat.{mod-eq_of_lt, mod-lt}

abbrev pub with_skipped : ℕ → Core → Core
with_skipped q c = record c { skipped_unknown_ref = q }

module _ {D : Type 0} (to_double : ℕ → D) (clock : ℕ → ℕ) (n : ℕ) (some_orders : 0 < n) where
  -- After k rounds of the first pass the first k orders are replaced, with room for more rounds.
  pub record InPass (k room : ℕ) (s : OrdersState D) : Type 0 where
    pub runs : Runs room s.engine
    pub next_ref : s.next_ref ≡ n + k + 1
    pub idx : s.idx ≡ k
    pub range : HasRange k (n + k) s.engine.core

  not_empty : (n == 0) ≡ false
  not_empty = ground (arith, some_orders)

  replace_round-InPass :
      (k room : ℕ) (s : OrdersState D)
      → k < n
      → n < 2 ^ 31
      → n + k + 2 < 2 ^ 64
      → InPass k (suc room) s
      → (t : OrdersState D) × (replace_round to_double clock n s ≡ ok t) × InPass (k + 1) room t
  unfolding replace_round
  replace_round-InPass k room s h small fits v =
      let m = make_replace (s.idx % n + 1) s.next_ref 200 1000050 in
      let e = s.engine in
      let (d, went, core, runs) =
        apply-Runs to_double (clock e.messages_processed) room (order_replace m) e v.runs in
      let counts : ltb (s.idx + 1) (2 ^ 31) ≡ true =
        next_int_lem s.idx (omega (arith, v.idx, h, small)) in
      let orig : s.idx % n + 1 ≡ k + 1 = rw (v.idx) (ap (λ i. i + 1) (mod-eq_of_lt h)) in
      let here : knows e.core (s.idx % n + 1) ≡ true =
        rw orig (v.range.live (k + 1) ∙ ground arith) in
      let replaced = knows-order_replace m e.core in
      (
        record { engine = d; next_ref = increment s.next_ref; idx = s.idx + 1 },
        rw (replace_round, not_empty, went, counts) refl,
        record {
          runs = runs;
          next_ref = omega (arith, v.next_ref, fits);
          idx = omega (arith, v.idx);
          range = record {
            live = λ r.
                rw core ((replaced r here).0 ∙ ground (arith, orig, v.next_ref, v.range.live r));
            skipped = rw core ((replaced 0 here).1 ∙ v.range.skipped);
          };
        },
      )

  iterate-InPass :
      (j k room : ℕ) (s : OrdersState D)
      → k + j ≤ n
      → n < 2 ^ 31
      → n + n + 2 < 2 ^ 64
      → InPass k (j + room) s
      → (t : OrdersState D) × (iterate (replace_round to_double clock n) j s ≡ ok t)
        × InPass (k + j) room t
  iterate-InPass zero k room s h small fits v =
      let kept : InPass k room s = record {
        runs = Runs-le room (0 + room) s.engine (omega arith) v.runs;
        next_ref = v.next_ref;
        idx = v.idx;
        range = v.range;
      } in
      (s, refl, subst (λ l. InPass l room s) (omega arith) kept)
  iterate-InPass (suc j) k room s h small fits v =
      let v' : InPass k (suc (j + room)) s = record {
        runs = Runs-le (suc (j + room)) (suc j + room) s.engine (omega arith) v.runs;
        next_ref = v.next_ref;
        idx = v.idx;
        range = v.range;
      } in
      let (t, run, next) =
        replace_round-InPass k (j + room) s (omega arith) small (omega arith) v' in
      let (t', rest, last) = iterate-InPass j (k + 1) room t (omega arith) small fits next in
      (t', rw run rest, subst (λ l. InPass l room t') (omega arith) last)

  -- A round that refers to an order that is gone.
  replace_round-skips :
      (room : ℕ) (s : OrdersState D)
      → s.idx + 1 < 2 ^ 31
      → Runs (suc room) s.engine
      → ((r : ℕ) → 0 < r → r ≤ n → knows s.engine.core r ≡ false)
      → (t : OrdersState D) × (replace_round to_double clock n s ≡ ok t)
        × Runs room t.engine
        × (t.idx ≡ s.idx + 1)
        × (t.engine.core ≡ record s.engine.core {
          skipped_unknown_ref = increment s.engine.core.skipped_unknown_ref;
        })
  unfolding replace_round
  replace_round-skips room s small runs gone =
      let m = make_replace (s.idx % n + 1) s.next_ref 200 1000050 in
      let e = s.engine in
      let (d, went, core, runs') =
        apply-Runs to_double (clock e.messages_processed) room (order_replace m) e runs in
      let few = mod-lt s.idx some_orders in
      let absent =
        knows-none e.core (s.idx % n + 1)
          (gone (s.idx % n + 1) (omega arith) (omega (arith, few))) in
      (
        record { engine = d; next_ref = increment s.next_ref; idx = s.idx + 1 },
        rw (replace_round, not_empty, went, next_int_lem s.idx small) refl,
        runs',
        refl,
        core ∙ handle_unknown_ref (order_replace m) e.core (s.idx % n + 1) refl absent,
      )

  -- Every later round skips: nothing changes but the count.
  iterate-skips :
      (j room skipped : ℕ) (s : OrdersState D)
      → s.idx + j < 2 ^ 31
      → Runs (j + room) s.engine
      → s.engine.core.skipped_unknown_ref ≡ skipped
      → skipped + j < 2 ^ 64
      → ((r : ℕ) → 0 < r → r ≤ n → knows s.engine.core r ≡ false)
      → (t : OrdersState D) × (iterate (replace_round to_double clock n) j s ≡ ok t)
        × (t.engine.core ≡ with_skipped (skipped + j) s.engine.core)
  iterate-skips zero room skipped s small runs count fits gone =
      let same : s.engine.core.skipped_unknown_ref ≡ skipped + 0 = count ∙ omega arith in
      (s, refl, ap (λ q. with_skipped q s.engine.core) same)
  iterate-skips (suc j) room skipped s small runs count fits gone =
      let (t, run, runs', idx, core) =
        replace_round-skips (j + room) s (omega (arith, small))
          (Runs-le (suc (j + room)) (suc j + room) s.engine (omega arith) runs) gone in
      let counted : t.engine.core.skipped_unknown_ref ≡ skipped + 1 =
        ap (λ c. c.skipped_unknown_ref) core ∙ omega (arith, count, fits) in
      let gone' : (r : ℕ) → 0 < r → r ≤ n → knows t.engine.core r ≡ false =
        λ r low high. ap (λ c. knows c r) core ∙ gone r low high in
      let (t', rest, last) =
        iterate-skips j room (skipped + 1) t (omega (arith, small, idx)) runs' counted (omega arith)
          gone' in
      let total : skipped + 1 + j ≡ skipped + suc j = omega arith in
      (
        t',
        rw run rest,
        last
            ∙ ap (with_skipped (skipped + 1 + j)) core
            ∙ ap (λ q. with_skipped q s.engine.core) total,
      )

  -- On n seeded orders, n not 0, with n + j below 2 ^ 31, the first n rounds of `BM_ReplaceOrder` replace the orders 1 to n,
  -- one each, by the orders n + 1 to 2n. Each of the j rounds after these refers to an order that is
  -- gone: it changes nothing in the books and in the indexes, and only counts an unknown reference.
  pub bm_replace_order_lem :
      (j : ℕ)
      → n + j < 2 ^ 31
      → (s t : OrdersState D) × (bm_replace_order to_double clock n n ≡ ok s)
        × ((r : ℕ) → knows s.engine.core r ≡ (ltb n r && leb r (n + n)))
        × (s.engine.core.skipped_unknown_ref ≡ 0)
        × (bm_replace_order to_double clock n (n + j) ≡ ok t)
        × (t.engine.core ≡ with_skipped j s.engine.core)
  unfolding bm_replace_order
  bm_replace_order_lem j small =
      let (e, seeded, runs, range) =
        seed_engine-HasRange to_double clock n (n + j) (omega arith) (omega arith) in
      let start : OrdersState D = record { engine = e; next_ref = n + 1; idx = 0 } in
      let (s, run, passed) =
        iterate-InPass n 0 j start (omega arith) (omega arith) (omega arith) (record {
          runs = runs;
          next_ref = omega arith;
          idx = refl;
          range = subst (λ l. HasRange 0 l e.core) (omega arith) range;
        }) in
      let v : InPass n j s = subst (λ l. InPass l j s) (omega arith) passed in
      let gone : (r : ℕ) → 0 < r → r ≤ n → knows s.engine.core r ≡ false =
        λ r low high. v.range.live r ∙ ground arith in
      let (t, rest, core) =
        iterate-skips j 0 0 s (omega (arith, v.idx, small))
          (Runs-le (j + 0) j s.engine (omega arith) v.runs) v.range.skipped (omega (arith, small))
          gone in
      (
        s,
        t,
        rw (seeded, run) refl,
        λ r. v.range.live r,
        v.range.skipped,
        rw (seeded, iterate-add (replace_round to_double clock n) n j start, run) rest,
        core ∙ ap (λ q. with_skipped q s.engine.core) (omega arith),
      )
