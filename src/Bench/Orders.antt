-- ===== src/Bench/Orders.antt =====
-- bench/bench_book_engine.cpp: deletions, replacements and executions on a seeded engine.
pub mod Index
pub mod Rounds
pub mod Replace
pub mod Delete
use itch_parser.Bench.Loop.{iterate, aapl}
use itch_parser.Engine.{Core, register_instrument, increment}
use itch_parser.Messages.{
  ParsedMessage, AddOrderMsg, OrderExecutedMsg, OrderDeleteMsg, OrderReplaceMsg, add_order,
  order_executed, order_delete, order_replace,
}
use itch_parser.Prelude.Result.{Result, ok, err, division_by_zero, int_overflow, ◌>>=◌}
use itch_parser.Prelude.{ℕ, zero, suc, ◌+◌, ◌-◌, ◌%◌, ◌^◌, [], ltb, leb, ◌==◌, if◌then◌else◌, codes}
use itch_parser.Publish.{Engine, new_engine, set_snapshot_interval, apply}

abbrev pub make_add : ℕ → ℕ → ℕ → ℕ → AddOrderMsg
make_add ref side shares price_raw = record {
  stock_locate = 1;
  tracking_number = 0;
  timestamp = 34200000000000;
  order_ref = ref;
  side = side;
  shares = shares;
  stock = [];
  price = record { raw = price_raw };
}

abbrev pub make_delete : ℕ → OrderDeleteMsg
make_delete ref = record {
  stock_locate = 1;
  tracking_number = 0;
  timestamp = 34200000000001;
  order_ref = ref;
}

abbrev pub make_replace : ℕ → ℕ → ℕ → ℕ → OrderReplaceMsg
make_replace orig next shares price = record {
  stock_locate = 1;
  tracking_number = 0;
  timestamp = 34200000000002;
  original_order_ref = orig;
  new_order_ref = next;
  shares = shares;
  price = record { raw = price };
}

abbrev pub make_execute : ℕ → ℕ → OrderExecutedMsg
make_execute ref shares = record {
  stock_locate = 1;
  tracking_number = 0;
  timestamp = 34200000000003;
  order_ref = ref;
  executed_shares = shares;
  match_number = 0;
}

-- `++i` of an `int` that is not negative, which has no meaning for the largest one.
abbrev pub next_int : ℕ → Result ℕ
next_int i = if ltb (i + 1) (2 ^ 31) then ok (i + 1) else err int_overflow

-- The state of the loops.
pub record OrdersState (D : Type 0) : Type 0 where
  pub engine : Engine D
  pub next_ref : ℕ
  pub idx : ℕ

module _ {D : Type 0} (to_double : ℕ → D) (clock : ℕ → ℕ) where
  abbrev pub applied : ParsedMessage → Engine D → Result (Engine D)
  applied m e = apply to_double (clock e.messages_processed) m e

  -- The loop of `seed_engine`, with `left` rounds from i on.
  unfoldable pub seed_orders : ℕ → ℕ → Engine D → Result (Engine D)
  seed_orders zero i e = ok e
  seed_orders (suc left) i e =
      applied
        (add_order (make_add (i + 1) (if i % 2 == 0 then b'B' else b'S') 100 (1000000 + i % 100))) e
      >>= λ e'. next_int i >>= λ i'. seed_orders left i' e'

  unfoldable pub seed_engine : ℕ → Engine D → Result (Engine D)
  seed_engine n_orders e =
      seed_orders n_orders 0
        (set_snapshot_interval (2 ^ 64 - 1) (record e { core = register_instrument aapl e.core }))

  -- The body of `BM_DeleteOrder`: a new engine is seeded once every order is deleted.
  unfoldable pub delete_round : ℕ → OrdersState D → Result (OrdersState D)
  delete_round n s =
      let next : Engine D → ℕ → Result (OrdersState D) = λ e idx.
        applied (order_delete (make_delete (idx + 1))) e >>= λ e'.
        next_int idx >>= λ idx'. ok (record s { engine = e'; idx = idx' }) in
      if leb n s.idx then (seed_engine n new_engine >>= λ e. next e 0) else next s.engine s.idx

  unfoldable pub bm_delete_order : ℕ → ℕ → Result (OrdersState D)
  bm_delete_order n iterations = seed_engine n new_engine >>= λ e.
      iterate (delete_round n) iterations (record { engine = e; next_ref = 0; idx = 0 })

  -- The bodies of `BM_ReplaceOrder` and `BM_ExecuteOrder`; `idx % n` has no meaning for n = 0.
  unfoldable pub replace_round : ℕ → OrdersState D → Result (OrdersState D)
  replace_round n s =
      if n == 0
      then err division_by_zero
      else applied (order_replace (make_replace (s.idx % n + 1) s.next_ref 200 1000050)) s.engine
        >>= λ e. next_int s.idx >>= λ idx'.
            ok (record { engine = e; next_ref = increment s.next_ref; idx = idx' })

  unfoldable pub bm_replace_order : ℕ → ℕ → Result (OrdersState D)
  bm_replace_order n iterations = seed_engine n new_engine >>= λ e.
      iterate (replace_round n) iterations (record { engine = e; next_ref = n + 1; idx = 0 })

  unfoldable pub execute_round : ℕ → OrdersState D → Result (OrdersState D)
  execute_round n s =
      if n == 0
      then err division_by_zero
      else applied (order_executed (make_execute (s.idx % n + 1) 1)) s.engine >>= λ e.
          next_int s.idx >>= λ idx'. ok (record s { engine = e; idx = idx' })

  unfoldable pub bm_execute_order : ℕ → ℕ → Result (OrdersState D)
  bm_execute_order n iterations = seed_engine n new_engine >>= λ e.
      iterate (execute_round n) iterations (record { engine = e; next_ref = 0; idx = 0 })
