-- ===== src/Bench/Mixed/Synth/Admissible.antt =====
-- One pass of the synthetic mix of bench/bench_mixed_workload.cpp is a history that the engine's
-- invariant covers: every addition has a reference that no live order has.
use itch_parser.Bench.Mixed.Synth.{Op, op_add, op_delete, op_execute, Step, message_for, message_of}
use itch_parser.Bench.Mixed.{make_add, make_delete, make_execute}
use itch_parser.Bench.Orders.Index.{
  is_some, knows, knows-some, knows-none, knows-assign, knows-erase, order_index-add_order,
  order_index-order_delete,
}
use itch_parser.Book.{OrderRecord}
use itch_parser.Engine.Consistency.Run.{Admissible, AllAdmissible}
use itch_parser.Engine.Effects.{refers_to, handle_unknown_ref, reduce_order-order_index, left}
use itch_parser.Engine.{Core, handle}
use itch_parser.Map.Total.{length-assign_new, length-assign_old, length-erase-le}
use itch_parser.Map.{Map, find, erase}
use itch_parser.Messages.{ParsedMessage, add_order, order_delete, order_executed}
use itch_parser.Prelude.{
  ℕ, ◌+◌, ◌^◌, ◌≤◌, ◌<◌, ◌≡◌, refl, ap, sym, ◌∙◌, subst, true, false, List, [], ◌∷◌, none, some,
  length, map, arith, ◌==◌, inl, inr, Bool-cases, ==_iff,
}

-- The orders that the engine knows have references below n, and are fewer than n.
pub record IsBelow (n : ℕ) (c : Core) : Type 0 where
  pub refs : (j : ℕ) → knows c j ≡ true → j < n
  pub few : length c.order_index + 1 ≤ n

-- No new order.
IsBelow-shrinks :
    (n : ℕ) (c d : Core)
    → ((j : ℕ) → knows d j ≡ true → knows c j ≡ true)
    → length d.order_index ≤ length c.order_index
    → IsBelow n c
    → IsBelow n d
IsBelow-shrinks n c d kept size b = record {
  refs = λ j h. b.refs j (kept j h);
  few = omega (arith, size, b.few);
}

unknown : (n : ℕ) (c : Core) → IsBelow n c → knows c n ≡ false
unknown n c b = elim (Bool-cases (knows c n)) [
  | inl known ↦ absurd (omega (arith, b.refs n known))
  | inr new ↦ new
]

IsBelow-add :
    (n side shares price : ℕ) (c : Core)
    → IsBelow n c
    → IsBelow (n + 1) (handle (add_order (make_add n side shares price 1)) c)
IsBelow-add n side shares price c b =
    let (rec, same) = order_index-add_order (make_add n side shares price 1) c in
    let size = length-assign_new n rec c.order_index (knows-none c n (unknown n c b)) in
    record {
      refs = λ j h.
          let now =
            sym (knows-assign n j rec c.order_index)
            ∙ ap (λ m. is_some (find j m)) (sym same)
            ∙ h in
          elim (Bool-cases (n == j)) [
            | inl own ↦ ground (arith, own)
            | inr other ↦ omega (arith, b.refs j (rw other at now))
          ];
      few = rw same (omega (arith, size, b.few));
    }

-- An unknown reference changes no index.
IsBelow-unknown :
    (n k : ℕ) (m : ParsedMessage) (c : Core)
    → refers_to m ≡ some k
    → knows c k ≡ false
    → IsBelow n c
    → IsBelow n (handle m c)
IsBelow-unknown n k m c r h b =
    let skipped = handle_unknown_ref m c k r (knows-none c k h) in
    subst (IsBelow n) (sym skipped) (record { refs = b.refs; few = b.few })

knows_erased :
    (k j : ℕ) (m : Map OrderRecord)
    → is_some (find j (erase k m)) ≡ true
    → is_some (find j m) ≡ true
knows_erased k j m h = ground (arith, knows-erase k j m, h)

IsBelow-delete :
    (n k : ℕ) (c : Core) → IsBelow n c → IsBelow n (handle (order_delete (make_delete k 1)) c)
IsBelow-delete n k c b = elim (Bool-cases (knows c k)) [
  | inl known ↦
      let same = order_index-order_delete (make_delete k 1) c known in
      IsBelow-shrinks n c _
        (λ j h. knows_erased k j c.order_index (ap (λ m. is_some (find j m)) (sym same) ∙ h))
        (rw same (length-erase-le k c.order_index)) b
  | inr new ↦ IsBelow-unknown n k (order_delete (make_delete k 1)) c refl new b
]

IsBelow-execute :
    (n k shares : ℕ) (c : Core)
    → IsBelow n c
    → IsBelow n (handle (order_executed (make_execute k shares 1)) c)
unfolding handle
IsBelow-execute n k shares c b = elim (Bool-cases (knows c k)) [
  | inl known ↦
      let (rec, there) = knows-some c k known in
      let t : ℕ = 34200000000002 in
      let same = reduce_order-order_index k shares t c rec there in
      elim (Bool-cases (left k shares t c rec there == 0)) [
        | inl gone ↦
            let same' = rw gone at same in
            IsBelow-shrinks n c _
              (λ j h. knows_erased k j c.order_index (ap (λ m. is_some (find j m)) (sym same') ∙ h))
              (rw same' (length-erase-le k c.order_index)) b
        | inr kept ↦
            let same' = rw kept at same in
            let rec' = record rec { shares = left k shares t c rec there } in
            IsBelow-shrinks n c _
              (λ j h.
                let now =
                  sym (knows-assign k j rec' c.order_index)
                  ∙ ap (λ m. is_some (find j m)) (sym same')
                  ∙ h in
                elim (Bool-cases (k == j)) [
                  | inl own ↦ subst (λ i. knows c i ≡ true) ((==_iff k j).0 own) known
                  | inr other ↦ rw other at now
                ])
              (rw same' (omega (arith, length-assign_old k rec' rec c.order_index there))) b
      ]
  | inr new ↦ IsBelow-unknown n k (order_executed (make_execute k shares 1)) c refl new b
]

-- The next reference, and the additions' references one after another.
abbrev pub next_after : Op → ℕ → ℕ
next_after op_add n = n + 1
next_after op_delete n = n
next_after op_execute n = n

abbrev pub IsNumbered : Op → Step → ℕ → Type 0
IsNumbered op_add s n = (s.ref ≡ n) × (s.shares < 2 ^ 32)
IsNumbered op_delete s n = Unit
IsNumbered op_execute s n = Unit

abbrev pub AllNumbered : ℕ → List Step → Type 0
AllNumbered n [] = Unit
AllNumbered n (s ∷ steps) = IsNumbered s.op s n × AllNumbered (next_after s.op n) steps

step_lem :
    (o : Op) (s : Step) (n : ℕ) (c : Core)
    → IsNumbered o s n
    → n + 1 < 2 ^ 32
    → IsBelow n c
    → Admissible (message_for o s) c
      × IsBelow (next_after o n) (handle (message_for o s) c)
      × (next_after o n ≤ n + 1)
step_lem op_add s n c (own, fits) short b = (
  (
    subst (λ k. find k c.order_index ≡ none) (sym own) (knows-none c n (unknown n c b)),
    fits,
    omega (arith, b.few, short),
  ),
  subst (λ k. IsBelow (n + 1) (handle (add_order (make_add k s.side s.shares s.price_raw 1)) c))
      (sym own) (IsBelow-add n s.side s.shares s.price_raw c b),
  omega arith,
)
step_lem op_delete s n c own short b = (tt, IsBelow-delete n s.ref c b, omega arith)
step_lem op_execute s n c own short b = (tt, IsBelow-execute n s.ref s.shares c b, omega arith)

pub AllNumbered-AllAdmissible :
    (steps : List Step) (n : ℕ) (c : Core)
    → AllNumbered n steps
    → n + length steps < 2 ^ 32
    → IsBelow n c
    → AllAdmissible (map message_of steps) c
AllNumbered-AllAdmissible [] n c all short b = tt
AllNumbered-AllAdmissible (s ∷ steps) n c all short b =
    let (admissible, below, near) = step_lem s.op s n c all.0 (omega arith) b in
    (
      admissible,
      AllNumbered-AllAdmissible steps (next_after s.op n) _ all.1 (omega (arith, near, short))
          below,
    )
