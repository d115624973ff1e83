-- ===== src/Bench/Shootout/Rounds.antt =====
-- What a number of rounds of bench/bench_ladder_shootout.cpp does to each ladder.
use itch_parser.Bench.Shootout.{
  Op, Step, run_op, op_add, op_remove_partial, op_remove_full, LadderOps, run_step,
  run_workload_inner, run_rounds, map_ops, flat_ops, array_ops, slots,
}
use itch_parser.Book.{PriceLevel}
use itch_parser.Ladder.Array.Tracked.{run_array}
use itch_parser.Ladder.Array.{ArrayLadder}
use itch_parser.Ladder.Equivalence.{Operation, add_shares, remove_shares, run_map, run_flat}
use itch_parser.Map.Ordered.{greater}
use itch_parser.Map.{Map}
use itch_parser.Messages.{Price}
use itch_parser.Prelude.{
  ℕ, zero, suc, ◌+◌, ◌<◌, ◌≡◌, refl, ap, subst, sym, ◌∙◌, true, false, List, [], ◌∷◌, ◌++◌, Option,
  none, some, get_elem?, length, length-append, append_assoc, arith, All, ◌==◌, if◌then◌else◌,
}

module _ {ℓ} {A : Type ℓ} where
  pub get_elem_some : (xs : List A) (i : ℕ) → i < length xs → (x : A) × (get_elem? xs i ≡ some x)
  get_elem_some [] i h = absurd (omega arith)
  get_elem_some (x ∷ xs) zero h = (x, refl)
  get_elem_some (x ∷ xs) (suc i) h = get_elem_some xs i (omega arith)

  pub All-get_elem {κ} :
      (P : A → Type κ) (xs : List A) (i : ℕ) (x : A) → get_elem? xs i ≡ some x → All P xs → P x
  All-get_elem P [] i x e h = absurd (cc e)
  All-get_elem P (y ∷ ys) zero x e h = let same : y ≡ x = cc e in subst P same h.0
  All-get_elem P (y ∷ ys) (suc i) x e h = All-get_elem P ys i x e h.1

  pub get_elem-append :
      (xs : List A) (x : A) (ys : List A) → get_elem? (xs ++ x ∷ ys) (length xs) ≡ some x
  get_elem-append [] x ys = refl
  get_elem-append (z ∷ xs) x ys = get_elem-append xs x ys

-- The step after an index, in the order of the rounds.
abbrev pub next_index : List Step → ℕ → ℕ
next_index ops idx = if idx + 1 == length ops then 0 else idx + 1

abbrev pub step_at : Option Step → List Step → List Step
step_at none rest = []
step_at (some s) rest = s ∷ rest

-- The steps that n rounds from an index run.
abbrev pub visited : ℕ → List Step → ℕ → List Step
visited zero ops idx = []
visited (suc n) ops idx = step_at (get_elem? ops idx) (visited n ops (next_index ops idx))

visited_step :
    (n : ℕ) (ops : List Step) (idx : ℕ) (s : Step)
    → get_elem? ops idx ≡ some s
    → visited (suc n) ops idx ≡ s ∷ visited n ops (next_index ops idx)
visited_step n ops idx s there = ap (λ e. step_at e (visited n ops (next_index ops idx))) there

abbrev pub index_after : ℕ → List Step → ℕ → ℕ
index_after zero ops idx = idx
index_after (suc n) ops idx = index_after n ops (next_index ops idx)

pub next_index-lt : (ops : List Step) (idx : ℕ) → idx < length ops → next_index ops idx < length ops
next_index-lt ops idx h = ground arith

pub All-visited {κ} :
    (P : Step → Type κ) (n : ℕ) (ops : List Step) (idx : ℕ)
    → idx < length ops
    → All P ops
    → All P (visited n ops idx)
All-visited P zero ops idx h all = tt
All-visited P (suc n) ops idx h all =
    let (s, there) = get_elem_some ops idx h in
    subst (All P) (sym (visited_step n ops idx s there)) (
      All-get_elem P ops idx s there all,
      All-visited P n ops (next_index ops idx) (next_index-lt ops idx h) all,
    )

pub length-visited :
    (n : ℕ) (ops : List Step) (idx : ℕ) → idx < length ops → length (visited n ops idx) ≡ n
length-visited zero ops idx h = refl
length-visited (suc n) ops idx h =
    let (s, there) = get_elem_some ops idx h in
    ap length (visited_step n ops idx s there)
    ∙ (ap suc (length-visited n ops (next_index ops idx) (next_index-lt ops idx h)))

pub index_after-lt :
    (n : ℕ) (ops : List Step) (idx : ℕ) → idx < length ops → index_after n ops idx < length ops
index_after-lt zero ops idx h = h
index_after-lt (suc n) ops idx h =
    index_after-lt n ops (next_index ops idx) (next_index-lt ops idx h)

-- One pass runs every step once, in order.
pub visited-append : (pre suf : List Step) → visited (length suf) (pre ++ suf) (length pre) ≡ suf
visited-append pre [] = refl
visited-append pre (s ∷ []) =
    visited_step 0 (pre ++ s ∷ []) (length pre) s (get_elem-append pre s [])
visited-append pre (s ∷ t ∷ suf) =
    let shift = append_assoc pre (s ∷ []) (t ∷ suf) in
    let size : length (pre ++ s ∷ []) ≡ length pre + 1 = length-append pre (s ∷ []) in
    let longer : (length pre + 1 == length (pre ++ s ∷ t ∷ suf)) ≡ false =
      ground (arith, length-append pre (s ∷ t ∷ suf)) in
    let rest = rw (shift, size) at (visited-append (pre ++ s ∷ []) (t ∷ suf)) in
    let next : next_index (pre ++ s ∷ t ∷ suf) (length pre) ≡ length pre + 1 = rw longer refl in
    visited_step (length (t ∷ suf)) (pre ++ s ∷ t ∷ suf) (length pre) s
      (get_elem-append pre s (t ∷ suf))
    ∙ ap (◌∷◌ s) (ap (λ i. visited (length (t ∷ suf)) (pre ++ s ∷ t ∷ suf) i) next ∙ rest)

module _ {L : Type 0} (ladder_ops : LadderOps L) where
  abbrev pub run_steps : List Step → L → L
  run_steps [] ladder = ladder
  run_steps (s ∷ steps) ladder = run_steps steps (run_step ladder_ops s ladder)

  pub run_steps-append :
      (xs ys : List Step) (ladder : L)
      → run_steps (xs ++ ys) ladder ≡ run_steps ys (run_steps xs ladder)
  run_steps-append [] ys ladder = refl
  run_steps-append (x ∷ xs) ys ladder = run_steps-append xs ys _

  -- No round of a benchmark reads past the end of the workload.
  pub run_rounds-visited :
      (n : ℕ) (ops : List Step) (ladder : L) (idx : ℕ)
      → idx < length ops
      → run_rounds ladder_ops n ops ladder idx
        ≡ some (run_steps (visited n ops idx) ladder, index_after n ops idx)
  unfolding run_rounds run_workload_inner
  run_rounds-visited zero ops ladder idx h = refl
  run_rounds-visited (suc n) ops ladder idx h =
      let (s, there) = get_elem_some ops idx h in
      rw (run_rounds, run_workload_inner, there)
        (run_rounds-visited n ops (run_step ladder_ops s ladder) (next_index ops idx)
          (next_index-lt ops idx h))

-- The call that a step makes.
abbrev pub operation : Op → Price → ℕ → Operation
operation op_add p shares = add_shares p shares
operation op_remove_partial p shares = remove_shares p shares false
operation op_remove_full p shares = remove_shares p shares true

abbrev pub operation_of : Step → Operation
operation_of s = operation s.op (record { raw = s.price_raw }) s.shares

abbrev pub operations : List Step → List Operation
operations [] = []
operations (s ∷ steps) = operation_of s ∷ operations steps

pub length-operations : (steps : List Step) → length (operations steps) ≡ length steps
length-operations [] = refl
length-operations (s ∷ steps) = ap suc (length-operations steps)

run_map-operation :
    (o : Op) (p : Price) (shares : ℕ) (ops : List Operation) (m : Map PriceLevel)
    → run_map greater (operation o p shares ∷ ops) m
      ≡ run_map greater ops (run_op map_ops o p shares m)
run_map-operation op_add p shares ops m = refl
run_map-operation op_remove_partial p shares ops m = refl
run_map-operation op_remove_full p shares ops m = refl

run_flat-operation :
    (o : Op) (p : Price) (shares : ℕ) (ops : List Operation) (levels : List PriceLevel)
    → run_flat greater (operation o p shares ∷ ops) levels
      ≡ run_flat greater ops (run_op flat_ops o p shares levels)
run_flat-operation op_add p shares ops levels = refl
run_flat-operation op_remove_partial p shares ops levels = refl
run_flat-operation op_remove_full p shares ops levels = refl

run_array-operation :
    (o : Op) (p : Price) (shares : ℕ) (ops : List Operation) (a : ArrayLadder)
    → run_array true slots 100 (operation o p shares ∷ ops) a
      ≡ run_array true slots 100 ops (run_op array_ops o p shares a)
run_array-operation op_add p shares ops a = refl
run_array-operation op_remove_partial p shares ops a = refl
run_array-operation op_remove_full p shares ops a = refl

pub run_steps-run_map :
    (steps : List Step) (m : Map PriceLevel)
    → run_steps map_ops steps m ≡ run_map greater (operations steps) m
unfolding run_step
run_steps-run_map [] m = refl
run_steps-run_map (s ∷ steps) m =
    run_steps-run_map steps _
    ∙ sym (run_map-operation s.op (record { raw = s.price_raw }) s.shares (operations steps) m)

pub run_steps-run_flat :
    (steps : List Step) (levels : List PriceLevel)
    → run_steps flat_ops steps levels ≡ run_flat greater (operations steps) levels
unfolding run_step
run_steps-run_flat [] levels = refl
run_steps-run_flat (s ∷ steps) levels =
    run_steps-run_flat steps _
    ∙ sym
        (run_flat-operation s.op (record { raw = s.price_raw }) s.shares (operations steps) levels)

pub run_steps-run_array :
    (steps : List Step) (a : ArrayLadder)
    → run_steps array_ops steps a ≡ run_array true slots 100 (operations steps) a
unfolding run_step
run_steps-run_array [] a = refl
run_steps-run_array (s ∷ steps) a =
    run_steps-run_array steps _
    ∙ sym (run_array-operation s.op (record { raw = s.price_raw }) s.shares (operations steps) a)
