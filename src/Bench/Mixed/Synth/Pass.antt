-- ===== src/Bench/Mixed/Synth/Pass.antt =====
-- One pass of `BM_ApplyMixed_Synth` of bench/bench_mixed_workload.cpp.
use itch_parser.Bench.Mixed.Synth.Built.{synth_ops-AllNumbered}
use itch_parser.Bench.Draws.{Random}
use itch_parser.Bench.Loop.{iterate, register_aapl, Runs, apply-Runs}
use itch_parser.Bench.Mixed.Synth.Admissible.{IsBelow, AllNumbered-AllAdmissible}
use itch_parser.Bench.Mixed.Synth.{Step, synth_ops, message_of, synth_round, run_synth}
use itch_parser.Bench.Shootout.Rounds.{get_elem-append}
use itch_parser.Engine.Consistency.Run.{handle_all-IsConsistent, new_core-IsConsistent}
use itch_parser.Engine.Consistency.{IsConsistent}
use itch_parser.Engine.Slots.{Slot, level, orders_at, shares_at}
use itch_parser.Engine.{register_instrument, handle_all}
use itch_parser.Map.{find}
use itch_parser.Prelude.Result.{ok}
use itch_parser.Prelude.{
  ℕ, ◌+◌, ◌-◌, ◌%◌, ◌^◌, ◌<◌, ◌≡◌, refl, ap, sym, subst, ◌∙◌, List, [], ◌∷◌, ◌++◌, some, get_elem?,
  length, length-append, append_assoc, map, arith,
}
use itch_parser.Publish.{Engine, new_engine, set_snapshot_interval, current}
use native.Mathlib.Nat.{mod-eq_of_lt}

module _ {S : Type 0} (to_double : ℕ → S) (clock : ℕ → ℕ) where
  -- The rounds over the last steps of the workload.
  rounds_lem :
      (ops pre suf : List Step) (idx : ℕ) (e : Engine S)
      → ops ≡ pre ++ suf
      → (0 < length suf → idx ≡ length pre)
      → Runs (length suf) e
      → (d : Engine S) × (idx' : ℕ) × (iterate
            (synth_round to_double clock ops)
            (length suf)
            (e, idx)
          ≡ ok (d, idx'))
        × (d.core ≡ handle_all (map message_of suf) e.core)
  unfolding synth_round handle_all
  rounds_lem ops pre [] idx e split at runs = (e, idx, refl, refl)
  rounds_lem ops pre (s ∷ suf) idx e split at runs =
      let here = at (omega arith) in
      let (e', went, core, runs') =
        apply-Runs to_double (clock e.messages_processed) (length suf) (message_of s) e runs in
      let there : get_elem? ops idx ≡ some s =
        ap (λ l. get_elem? l idx) split
        ∙ ap (get_elem? (pre ++ s ∷ suf)) here
        ∙ get_elem-append pre s suf in
      let round : synth_round to_double clock ops (e, idx) ≡ ok (e', (idx + 1) % length ops) =
        rw (synth_round, there, went) refl in
      let split' : ops ≡ (pre ++ s ∷ []) ++ suf = split ∙ sym (append_assoc pre (s ∷ []) suf) in
      let size : length ops ≡ length pre + length (s ∷ suf) =
        ap length split ∙ length-append pre (s ∷ suf) in
      let size' = length-append pre (s ∷ []) in
      let at' : 0 < length suf → (idx + 1) % length ops ≡ length (pre ++ s ∷ []) = λ more.
        mod-eq_of_lt {n = idx + 1} {m = length ops} (omega (arith, here, size, more))
        ∙ omega (arith, here, size') in
      let (d, idx', rest, core') =
        rounds_lem ops (pre ++ s ∷ []) suf ((idx + 1) % length ops) e' split' at' runs' in
      (d, idx', rw round rest, core' ∙ ap (handle_all (map message_of suf)) core)

  -- One pass of `BM_ApplyMixed_Synth` over its workload, whatever is drawn, and with fewer than
  -- 2 ^ 32 steps, runs to its end and applies as many steps as were asked for. After it the book
  -- shows in every slot the number of the live orders that rest there and the sum of their shares.
  pub run_synth_lem :
      {G D : Type 0} (r : Random G D) (n_distinct n_resting n_replay : ℕ) (g_prices g : G)
      (slot : Slot)
      → n_resting + n_replay + 1 < 2 ^ 32
      → let ops = synth_ops r n_distinct n_resting n_replay g_prices g in
        (d : Engine S) × (idx : ℕ) × (run_synth to_double clock ops (length ops) ≡ ok (d, idx))
        × (length ops ≡ n_resting + n_replay)
        × ((level d.core.books slot).order_count ≡ orders_at slot d.core.order_index)
        × ((level d.core.books slot).total_shares ≡ shares_at slot d.core.order_index)
  unfolding run_synth register_aapl register_instrument set_snapshot_interval current find
  run_synth_lem r n_distinct n_resting n_replay g_prices g slot fits =
      let ops = synth_ops r n_distinct n_resting n_replay g_prices g in
      let (numbered, sized) =
        synth_ops-AllNumbered r n_distinct n_resting n_replay g_prices g fits in
      let start = set_snapshot_interval (2 ^ 64 - 1) (register_aapl (new_engine {D = S})) in
      let empty : IsBelow 1 start.core = record {
        refs = λ j h. absurd (cc h);
        few = omega arith;
      } in
      let consistent : IsConsistent start.core = record {
        distinct = new_core-IsConsistent.distinct;
        small = new_core-IsConsistent.small;
        fits = new_core-IsConsistent.fits;
        agrees = new_core-IsConsistent.agrees;
      } in
      let admissible =
        AllNumbered-AllAdmissible ops 1 start.core numbered (omega (arith, sized, fits)) empty in
      let (d, idx, run, core) =
        rounds_lem ops [] ops 0 start refl (λ h. refl)
          (record { interval = refl; room = omega (arith, sized, fits); recent = refl }) in
      let end : IsConsistent d.core =
        subst IsConsistent (sym core)
          (handle_all-IsConsistent (map message_of ops) start.core admissible consistent) in
      (d, idx, run, sized, (end.agrees slot).0, (end.agrees slot).1)
