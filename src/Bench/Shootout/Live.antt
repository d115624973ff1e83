-- ===== src/Bench/Shootout/Live.antt =====
-- The loops of `build_workload` in bench/bench_ladder_shootout.cpp, with what a ladder that runs
-- their steps holds.
use itch_parser.Bench.Draws.{
  Random, item, push_back, swap_remove, count-item, length-push_back, count-swap_remove,
  length-swap_remove,
}
use itch_parser.Bench.Shootout.Rounds.{run_steps, run_steps-append}
use itch_parser.Bench.Shootout.Workload.{
  IsSlotPrice, to_tick-IsSlotPrice, All-item, All-push_back, All-swap_remove, Holds,
  map_add_shares-Holds, map_remove_shares-Holds,
}
use itch_parser.Bench.Shootout.{
  Step, op_add, op_remove_partial, op_remove_full, sample_price, seed_steps, replay_step,
  replay_steps, build_workload, run_step, map_ops,
}
use itch_parser.Book.{PriceLevel}
use itch_parser.Map.{Map, find}
use itch_parser.Prelude.{
  ℕ, zero, suc, ◌+◌, ◌-◌, ◌^◌, ◌≤◌, ◌<◌, ◌≡◌, refl, ap, sym, ◌∙◌, subst, Bool, true, false, ◌&&◌,
  ◌||◌, List, [], ◌∷◌, ◌++◌, length, length-append, All-append, ltb, ◌==◌, arith, All, inl, inr,
  Bool-cases,
}

-- A step at a price of a slot, whose shares are a `uint32_t`.
abbrev pub IsStep : Step → Type 0
IsStep s = IsSlotPrice s.price_raw × (s.shares < 2 ^ 32)

-- After steps that the workload made: they are at prices of the slots, as are the live orders, and
-- the map that has run them holds the live orders.
pub record Made (n : ℕ) (live : List ℕ) (m : Map PriceLevel) (steps : List Step) (live' : List ℕ)
    : Type 0 where
  pub sized : length steps ≡ n
  pub priced : All IsStep steps
  pub band : All IsSlotPrice live'
  pub bounded : length live' ≤ length live + n
  pub holds : Holds live' (run_steps map_ops steps m)

Made-none :
    (live : List ℕ) (m : Map PriceLevel)
    → All IsSlotPrice live
    → Holds live m
    → Made 0 live m [] live
Made-none live m band v = record {
  sized = refl;
  priced = tt;
  band = band;
  bounded = omega arith;
  holds = v;
}

-- One step before others.
Made-step :
    (n : ℕ) (live live' live'' : List ℕ) (m : Map PriceLevel) (s : Step) (steps : List Step)
    → Made 1 live m (s ∷ []) live'
    → Made n live' (run_step map_ops s m) steps live''
    → Made (suc n) live m (s ∷ steps) live''
Made-step n live live' live'' m s steps first rest = record {
  sized = ap suc rest.sized;
  priced = (first.priced.0, rest.priced);
  band = rest.band;
  bounded = omega (arith, first.bounded, rest.bounded);
  holds = rest.holds;
}

-- Two runs of steps.
Made-append :
    (n n' : ℕ) (live live' live'' : List ℕ) (m : Map PriceLevel) (steps steps' : List Step)
    → Made n live m steps live'
    → Made n' live' (run_steps map_ops steps m) steps' live''
    → Made (n + n') live m (steps ++ steps') live''
Made-append n n' live live' live'' m steps steps' first rest = record {
  sized = length-append steps steps' ∙ omega (arith, first.sized, rest.sized);
  priced = All-append IsStep steps steps' first.priced rest.priced;
  band = rest.band;
  bounded = omega (arith, first.bounded, rest.bounded);
  holds = subst (Holds live'') (sym (run_steps-append map_ops steps steps' m)) rest.holds;
}

module _ (live : List ℕ) (m : Map PriceLevel) (band : All IsSlotPrice live) (v : Holds live m) where
  Made-add :
      (p : ℕ)
      → length live + 1 < 2 ^ 32
      → IsSlotPrice p
      → Made 1 live m (record { op = op_add; price_raw = p; shares = 100 } ∷ []) (push_back live p)
  unfolding run_step
  Made-add p fits own = record {
    sized = refl;
    priced = ((own, omega arith), tt);
    band = All-push_back p live own band;
    bounded = omega (arith, length-push_back p live);
    holds = map_add_shares-Holds live m v (record { raw = p }) 100 fits;
  }

  Made-remove_full :
      (i : ℕ)
      → length live < 2 ^ 32
      → i < length live
      → Made 1 live m
          (record { op = op_remove_full; price_raw = item live i; shares = 100 } ∷ [])
          (swap_remove i live)
  unfolding run_step
  Made-remove_full i fits h = record {
    sized = refl;
    priced = ((All-item live i h band, omega arith), tt);
    band = All-swap_remove i live h band;
    bounded = omega (arith, length-swap_remove i live h);
    holds =
        map_remove_shares-Holds live m v (record { raw = item live i }) 100 true
          (swap_remove i live) fits (count-item i live h) (λ q. count-swap_remove q i live h);
  }

  Made-remove_partial :
      (i : ℕ)
      → length live < 2 ^ 32
      → i < length live
      → Made 1 live m
          (record { op = op_remove_partial; price_raw = item live i; shares = 1 } ∷ [])
          live
  unfolding run_step
  Made-remove_partial i fits h = record {
    sized = refl;
    priced = ((All-item live i h band, omega arith), tt);
    band = band;
    bounded = omega arith;
    holds =
        map_remove_shares-Holds live m v (record { raw = item live i }) 1 false live fits
          (count-item i live h) (λ q. omega arith);
  }

and_false : (b : Bool) → b && false ≡ false
and_false true = refl
and_false false = refl

or_true : (b : Bool) → b || true ≡ true
or_true true = refl
or_true false = refl

module _ {G D : Type 0} (r : Random G D) where
  sample_price-IsSlotPrice : (g : G) → IsSlotPrice (sample_price r g).0
  unfolding sample_price
  sample_price-IsSlotPrice g = to_tick-IsSlotPrice _

  seed_steps-Made :
      (n : ℕ) (live : List ℕ) (g : G) (m : Map PriceLevel)
      → length live + n < 2 ^ 32
      → All IsSlotPrice live
      → Holds live m
      → let (steps, live', g') = seed_steps r n live g in Made n live m steps live'
  unfolding seed_steps
  seed_steps-Made zero live g m fits band v = Made-none live m band v
  seed_steps-Made (suc n) live g m fits band v =
      let (p, g') = sample_price r g in
      let first = Made-add live m band v p (omega arith) (sample_price-IsSlotPrice g) in
      Made-step n live (push_back live p) _ m _ _ first (
        seed_steps-Made n (push_back live p) g' _ (omega (arith, length-push_back p live))
          first.band first.holds)

  -- The three branches of the second loop.
  replay_step-Made :
      (live : List ℕ) (g : G) (m : Map PriceLevel)
      → length live + 1 < 2 ^ 32
      → All IsSlotPrice live
      → Holds live m
      → let (step, live', g') = replay_step r live g in Made 1 live m (step ∷ []) live'
  unfolding replay_step
  replay_step-Made live g m fits band v =
      let (draw, g') = r.uniform 0 99 g in
      let added = Made-add live m band v (sample_price r g').0 fits (sample_price-IsSlotPrice g') in
      let idx = (r.uniform 0 (length live - 1) g').0 in
      let high = r.uniform_high 0 (length live - 1) g' (omega arith) in
      elim (Bool-cases (length live == 0)) [
        | inl none_live ↦ rw (none_live, and_false (ltb draw 75), or_true (ltb draw 95)) added
        | inr some_live ↦
            let inside : idx < length live = ground (arith, some_live, high) in
            elim (Bool-cases (ltb draw 75)) [
              | inl removes ↦
                  rw (some_live, removes) (Made-remove_full live m band v idx (omega arith) inside)
              | inr high_draw ↦ elim (Bool-cases (ltb draw 95)) [
                | inl adds ↦ rw (some_live, high_draw, adds) added
                | inr executes ↦
                    rw (some_live, high_draw, executes)
                      (Made-remove_partial live m band v idx (omega arith) inside)
              ]
            ]
      ]

  replay_steps-Made :
      (n : ℕ) (live : List ℕ) (g : G) (m : Map PriceLevel)
      → length live + n < 2 ^ 32
      → All IsSlotPrice live
      → Holds live m
      → let (steps, live', g') = replay_steps r n live g in Made n live m steps live'
  unfolding replay_steps
  replay_steps-Made zero live g m fits band v = Made-none live m band v
  replay_steps-Made (suc n) live g m fits band v =
      let (step, live', g') = replay_step r live g in
      let first = replay_step-Made live g m (omega arith) band v in
      Made-step n live live' _ m step _ first
        (replay_steps-Made n live' g' _ (omega (arith, first.bounded)) first.band first.holds)

  pub build_workload-Made :
      (n_seed n_replay : ℕ) (g : G)
      → n_seed + n_replay < 2 ^ 32
      → let (steps, live) = build_workload r n_seed n_replay g in
        Made (n_seed + n_replay) [] [] steps live
  unfolding build_workload find
  build_workload-Made n_seed n_replay g fits =
      let (seeds, live, g') = seed_steps r n_seed [] g in
      let start : Holds [] [] = record { orders = λ q. refl; filled = λ q lvl e. absurd (cc e) } in
      let seeded = seed_steps-Made n_seed [] g [] (omega (arith, fits)) tt start in
      Made-append n_seed n_replay [] live _ [] seeds _ seeded (
        replay_steps-Made n_replay live g' _ (omega (arith, fits, seeded.bounded)) seeded.band
          seeded.holds)
