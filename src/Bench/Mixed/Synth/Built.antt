-- ===== src/Bench/Mixed/Synth/Built.antt =====
-- The references of the workload that bench/bench_mixed_workload.cpp builds.
use itch_parser.Bench.Draws.{Random}
use itch_parser.Bench.Mixed.Synth.Admissible.{next_after, AllNumbered}
use itch_parser.Bench.Mixed.Synth.{
  Step, Building, add_step, resting_steps, mix_step, mix_steps, synth_ops,
}
use itch_parser.Bench.Mixed.{make_price_distribution}
use itch_parser.Prelude.{
  ℕ, zero, suc, ◌+◌, ◌^◌, ◌≤◌, ◌<◌, ◌≡◌, refl, ap, sym, subst, ◌∙◌, not, ◌&&◌, ◌||◌, List, [], ◌∷◌,
  ◌++◌, length, length-append, arith, ltb, ◌==◌, inl, inr, Bool-cases,
}

-- The next reference after some steps.
abbrev next_all : ℕ → List Step → ℕ
next_all n [] = n
next_all n (s ∷ steps) = next_all (next_after s.op n) steps

AllNumbered-append :
    (n : ℕ) (xs ys : List Step)
    → AllNumbered n xs
    → AllNumbered (next_all n xs) ys
    → AllNumbered n (xs ++ ys)
AllNumbered-append n [] ys h h' = h'
AllNumbered-append n (s ∷ xs) ys h h' = (h.0, AllNumbered-append (next_after s.op n) xs ys h.1 h')

-- What a loop of the generator has built from a reference on.
record IsBuilt {G : Type 0} (n : ℕ) (b : Building G) (steps : List Step) (b' : Building G)
    : Type 0 where
  sized : length steps ≡ n
  numbered : AllNumbered b.next_ref steps
  next : next_all b.next_ref steps ≡ b'.next_ref
  near : b'.next_ref ≤ b.next_ref + n

module _ {G : Type 0} where
  IsBuilt-none : (b : Building G) → IsBuilt 0 b [] b
  IsBuilt-none b = record { sized = refl; numbered = tt; next = refl; near = omega arith }

  IsBuilt-step :
      (n : ℕ) (b b' b'' : Building G) (s : Step) (steps : List Step)
      → IsBuilt 1 b (s ∷ []) b'
      → IsBuilt n b' steps b''
      → IsBuilt (suc n) b (s ∷ steps) b''
  IsBuilt-step n b b' b'' s steps first rest = record {
    sized = ap suc rest.sized;
    numbered = (first.numbered.0, subst (λ k. AllNumbered k steps) (sym first.next) rest.numbered);
    next = ap (λ k. next_all k steps) first.next ∙ rest.next;
    near = omega (arith, first.near, rest.near);
  }

module _ {G D : Type 0} (r : Random G D) (prices : List ℕ) (n_distinct : ℕ) where
  add_step-IsBuilt :
      (b : Building G)
      → b.next_ref + 1 < 2 ^ 64
      → let (s, b') = add_step r prices n_distinct b in IsBuilt 1 b (s ∷ []) b'
  unfolding add_step
  add_step-IsBuilt b fits = record {
    sized = refl;
    numbered = ((refl, omega arith), tt);
    next = omega (arith, fits);
    near = omega (arith, fits);
  }

  resting_steps-IsBuilt :
      (n : ℕ) (b : Building G)
      → b.next_ref + n < 2 ^ 64
      → let (steps, b') = resting_steps r prices n_distinct n b in IsBuilt n b steps b'
  unfolding resting_steps
  resting_steps-IsBuilt zero b fits = IsBuilt-none b
  resting_steps-IsBuilt (suc n) b fits =
      let (s, b') = add_step r prices n_distinct b in
      let first = add_step-IsBuilt b (omega arith) in
      IsBuilt-step n b b' _ s _ first (resting_steps-IsBuilt n b' (omega (arith, first.near, fits)))

  mix_step-IsBuilt :
      (b : Building G)
      → b.next_ref + 1 < 2 ^ 64
      → let (s, b') = mix_step r prices n_distinct b in IsBuilt 1 b (s ∷ []) b'
  unfolding mix_step
  mix_step-IsBuilt b fits =
      let (draw, g) = r.uniform 0 99 b.generator in
      let empty = length b.live == 0 in
      elim (Bool-cases (ltb draw 75 && not empty)) [
        | inl deletes ↦
            rw deletes
              (record { sized = refl; numbered = (tt, tt); next = refl; near = omega arith })
        | inr others ↦ elim (Bool-cases (ltb draw 95 || empty)) [
          | inl adds ↦
              let added = add_step-IsBuilt (record b { generator = g }) fits in
              rw (others, adds)
                (record {
                  sized = refl;
                  numbered = added.numbered;
                  next = added.next;
                  near = added.near;
                })
          | inr executes ↦
              rw (others, executes)
                (record { sized = refl; numbered = (tt, tt); next = refl; near = omega arith })
        ]
      ]

  mix_steps-IsBuilt :
      (n : ℕ) (b : Building G)
      → b.next_ref + n < 2 ^ 64
      → let (steps, b') = mix_steps r prices n_distinct n b in IsBuilt n b steps b'
  unfolding mix_steps
  mix_steps-IsBuilt zero b fits = IsBuilt-none b
  mix_steps-IsBuilt (suc n) b fits =
      let (s, b') = mix_step r prices n_distinct b in
      let first = mix_step-IsBuilt b (omega arith) in
      IsBuilt-step n b b' _ s _ first (mix_steps-IsBuilt n b' (omega (arith, first.near, fits)))

pub synth_ops-AllNumbered :
    {G D : Type 0} (r : Random G D) (n_distinct n_resting n_replay : ℕ) (g_prices g : G)
    → n_resting + n_replay + 1 < 2 ^ 32
    → let ops = synth_ops r n_distinct n_resting n_replay g_prices g in
      AllNumbered 1 ops × (length ops ≡ n_resting + n_replay)
unfolding synth_ops
synth_ops-AllNumbered r n_distinct n_resting n_replay g_prices g fits =
    let prices = make_price_distribution r n_distinct 1000000 2500 g_prices in
    let start : Building _ = record { live = []; next_ref = 1; generator = g } in
    let (resting, b) = resting_steps r prices n_distinct n_resting start in
    let steps = (mix_steps r prices n_distinct n_replay b).0 in
    let first = resting_steps-IsBuilt r prices n_distinct n_resting start (omega arith) in
    let rest = mix_steps-IsBuilt r prices n_distinct n_replay b (omega (arith, first.near, fits)) in
    (
      AllNumbered-append 1 resting steps first.numbered
          (subst (λ k. AllNumbered k steps) (sym first.next) rest.numbered),
      length-append resting steps ∙ omega (arith, first.sized, rest.sized),
    )
