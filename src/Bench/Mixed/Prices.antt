-- ===== src/Bench/Mixed/Prices.antt =====
-- The prices that `make_price_distribution` of bench/bench_mixed_workload.cpp draws.
use itch_parser.Bench.Draws.{Random}
use itch_parser.Bench.Mixed.{capped, make_price_distribution}
use itch_parser.Prelude.Int.{ℤ, pos, negsuc}
use itch_parser.Prelude.{ℕ, zero, suc, ◌+◌, ◌*◌, ◌^◌, ◌≤◌, ◌<◌, ◌≡◌, refl, ap, length, All, arith}

capped_lem :
    (mid spread : ℕ) (offset : ℤ)
    → 4 * spread ≤ mid
    → mid + 4 * spread < 2 ^ 32
    → let p = capped mid spread offset in (mid ≤ p + 4 * spread) × (p ≤ mid + 4 * spread)
unfolding capped
capped_lem mid spread (pos n) low high = (ground arith, ground arith)
capped_lem mid spread (negsuc n) low high = (ground arith, ground arith)

module _ {G D : Type 0} (r : Random G D) where
  -- Whatever is drawn, `make_price_distribution` gives as many prices as asked for, all within four
  -- spreads of the middle, where that band lies within the numbers of 32 bits.
  pub make_price_distribution_lem :
      (n mid spread : ℕ) (g : G)
      → 4 * spread ≤ mid
      → mid + 4 * spread < 2 ^ 32
      → let prices = make_price_distribution r n mid spread g in
        (length prices ≡ n) × All (λ p. (mid ≤ p + 4 * spread) × (p ≤ mid + 4 * spread)) prices
  unfolding make_price_distribution
  make_price_distribution_lem zero mid spread g low high = (refl, tt)
  make_price_distribution_lem (suc n) mid spread g low high =
      let (sized, all) = make_price_distribution_lem n mid spread _ low high in
      (ap suc sized, (capped_lem mid spread _ low high, all))
