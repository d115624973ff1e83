-- ===== src/Ladder/Equivalence.antt =====
-- The flat ladder holds, in order, the levels of the map ladder, after any sequence of operations.
use itch_parser.Book.Order.{All-place}
use itch_parser.Ladder.Adds.{levels_of, IsFiled, levels_of-map_add_shares}
use itch_parser.Ladder.Removals.{levels_of-map_remove_shares}
use itch_parser.Book.{PriceLevel}
use itch_parser.Ladder.{
  shrunk, map_add_shares, map_remove_shares, flat_add_shares, flat_remove_shares,
}
use itch_parser.Map.Ordered.{Compare, IsSorted, place-IsSorted, erase-IsSorted, assign-IsSorted}
use itch_parser.Map.Total.{All-assign, All-erase, All-find}
use itch_parser.Map.{Map, find, assign, erase}
use itch_parser.Messages.{Price}
use itch_parser.Prelude.{
  ℕ, ◌^◌, ◌<◌, ◌≡◌, refl, ap, sym, subst, ◌∙◌, Bool, List, [], ◌∷◌, All, ◌==◌, arith, inl, inr,
  Bool-cases, Option-cases,
}

-- The calls that change a ladder.
pub data Operation : Type 0 where
  add_shares : Price → ℕ → Operation
  remove_shares : Price → ℕ → Bool → Operation

abbrev pub FitsOperation : Operation → Type 0
FitsOperation (add_shares p shares) = shares < 2 ^ 32
FitsOperation (remove_shares p shares full) = shares < 2 ^ 32

module _ (c : Compare) where
  abbrev pub run_map : List Operation → Map PriceLevel → Map PriceLevel
  run_map [] m = m
  run_map (add_shares p shares ∷ ops) m = run_map ops (map_add_shares c p shares m)
  run_map (remove_shares p shares full ∷ ops) m = run_map ops (map_remove_shares c p shares full m)

  abbrev pub run_flat : List Operation → List PriceLevel → List PriceLevel
  run_flat [] levels = levels
  run_flat (add_shares p shares ∷ ops) levels = run_flat ops (flat_add_shares c p shares levels)
  run_flat (remove_shares p shares full ∷ ops) levels =
      run_flat ops (flat_remove_shares c p shares full levels)

  pub map_add_shares-IsSorted :
      (p : Price) (shares : ℕ) (m : Map PriceLevel)
      → IsSorted c m
      → IsSorted c (map_add_shares c p shares m)
  unfolding map_add_shares
  map_add_shares-IsSorted p shares m s = place-IsSorted c p.raw _ m s

  pub map_add_shares-IsFiled :
      (p : Price) (shares : ℕ) (m : Map PriceLevel)
      → IsFiled m
      → IsFiled (map_add_shares c p shares m)
  unfolding map_add_shares
  map_add_shares-IsFiled p shares m f =
      All-place (λ e. e.0 ≡ e.1.price.raw) c.before p.raw _ m refl f

  pub map_remove_shares-keeps :
      (p : Price) (shares : ℕ) (full : Bool) (m : Map PriceLevel)
      → IsSorted c m
      → IsFiled m
      → IsSorted c (map_remove_shares c p shares full m)
        × IsFiled (map_remove_shares c p shares full m)
  unfolding map_remove_shares
  map_remove_shares-keeps p shares full m s f = elim (Option-cases (find p.raw m)) [
    | inl absent ↦
        let same : map_remove_shares c p shares full m ≡ m = ground (arith, absent) in
        subst (λ q. IsSorted c q × IsFiled q) (sym same) (s, f)
    | inr (w, there) ↦
        let lvl = shrunk shares full w in
        let own : p.raw ≡ w.price.raw = All-find (λ e. e.0 ≡ e.1.price.raw) p.raw w m there f in
        elim (Bool-cases (lvl.order_count == 0)) [
          | inl gone ↦
              let same : map_remove_shares c p shares full m ≡ erase p.raw m =
                ground (arith, there, gone) in
              subst (λ q. IsSorted c q × IsFiled q) (sym same)
                (erase-IsSorted c p.raw m s, All-erase _ p.raw m f)
          | inr kept ↦
              let same : map_remove_shares c p shares full m ≡ assign p.raw lvl m =
                ground (arith, there, kept) in
              subst (λ q. IsSorted c q × IsFiled q) (sym same)
                (assign-IsSorted c p.raw lvl w m there s, All-assign _ p.raw lvl m own f)
        ]
  ]

  run_map-run_flat :
      (ops : List Operation) (m : Map PriceLevel)
      → All FitsOperation ops
      → IsSorted c m
      → IsFiled m
      → levels_of (run_map ops m) ≡ run_flat ops (levels_of m)
  run_map-run_flat [] m fits s f = refl
  run_map-run_flat (add_shares p shares ∷ ops) m fits s f =
      run_map-run_flat ops (map_add_shares c p shares m) fits.1
        (map_add_shares-IsSorted p shares m s) (map_add_shares-IsFiled p shares m f)
      ∙ ap (run_flat ops) (levels_of-map_add_shares c p shares m (omega (arith, fits.0)) s f)
  run_map-run_flat (remove_shares p shares full ∷ ops) m fits s f =
      let (s', f') = map_remove_shares-keeps p shares full m s f in
      run_map-run_flat ops (map_remove_shares c p shares full m) fits.1 s' f'
      ∙ ap (run_flat ops) (levels_of-map_remove_shares c p shares full m s f)

  -- After the same operations from empty ladders, with shares of 32 bits, the vector of the flat
  -- ladder holds exactly the levels of the map ladder, in the map's order, on either side: so the
  -- two agree on the best level, on the number of levels and on every iteration, where orders are
  -- removed that were never added included.
  pub run_map-run_flat_empty :
      (ops : List Operation) → All FitsOperation ops → levels_of (run_map ops []) ≡ run_flat ops []
  run_map-run_flat_empty ops fits = run_map-run_flat ops [] fits tt tt
