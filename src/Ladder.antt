-- ===== src/Ladder.antt =====
-- include/itch/price_ladder.h: the map ladder and the flat ladder. The array ladder
-- is in the child Array. The side is a comparator: `greater` for bids, `less` for asks.
pub mod Adds
pub mod Array
pub mod Removals
pub mod Equivalence
pub mod Observers
use itch_parser.Book.{PriceLevel, empty_level, level_or_empty}
use itch_parser.Map.Ordered.{Compare}
use itch_parser.Map.{Map, find, assign, erase, place}
use itch_parser.Messages.{Price}
use itch_parser.Prelude.{
  ℕ, zero, suc, ◌+◌, ◌-◌, ◌%◌, ◌^◌, Bool, List, [], ◌∷◌, none, some, length, Option, get_elem?,
  ◌==◌, if◌then◌else◌,
}

-- One more order with its shares.
abbrev pub merged : Price → ℕ → PriceLevel → PriceLevel
merged p shares level = record {
  price = p;
  total_shares = (level.total_shares + shares) % 2 ^ 64;
  order_count = (level.order_count + 1) % 2 ^ 32;
}

-- The subtractions wrap around: unlike the engine's, they are not clamped.
abbrev pub shrunk : ℕ → Bool → PriceLevel → PriceLevel
shrunk shares full_removal level = record level {
  total_shares = (level.total_shares + 2 ^ 64 - shares) % 2 ^ 64;
  order_count =
      if full_removal then (level.order_count + 2 ^ 32 - 1) % 2 ^ 32 else level.order_count;
}

module _ (c : Compare) where
  -- `MapLadder`
  unfoldable pub map_add_shares : Price → ℕ → Map PriceLevel → Map PriceLevel
  map_add_shares p shares levels =
      place c.before p.raw (merged p shares (level_or_empty (find p.raw levels))) levels

  unfoldable pub map_remove_shares : Price → ℕ → Bool → Map PriceLevel → Map PriceLevel
  map_remove_shares p shares full_removal levels = elim (find p.raw levels) [
    | none ↦ levels
    | some lvl ↦
        let lvl' = shrunk shares full_removal lvl in
        if lvl'.order_count == 0 then erase p.raw levels else assign p.raw lvl' levels
  ]

  -- `std::lower_bound` with `better`: the index of the first level that is not better than p, on
  -- levels of which the better ones come first.
  unfoldable pub lower_bound : Price → List PriceLevel → ℕ
  lower_bound p [] = 0
  lower_bound p (lvl ∷ levels) =
      let rest = lower_bound p levels in if c.before lvl.price.raw p.raw then suc rest else 0

-- `*it = x`, `insert(it, x)` and `erase(it)` at an index of a vector.
module _ {A : Type 0} where
  abbrev pub set_at : ℕ → A → List A → List A
  set_at i x [] = []
  set_at zero x (y ∷ ys) = x ∷ ys
  set_at (suc i) x (y ∷ ys) = y ∷ set_at i x ys

  abbrev pub insert_at : ℕ → A → List A → List A
  insert_at zero x ys = x ∷ ys
  insert_at (suc i) x [] = x ∷ []
  insert_at (suc i) x (y ∷ ys) = y ∷ insert_at i x ys

  abbrev pub erase_at : ℕ → List A → List A
  erase_at i [] = []
  erase_at zero (y ∷ ys) = ys
  erase_at (suc i) (y ∷ ys) = y ∷ erase_at i ys

module _ (c : Compare) where
  -- `FlatLadder`
  unfoldable pub flat_add_shares : Price → ℕ → List PriceLevel → List PriceLevel
  flat_add_shares p shares levels =
      let it = lower_bound c p levels in
      let nl : PriceLevel = record { price = p; total_shares = shares; order_count = 1 } in
      elim (get_elem? levels it) [
        | none ↦ insert_at it nl levels
        | some lvl ↦
            if lvl.price.raw == p.raw
            then set_at it
                (record lvl {
                  total_shares = (lvl.total_shares + shares) % 2 ^ 64;
                  order_count = (lvl.order_count + 1) % 2 ^ 32;
                })
                levels
            else insert_at it nl levels
      ]

  unfoldable pub flat_remove_shares : Price → ℕ → Bool → List PriceLevel → List PriceLevel
  flat_remove_shares p shares full_removal levels =
      let it = lower_bound c p levels in
      elim (get_elem? levels it) [
        | none ↦ levels
        | some lvl ↦
            if lvl.price.raw == p.raw
            then (let lvl' = shrunk shares full_removal lvl in
                if lvl'.order_count == 0 then erase_at it levels else set_at it lvl' levels)
            else levels
      ]

-- `best`, `size` and `for_each`, as the list of the levels that it visits.
unfoldable pub map_best : Map PriceLevel → Option PriceLevel
map_best [] = none
map_best ((price, lvl) ∷ m) = some lvl

unfoldable pub map_size : Map PriceLevel → ℕ
map_size m = length m

unfoldable pub map_for_each : Map PriceLevel → List PriceLevel
map_for_each [] = []
map_for_each ((price, lvl) ∷ m) = lvl ∷ map_for_each m

unfoldable pub flat_best : List PriceLevel → Option PriceLevel
flat_best [] = none
flat_best (lvl ∷ levels) = some lvl

unfoldable pub flat_size : List PriceLevel → ℕ
flat_size levels = length levels

unfoldable pub flat_for_each : List PriceLevel → List PriceLevel
flat_for_each [] = []
flat_for_each (lvl ∷ levels) = lvl ∷ flat_for_each levels
