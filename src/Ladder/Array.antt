-- ===== src/Ladder/Array.antt =====
-- The array ladder of include/itch/price_ladder.h, for a side, a number of slots and a tick.
pub mod Slots
pub mod Best
pub mod Emptied
pub mod Writes
pub mod Tracked
pub mod Visits
pub mod Agreement
pub mod Steps
pub mod Reference
pub mod Sequence
pub mod Whole
pub mod Orders
pub mod Sizes
use itch_parser.Book.{PriceLevel, empty_level}
use itch_parser.Ladder.{set_at, shrunk}
use itch_parser.Messages.{Price}
use itch_parser.Prelude.{
  ℕ, zero, suc, ◌+◌, ◌-◌, ◌/◌, ◌%◌, ◌^◌, Bool, true, false, not, List, [], ◌∷◌, Option, none, some,
  get_elem?, replicate, ltb, leb, ◌==◌, if◌then◌else◌,
}

pub record ArrayLadder : Type 0 where
  pub base_raw : ℕ
  pub best_idx : ℕ
  pub nonempty_count : ℕ
  pub levels : List PriceLevel

-- `levels_[i]`; the callers stay within the slots.
abbrev pub level_of : List PriceLevel → ℕ → PriceLevel
level_of [] i = empty_level
level_of (lvl ∷ levels) zero = lvl
level_of (lvl ∷ levels) (suc i) = level_of levels i

-- `levels_[i].order_count > 0`
abbrev pub occupied : List PriceLevel → ℕ → Bool
occupied levels i = not ((level_of levels i).order_count == 0)

module _ (is_bid : Bool) (slots tick : ℕ) where
  unfoldable pub new_array_ladder : ℕ → ArrayLadder
  new_array_ladder base_raw = record {
    base_raw = base_raw;
    best_idx = slots;
    nonempty_count = 0;
    levels = replicate slots empty_level;
  }

  unfoldable pub set_base : ℕ → ArrayLadder → ArrayLadder
  set_base base_raw a = record a { base_raw = base_raw }

  unfoldable pub idx_of : ℕ → Price → ℕ
  idx_of base_raw p = if ltb p.raw base_raw then slots else (p.raw - base_raw) / tick

  -- The new `best_idx_` after a level at `i` became occupied; `count` is the new `nonempty_count_`.
  unfoldable pub update_best_after_add : ℕ → ℕ → ℕ → ℕ
  update_best_after_add i count best =
      if count == 1
      then i
      else if is_bid
      then (if ltb best i then i else best)
      else (if ltb i best then i else best)

  -- The loop down from slot i, and the loop up from slot i with k slots above it; `slots` where
  -- neither finds a level.
  unfoldable pub scan_down : List PriceLevel → ℕ → ℕ
  scan_down levels zero = slots
  scan_down levels (suc i) = let rest = scan_down levels i in if occupied levels i then i else rest

  unfoldable pub scan_up : List PriceLevel → ℕ → ℕ → ℕ
  scan_up levels zero i = slots
  scan_up levels (suc k) i =
      let rest = scan_up levels k (i + 1) in if occupied levels (i + 1) then i + 1 else rest

  unfoldable pub advance_best_from : ℕ → ℕ → List PriceLevel → ℕ
  advance_best_from i count levels =
      if count == 0
      then slots
      else if is_bid
      then scan_down levels i
      else scan_up levels (slots - 1 - i) i

  -- The level with one more order.
  abbrev pub grown : Price → ℕ → PriceLevel → PriceLevel
  grown p shares lvl = record {
    price = if lvl.order_count == 0 then p else lvl.price;
    total_shares = (lvl.total_shares + shares) % 2 ^ 64;
    order_count = (lvl.order_count + 1) % 2 ^ 32;
  }

  unfoldable pub array_add_shares : Price → ℕ → ArrayLadder → ArrayLadder
  array_add_shares p shares a =
      let i = idx_of a.base_raw p in
      let lvl = level_of a.levels i in
      let count = (a.nonempty_count + 1) % 2 ^ 32 in
      if leb slots i
      then a
      else if lvl.order_count == 0
      then record a {
        nonempty_count = count;
        best_idx = update_best_after_add i count a.best_idx;
        levels = set_at i (grown p shares lvl) a.levels;
      }
      else record a { levels = set_at i (grown p shares lvl) a.levels }

  unfoldable pub array_remove_shares : Price → ℕ → Bool → ArrayLadder → ArrayLadder
  array_remove_shares p shares full_removal a =
      let i = idx_of a.base_raw p in
      let lvl = shrunk shares full_removal (level_of a.levels i) in
      let levels = set_at i lvl a.levels in
      let count = (a.nonempty_count + 2 ^ 32 - 1) % 2 ^ 32 in
      if leb slots i
      then a
      else if (level_of a.levels i).order_count == 0
      then a
      else if lvl.order_count == 0
      then record a {
        levels = levels;
        nonempty_count = count;
        best_idx = if i == a.best_idx then advance_best_from i count levels else a.best_idx;
      }
      else record a { levels = levels }

  unfoldable pub array_best : ArrayLadder → Option PriceLevel
  array_best a = if a.nonempty_count == 0 then none else get_elem? a.levels a.best_idx

  -- The levels of `for_each` from slot i down, and from slot i up.
  unfoldable pub visit_down : List PriceLevel → ℕ → List PriceLevel
  visit_down levels zero = []
  visit_down levels (suc i) =
      let rest = visit_down levels i in if occupied levels i then level_of levels i ∷ rest else rest

  unfoldable pub visit_up : List PriceLevel → ℕ → ℕ → List PriceLevel
  visit_up levels zero i = []
  visit_up levels (suc k) i =
      let rest = visit_up levels k (i + 1) in
      if occupied levels i then level_of levels i ∷ rest else rest

  unfoldable pub array_for_each : ArrayLadder → List PriceLevel
  array_for_each a =
      if a.nonempty_count == 0
      then []
      else if is_bid
      then visit_down a.levels (a.best_idx + 1)
      else visit_up a.levels (slots - a.best_idx) a.best_idx
