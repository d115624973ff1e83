-- ===== src/Publish.antt =====
-- `apply` and the publishing of snapshots: the rest of `OrderBookEngine`, and `SnapshotPublisher`
-- of src/snapshot_publisher.cpp, whose atomic pointer is a field that holds the last snapshot.
pub mod Age
pub mod Shown
use itch_parser.Engine.{Core, new_core, increment, handle}
use itch_parser.Messages.{ParsedMessage}
use itch_parser.Prelude.Result.{Result, ok, err, division_by_zero, ◌>>=◌}
use itch_parser.Prelude.{
  ℕ, ◌%◌, Bool, true, false, List, [], ◌∷◌, Option, none, some, ◌==◌, if◌then◌else◌,
}
use itch_parser.Snapshot.{SystemSnapshot, build_snapshot}

pub record Publisher (D : Type 0) : Type 0 where
  pub snapshot : Option (SystemSnapshot D)

unfoldable pub publish : {D : Type 0} → SystemSnapshot D → Publisher D → Publisher D
publish snapshot p = record p { snapshot = some snapshot }

unfoldable pub current : {D : Type 0} → Publisher D → Option (SystemSnapshot D)
current p = p.snapshot

pub record Engine (D : Type 0) : Type 0 where
  pub core : Core
  pub messages_processed : ℕ
  pub snapshot_interval : ℕ
  pub pipeline_complete : Bool
  pub publisher : Publisher D

abbrev pub new_engine : {D : Type 0} → Engine D
new_engine = record {
  core = new_core;
  messages_processed = 0;
  snapshot_interval = 1000;
  pipeline_complete = false;
  publisher = record { snapshot = none };
}

unfoldable pub set_snapshot_interval : {D : Type 0} → ℕ → Engine D → Engine D
set_snapshot_interval interval e = record e { snapshot_interval = interval }

module _ {D : Type 0} (to_double : ℕ → D) where
  abbrev pub snapshot_of : ℕ → Engine D → SystemSnapshot D
  snapshot_of now e = build_snapshot to_double e.messages_processed e.pipeline_complete now e.core

  -- `messages_processed_ % snapshot_interval_`, which has no meaning for the interval 0.
  unfoldable pub maybe_publish_snapshot : ℕ → Engine D → Result (Engine D)
  maybe_publish_snapshot now e =
      if e.snapshot_interval == 0
      then err division_by_zero
      else if e.messages_processed % e.snapshot_interval == 0
      then ok (record e { publisher = publish (snapshot_of now e) e.publisher })
      else ok e

  -- `now` is what the clock shows when a snapshot is built.
  unfoldable pub apply : ℕ → ParsedMessage → Engine D → Result (Engine D)
  apply now msg e =
      maybe_publish_snapshot now
        (record e { core = handle msg e.core; messages_processed = increment e.messages_processed })

  unfoldable pub set_pipeline_complete : ℕ → Engine D → Engine D
  set_pipeline_complete now e =
      let e' = record e { pipeline_complete = true } in
      record e' { publisher = publish (snapshot_of now e') e'.publisher }

  -- `apply` over a sequence of messages, with the clock's times.
  unfoldable pub apply_all : List (ℕ × ParsedMessage) → Engine D → Result (Engine D)
  apply_all [] e = ok e
  apply_all ((now, msg) ∷ ms) e = apply now msg e >>= apply_all ms
