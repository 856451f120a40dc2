-- ===== src/Db/ConfigTimeline.antt =====
-- app/db/config_timeline.py
pub mod Timeline
pub mod Effective
use why_combinator.Prelude.{
  ℕ, String, Bool, true, false, Option, none, some, List, [], ◌∷◌, ◌++◌, map, filter, leb, ltb,
  ◌==◌, nat_has_eq,
}
use why_combinator.Prelude.Sort.{sort}
use why_combinator.Prelude.Orders.{lexicographic}
use why_combinator.Platform.Sql.{Engine}
use why_combinator.Platform.Json.{Json, Fields, end, field, real}
use why_combinator.Db.Models.{Uuid, Instant, FrozenSnapshot}

pub record ScoringWeightConfig (Float : Type 0) : Type 0 where
  pub run_id : Uuid
  pub effective_from : Instant
  pub weights : Fields Float

-- "checkpoint_snapshot" and "weight_config", in the order of the texts
pub data ConfigSource : Type 0 where
  checkpoint_snapshot weight_config : ConfigSource

abbrev pub source_order : ConfigSource → ℕ
source_order checkpoint_snapshot = 0
source_order weight_config = 1

pub record ConfigTimelineEntry (Float : Type 0) : Type 0 where
  pub timestamp : Instant
  pub source : ConfigSource
  pub weights : Fields Float
  pub policies : Fields Float

-- `to_float` is `float(value)`, or `none` where it raises.
module _ {Float : Type 0} (db : Engine) (to_float : Json Float → Option Float) where
  -- `{key: float(value) for key, value in row.weights.items()}`
  unfoldable pub float_values : Fields Float → Option (Fields Float)
  float_values end = some end
  float_values (field key value rest) = elim (to_float value) [
    | none ↦ none
    | some x ↦ elim (float_values rest) [
      | none ↦ none
      | some fields ↦ some (field key (real x) fields)
    ]
  ]

  unfoldable pub weight_entry : ScoringWeightConfig Float → Option (ConfigTimelineEntry Float)
  unfolding float_values
  weight_entry row = elim (float_values row.weights) [
    | none ↦ none
    | some weights ↦ some (record {
      timestamp = row.effective_from;
      source = weight_config;
      weights = weights;
      policies = end;
    })
  ]

  abbrev pub snapshot_entry : FrozenSnapshot Float → ConfigTimelineEntry Float
  snapshot_entry row = record {
    timestamp = row.snapshot.captured_at;
    source = checkpoint_snapshot;
    weights = row.active_weights;
    policies = row.active_policies;
  }

  -- `for row in weight_rows`
  unfoldable pub weight_entries :
      List (ScoringWeightConfig Float) → Option (List (ConfigTimelineEntry Float))
  unfolding weight_entry
  weight_entries [] = some []
  weight_entries (row ∷ rows) = elim (weight_entry row) [
    | none ↦ none
    | some e ↦ elim (weight_entries rows) [ none ↦ none | some es ↦ some (e ∷ es) ]
  ]

  -- `(item.timestamp, item.source)`
  abbrev pub not_after : ConfigTimelineEntry Float → ConfigTimelineEntry Float → Bool
  not_after =
      lexicographic (λ a b. ltb a.timestamp b.timestamp)
        (λ a b. leb (source_order a.source) (source_order b.source))

  -- `none` where a weight is no number and `float` raises
  unfoldable pub reconstruct_effective_config_timeline :
      List (ScoringWeightConfig Float)
      → List (FrozenSnapshot Float)
      → Uuid
      → Option (List (ConfigTimelineEntry Float))
  reconstruct_effective_config_timeline configs snapshots run_id =
      let weight_rows =
        sort (λ (a b : ScoringWeightConfig Float). leb a.effective_from b.effective_from)
          (db.select (ScoringWeightConfig Float) (λ r. r.run_id == run_id) configs) in
      let snapshot_rows =
        sort (λ (a b : FrozenSnapshot Float). leb a.snapshot.captured_at b.snapshot.captured_at)
          (db.select (FrozenSnapshot Float) (λ r. r.snapshot.run_id == run_id) snapshots) in
      elim (weight_entries weight_rows) [
        | none ↦ none
        | some es ↦ some (sort not_after (es ++ map snapshot_entry snapshot_rows))
      ]

  -- `entries[-1]`
  abbrev pub last? : List (ConfigTimelineEntry Float) → Option (ConfigTimelineEntry Float)
  last? [] = none
  last? (e ∷ es) = elim (last? es) [ none ↦ some e | some l ↦ some l ]

  unfoldable pub effective_entry :
      Instant → List (ConfigTimelineEntry Float) → Option (ConfigTimelineEntry Float)
  effective_entry at_timestamp timeline =
      last? (filter (λ e. leb e.timestamp at_timestamp) timeline)

  unfoldable pub resolve_effective_config_at :
      List (ScoringWeightConfig Float)
      → List (FrozenSnapshot Float)
      → Uuid
      → Instant
      → Option (Option (ConfigTimelineEntry Float))
  resolve_effective_config_at configs snapshots run_id at_timestamp =
      elim (reconstruct_effective_config_timeline configs snapshots run_id) [
        | none ↦ none
        | some timeline ↦ some (effective_entry at_timestamp timeline)
      ]
