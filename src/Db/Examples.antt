-- ===== src/Db/Examples.antt =====
-- Two weight configurations and a snapshot, and the theorem at them.
use why_combinator.Prelude.{ℕ, ◌≡◌, refl, Option, some, List, [], ◌∷◌, nat_has_eq}
use why_combinator.Prelude.Sort.{sort, insert}
use why_combinator.Platform.Sql.{in_order}
use why_combinator.Platform.Floats.{thousandths}
use why_combinator.Platform.Json.{Json, Fields, field, end, real, text, numeric}
use why_combinator.Db.Models.{FrozenSnapshot}
use why_combinator.Db.ConfigTimeline.{
  ScoringWeightConfig, ConfigTimelineEntry, weight_entry, snapshot_entry, weight_entries,
  float_values, effective_entry, weight_config, reconstruct_effective_config_timeline,
  resolve_effective_config_at,
}
use why_combinator.Db.ConfigTimeline.Timeline.{IsOf, IsTimeline, IsInEffect}
use why_combinator.Db.ConfigTimeline.Effective.{effective_is_last}

abbrev weights : ℕ → Fields ℕ
weights quality = field "quality" (real quality) end

abbrev config : ℕ → ℕ → ScoringWeightConfig ℕ
config time quality = record { run_id = 5; effective_from = time; weights = weights quality }

abbrev snapshot : ℕ → FrozenSnapshot ℕ
snapshot time = record {
  snapshot = record { id = 1; run_id = 5; checkpoint_id = "c"; captured_at = time };
  active_weights = weights 300;
  active_policies = field "judging" (text "strict") end;
}

abbrev number : Json ℕ → Option ℕ
number v = numeric thousandths (some v)

abbrev configs : List (ScoringWeightConfig ℕ)
configs = config 9 700 ∷ config 2 500 ∷ []

abbrev snapshots : List (FrozenSnapshot ℕ)
snapshots = snapshot 2 ∷ []

abbrev entry : ℕ → ℕ → ConfigTimelineEntry ℕ
entry time quality = record {
  timestamp = time;
  source = weight_config;
  weights = weights quality;
  policies = end;
}

abbrev timeline : List (ConfigTimelineEntry ℕ)
timeline = snapshot_entry in_order number (snapshot 2) ∷ entry 2 500 ∷ entry 9 700 ∷ []

reconstructed :
    reconstruct_effective_config_timeline in_order number configs snapshots 5 ≡ some timeline
unfolding reconstruct_effective_config_timeline sort insert weight_entries weight_entry float_values
    numeric
reconstructed = refl

-- Of the two entries of time 2 the configuration is in effect.
in_effect :
    resolve_effective_config_at in_order number configs snapshots 5 4 ≡ some (some (entry 2 500))
unfolding resolve_effective_config_at effective_entry reconstruct_effective_config_timeline sort
    insert weight_entries weight_entry float_values numeric
in_effect = refl

effective_is_last_example :
    IsOf number configs snapshots 5 timeline
    × IsTimeline timeline
    × IsInEffect number timeline 4
        (resolve_effective_config_at in_order number configs snapshots 5 4)
effective_is_last_example =
    effective_is_last in_order number configs snapshots 5 4 timeline reconstructed
