-- ===== src/Scoring/FrozenScores.antt =====
-- What app/scoring/replay.py reads from a frozen snapshot and from the payload of a score event
use why_combinator.Prelude.{
  String, Option, none, some, nat_has_eq, text_has_eq, Outcome, ok, raise, ◌>>=◌,
}
use why_combinator.Platform.Floats.{Floats}
use why_combinator.Platform.Json.{Json, Fields, get, fields_of, numeric, text}
use why_combinator.Db.Models.{Uuid}
use why_combinator.Scoring.FinalScore.{
  ComponentName, quality_name, novelty_name, feasibility_name, criteria_name,
  similarity_penalty_name, too_safe_penalty_name, non_production_penalty_name, PerComponent,
  component, key_of, each_component, FloorCap, ScoreComponentBounds, BoundsError,
}

-- ReplayNotFoundError, ReplayValidationError, what `float` raises on the weights, and what
-- compose_final_score raises.
pub data ReplayError : Type 0 where
  run_not_found : ReplayError
  snapshot_not_found : Option String → ReplayError
  events_not_found : (checkpoint_id : String) → ReplayError
  missing_components : (submission_id : Uuid) → ReplayError
  not_numeric : ComponentName → ReplayError
  malformed_bounds : ReplayError
  weight_not_a_float : ComponentName → ReplayError
  invalid_bounds : BoundsError → ReplayError

-- f"{component}_floor" and f"{component}_cap"
abbrev pub floor_key : ComponentName → String
floor_key quality_name = "quality_floor"
floor_key novelty_name = "novelty_floor"
floor_key feasibility_name = "feasibility_floor"
floor_key criteria_name = "criteria_floor"
floor_key similarity_penalty_name = "similarity_penalty_floor"
floor_key too_safe_penalty_name = "too_safe_penalty_floor"
floor_key non_production_penalty_name = "non_production_penalty_floor"

abbrev pub cap_key : ComponentName → String
cap_key quality_name = "quality_cap"
cap_key novelty_name = "novelty_cap"
cap_key feasibility_name = "feasibility_cap"
cap_key criteria_name = "criteria_cap"
cap_key similarity_penalty_name = "similarity_penalty_cap"
cap_key too_safe_penalty_name = "too_safe_penalty_cap"
cap_key non_production_penalty_name = "non_production_penalty_cap"

-- An exception of compose_final_score passes through.
abbrev pub lift_bounds : {A : Type 0} → Outcome BoundsError A → Outcome ReplayError A
lift_bounds call = elim call [ raise e ↦ raise (invalid_bounds e) | ok a ↦ ok a ]

-- `getenv` and `parse` are those of Scoring.FinalScore.
module _ (floats : Floats) (getenv : String → Option String)
    (parse : String → Option floats.Float) where
  open floats use {Float, of_int, decimal, less, sub, round_to}

  -- `float(value)`, or `none` where it raises
  unfoldable pub to_float : Json Float → Option Float
  unfolding numeric
  to_float (text t) = parse t
  to_float v = numeric floats (some v)

  abbrev pub default_weights : PerComponent Float
  default_weights = record {
    quality = decimal 35 2;
    novelty = decimal 25 2;
    feasibility = decimal 2 1;
    criteria = decimal 2 1;
    similarity_penalty = decimal 2 1;
    too_safe_penalty = decimal 2 1;
    non_production_penalty = of_int 1;
  }

  unfoldable pub coerce_component : Fields Float → ComponentName → Outcome ReplayError Float
  unfolding key_of get
  coerce_component components non_production_penalty_name =
      elim (get (key_of non_production_penalty_name) components) [
        | none ↦ ok (of_int 0)
        | some v ↦ elim (numeric floats (some v)) [
          | none ↦ raise (not_numeric non_production_penalty_name)
          | some x ↦ ok x
        ]
      ]
  coerce_component components name = elim (numeric floats (get (key_of name) components)) [
    | none ↦ raise (not_numeric name)
    | some x ↦ ok x
  ]

  unfoldable pub score_components_from_payload :
      Fields Float → Uuid → Outcome ReplayError (PerComponent Float)
  unfolding get fields_of each_component
  score_components_from_payload payload submission_id =
      elim (fields_of (get "components" payload)) [
        | none ↦ raise (missing_components submission_id)
        | some components ↦ each_component (coerce_component components)
      ]

  unfoldable pub active_weight : Fields Float → ComponentName → Outcome ReplayError Float
  unfolding key_of get
  active_weight weights name = elim (get (key_of name) weights) [
    | none ↦ ok (component default_weights name)
    | some v ↦ elim (to_float v) [ none ↦ raise (weight_not_a_float name) | some x ↦ ok x ]
  ]

  unfoldable pub active_weights_snapshot : Fields Float → Outcome ReplayError (PerComponent Float)
  unfolding each_component
  active_weights_snapshot weights = each_component (active_weight weights)

  -- `float(raw[key])`
  unfoldable pub bound : Fields Float → String → Outcome ReplayError Float
  unfolding get
  bound raw key = elim (get key raw) [
    | none ↦ raise malformed_bounds
    | some v ↦ elim (to_float v) [ none ↦ raise malformed_bounds | some x ↦ ok x ]
  ]

  unfoldable pub floor_cap : Fields Float → ComponentName → Outcome ReplayError (FloorCap Float)
  floor_cap raw name = bound raw (floor_key name) >>= λ floor.
      bound raw (cap_key name) >>= λ cap. ok (record { floor = floor; cap = cap })

  unfoldable pub score_component_bounds_from_policies :
      Fields Float → Outcome ReplayError (Option (ScoreComponentBounds Float))
  unfolding get fields_of each_component
  score_component_bounds_from_policies policies =
      elim (fields_of (get "score_component_bounds" policies)) [
        | none ↦ ok none
        | some raw ↦ each_component (floor_cap raw) >>= λ bounds. ok (some bounds)
      ]
