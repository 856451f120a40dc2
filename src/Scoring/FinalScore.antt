-- ===== src/Scoring/FinalScore.antt =====
-- app/scoring/final_score.py
pub mod Within
use why_combinator.Prelude.{
  String, Bool, not, ◌||◌, Option, none, some, if◌then◌else◌, Outcome, ok, raise, ◌>>=◌,
}
use why_combinator.Platform.Floats.{Floats, fmax, fmin}
use why_combinator.Platform.Json.{Fields, end, field, real, object}

pub data ComponentName : Type 0 where
  quality_name novelty_name feasibility_name criteria_name similarity_penalty_name
        too_safe_penalty_name non_production_penalty_name :
      ComponentName

-- One value for each component. ScoreComponents and ActiveWeightsSnapshot hold a number for each.
pub record PerComponent (A : Type 0) : Type 0 where
  pub quality : A
  pub novelty : A
  pub feasibility : A
  pub criteria : A
  pub similarity_penalty : A
  pub too_safe_penalty : A
  pub non_production_penalty : A

abbrev pub component : {A : Type 0} → PerComponent A → ComponentName → A
component c quality_name = c.quality
component c novelty_name = c.novelty
component c feasibility_name = c.feasibility
component c criteria_name = c.criteria
component c similarity_penalty_name = c.similarity_penalty
component c too_safe_penalty_name = c.too_safe_penalty
component c non_production_penalty_name = c.non_production_penalty

-- The name of the field.
unfoldable pub key_of : ComponentName → String
key_of quality_name = "quality"
key_of novelty_name = "novelty"
key_of feasibility_name = "feasibility"
key_of criteria_name = "criteria"
key_of similarity_penalty_name = "similarity_penalty"
key_of too_safe_penalty_name = "too_safe_penalty"
key_of non_production_penalty_name = "non_production_penalty"

-- `asdict`
unfoldable pub asdict : {Float : Type 0} → PerComponent Float → Fields Float
asdict c = field "quality" (real c.quality) (
    field "novelty" (real c.novelty) (
      field "feasibility" (real c.feasibility) (
        field "criteria" (real c.criteria) (
          field "similarity_penalty" (real c.similarity_penalty) (
            field "too_safe_penalty" (real c.too_safe_penalty)
              (field "non_production_penalty" (real c.non_production_penalty) end))))))

-- The values of the components one after another, or the first exception.
unfoldable pub each_component :
    {E A : Type 0} → (ComponentName → Outcome E A) → Outcome E (PerComponent A)
each_component f = f quality_name >>= λ quality. f novelty_name >>= λ novelty.
    f feasibility_name >>= λ feasibility. f criteria_name >>= λ criteria.
    f similarity_penalty_name >>= λ similarity_penalty.
    f too_safe_penalty_name >>= λ too_safe_penalty.
    f non_production_penalty_name >>= λ non_production_penalty. ok (record {
      quality = quality;
      novelty = novelty;
      feasibility = feasibility;
      criteria = criteria;
      similarity_penalty = similarity_penalty;
      too_safe_penalty = too_safe_penalty;
      non_production_penalty = non_production_penalty;
    })

-- The fields `<component>_floor` and `<component>_cap` of ScoreComponentBounds.
pub record FloorCap (Float : Type 0) : Type 0 where
  pub floor : Float
  pub cap : Float

abbrev pub ScoreComponentBounds : Type 0 → Type 0
ScoreComponentBounds Float = PerComponent (FloorCap Float)

pub record FinalScoreBreakdown (Float : Type 0) : Type 0 where
  pub weighted_positive : Float
  pub weighted_penalties : Float
  pub final_score : Float
  pub components : PerComponent Float
  pub weights : PerComponent Float

-- `asdict` of ScoreComponentBounds
unfoldable pub asdict_bounds : {Float : Type 0} → ScoreComponentBounds Float → Fields Float
asdict_bounds b = field "quality_floor" (real b.quality.floor) (
    field "quality_cap" (real b.quality.cap) (
      field "novelty_floor" (real b.novelty.floor) (
        field "novelty_cap" (real b.novelty.cap) (
          field "feasibility_floor" (real b.feasibility.floor) (
            field "feasibility_cap" (real b.feasibility.cap) (
              field "criteria_floor" (real b.criteria.floor) (
                field "criteria_cap" (real b.criteria.cap) (
                  field "similarity_penalty_floor" (real b.similarity_penalty.floor) (
                    field "similarity_penalty_cap" (real b.similarity_penalty.cap) (
                      field "too_safe_penalty_floor" (real b.too_safe_penalty.floor) (
                        field "too_safe_penalty_cap" (real b.too_safe_penalty.cap) (
                          field "non_production_penalty_floor" (real b.non_production_penalty.floor)
                            (field "non_production_penalty_cap" (real b.non_production_penalty.cap)
                              (end))))))))))))))

-- The messages of ScoreComponentBoundsValidationError.
pub data BoundsError : Type 0 where
  not_a_float : (variable : String) → BoundsError
  floor_not_finite cap_not_finite floor_outside_unit cap_outside_unit floor_above_cap :
      ComponentName → BoundsError

-- `if test: raise error`
unfoldable pub raise_if : Bool → BoundsError → Outcome BoundsError (Unit {0})
raise_if test error = if test then raise error else ok tt

-- `getenv` reads the process environment, `parse` is `float(…)`, `none` where it raises ValueError. The
-- text of a default is read back as the default.
module _ (floats : Floats) (getenv : String → Option String)
    (parse : String → Option floats.Float) where
  open floats use {Float, of_int, decimal, less, is_finite, add, sub, mul, round_to}

  unfoldable pub env_float : String → Float → Outcome BoundsError Float
  env_float name default = elim (getenv name) [
    | none ↦ ok default
    | some raw ↦ elim (parse raw) [ none ↦ raise (not_a_float name) | some x ↦ ok x ]
  ]

  -- Two neighbouring arguments of ScoreComponentBounds in load_score_component_bounds.
  unfoldable pub env_pair : String → String → Float → Outcome BoundsError (FloorCap Float)
  env_pair floor_name cap_name cap_default = env_float floor_name (of_int 0) >>= λ floor.
      env_float cap_name cap_default >>= λ cap. ok (record { floor = floor; cap = cap })

  unfoldable pub validate_floor_cap_pair :
      ComponentName → FloorCap Float → Outcome BoundsError (Unit {0})
  validate_floor_cap_pair name pair =
      raise_if (not (is_finite pair.floor)) (floor_not_finite name) >>= λ _.
      raise_if (not (is_finite pair.cap)) (cap_not_finite name) >>= λ _.
      raise_if (less pair.floor (of_int 0) || less (of_int 1) pair.floor) (floor_outside_unit name)
      >>= λ _.
          raise_if (less pair.cap (of_int 0) || less (of_int 1) pair.cap) (cap_outside_unit name)
          >>= λ _. raise_if (less pair.cap pair.floor) (floor_above_cap name)

  unfoldable pub validate_score_component_bounds :
      ScoreComponentBounds Float → Outcome BoundsError (Unit {0})
  validate_score_component_bounds bounds =
      validate_floor_cap_pair quality_name bounds.quality >>= λ _.
      validate_floor_cap_pair novelty_name bounds.novelty >>= λ _.
      validate_floor_cap_pair feasibility_name bounds.feasibility >>= λ _.
      validate_floor_cap_pair criteria_name bounds.criteria >>= λ _.
      validate_floor_cap_pair similarity_penalty_name bounds.similarity_penalty >>= λ _.
      validate_floor_cap_pair too_safe_penalty_name bounds.too_safe_penalty >>= λ _.
      validate_floor_cap_pair non_production_penalty_name bounds.non_production_penalty

  unfoldable pub load_score_component_bounds : Outcome BoundsError (ScoreComponentBounds Float)
  load_score_component_bounds =
      env_pair "SCORE_COMPONENT_FLOOR_QUALITY" "SCORE_COMPONENT_CAP_QUALITY" (of_int 1)
      >>= λ quality.
          env_pair "SCORE_COMPONENT_FLOOR_NOVELTY" "SCORE_COMPONENT_CAP_NOVELTY" (of_int 1)
          >>= λ novelty.
              env_pair "SCORE_COMPONENT_FLOOR_FEASIBILITY" "SCORE_COMPONENT_CAP_FEASIBILITY"
                (of_int 1)
              >>= λ feasibility.
                  env_pair "SCORE_COMPONENT_FLOOR_CRITERIA" "SCORE_COMPONENT_CAP_CRITERIA"
                    (of_int 1)
                  >>= λ criteria.
                      env_pair "SCORE_COMPONENT_FLOOR_SIMILARITY_PENALTY"
                        "SCORE_COMPONENT_CAP_SIMILARITY_PENALTY" (decimal 75 2)
                      >>= λ similarity_penalty.
                          env_pair "SCORE_COMPONENT_FLOOR_TOO_SAFE_PENALTY"
                            "SCORE_COMPONENT_CAP_TOO_SAFE_PENALTY" (decimal 75 2)
                          >>= λ too_safe_penalty.
                              env_pair "SCORE_COMPONENT_FLOOR_NON_PRODUCTION_PENALTY"
                                "SCORE_COMPONENT_CAP_NON_PRODUCTION_PENALTY" (of_int 1)
                              >>= λ non_production_penalty.
                                  let bounds : ScoreComponentBounds Float = record {
                                    quality = quality;
                                    novelty = novelty;
                                    feasibility = feasibility;
                                    criteria = criteria;
                                    similarity_penalty = similarity_penalty;
                                    too_safe_penalty = too_safe_penalty;
                                    non_production_penalty = non_production_penalty;
                                  } in
                                  validate_score_component_bounds bounds >>= λ _. ok bounds

  unfoldable pub apply_bounds : Float → Float → Float → Float
  apply_bounds value floor cap = fmax floats floor (fmin floats cap value)

  -- `bounds or load_score_component_bounds()`
  unfoldable pub active_bounds :
      Option (ScoreComponentBounds Float) → Outcome BoundsError (ScoreComponentBounds Float)
  active_bounds none = load_score_component_bounds
  active_bounds (some bounds) = ok bounds

  unfoldable pub bounded : PerComponent Float → ScoreComponentBounds Float → ComponentName → Float
  bounded components bounds name =
      let pair = component bounds name in
      round_to (apply_bounds (component components name) pair.floor pair.cap) 6

  -- What apply_score_component_bounds returns under bounds that are valid.
  unfoldable pub bounded_components :
      PerComponent Float → ScoreComponentBounds Float → PerComponent Float
  bounded_components components active = record {
    quality = bounded components active quality_name;
    novelty = bounded components active novelty_name;
    feasibility = bounded components active feasibility_name;
    criteria = bounded components active criteria_name;
    similarity_penalty = bounded components active similarity_penalty_name;
    too_safe_penalty = bounded components active too_safe_penalty_name;
    non_production_penalty = bounded components active non_production_penalty_name;
  }

  unfoldable pub apply_score_component_bounds :
      PerComponent Float
      → Option (ScoreComponentBounds Float)
      → Outcome BoundsError (PerComponent Float)
  apply_score_component_bounds components bounds = active_bounds bounds >>= λ active.
      validate_score_component_bounds active >>= λ _. ok (bounded_components components active)

  -- The last three statements of compose_final_score.
  unfoldable pub breakdown : PerComponent Float → PerComponent Float → FinalScoreBreakdown Float
  breakdown c weights =
      let weighted_positive =
        add
          (add (add (mul c.quality weights.quality) (mul c.novelty weights.novelty))
            (mul c.feasibility weights.feasibility))
          (mul c.criteria weights.criteria) in
      let weighted_penalties =
        add
          (add (mul c.similarity_penalty weights.similarity_penalty)
            (mul c.too_safe_penalty weights.too_safe_penalty))
          (mul c.non_production_penalty weights.non_production_penalty) in
      record {
        weighted_positive = weighted_positive;
        weighted_penalties = weighted_penalties;
        final_score = round_to (sub weighted_positive weighted_penalties) 6;
        components = c;
        weights = weights;
      }

  unfoldable pub compose_final_score :
      PerComponent Float
      → PerComponent Float
      → Option (ScoreComponentBounds Float)
      → Outcome BoundsError (FinalScoreBreakdown Float)
  compose_final_score components weights bounds =
      apply_score_component_bounds components bounds >>= λ c. ok (breakdown c weights)

  unfoldable pub as_payload : FinalScoreBreakdown Float → Fields Float
  as_payload b = field "weighted_positive" (real (round_to b.weighted_positive 6)) (
      field "weighted_penalties" (real (round_to b.weighted_penalties 6)) (
        field "final_score" (real (round_to b.final_score 6)) (
          field "components" (object (asdict b.components))
            (field "weights" (object (asdict b.weights)) end))))
