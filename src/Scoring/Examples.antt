-- ===== src/Scoring/Examples.antt =====
-- Penalties and final scores, and the theorems at concrete inputs.
use why_combinator.Prelude.Orders.{ltb-IsLess}
use why_combinator.Scoring.FinalScore.{
  PerComponent, FloorCap, ScoreComponentBounds, FinalScoreBreakdown, BoundsError, active_bounds,
  load_score_component_bounds, env_pair, env_float, validate_score_component_bounds,
  validate_floor_cap_pair, raise_if, compose_final_score,
}
use why_combinator.Scoring.FinalScore.Within.{is_valid, IsBounded, compose_final_score_lem}
use why_combinator.Prelude.{
  ℕ, String, Option, some, ◌⊎◌, ok, raise, true, ◌-◌, text_has_eq, ◌≡◌, refl, ◌&&◌, false, none,
  List, [], ◌∷◌, ◌==◌, nat_has_eq, any, max_of, if◌then◌else◌,
}
use why_combinator.Platform.Sql.{in_order}
use why_combinator.Platform.Floats.{thousandths}
use why_combinator.Db.Enums.{hacker, SubmissionState, accepted, rejected}
use why_combinator.Db.Models.{Uuid, Agent, Submission}
use why_combinator.Scoring.Penalties.{
  generate_non_production_penalties, penalize_agents, penalize, non_production_event, penalties_of,
  is_unproductive, penalties_lem, Events,
}

abbrev agent : Uuid → Agent
agent i = record { id = i; run_id = 5; role = hacker }

abbrev agents : List Agent
agents = agent 1 ∷ agent 2 ∷ []

abbrev submission : Uuid → Uuid → SubmissionState → Submission
submission i a st = record {
  id = i;
  run_id = 5;
  agent_id = a;
  state = st;
  value_hypothesis = "";
  summary = "";
  accepted_at = none;
  human_testing_required = false;
}

abbrev submissions : List Submission
submissions = submission 10 1 accepted ∷ submission 11 1 rejected ∷ submission 12 2 rejected ∷ []

abbrev events : Events thousandths in_order 300 2000 "run_end"
events = []

abbrev generated :
    Events thousandths in_order 300 2000 "run_end" × Events thousandths in_order 300 2000 "run_end"
generated =
    generate_non_production_penalties thousandths in_order 300 2000 "run_end" agents submissions
      events 5

-- Only the agent without an accepted submission is penalized, and only once.
penalized : generated.0 ≡ non_production_event thousandths in_order 300 2000 "run_end" 12 ∷ []
unfolding generate_non_production_penalties penalize_agents penalize
penalized = refl

again :
    (generate_non_production_penalties thousandths in_order 300 2000 "run_end" agents submissions
      generated.1 5).0
    ≡ []
unfolding generate_non_production_penalties penalize_agents penalize non_production_event
again = refl

penalties_lem_example : penalties_of thousandths in_order 300 2000 "run_end" 12 generated.1 ≡ (
    if any
      (λ (a : Agent).
        (a.run_id == 5)
        && is_unproductive thousandths in_order 300 2000 "run_end" submissions 5 12 a.id)
      agents
    then max_of 1 (penalties_of thousandths in_order 300 2000 "run_end" 12 events)
    else penalties_of thousandths in_order 300 2000 "run_end" 12 events)
penalties_lem_example =
    penalties_lem thousandths in_order 300 2000 "run_end" agents submissions events 5 12

-- Scores in thousandths, an environment that sets one cap, and a quality above the cap.
abbrev getenv : String → Option String
getenv name = if name == "SCORE_COMPONENT_CAP_QUALITY" then some "0.9" else none

abbrev parse : String → Option ℕ
parse text = if text == "0.9" then some 900 else none

abbrev scores : PerComponent ℕ
scores = record {
  quality = 950;
  novelty = 500;
  feasibility = 800;
  criteria = 600;
  similarity_penalty = 100;
  too_safe_penalty = 900;
  non_production_penalty = 0;
}

abbrev weights : PerComponent ℕ
weights = record {
  quality = 300;
  novelty = 300;
  feasibility = 200;
  criteria = 200;
  similarity_penalty = 1000;
  too_safe_penalty = 100;
  non_production_penalty = 1000;
}

abbrev unit_interval : FloorCap ℕ
unit_interval = record { floor = 0; cap = 1000 }

abbrev loaded : ScoreComponentBounds ℕ
loaded = record {
  quality = record { floor = 0; cap = 900 };
  novelty = unit_interval;
  feasibility = unit_interval;
  criteria = unit_interval;
  similarity_penalty = record { floor = 0; cap = 750 };
  too_safe_penalty = record { floor = 0; cap = 750 };
  non_production_penalty = unit_interval;
}

loaded_bounds : active_bounds thousandths getenv parse none ≡ ok loaded
unfolding active_bounds load_score_component_bounds env_pair env_float
    validate_score_component_bounds validate_floor_cap_pair raise_if
loaded_bounds = refl

compose_final_score_lem_example :
    ((is_valid thousandths getenv parse loaded ≡ true)
      × ((b : FinalScoreBreakdown ℕ) × (compose_final_score thousandths getenv parse scores weights
              none
            ≡ ok b)
          × IsBounded thousandths getenv parse loaded scores b.components
          × (b.final_score ≡ b.weighted_positive - b.weighted_penalties)))
    ⊎ ((is_valid thousandths getenv parse loaded ≡ false)
        × ((e : BoundsError) × (compose_final_score thousandths getenv parse scores weights none
              ≡ raise e)))
compose_final_score_lem_example =
    compose_final_score_lem thousandths getenv parse scores weights none loaded ltb-IsLess.asym
      loaded_bounds
