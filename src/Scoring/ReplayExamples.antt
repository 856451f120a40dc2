-- ===== src/Scoring/ReplayExamples.antt =====
-- A checkpoint that is scored and replayed, and the theorem at this input.
use mathlib.Core.List.Memᴰ
use why_combinator.Prelude.{
  ℕ, ◌≡◌, refl, false, none, some, String, Option, [], ◌∷◌, map, All, ok, arith, subst, sym, inl,
  inr,
}
use why_combinator.Prelude.Orders.{ltb-IsLess}
use why_combinator.Prelude.Sort.{sort}
use why_combinator.Platform.Sql.{in_order}
use why_combinator.Platform.Floats.{thousandths}
use why_combinator.Platform.Json.{field, end, object, get}
use why_combinator.Db.Enums.{running, rejected}
use why_combinator.Db.Models.{Run, Submission, ScoreEvent, FrozenSnapshot}
use why_combinator.Scoring.FinalScore.{
  PerComponent, FloorCap, ScoreComponentBounds, FinalScoreBreakdown, as_payload, asdict,
  asdict_bounds, compose_final_score, breakdown, apply_score_component_bounds, active_bounds,
  validate_score_component_bounds, validate_floor_cap_pair, raise_if, bounded, bounded_components,
  apply_bounds,
}
use why_combinator.Scoring.Replay.{
  ReplaySubmissionResult, ReplayScoringResult, replay_scoring_from_frozen_snapshot, scored_events,
  resolve_checkpoint_snapshot, generate_replay_score_deltas,
}
use why_combinator.Scoring.Replay.Faithful.{IsRounding, IsScored, IsReproduced}
use why_combinator.Scoring.Replay.Reproduction.{IsUnchanged, replay_reproduces}

abbrev getenv : String → Option String
getenv name = none

abbrev parse : String → Option ℕ
parse text = none

thousandths-IsRounding : IsRounding thousandths
thousandths-IsRounding = record {
  asym = ltb-IsLess.asym;
  exact = λ x y a b. ground arith;
  round_mono = λ x y h. h;
  round_twice = λ x. refl;
  zero = λ x. omega arith;
}

abbrev weights : PerComponent ℕ
weights = record {
  quality = 200;
  novelty = 200;
  feasibility = 200;
  criteria = 200;
  similarity_penalty = 200;
  too_safe_penalty = 200;
  non_production_penalty = 200;
}

abbrev low : FloorCap ℕ
low = record { floor = 0; cap = 750 }

abbrev bounds : ScoreComponentBounds ℕ
bounds = record {
  quality = low;
  novelty = low;
  feasibility = low;
  criteria = low;
  similarity_penalty = low;
  too_safe_penalty = low;
  non_production_penalty = low;
}

abbrev components : ℕ → PerComponent ℕ
components quality = record {
  quality = quality;
  novelty = 500;
  feasibility = 500;
  criteria = 500;
  similarity_penalty = 500;
  too_safe_penalty = 500;
  non_production_penalty = 500;
}

-- The quality of 950 is above the cap.
abbrev composed : ℕ → FinalScoreBreakdown ℕ
composed quality =
    breakdown thousandths getenv parse (record (components quality) { quality = 750 }) weights

abbrev event : ℕ → ScoreEvent ℕ
event i = record {
  id = i;
  submission_id = i;
  checkpoint_id = "c";
  quality_score = 950;
  novelty_score = 500;
  feasibility_score = 500;
  criteria_score = 500;
  final_score = (composed 950).final_score;
  payload = as_payload thousandths getenv parse (composed 950);
  payload_checksum = "";
  created_at = 1;
}

abbrev submission : Submission
submission = record {
  id = 1;
  run_id = 5;
  agent_id = 3;
  state = rejected;
  value_hypothesis = "";
  summary = "";
  accepted_at = none;
  human_testing_required = false;
}

abbrev run : Run
run = record { id = 5; challenge_id = 7; state = running; started_at = none; ended_at = none }

abbrev frozen : FrozenSnapshot ℕ
frozen = record {
  snapshot = record { id = 9; run_id = 5; checkpoint_id = "c"; captured_at = 1 };
  active_weights = asdict weights;
  active_policies = field "score_component_bounds" (object (asdict_bounds bounds)) end;
}

event-IsScored : IsScored thousandths getenv parse thousandths-IsRounding weights bounds (event 1)
unfolding compose_final_score breakdown apply_score_component_bounds active_bounds
    validate_score_component_bounds validate_floor_cap_pair raise_if bounded bounded_components
    apply_bounds as_payload asdict get
event-IsScored = (components 950, composed 950, refl, refl, refl)

latest :
    resolve_checkpoint_snapshot thousandths getenv parse in_order (frozen ∷ []) 5 none ≡ ok frozen
unfolding resolve_checkpoint_snapshot sort
latest = refl

kept_bounds :
    get "score_component_bounds" frozen.active_policies ≡ some (object (asdict_bounds bounds))
unfolding get
kept_bounds = refl

replay_reproduces_example :
    (r : ReplayScoringResult ℕ) × (replay_scoring_from_frozen_snapshot thousandths getenv parse
        in_order
        (run ∷ [])
        (submission ∷ [])
        (event 1 ∷ [])
        (frozen ∷ [])
        5
        none
      ≡ ok r)
    × (map (λ (row : ReplaySubmissionResult ℕ). row.submission_id) r.submissions
        ≡ map
            (λ (e : ScoreEvent ℕ). e.submission_id)
            (scored_events thousandths getenv parse in_order
              (event 1 ∷ [])
              (submission ∷ [])
              5
              "c"))
    × All (IsReproduced thousandths getenv parse thousandths-IsRounding) r.submissions
    × All
        (IsUnchanged thousandths getenv parse thousandths-IsRounding)
        (generate_replay_score_deltas thousandths getenv parse r)
replay_reproduces_example =
    replay_reproduces thousandths getenv parse thousandths-IsRounding in_order (run ∷ [])
      (submission ∷ []) (event 1 ∷ []) (frozen ∷ []) 5 none frozen weights bounds refl latest refl
      kept_bounds refl
      (λ e m h. elim (Memᴰ.cases_cons m) [
        | inl same ↦
            subst (IsScored thousandths getenv parse thousandths-IsRounding weights bounds)
              (sym same) event-IsScored
        | inr none_left ↦ absurd (Memᴰ.not-nil none_left)
      ])
