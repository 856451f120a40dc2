-- ===== src/Validation/Examples.antt =====
-- Runs of the two state machines, and the theorems at concrete inputs.
use why_combinator.Prelude.{◌≡◌, refl, false, none, some, List, [], ◌∷◌, arith, ok, raise}
use why_combinator.Db.Enums.{
  created, running, canceling, completed, canceled, scored, accepted, submission_state_has_eq,
}
use why_combinator.Db.Models.{Run, Submission}
use why_combinator.Validation.RunState.{apply_run_state_transition}
use why_combinator.Validation.RunState.Lifecycle.{
  Request, history, changes, rank, IsConsistent, apply-IsConsistent, history_terminal,
  changes_bound, history_started_at,
}
use why_combinator.Validation.RunState.Lifecycle
use why_combinator.Validation.SubmissionState.{apply_submission_state_transition}
use why_combinator.Validation.SubmissionState.Acceptance.{IsStamped, apply-IsStamped}

abbrev fresh_run : Run
fresh_run = record { id = 7; challenge_id = 1; state = created; started_at = none; ended_at = none }

abbrev started_run : Run
started_run = record fresh_run { state = running; started_at = some 100 }

abbrev done_run : Run
done_run = record started_run { state = completed; ended_at = some 250 }

start_works : apply_run_state_transition fresh_run running 100 ≡ ok started_run
unfolding apply_run_state_transition
start_works = refl

complete_too_early :
    apply_run_state_transition fresh_run completed 100
    ≡ raise (record { current_state = created; target_state = completed })
unfolding apply_run_state_transition
complete_too_early = refl

abbrev requests : List Request
requests =
    (completed, 90) ∷ (running, 100) ∷ (canceling, 130) ∷ (completed, 140) ∷ (canceled, 150) ∷ []

cancel_wins : (history fresh_run requests).state ≡ canceled
unfolding history Lifecycle.attempt apply_run_state_transition
cancel_wins = refl

started_run-IsConsistent : IsConsistent 100 started_run
started_run-IsConsistent = record {
  ended = refl;
  started = λ _. refl;
  fresh = λ e. cc;
  started_by_now = omega arith;
  ended_by_now = tt;
  started_before_ended = tt;
}

complete_works : apply_run_state_transition started_run completed 250 ≡ ok done_run
unfolding apply_run_state_transition
complete_works = refl

apply-IsConsistent_example : IsConsistent 250 done_run
apply-IsConsistent_example =
    apply-IsConsistent 100 250 started_run done_run completed started_run-IsConsistent (omega arith)
      complete_works

abbrev judged : Submission
judged = record {
  id = 3;
  run_id = 7;
  agent_id = 9;
  state = scored;
  value_hypothesis = "saves time";
  summary = "a planner";
  accepted_at = none;
  human_testing_required = false;
}

abbrev taken : Submission
taken = record judged { state = accepted; accepted_at = some 300 }

accept_works : apply_submission_state_transition judged accepted 300 ≡ ok taken
unfolding apply_submission_state_transition
accept_works = refl

apply-IsStamped_example :
    IsStamped taken
    × (taken.state ≡ accepted)
    × (taken.id ≡ judged.id)
    × (taken.run_id ≡ judged.run_id)
    × (taken.agent_id ≡ judged.agent_id)
    × (taken.summary ≡ judged.summary)
    × (taken.value_hypothesis ≡ judged.value_hypothesis)
apply-IsStamped_example = apply-IsStamped judged taken accepted 300 refl accept_works
