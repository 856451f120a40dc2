-- ===== src/Validation/SubmissionState.antt =====
-- app/validation/submission_state_machine.py
pub mod Acceptance
use why_combinator.Prelude.{
  ◌≡◌, Bool, true, false, Option, none, some, List, [], ◌∷◌, if◌then◌else◌, ◌==◌, contains, ok,
  raise, ◌>>=◌, Outcome,
}
use why_combinator.Db.Enums.{
  SubmissionState, pending, scored, accepted, rejected, submission_state_has_eq,
}
use why_combinator.Db.Models.{Submission, Instant}

pub record SubmissionStateTransitionError : Type 0 where
  pub current_state : SubmissionState
  pub target_state : SubmissionState

pub legal_submission_state_transitions : SubmissionState → List SubmissionState
legal_submission_state_transitions pending = scored ∷ rejected ∷ []
legal_submission_state_transitions scored = accepted ∷ rejected ∷ []
legal_submission_state_transitions accepted = scored ∷ []
legal_submission_state_transitions rejected = scored ∷ []

pub assert_submission_state_transition :
    SubmissionState → SubmissionState → Outcome SubmissionStateTransitionError (Unit {0})
unfolding legal_submission_state_transitions
assert_submission_state_transition current target =
    if current == target
    then ok tt
    else if contains (legal_submission_state_transitions current) target
    then ok tt
    else raise (record { current_state = current; target_state = target })

-- `current_time` is `now or datetime.now(UTC)`.
unfoldable pub apply_submission_state_transition :
    Submission → SubmissionState → Instant → Outcome SubmissionStateTransitionError Submission
unfolding assert_submission_state_transition
apply_submission_state_transition submission target_state current_time =
    assert_submission_state_transition submission.state target_state >>= λ _.
    if submission.state == target_state
    then ok submission
    else let submission' = record submission { state = target_state } in
      if target_state == accepted
      then ok (record submission' { accepted_at = some current_time })
      else ok (record submission' { accepted_at = none })
