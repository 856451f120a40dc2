-- ===== src/Validation/RunState.antt =====
-- app/validation/run_state_machine.py
pub mod Lifecycle
pub mod Reach
use why_combinator.Prelude.{
  ◌≡◌, Bool, true, false, Option, none, some, List, [], ◌∷◌, ◌&&◌, if◌then◌else◌, ◌==◌, contains,
  Outcome, ok, raise, ◌>>=◌,
}
use why_combinator.Db.Enums.{
  RunState, created, running, canceling, completed, canceled, failed, run_state_has_eq,
}
use why_combinator.Db.Models.{Run, Instant}

pub record RunStateTransitionError : Type 0 where
  pub current_state : RunState
  pub target_state : RunState

pub legal_run_state_transitions : RunState → List RunState
legal_run_state_transitions created = running ∷ failed ∷ canceled ∷ []
legal_run_state_transitions running = canceling ∷ completed ∷ failed ∷ []
legal_run_state_transitions canceling = canceled ∷ failed ∷ []
legal_run_state_transitions completed = []
legal_run_state_transitions canceled = []
legal_run_state_transitions failed = []

pub assert_run_state_transition : RunState → RunState → Outcome RunStateTransitionError (Unit {0})
unfolding legal_run_state_transitions
assert_run_state_transition current target =
    if current == target
    then ok tt
    else if contains (legal_run_state_transitions current) target
    then ok tt
    else raise (record { current_state = current; target_state = target })

abbrev pub is_none {ℓ} : {A : Type ℓ} → Option A → Bool
is_none none = true
is_none (some a) = false

-- The writes behind the guards; `current_time` is `now or datetime.now(UTC)`.
pub enter_run_state : Run → RunState → Instant → Run
enter_run_state run target current_time =
    let run' = record run { state = target } in
    let run'' =
      if (target == running) && is_none run'.started_at
      then record run' { started_at = some current_time }
      else run' in
    if contains (completed ∷ canceled ∷ failed ∷ []) target
    then record run'' { ended_at = some current_time }
    else run''

unfoldable pub apply_run_state_transition :
    Run → RunState → Instant → Outcome RunStateTransitionError Run
unfolding assert_run_state_transition enter_run_state
apply_run_state_transition run target_state current_time =
    assert_run_state_transition run.state target_state >>= λ _.
    if run.state == target_state then ok run else ok (enter_run_state run target_state current_time)
