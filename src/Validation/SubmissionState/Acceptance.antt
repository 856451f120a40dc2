-- ===== src/Validation/SubmissionState/Acceptance.antt =====
-- The acceptance stamp of a submission, and which states follow one another.
use why_combinator.Prelude.{
  ◌≡◌, ◌↔◌, ◌⊎◌, ◌∙◌, refl, Bool, true, false, Option, none, some, List, [], ◌∷◌, arith,
  if◌then◌else◌, ◌==◌, contains, ok, raise, ◌≢◌,
}
use why_combinator.Db.Enums.{
  SubmissionState, pending, scored, accepted, rejected, submission_state_has_eq,
}
use why_combinator.Db.Models.{Submission, Instant}
use why_combinator.Validation.SubmissionState.{
  legal_submission_state_transitions, apply_submission_state_transition,
}

abbrev pub is_some {ℓ} : {A : Type ℓ} → Option A → Bool
is_some none = false
is_some (some a) = true

-- The stamp is there exactly in the state `accepted`.
abbrev pub IsStamped : Submission → Type 0
IsStamped s = is_some s.accepted_at ≡ (s.state == accepted)

-- Every transition that is not refused leaves an acceptance stamp exactly if the submission is then
-- accepted, and leaves the identity and the content of the submission as they were.
pub apply-IsStamped :
    (s s' : Submission) (target : SubmissionState) (now : Instant)
    → IsStamped s
    → apply_submission_state_transition s target now ≡ ok s'
    → IsStamped s'
      × (s'.state ≡ target)
      × (s'.id ≡ s.id)
      × (s'.run_id ≡ s.run_id)
      × (s'.agent_id ≡ s.agent_id)
      × (s'.summary ≡ s.summary)
      × (s'.value_hypothesis ≡ s.value_hypothesis)
unfolding apply_submission_state_transition
apply-IsStamped s s' target now st h = ground arith

-- A submission can become accepted only directly from `scored`, and is then stamped with the time of
-- the transition; where it was accepted already the call changes nothing.
pub accepted_from_scored :
    (s s' : Submission) (now : Instant)
    → apply_submission_state_transition s accepted now ≡ ok s'
    → (s.state ≡ scored) × (s'.accepted_at ≡ some now) ⊎ (s.state ≡ accepted) × (s' ≡ s)
unfolding apply_submission_state_transition
accepted_from_scored s s' now h = ground arith

pub attempt : Submission → SubmissionState × Instant → Submission
attempt s (target, now) = elim (apply_submission_state_transition s target now) [
  | ok s' ↦ s'
  | raise _ ↦ s
]

pub history : Submission → List (SubmissionState × Instant) → Submission
history s [] = s
history s (r ∷ rs) = history (attempt s r) rs

next_state : SubmissionState → SubmissionState → SubmissionState
unfolding legal_submission_state_transitions
next_state s t = if contains (legal_submission_state_transitions s) t then t else s

attempt_state :
    (s : Submission) (t : SubmissionState) (now : Instant)
    → (attempt s (t, now)).state ≡ next_state s.state t
unfolding attempt apply_submission_state_transition next_state
attempt_state s t now = ground arith

path : SubmissionState → SubmissionState → List SubmissionState
path pending accepted = scored ∷ accepted ∷ []
path accepted rejected = scored ∷ rejected ∷ []
path rejected accepted = scored ∷ accepted ∷ []
path s t = t ∷ []

at_times : Instant → List SubmissionState → List (SubmissionState × Instant)
at_times now [] = []
at_times now (t ∷ ts) = (t, now) ∷ at_times now ts

follow : SubmissionState → List SubmissionState → SubmissionState
follow s [] = s
follow s (t ∷ ts) = follow (next_state s t) ts

history-follow :
    (s : Submission) (now : Instant) (ts : List SubmissionState)
    → (history s (at_times now ts)).state ≡ follow s.state ts
unfolding history at_times follow
history-follow s now [] = refl
history-follow s now (t ∷ ts) =
    rw (history-follow (attempt s (t, now)) now ts, attempt_state s t now)

path_leads : (s t : SubmissionState) → t ≢ pending → follow s (path s t) ≡ t
unfolding follow path next_state
path_leads pending t h = ground arith
path_leads scored t h = ground arith
path_leads accepted t h = ground arith
path_leads rejected t h = ground arith

next_state-ne-pending : (s t : SubmissionState) → s ≢ pending → next_state s t ≢ pending
unfolding next_state
next_state-ne-pending s t h = ground arith

history-ne-pending :
    (s : Submission) (rs : List (SubmissionState × Instant))
    → s.state ≢ pending
    → (history s rs).state ≢ pending
unfolding history
history-ne-pending s [] h = h
history-ne-pending s ((t, now) ∷ rs) h =
    history-ne-pending (attempt s (t, now)) rs
      (rw (attempt_state s t now) (next_state-ne-pending s.state t h))

-- Some requests lead from a submission that has left `pending` to a given state exactly if that
-- state is not `pending`: judging can always be revised, and never be undone altogether.
pub history_revises :
    (s : Submission) (t : SubmissionState) (now : Instant)
    → s.state ≢ pending
    → ((rs : List (SubmissionState × Instant)) × ((history s rs).state ≡ t)) ↔ (t ≢ pending)
history_revises s t now h = (
  λ (rs, e). rw e at (history-ne-pending s rs h),
  λ other. (
    at_times now (path s.state t),
    history-follow s now (path s.state t) ∙ path_leads s.state t other,
  ),
)
