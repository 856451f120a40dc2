-- ===== src/Validation/RunState/Reach.antt =====
-- Which states a run can still come to.
use why_combinator.Prelude.{
  ◌≡◌, ◌↔◌, ◌⊎◌, inl, inr, ◌∙◌, refl, Bool, true, not, ◌&&◌, ◌||◌, List, [], ◌∷◌, arith, ltb, ◌==◌,
}
use why_combinator.Db.Enums.{
  RunState, created, running, canceling, completed, canceled, failed, run_state_has_eq,
}
use why_combinator.Db.Models.{Run, Instant}
use why_combinator.Validation.RunState.Lifecycle.{
  Request, attempt, history, rank, next_state, attempt_state,
}

-- A later state, but that a run which is being canceled no longer completes.
abbrev pub is_later : RunState → RunState → Bool
is_later s t = ltb (rank s) (rank t) && not (s == canceling && t == completed)

-- The requests that lead from one state to a later one.
path : RunState → RunState → List RunState
path created canceling = running ∷ canceling ∷ []
path created completed = running ∷ completed ∷ []
path running canceled = canceling ∷ canceled ∷ []
path s t = t ∷ []

at_times : Instant → List RunState → List Request
at_times now [] = []
at_times now (t ∷ ts) = (t, now) ∷ at_times now ts

follow : RunState → List RunState → RunState
follow s [] = s
follow s (t ∷ ts) = follow (next_state s t) ts

history-follow :
    (run : Run) (now : Instant) (ts : List RunState)
    → (history run (at_times now ts)).state ≡ follow run.state ts
unfolding history at_times follow
history-follow run now [] = refl
history-follow run now (t ∷ ts) =
    rw (history-follow (attempt run (t, now)) now ts, attempt_state run t now)

path_leads : (s t : RunState) → is_later s t ≡ true → follow s (path s t) ≡ t
unfolding follow path next_state
path_leads created t h = ground arith
path_leads running t h = ground arith
path_leads canceling t h = ground arith
path_leads completed t h = ground arith
path_leads canceled t h = ground arith
path_leads failed t h = ground arith

next_state_later :
    (s u t : RunState)
    → ((next_state s u == t) || is_later (next_state s u) t) ≡ true
    → ((s == t) || is_later s t) ≡ true
unfolding next_state
next_state_later created u t h = ground arith
next_state_later running u t h = ground arith
next_state_later canceling u t h = ground arith
next_state_later completed u t h = ground arith
next_state_later canceled u t h = ground arith
next_state_later failed u t h = ground arith

history_later :
    (run : Run) (rs : List Request) (t : RunState)
    → (history run rs).state ≡ t
    → ((run.state == t) || is_later run.state t) ≡ true
unfolding history
history_later run [] t h = rw h (ground arith)
history_later run ((u, now) ∷ rs) t h =
    next_state_later run.state u t
      (rw (attempt_state run u now) at (history_later (attempt run (u, now)) rs t h))

-- A run can be brought to a state by some requests exactly when it is there already or the state is
-- a later one (created, then running, then canceling, then the three terminal states), with the one
-- exception that a run that is being canceled cannot complete.
pub history_reaches :
    (run : Run) (t : RunState) (now : Instant)
    → ((rs : List Request) × ((history run rs).state ≡ t))
      ↔ ((run.state ≡ t) ⊎ (is_later run.state t ≡ true))
history_reaches run t now = (
  λ (rs, e). ground (arith, history_later run rs t e),
  elim [
    | inl e ↦ ([], unfold history in e)
    | inr later ↦ (
      at_times now (path run.state t),
      history-follow run now (path run.state t) ∙ path_leads run.state t later,
    )
  ],
)
