-- ===== src/Validation/RunState/Lifecycle.antt =====
-- Sequences of requested transitions of one run, and what they can do to it.
use why_combinator.Prelude.{
  ℕ, ◌+◌, ◌≤◌, ◌≡◌, refl, Bool, true, false, not, Option, some, List, [], ◌∷◌, arith, if◌then◌else◌,
  ◌==◌, contains, ok, raise,
}
use why_combinator.Db.Enums.{
  RunState, created, running, canceling, completed, canceled, failed, run_state_has_eq,
}
use why_combinator.Db.Models.{Run, Instant}
use why_combinator.Validation.RunState.{
  is_none, legal_run_state_transitions, apply_run_state_transition,
}

-- A caller asks for a state at a time; a refused request leaves the run alone.
abbrev pub Request : Type 0
Request = RunState × Instant

unfoldable pub attempt : Run → Request → Run
attempt run (target, now) = elim (apply_run_state_transition run target now) [
  | ok run' ↦ run'
  | raise _ ↦ run
]

unfoldable pub history : Run → List Request → Run
history run [] = run
history run (r ∷ rs) = history (attempt run r) rs

-- How many of the requests change the state.
pub changes : Run → List Request → ℕ
changes run [] = 0
changes run (r ∷ rs) =
    (if (attempt run r).state == run.state then 0 else 1) + changes (attempt run r) rs

abbrev pub is_terminal : RunState → Bool
is_terminal completed = true
is_terminal canceled = true
is_terminal failed = true
is_terminal _ = false

-- How far a state lies from the creation of the run.
abbrev pub rank : RunState → ℕ
rank created = 0
rank running = 1
rank canceling = 2
rank _ = 3

-- The states in which work may have been done.
abbrev pub was_started : RunState → Bool
was_started running = true
was_started canceling = true
was_started completed = true
was_started _ = false

-- Both instants are known, and the first is not later.
abbrev pub InOrder : Option Instant → Option Instant → Type 0
InOrder (some a) (some b) = a ≤ b
InOrder _ _ = Unit

-- What holds of a run at the time `now`.
pub record IsConsistent (now : Instant) (run : Run) : Type 0 where
  pub ended : is_none run.ended_at ≡ not (is_terminal run.state)
  pub started : was_started run.state ≡ true → is_none run.started_at ≡ false
  pub fresh : run.state ≡ created → is_none run.started_at ≡ true
  pub started_by_now : InOrder run.started_at (some now)
  pub ended_by_now : InOrder run.ended_at (some now)
  pub started_before_ended : InOrder run.started_at run.ended_at

-- A transition that is not refused, at a time not before the last, keeps the stamps in accordance
-- with the state: an end stamp exactly in the terminal states, a start stamp in every state in which
-- the run was started, none before, and start, end and clock in this order.
pub apply-IsConsistent :
    (before now : Instant) (run run' : Run) (target : RunState)
    → IsConsistent before run
    → before ≤ now
    → apply_run_state_transition run target now ≡ ok run'
    → IsConsistent now run'
unfolding apply_run_state_transition
apply-IsConsistent before now run run' target c le h = ground arith

attempt_terminal : (run : Run) (r : Request) → is_terminal run.state ≡ true → attempt run r ≡ run
unfolding attempt apply_run_state_transition
attempt_terminal run (t, now) h = ground arith

-- After a terminal state no sequence of requests changes anything in the run.
pub history_terminal :
    (run : Run) (rs : List Request) → is_terminal run.state ≡ true → history run rs ≡ run
unfolding history
history_terminal run [] h = refl
history_terminal run (r ∷ rs) h =
    let same = attempt_terminal run r h in rw same (history_terminal run rs h)

-- The state that a request leads to.
unfoldable pub next_state : RunState → RunState → RunState
unfolding legal_run_state_transitions
next_state s t = if contains (legal_run_state_transitions s) t then t else s

pub attempt_state :
    (run : Run) (t : RunState) (now : Instant)
    → (attempt run (t, now)).state ≡ next_state run.state t
unfolding attempt apply_run_state_transition next_state
attempt_state run t now = ground arith

next_state-rank :
    (s t : RunState) → (if next_state s t == s then 0 else 1) + rank s ≤ rank (next_state s t)
unfolding next_state
next_state-rank created t = ground arith
next_state-rank running t = ground arith
next_state-rank canceling t = ground arith
next_state-rank completed t = ground arith
next_state-rank canceled t = ground arith
next_state-rank failed t = ground arith

attempt-rank :
    (run : Run) (r : Request)
    → (if (attempt run r).state == run.state then 0 else 1) + rank run.state
      ≤ rank (attempt run r).state
attempt-rank run (t, now) = rw attempt_state (next_state-rank run.state t)

-- However many transitions are requested, the state of a run changes at most three times, and fewer
-- by each step that the run had made before.
pub changes_bound :
    (run : Run) (rs : List Request) → changes run rs + rank run.state ≤ rank (history run rs).state
unfolding changes history
changes_bound run [] = omega arith
changes_bound run (r ∷ rs) = omega (arith, attempt-rank run r, changes_bound (attempt run r) rs)

attempt_stamps :
    (run : Run) (r : Request) (s : Instant)
    → run.started_at ≡ some s
    → (attempt run r).started_at ≡ some s
unfolding attempt apply_run_state_transition
attempt_stamps run (t, now) s h = ground arith

-- The start stamp, once set, is never overwritten.
pub history_started_at :
    (run : Run) (rs : List Request) (s : Instant)
    → run.started_at ≡ some s
    → (history run rs).started_at ≡ some s
unfolding history
history_started_at run [] s h = h
history_started_at run (r ∷ rs) s h =
    history_started_at (attempt run r) rs s (attempt_stamps run r s h)
