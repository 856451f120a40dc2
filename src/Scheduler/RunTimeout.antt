-- ===== src/Scheduler/RunTimeout.antt =====
-- `fail_stale_runs_without_worker_heartbeat` of app/scheduler/run_timeout.py.
use why_combinator.Prelude.{
  ℕ, ◌+◌, ◌-◌, ◌≡◌, refl, ◌∙◌, ap, Bool, true, false, ◌&&◌, none, some, List, [], ◌∷◌, map, filter,
  leb, ltb, arith, if◌then◌else◌, max_of, Outcome, ok, ◌>>=◌, ◌==◌, nat_has_eq, Bool-cases,
  Option-cases, &&-true, ==→eq, inl, inr, All,
}
use why_combinator.Prelude.Members.{All-of}
use why_combinator.Platform.Sql.{Engine}
use why_combinator.Db.Enums.{running, failed, run_state_has_eq}
use why_combinator.Db.Models.{Uuid, Instant, Run, seconds}
use why_combinator.Db.Tables.{replace, change_all, change_all-select, IsKeyed, Memᴰ-select}
use why_combinator.Validation.RunState.{RunStateTransitionError, apply_run_state_transition}
use why_combinator.Scheduler.Keys.{worker_heartbeat_at, stamp, SchedulerRedis}
use why_combinator.Scheduler.Checkpoints.{is_started_running, is_some}

abbrev pub run_id : Run → Uuid
run_id run = run.id

module _ (db : Engine) (redis : SchedulerRedis) (configured : ℕ) (s : redis.State)
    (now : Instant) where
  -- `configured` is RUN_HEARTBEAT_STALE_SECONDS.
  abbrev pub stale_after : ℕ
  stale_after = seconds (max_of 1 configured)

  -- The heartbeat of the run's worker; a run without one, or with a text that is no ISO date, counts
  -- from its start.
  unfoldable pub last_heartbeat : Run → Instant → Instant
  last_heartbeat run started_at = elim (redis.get s (worker_heartbeat_at run.id)) [
    | some raw ↦ elim raw [ stamp t ↦ t | _ ↦ started_at ]
    | none ↦ started_at
  ]

  -- `for run in runs`. Each write to a loaded run is one to its row; a difference of times that is
  -- negative passes the test as 0 does.
  unfoldable pub fail_stale :
      List Run → List Run → Outcome RunStateTransitionError (List Uuid × List Run)
  fail_stale [] table = ok ([], table)
  fail_stale (run ∷ runs) table = elim run.started_at [
    | none ↦ fail_stale runs table
    | some started_at ↦
        if leb (now - last_heartbeat run started_at) stale_after
        then fail_stale runs table
        else apply_run_state_transition run failed now >>= λ run'.
            fail_stale runs (replace run_id run' table) >>= λ rest. ok (run.id ∷ rest.0, rest.1)
  ]

  -- What it returns, and the table of runs behind the commit.
  unfoldable pub fail_stale_runs_without_worker_heartbeat :
      List Run → Outcome RunStateTransitionError (List Uuid × List Run)
  fail_stale_runs_without_worker_heartbeat table =
      fail_stale (db.select Run is_started_running table) table

  -- The worker has been silent for longer than allowed.
  abbrev pub is_silent : Run → Bool
  is_silent run = elim run.started_at [
    | none ↦ false
    | some started_at ↦ ltb (last_heartbeat run started_at + stale_after) now
  ]

  abbrev pub fail_run : Run → Run
  fail_run run = record run { state = failed; ended_at = some now }

  fail_running :
      (run : Run)
      → is_started_running run ≡ true
      → apply_run_state_transition run failed now ≡ ok (fail_run run)
  unfolding apply_run_state_transition
  fail_running run h =
      let (is_running, _) = &&-true (run.state == running) (is_some run.started_at) h in
      let e : run.state ≡ running = ==→eq run.state running is_running in rw e refl

  started : (run : Run) → is_started_running run ≡ true → (t : Instant) × (run.started_at ≡ some t)
  started run h = elim (Option-cases run.started_at) [
    | inl never ↦ let f : is_some run.started_at ≡ false = simp never in ground (arith, f)
    | inr (t, e) ↦ (t, e)
  ]

  silent_at :
      (run : Run) (t : Instant)
      → run.started_at ≡ some t
      → is_silent run ≡ ltb (last_heartbeat run t + stale_after) now
  silent_at run t e =
      ap (λ o. elim o [ none ↦ false | some t ↦ ltb (last_heartbeat run t + stale_after) now ]) e

  step_fresh :
      (run : Run) (t : Instant) (runs table : List Run)
      → run.started_at ≡ some t
      → leb (now - last_heartbeat run t) stale_after ≡ true
      → fail_stale (run ∷ runs) table ≡ fail_stale runs table
  unfolding fail_stale
  step_fresh run t runs table e fresh = simp (e, fresh) refl

  step_silent :
      (run : Run) (t : Instant) (runs table : List Run)
      → run.started_at ≡ some t
      → leb (now - last_heartbeat run t) stale_after ≡ false
      → apply_run_state_transition run failed now ≡ ok (fail_run run)
      → fail_stale (run ∷ runs) table ≡ (
          fail_stale runs (replace run_id (fail_run run) table) >>= λ rest.
          ok (run.id ∷ rest.0, rest.1))
  unfolding fail_stale
  step_silent run t runs table e late fails = simp (e, late, fails) refl

  fail_stale_lem :
      (runs table : List Run)
      → All (λ run. is_started_running run ≡ true) runs
      → fail_stale runs table
        ≡ ok (
          map run_id (filter is_silent runs),
          change_all run_id fail_run (filter is_silent runs) table,
        )
  unfolding change_all
  fail_stale_lem [] table h = unfold fail_stale in refl
  fail_stale_lem (run ∷ runs) table h =
      let (t, since) = started run h.0 in
      elim (Bool-cases (ltb (last_heartbeat run t + stale_after) now)) [
        | inl silent ↦
            let is : is_silent run ≡ true = silent_at run t since ∙ silent in
            let late : leb (now - last_heartbeat run t) stale_after ≡ false =
              ground (arith, silent) in
            let ok' = fail_stale_lem runs (replace run_id (fail_run run) table) h.1 in
            rw is (step_silent run t runs table since late (fail_running run h.0) ∙ rw ok' refl)
        | inr alive ↦
            let is : is_silent run ≡ false = silent_at run t since ∙ alive in
            let fresh : leb (now - last_heartbeat run t) stale_after ≡ true =
              ground (arith, alive) in
            rw is (step_fresh run t runs table since fresh ∙ fail_stale_lem runs table h.1)
      ]

  -- It never raises: in a table with the id as its key it sets exactly the running, started runs
  -- whose worker has been silent for too long to failed and stamps their end, leaves every other row
  -- as it is, and returns the ids of the runs it failed.
  pub fail_stale_runs_lem :
      (table : List Run)
      → IsKeyed run_id table
      → fail_stale_runs_without_worker_heartbeat table
        ≡ ok (
          map run_id (filter is_silent (db.select Run is_started_running table)),
          map (λ run. if is_started_running run && is_silent run then fail_run run else run) table,
        )
  unfolding fail_stale_runs_without_worker_heartbeat
  fail_stale_runs_lem table keyed =
      let runs = db.select Run is_started_running table in
      fail_stale_lem runs table (
        All-of (λ run. is_started_running run ≡ true) runs
          (λ run m. (Memᴰ-select db is_started_running table m).1))
      ∙ ap (λ t. ok (map run_id (filter is_silent runs), t))
          (change_all-select run_id fail_run (λ run. refl) db is_started_running is_silent table
            keyed)
