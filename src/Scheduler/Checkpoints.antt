-- ===== src/Scheduler/Checkpoints.antt =====
-- `enqueue_periodic_checkpoint_scores` of app/scheduler/checkpoints.py: one tick of the scheduler.
pub mod Ticks
pub mod Window
pub mod Writes
use why_combinator.Prelude.{
  ℕ, ◌+◌, ◌≡◌, String, Bool, true, false, not, ◌&&◌, Option, none, some, List, [], ◌∷◌, map, leb,
  if◌then◌else◌, ◌==◌, nat_has_eq, take, head?, max_of, Outcome, ok, raise,
}
use why_combinator.Prelude.Sort.{sort}
use why_combinator.Platform.Sql.{Engine}
use why_combinator.Platform.Floats.{Floats}
use why_combinator.Db.Enums.{running, run_state_has_eq}
use why_combinator.Db.Models.{Uuid, Instant, Run, Challenge, CheckpointSnapshot, seconds}
use why_combinator.Scheduler.Keys.{Key, next_checkpoint_at, Stored, stamp, SchedulerRedis}
use why_combinator.Scheduler.LeaderElection.{
  SchedulerLeaderElectionResult, try_acquire_or_renew_scheduler_leader,
  publish_scheduler_leader_heartbeat,
}
use why_combinator.Scheduler.FairOrder.{weighted_fair_due_order}
use why_combinator.Scheduler.Interval.{
  CheckpointConfig, Inspection, resolve_adaptive_checkpoint_interval_seconds,
  apply_checkpoint_jitter, AdaptiveCheckpointInterval,
}

-- `datetime.fromisoformat` raises.
pub data TickError : Type 0 where
  value_error : TickError

abbrev pub is_some {ℓ} : {A : Type ℓ} → Option A → Bool
is_some none = false
is_some (some a) = true

-- The `where` of the query for runs.
abbrev pub is_started_running : Run → Bool
is_started_running run = run.state == running && is_some run.started_at

-- What the tick is given: the two tables, the challenge that `selectinload` attaches to a run, the
-- digest of a run's id, and what the workers report.
pub record Surroundings : Type 0 where
  pub runs : List Run
  pub snapshots : List CheckpointSnapshot
  pub challenge : Run → Challenge
  pub digest : Uuid → ℕ
  pub inspection : Inspection

abbrev newer : CheckpointSnapshot → CheckpointSnapshot → Bool
newer a b = leb b.captured_at a.captured_at

module _ (db : Engine) (redis : SchedulerRedis) (floats : Floats) (config : CheckpointConfig)
    (w : Surroundings) where
  unfoldable pub resolve_resume_checkpoint_at : Run → ℕ → Option Instant
  resolve_resume_checkpoint_at run interval_seconds =
      let snapshots =
        db.select CheckpointSnapshot (λ snapshot. snapshot.run_id == run.id) w.snapshots in
      elim run.started_at [
        | none ↦ none
        | some started_at ↦ elim (head? (sort newer snapshots)) [
          | none ↦ some started_at
          | some latest ↦ some (latest.captured_at + seconds interval_seconds)
        ]
      ]

  -- What a run without a stored time does: it takes one up, and is due if that is past.
  unfoldable pub resume_step : redis.State → Instant → ℕ → Run → redis.State × Bool
  resume_step s now interval run = elim (resolve_resume_checkpoint_at run interval) [
    | none ↦ (s, false)
    | some base ↦
        let next = apply_checkpoint_jitter w.digest config base run.id interval in
        (redis.set s (next_checkpoint_at run.id) (stamp next), leb next now)
  ]

  -- The body of `for run in runs`, and whether the run is due.
  unfoldable pub due_step : redis.State → Instant → ℕ → Run → redis.State × Outcome TickError Bool
  due_step s now interval run = elim run.started_at [
    | none ↦ (s, ok false)
    | some started_at ↦
        let deadline = started_at + seconds (w.challenge run).iteration_window_seconds in
        if leb deadline now then (s, ok false) else elim (redis.get s (next_checkpoint_at run.id)) [
          | none ↦ let (s', due) = resume_step s now interval run in (s', ok due)
          | some raw ↦ elim raw [ stamp next ↦ (s, ok (leb next now)) | _ ↦ (s, raise value_error) ]
        ]
  ]

  unfoldable pub collect_due :
      redis.State → Instant → ℕ → List Run → redis.State × Outcome TickError (List Run)
  collect_due s now interval [] = (s, ok [])
  collect_due s now interval (run ∷ runs) =
      let (s', outcome) = due_step s now interval run in
      let (s'', rest) = collect_due s' now interval runs in
      elim outcome [
        | raise e ↦ (s', raise e)
        | ok due ↦ elim rest [
          | raise e ↦ (s'', raise e)
          | ok due_runs ↦ (s'', ok (if due then run ∷ due_runs else due_runs))
        ]
      ]

  -- The loop over the chosen runs: the next time of each is stored.
  unfoldable pub store_next : redis.State → Instant → ℕ → List Run → redis.State
  store_next s now interval [] = s
  store_next s now interval (run ∷ runs) =
      let next = apply_checkpoint_jitter w.digest config (now + seconds interval) run.id interval in
      store_next (redis.set s (next_checkpoint_at run.id) (stamp next)) now interval runs

  abbrev pub tick_interval : ℕ
  tick_interval =
      (resolve_adaptive_checkpoint_interval_seconds floats config (max_of 1 config.interval_seconds)
        w.inspection).interval_seconds

  abbrev pub chosen : List Run → List Run
  chosen due_runs = take (max_of 1 config.max_enqueues_per_tick) (weighted_fair_due_order due_runs)

  -- What the elected leader does. Each id that is returned was also handed to
  -- `checkpoint_score.delay`, in this order.
  unfoldable pub lead : redis.State → Instant → redis.State × Outcome TickError (List Uuid)
  lead s now =
      let interval = tick_interval in
      let runs = db.select Run is_started_running w.runs in
      let (s', outcome) = collect_due s now interval runs in
      elim outcome [
        | raise e ↦ (s', raise e)
        | ok due_runs ↦ (
          store_next s' now interval (chosen due_runs),
          ok (map (λ (run : Run). run.id) (chosen due_runs)),
        )
      ]

  -- `ttl` is the lifetime of the leader's lock.
  unfoldable pub enqueue_periodic_checkpoint_scores :
      (ttl : ℕ) (leader_id : String)
      → redis.State
      → Instant
      → redis.State × Outcome TickError (List Uuid)
  enqueue_periodic_checkpoint_scores ttl leader_id s now =
      let (election, s') = try_acquire_or_renew_scheduler_leader redis ttl s leader_id in
      if election.is_leader
      then lead (publish_scheduler_leader_heartbeat redis s' leader_id now) now
      else (s', ok [])
