-- ===== src/Scheduler/Checkpoints/Writes.antt =====
-- Which keys a tick writes.
use why_combinator.Prelude.{
  ℕ, ◌+◌, ◌⊎◌, ◌≡◌, refl, ◌∙◌, String, true, false, some, List, [], ◌∷◌, arith, Outcome-cases, inl,
  inr,
}
use why_combinator.Platform.Sql.{Engine}
use why_combinator.Platform.Floats.{Floats}
use why_combinator.Db.Models.{Uuid, Instant, Run, seconds}
use why_combinator.Scheduler.Keys.{
  Key, next_checkpoint_at, leader_heartbeat, failover_requested, key_same, stamp, heartbeat,
  SchedulerRedis,
}
use why_combinator.Scheduler.LeaderElection.{
  try_acquire_or_renew_scheduler_leader, publish_scheduler_leader_heartbeat,
}
use why_combinator.Scheduler.LeaderElection.Exclusion.{attempt_other}
use why_combinator.Scheduler.Interval.{CheckpointConfig, apply_checkpoint_jitter}
use why_combinator.Scheduler.Checkpoints.{
  Surroundings, due_step, collect_due, store_next, lead, enqueue_periodic_checkpoint_scores, chosen,
  tick_interval, is_started_running,
}
use why_combinator.Scheduler.Checkpoints.Ticks.{step_state}

-- The keys that do not hold the next time of a run.
abbrev pub IsFixed : Key → Type 0
IsFixed k = (j : Uuid) → key_same (next_checkpoint_at j) k ≡ false

pub leader_heartbeat-IsFixed : IsFixed leader_heartbeat
leader_heartbeat-IsFixed j = refl

pub failover_requested-IsFixed : IsFixed failover_requested
failover_requested-IsFixed j = refl

module _ (db : Engine) (redis : SchedulerRedis) (floats : Floats) (config : CheckpointConfig)
    (w : Surroundings) where
  step_fixed :
      (s : redis.State) (now : Instant) (i : ℕ) (run : Run) (k : Key)
      → IsFixed k
      → redis.get (due_step db redis floats config w s now i run).0 k ≡ redis.get s k
  step_fixed s now i run k fixed = elim (step_state db redis floats config w s now i run) [
    | inl same ↦ rw same refl
    | inr (_, next, written) ↦
        rw written
          (redis.get-set s (next_checkpoint_at run.id) (stamp next) k ∙ rw (fixed run.id) refl)
  ]

  collect_fixed :
      (s : redis.State) (now : Instant) (i : ℕ) (runs : List Run) (k : Key)
      → IsFixed k
      → redis.get (collect_due db redis floats config w s now i runs).0 k ≡ redis.get s k
  unfolding collect_due
  collect_fixed s now i [] k fixed = refl
  collect_fixed s now i (run ∷ runs) k fixed =
      let s' = (due_step db redis floats config w s now i run).0 in
      ground (arith, step_fixed s now i run k fixed, collect_fixed s' now i runs k fixed)

  store_fixed :
      (s : redis.State) (now : Instant) (i : ℕ) (runs : List Run) (k : Key)
      → IsFixed k
      → redis.get (store_next db redis floats config w s now i runs) k ≡ redis.get s k
  unfolding store_next
  store_fixed s now i [] k fixed = refl
  store_fixed s now i (run ∷ runs) k fixed =
      let next = apply_checkpoint_jitter w.digest config (now + seconds i) run.id i in
      let s' = redis.set s (next_checkpoint_at run.id) (stamp next) in
      store_fixed s' now i runs k fixed
      ∙ redis.get-set s (next_checkpoint_at run.id) (stamp next) k
      ∙ rw (fixed run.id) refl

  -- The state behind the collection of the due runs.
  abbrev collected : redis.State → Instant → redis.State
  collected s now =
      (collect_due db redis floats config w s now (tick_interval db redis floats config w)
        (db.select Run is_started_running w.runs)).0

  abbrev stored : redis.State → Instant → List Run → redis.State
  stored s now due =
      store_next db redis floats config w (collected s now) now
        (tick_interval db redis floats config w) (chosen db redis floats config w due)

  lead_state :
      (s : redis.State) (now : Instant)
      → ((lead db redis floats config w s now).0 ≡ collected s now)
        ⊎ ((due : List Run) × ((lead db redis floats config w s now).0 ≡ stored s now due))
  unfolding lead
  lead_state s now =
      let i = tick_interval db redis floats config w in
      let runs = db.select Run is_started_running w.runs in
      elim (Outcome-cases (collect_due db redis floats config w s now i runs).1) [
        | inl (_, e) ↦ inl (rw (e, lead) refl)
        | inr (due, e) ↦ inr (due, rw (e, lead) refl)
      ]

  lead_fixed :
      (s : redis.State) (now : Instant) (k : Key)
      → IsFixed k
      → redis.get (lead db redis floats config w s now).0 k ≡ redis.get s k
  lead_fixed s now k fixed =
      let i = tick_interval db redis floats config w in
      let runs = db.select Run is_started_running w.runs in
      elim (lead_state s now) [
        | inl e ↦ rw e (collect_fixed s now i runs k fixed)
        | inr (due, e) ↦ rw e (
            store_fixed (collected s now) now i (chosen db redis floats config w due) k fixed
            ∙ collect_fixed s now i runs k fixed)
      ]

  -- Whatever comes of a tick, it leaves the request for a failover as it is.
  pub tick_failover :
      (ttl : ℕ) (id : String) (s : redis.State) (now : Instant)
      → redis.get
          (enqueue_periodic_checkpoint_scores db redis floats config w ttl id s now).0
          failover_requested
        ≡ redis.get s failover_requested
  unfolding enqueue_periodic_checkpoint_scores publish_scheduler_leader_heartbeat
  tick_failover ttl id s now =
      let s' = (try_acquire_or_renew_scheduler_leader redis ttl s id).1 in
      let published = publish_scheduler_leader_heartbeat redis s' id now in
      ground (
        arith,
        attempt_other redis ttl s id failover_requested refl,
        redis.get-set s' leader_heartbeat (heartbeat id now) failover_requested,
        lead_fixed published now failover_requested failover_requested-IsFixed,
      )

  -- The tick of a leader leaves its heartbeat behind.
  pub tick_heartbeat :
      (ttl : ℕ) (id : String) (s : redis.State) (now : Instant)
      → ((try_acquire_or_renew_scheduler_leader redis ttl s id).0).is_leader ≡ true
      → redis.get
          (enqueue_periodic_checkpoint_scores db redis floats config w ttl id s now).0
          leader_heartbeat
        ≡ some (heartbeat id now)
  unfolding enqueue_periodic_checkpoint_scores publish_scheduler_leader_heartbeat
  tick_heartbeat ttl id s now won =
      let s' = (try_acquire_or_renew_scheduler_leader redis ttl s id).1 in
      let published = publish_scheduler_leader_heartbeat redis s' id now in
      ground (
        arith,
        redis.get-set s' leader_heartbeat (heartbeat id now) leader_heartbeat,
        lead_fixed published now leader_heartbeat leader_heartbeat-IsFixed,
      )
