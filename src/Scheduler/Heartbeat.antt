-- ===== src/Scheduler/Heartbeat.antt =====
-- app/scheduler/heartbeat.py
use why_combinator.Prelude.{
  ℕ, ◌+◌, ◌-◌, ◌≤◌, ◌≡◌, refl, ◌∙◌, sym, subst, String, Bool, true, false, Option, none, some, List,
  [], arith, ltb, max_of, if◌then◌else◌, Outcome, ok, ◌>>=◌,
}
use why_combinator.Platform.Sql.{Engine}
use why_combinator.Platform.Floats.{Floats}
use why_combinator.Db.Models.{Uuid, Instant, seconds}
use why_combinator.Scheduler.Keys.{
  leader_heartbeat, failover_requested, Reason, healthy, missing_heartbeat,
  invalid_heartbeat_payload, stale_heartbeat, Stored, heartbeat, failover, SchedulerRedis,
}
use why_combinator.Scheduler.LeaderElection.{try_acquire_or_renew_scheduler_leader}
use why_combinator.Scheduler.Interval.{CheckpointConfig}
use why_combinator.Scheduler.Checkpoints.{
  TickError, Surroundings, enqueue_periodic_checkpoint_scores,
}
use why_combinator.Scheduler.Checkpoints.Writes.{tick_failover, tick_heartbeat}

pub record SchedulerHeartbeatMonitorResult : Type 0 where
  pub failover_triggered : Bool
  pub reason : Reason
  pub scheduled_run_ids : List Uuid

-- Only the object that a leader publishes has a date under "heartbeat_at".
pub parse_heartbeat_timestamp : Stored → Option Instant
parse_heartbeat_timestamp (heartbeat _ heartbeat_at) = some heartbeat_at
parse_heartbeat_timestamp _ = none

-- The reason, `healthy` when no failover is due. `stale` is SCHEDULER_HEARTBEAT_STALE_SECONDS, not
-- negative; `max(0.0, …)` is the subtraction, and the age is compared in microseconds.
unfoldable pub find_reason : (stale : ℕ) → Option Stored → Instant → Reason
unfolding parse_heartbeat_timestamp
find_reason stale none now = missing_heartbeat
find_reason stale (some raw) now = elim (parse_heartbeat_timestamp raw) [
  | none ↦ invalid_heartbeat_payload
  | some heartbeat_at ↦
      if ltb (seconds stale) (now - heartbeat_at)
      then stale_heartbeat (now - heartbeat_at)
      else healthy
]

abbrev pub is_healthy : Reason → Bool
is_healthy healthy = true
is_healthy _ = false

abbrev pub healthy_result : SchedulerHeartbeatMonitorResult
healthy_result = record { failover_triggered = false; reason = healthy; scheduled_run_ids = [] }

module _ (db : Engine) (redis : SchedulerRedis) (floats : Floats) (config : CheckpointConfig)
    (w : Surroundings) (ttl : ℕ) (leader_id : String) (stale request_ttl : ℕ) where
  -- The state with the request for a failover.
  abbrev pub requested : redis.State → Reason → Instant → redis.State
  requested s reason now =
      redis.set_ex s failover_requested (failover reason now) (max_of 1 request_ttl)

  abbrev pub reason_of : redis.State → Instant → Reason
  reason_of s now = find_reason stale (redis.get s leader_heartbeat) now

  unfoldable pub monitor_scheduler_heartbeat_and_trigger_failover :
      redis.State → Instant → redis.State × Outcome TickError SchedulerHeartbeatMonitorResult
  monitor_scheduler_heartbeat_and_trigger_failover s now =
      let reason = reason_of s now in
      let (s', scheduled) =
        enqueue_periodic_checkpoint_scores db redis floats config w ttl leader_id
          (requested s reason now) now in
      if is_healthy reason then (s, ok healthy_result) else (
        s',
        scheduled >>= λ ids.
            ok (record { failover_triggered = true; reason = reason; scheduled_run_ids = ids }),
      )

  fresh_reason :
      (id : String) (t now : Instant)
      → now ≤ t + seconds stale
      → find_reason stale (some (heartbeat id t)) now ≡ healthy
  unfolding find_reason
  fresh_reason id t now h = ground arith

  monitor_healthy :
      (s : redis.State) (now : Instant)
      → reason_of s now ≡ healthy
      → monitor_scheduler_heartbeat_and_trigger_failover s now ≡ (s, ok healthy_result)
  unfolding monitor_scheduler_heartbeat_and_trigger_failover
  monitor_healthy s now h = rw h refl

  -- Where the monitor finds the leader not healthy, the request for a failover with the reason and
  -- the time stands in Redis afterwards, whatever becomes of the tick that the monitor then runs. If
  -- that tick makes the process leader, every later look within the allowed age is content and
  -- changes nothing.
  pub monitor_recovers :
      (s : redis.State) (now : Instant)
      → is_healthy (reason_of s now) ≡ false
      → let s' = (monitor_scheduler_heartbeat_and_trigger_failover s now).0 in
        let attempt =
          try_acquire_or_renew_scheduler_leader redis ttl
            (requested s (reason_of s now) now)
            leader_id in
        (redis.get s' failover_requested ≡ some (failover (reason_of s now) now))
        × ((now' : Instant)
            → (attempt.0).is_leader ≡ true
            → now' ≤ now + seconds stale
            → monitor_scheduler_heartbeat_and_trigger_failover s' now' ≡ (s', ok healthy_result))
  monitor_recovers s now sick =
      let s1 = requested s (reason_of s now) now in
      let s2 =
        (enqueue_periodic_checkpoint_scores db redis floats config w ttl leader_id s1 now).0 in
      let moved : (monitor_scheduler_heartbeat_and_trigger_failover s now).0 ≡ s2 =
        unfold monitor_scheduler_heartbeat_and_trigger_failover in rw sick refl in
      rw moved (
        tick_failover db redis floats config w ttl leader_id s1 now
            ∙ redis.get-set_ex s failover_requested (failover (reason_of s now) now)
                (max_of 1 request_ttl) failover_requested (ground arith),
        λ now' won soon.
            let beat = tick_heartbeat db redis floats config w ttl leader_id s1 now won in
            monitor_healthy s2 now' (
              subst (λ o. find_reason stale o now' ≡ healthy) (sym beat)
                (fresh_reason leader_id now now' soon)),
      )
