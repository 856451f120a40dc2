-- ===== src/Scheduler/Examples.antt =====
-- The scheduler at work, and the theorems at concrete inputs.
use why_combinator.Prelude.{
  ◌+◌, ◌*◌, ◌≤◌, ◌<◌, ◌≡◌, ◌⊎◌, refl, String, true, false, ◌&&◌, none, some, List, [], ◌∷◌, map,
  filter, arith, contains, nat_has_eq, count, any, take, length, max_of, Outcome, ok, ◌==◌,
  text_has_eq, if◌then◌else◌,
}
use why_combinator.Prelude.Sort.{sort}
use why_combinator.Platform.Sql.{in_order}
use why_combinator.Platform.Redis.{in_memory}
use why_combinator.Platform.Floats.{thousandths}
use why_combinator.Db.Enums.{created, running}
use why_combinator.Db.Models.{Uuid, Instant, Run, seconds}
use why_combinator.Scheduler.Keys.{
  Key, leader_lock, failover_requested, worker_heartbeat_at, Stored, leader, stamp, failover,
  missing_heartbeat, key_has_eq, SchedulerRedis,
}
use why_combinator.Db.Tables.{IsKeyed, IsKeyed-nil, IsKeyed-cons, replace}
use why_combinator.Validation.RunState.{apply_run_state_transition}
use why_combinator.Scheduler.RunTimeout.{
  run_id, is_silent, fail_run, fail_stale, last_heartbeat, fail_stale_runs_without_worker_heartbeat,
  fail_stale_runs_lem,
}
use why_combinator.Scheduler.Heartbeat.{
  SchedulerHeartbeatMonitorResult, healthy_result, find_reason,
  monitor_scheduler_heartbeat_and_trigger_failover, monitor_recovers,
}
use why_combinator.Scheduler.LeaderElection.{
  SchedulerLeaderElectionResult, try_acquire_or_renew_scheduler_leader,
  publish_scheduler_leader_heartbeat,
}
use why_combinator.Scheduler.LeaderElection.Exclusion.{winners, one_winner}
use why_combinator.Scheduler.FairOrder.{rounds, weight, weighted_fair_due_order}
use why_combinator.Scheduler.FairOrder.Rounds.{start_queues, fair_order_complete}
use why_combinator.Scheduler.FairOrder.Fairness.{of_challenge, fair_order-IsFair}
use why_combinator.Scheduler.Interval.{
  CheckpointConfig, Inspection, replies, resolve_adaptive_checkpoint_interval_seconds,
  apply_checkpoint_jitter,
}
use why_combinator.Scheduler.Checkpoints.{
  TickError, lead, collect_due, due_step, resume_step, resolve_resume_checkpoint_at, store_next,
  Surroundings, is_started_running, tick_interval, enqueue_periodic_checkpoint_scores,
}
use why_combinator.Scheduler.Checkpoints.Ticks.{has_id, no_double_enqueue}
use why_combinator.Scheduler.Checkpoints.Window.{is_open, tick_enqueues}

abbrev redis : SchedulerRedis
redis = in_memory Key Stored key_has_eq

abbrev empty : redis.State
empty k = none

abbrev config : CheckpointConfig
config = record {
  interval_seconds = 60;
  max_enqueues_per_tick = 2;
  jitter_seconds = 10;
  adaptive_interval_enabled = true;
  adaptive_min_interval_seconds = 30;
  adaptive_max_interval_seconds = 120;
  adaptive_target_tasks_per_worker = 4;
}

abbrev run : Uuid → Uuid → Run
run i c = record { id = i; challenge_id = c; state = running; started_at = some 0; ended_at = none }

abbrev runs : List Run
runs = run 11 1 ∷ run 12 1 ∷ run 13 1 ∷ run 14 2 ∷ record (run 15 2) { state = created } ∷ []

abbrev busy : Inspection
busy = replies (some (("w1", "a" ∷ "b" ∷ []) ∷ [])) (some (("w1", "c" ∷ []) ∷ []))

abbrev w : Surroundings
w = record {
  runs = runs;
  snapshots = record { id = 1; run_id = 14; checkpoint_id = "c1"; captured_at = seconds 5 } ∷ [];
  challenge = λ r. record {
    id = r.challenge_id;
    title = "t";
    prompt = "p";
    iteration_window_seconds = 3600;
    risk_appetite = "balanced";
    artifact_ttl_override_seconds = none;
  };
  digest = λ i. i * 7;
  inspection = busy;
}

abbrev noon : Instant
noon = seconds 100

abbrev tick : String → redis.State → Instant → redis.State × Outcome TickError (List Uuid)
tick = enqueue_periodic_checkpoint_scores in_order redis thousandths config w 30

abbrev after : redis.State
after = (tick "a" empty noon).0

first_tick : (tick "a" empty noon).1 ≡ ok (11 ∷ 14 ∷ [])
unfolding enqueue_periodic_checkpoint_scores try_acquire_or_renew_scheduler_leader lead collect_due
    due_step resume_step resolve_resume_checkpoint_at store_next apply_checkpoint_jitter
    resolve_adaptive_checkpoint_interval_seconds weighted_fair_due_order
    publish_scheduler_leader_heartbeat sort
first_tick = refl

second_tick : (tick "a" after (noon + seconds 3)).1 ≡ ok (12 ∷ 13 ∷ [])
unfolding enqueue_periodic_checkpoint_scores try_acquire_or_renew_scheduler_leader lead collect_due
    due_step resume_step resolve_resume_checkpoint_at store_next apply_checkpoint_jitter
    resolve_adaptive_checkpoint_interval_seconds weighted_fair_due_order
    publish_scheduler_leader_heartbeat sort
second_tick = refl

interval_is : tick_interval in_order redis thousandths config w ≡ 45
unfolding resolve_adaptive_checkpoint_interval_seconds
interval_is = refl

one_winner_example :
    winners redis 30 empty ("a" ∷ "b" ∷ "a" ∷ [])
    ≡ true ∷ map {A = String} (λ id. "a" == id) ("b" ∷ "a" ∷ [])
one_winner_example = one_winner redis 30 empty "a" ("b" ∷ "a" ∷ []) refl

abbrev taken : redis.State
taken = redis.set empty leader_lock (leader "b")

abbrev failed_attempt : SchedulerLeaderElectionResult × redis.State
failed_attempt = try_acquire_or_renew_scheduler_leader redis 30 taken "a"

attempt_fails : (failed_attempt.0).is_leader ≡ false
unfolding try_acquire_or_renew_scheduler_leader
attempt_fails = refl

fair_order_complete_example :
    (rounds (weight (start_queues runs)) [] (start_queues runs)
      ≡ some (weighted_fair_due_order runs))
    × (count (of_challenge 1) (weighted_fair_due_order runs) ≡ count (of_challenge 1) runs)
fair_order_complete_example = fair_order_complete runs (of_challenge 1)

fair_order-IsFair_example :
    (count (of_challenge 1) (take 2 (weighted_fair_due_order runs))
      ≤ count (of_challenge 2) (take 2 (weighted_fair_due_order runs)) + 1)
    ⊎ (count (of_challenge 2) (take 2 (weighted_fair_due_order runs)) ≡ count (of_challenge 2) runs)
fair_order-IsFair_example = fair_order-IsFair runs 2 1 2

in_time : noon + seconds 3 < noon + seconds (tick_interval in_order redis thousandths config w)
in_time = rw interval_is (omega arith)

no_double_enqueue_example : contains {A = Uuid} (12 ∷ 13 ∷ []) 11 ≡ false
no_double_enqueue_example =
    no_double_enqueue in_order redis thousandths config w w 30 "a" "a" empty noon (noon + seconds 3)
      (11 ∷ 14 ∷ []) (12 ∷ 13 ∷ []) 11 first_tick second_tick in_time refl

tick_enqueues_example :
    (length {A = Uuid} (11 ∷ 14 ∷ []) ≤ max_of 1 2)
    × ((j : Uuid)
        → contains {A = Uuid} (11 ∷ 14 ∷ []) j ≡ true
        → any (λ r. is_started_running r && (is_open w.challenge noon r && has_id j r)) runs ≡ true)
tick_enqueues_example =
    tick_enqueues in_order redis thousandths config w 30 "a" empty noon (11 ∷ 14 ∷ []) first_tick

abbrev beaten : redis.State
beaten = redis.set empty (worker_heartbeat_at 12) (stamp (seconds 300))

-- Run 12 has a worker, the others have been silent for 400 seconds.
sweep :
    fail_stale_runs_without_worker_heartbeat in_order redis 180 beaten (seconds 400) runs
    ≡ ok (
      11 ∷ 13 ∷ 14 ∷ [],
      map
          (λ r.
            if is_started_running r && is_silent in_order redis 180 beaten (seconds 400) r
            then fail_run in_order redis 180 beaten (seconds 400) r
            else r)
          runs,
    )
unfolding fail_stale_runs_without_worker_heartbeat fail_stale last_heartbeat
    apply_run_state_transition replace
sweep = refl

runs-IsKeyed : IsKeyed run_id runs
runs-IsKeyed =
    let k = IsKeyed-nil run_id in
    let k = IsKeyed-cons run_id (record (run 15 2) { state = created }) [] refl k in
    let k = IsKeyed-cons run_id (run 14 2) _ refl k in
    let k = IsKeyed-cons run_id (run 13 1) _ refl k in
    let k = IsKeyed-cons run_id (run 12 1) _ refl k in IsKeyed-cons run_id (run 11 1) _ refl k

fail_stale_runs_lem_example :
    fail_stale_runs_without_worker_heartbeat in_order redis 180 beaten (seconds 400) runs
    ≡ ok (
      map run_id (
          filter
            (is_silent in_order redis 180 beaten (seconds 400))
            (filter is_started_running runs)),
      map
          (λ r.
            if is_started_running r && is_silent in_order redis 180 beaten (seconds 400) r
            then fail_run in_order redis 180 beaten (seconds 400) r
            else r)
          runs,
    )
fail_stale_runs_lem_example =
    fail_stale_runs_lem in_order redis 180 beaten (seconds 400) runs runs-IsKeyed

abbrev monitor :
    redis.State → Instant → redis.State × Outcome TickError SchedulerHeartbeatMonitorResult
monitor =
    monitor_scheduler_heartbeat_and_trigger_failover in_order redis thousandths config w 30 "a" 45
      120

nothing_heard : find_reason 45 none noon ≡ missing_heartbeat
unfolding find_reason
nothing_heard = refl

monitor_ticks :
    (monitor empty noon).1
    ≡ ok (record {
      failover_triggered = true;
      reason = missing_heartbeat;
      scheduled_run_ids = 11 ∷ 14 ∷ [];
    })
unfolding monitor_scheduler_heartbeat_and_trigger_failover find_reason
    enqueue_periodic_checkpoint_scores try_acquire_or_renew_scheduler_leader lead collect_due
    due_step resume_step resolve_resume_checkpoint_at store_next apply_checkpoint_jitter
    resolve_adaptive_checkpoint_interval_seconds weighted_fair_due_order
    publish_scheduler_leader_heartbeat sort
monitor_ticks = refl

monitor_recovers_example :
    let s = (monitor empty noon).0 in
    let reason = find_reason 45 none noon in
    let request = redis.set_ex empty failover_requested (failover reason noon) (max_of 1 120) in
    let attempt = try_acquire_or_renew_scheduler_leader redis 30 request "a" in
    (redis.get s failover_requested ≡ some (failover reason noon))
    × ((now : Instant)
        → (attempt.0).is_leader ≡ true
        → now ≤ noon + seconds 45
        → monitor s now ≡ (s, ok healthy_result))
monitor_recovers_example =
    monitor_recovers in_order redis thousandths config w 30 "a" 45 120 empty noon
      (rw nothing_heard refl)
