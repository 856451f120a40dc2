-- ===== src/Scheduler/LeaderElection.antt =====
-- app/scheduler/leader_election.py
pub mod Exclusion
use why_combinator.Prelude.{
  ℕ, ◌≡◌, String, Bool, true, false, Option, none, some, if◌then◌else◌, ◌==◌, text_has_eq, max_of,
}
use why_combinator.Platform.Redis.{set_nx_ex}
use why_combinator.Db.Models.{Instant}
use why_combinator.Scheduler.Keys.{
  Key, leader_lock, leader_heartbeat, Stored, leader, heartbeat, SchedulerRedis,
}

pub record SchedulerLeaderElectionResult : Type 0 where
  pub is_leader : Bool
  pub leader_id : String
  pub lock_holder : Option Stored
  pub acquired_now : Bool

-- `holder == leader_id`
abbrev pub is_held_by : String → Option Stored → Bool
is_held_by leader_id (some (leader holder)) = holder == leader_id
is_held_by leader_id _ = false

module _ (redis : SchedulerRedis) where
  -- `configured_ttl` is SCHEDULER_LEADER_LOCK_TTL_SECONDS.
  unfoldable pub try_acquire_or_renew_scheduler_leader :
      (configured_ttl : ℕ) → redis.State → String → SchedulerLeaderElectionResult × redis.State
  unfolding set_nx_ex
  try_acquire_or_renew_scheduler_leader configured_ttl s leader_id =
      let ttl_seconds = max_of 1 configured_ttl in
      let (acquired, s') = set_nx_ex redis s leader_lock (leader leader_id) ttl_seconds in
      let holder = redis.get s' leader_lock in
      if acquired
      then (
        record {
          is_leader = true;
          leader_id = leader_id;
          lock_holder = some (leader leader_id);
          acquired_now = true;
        },
        s',
      )
      else if is_held_by leader_id holder
      then (
        record {
          is_leader = true;
          leader_id = leader_id;
          lock_holder = some (leader leader_id);
          acquired_now = false;
        },
        redis.expire s' leader_lock ttl_seconds,
      )
      else (
        record {
          is_leader = false;
          leader_id = leader_id;
          lock_holder = holder;
          acquired_now = false;
        },
        s',
      )

  unfoldable pub publish_scheduler_leader_heartbeat : redis.State → String → Instant → redis.State
  publish_scheduler_leader_heartbeat s leader_id now =
      redis.set s leader_heartbeat (heartbeat leader_id now)
