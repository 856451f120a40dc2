-- ===== src/Scheduler/Keys.antt =====
-- The Redis keys of the scheduler, and what the texts stored under them parse as.
use why_combinator.Prelude.{
  ℕ, ◌≡◌, ◌↔◌, String, Bool, true, false, arith, HasEq, ◌==◌, nat_has_eq, text_has_eq,
}
use why_combinator.Platform.Redis.{Redis}
use why_combinator.Db.Models.{Uuid, Instant}

-- "scheduler:leader:lock", "scheduler:leader:heartbeat", "scheduler:leader:failover_requested",
-- f"run:{run.id}:next_checkpoint_at", f"run:{run_id}:worker_heartbeat_at"
pub data Key : Type 0 where
  leader_lock leader_heartbeat failover_requested : Key
  next_checkpoint_at worker_heartbeat_at : Uuid → Key

abbrev pub key_same : Key → Key → Bool
key_same leader_lock leader_lock = true
key_same leader_heartbeat leader_heartbeat = true
key_same failover_requested failover_requested = true
key_same (next_checkpoint_at a) (next_checkpoint_at b) = a == b
key_same (worker_heartbeat_at a) (worker_heartbeat_at b) = a == b
key_same _ _ = false

pub key_same_iff : (a b : Key) → (key_same a b ≡ true) ↔ (a ≡ b)
key_same_iff a b = ground arith

abbrev pub key_has_eq : HasEq Key
key_has_eq = record { same = key_same; same_iff = key_same_iff }

-- The reasons that app/scheduler/heartbeat.py gives, the last with the age of the heartbeat.
pub data Reason : Type 0 where
  healthy missing_heartbeat invalid_heartbeat_payload : Reason
  stale_heartbeat : ℕ → Reason

pub data Stored : Type 0 where
  -- the id of a leader
  leader : String → Stored
  -- an ISO date
  stamp : Instant → Stored
  -- the JSON objects with an id or a reason and an ISO date
  heartbeat : String → Instant → Stored
  failover : Reason → Instant → Stored
  -- any other text
  other : String → Stored

abbrev pub SchedulerRedis : Type 1
SchedulerRedis = Redis Key Stored key_has_eq
