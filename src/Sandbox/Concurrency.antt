-- ===== src/Sandbox/Concurrency.antt =====
-- app/sandbox/concurrency.py, and the use that `hacker_run` of app/queue/jobs.py makes of it
pub mod Slots
use why_combinator.Prelude.{
  ℕ, ◌+◌, ◌-◌, ◌≡◌, Bool, true, false, Option, none, some, List, ◌∷◌, ◌++◌, leb, max_of,
  if◌then◌else◌, nat_has_eq,
}
use why_combinator.Platform.Redis.{Redis}
use why_combinator.Db.Models.{Uuid}

-- f"run:{run_id}:active_hacker_containers" holds a count.
abbrev pub SlotRedis : Type 1
SlotRedis = Redis Uuid ℕ nat_has_eq

module _ (redis : SlotRedis) where
  -- `tonumber(redis.call('GET', key) or '0')`
  abbrev pub current : redis.State → Uuid → ℕ
  current s run_id = elim (redis.get s run_id) [ none ↦ 0 | some n ↦ n ]

  -- Whether a slot was taken, and how many are left; when it was refused this is read by a GET behind
  -- the script, here with no command of others in between. `limit` is the argument of that name, or
  -- RUN_MAX_ACTIVE_HACKER_CONTAINERS.
  unfoldable pub acquire_run_hacker_container_slot :
      (limit : ℕ) → redis.State → Uuid → (Bool × ℕ) × redis.State
  acquire_run_hacker_container_slot limit s run_id =
      let hard_limit = max_of 1 limit in
      if leb hard_limit (current s run_id)
      then ((false, hard_limit - current s run_id), s)
      else ((true, hard_limit - (current s run_id + 1)), redis.set s run_id (current s run_id + 1))

  unfoldable pub release_run_hacker_container_slot : redis.State → Uuid → redis.State
  release_run_hacker_container_slot s run_id =
      if leb (current s run_id) 1
      then redis.delete s run_id
      else redis.set s run_id (current s run_id - 1)

  -- The server, and for each container that runs the id of its run.
  pub record Workers : Type 0 where
    pub server : redis.State
    pub containers : List Uuid

  -- `slot_acquired` of `hacker_run` decides whether the container is started.
  unfoldable pub start_container : (limit : ℕ) → Workers → Uuid → Workers
  unfolding acquire_run_hacker_container_slot
  start_container limit w run_id =
      let (slot, server) = acquire_run_hacker_container_slot limit w.server run_id in
      record {
        server = server;
        containers = if slot.0 then run_id ∷ w.containers else w.containers;
      }

  -- What the workers do, in any order: a task tries to start a container, one whose container has ended
  -- passes through `finally`, or a worker is killed together with its container.
  pub data Step (limit : ℕ) (w w' : Workers) : Type 0 where
    start : (run_id : Uuid) → w' ≡ start_container limit w run_id → Step limit w w'
    finish :
        (run_id : Uuid) (before after : List Uuid)
        → w.containers ≡ before ++ run_id ∷ after
        → w' ≡ record {
          server = release_run_hacker_container_slot w.server run_id;
          containers = before ++ after;
        }
        → Step limit w w'
    killed :
        (run_id : Uuid) (before after : List Uuid)
        → w.containers ≡ before ++ run_id ∷ after
        → w' ≡ record { server = w.server; containers = before ++ after }
        → Step limit w w'

  pub data Reach (limit : ℕ) (w : Workers) : Workers → Type 0 where
    here : Reach limit w w
    next : {v u : Workers} → Reach limit w v → Step limit v u → Reach limit w u
