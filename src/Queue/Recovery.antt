-- ===== src/Queue/Recovery.antt =====
-- app/queue/recovery.py, and `recover_orphaned_tasks` of app/queue/jobs.py
pub mod Marked
pub mod Requeued
pub mod Orphans
use why_combinator.Prelude.{
  ℕ, ◌-◌, String, Bool, true, false, not, ◌&&◌, ◌||◌, Option, none, some, List, [], ◌∷◌, ◌++◌, map,
  ltb, if◌then◌else◌, ◌==◌, text_has_eq, contains, filter,
}
use why_combinator.Prelude.Integers.{ℤ}
use why_combinator.Prelude.Texts.{strip, is_empty}
use why_combinator.Platform.Hashes.{Hash, hsetnx}
use why_combinator.Platform.Json.{Json, Items, Fields, array, object, nil, end}
use why_combinator.Db.Models.{Instant, seconds}

-- The object that is stored for a task: what `str(payload.get(key, ""))` says of its texts, `started_at` if
-- it is an ISO date, and the two fields that `mark_recoverable_task` adds.
pub record TaskPayload (Float : Type 0) : Type 0 where
  pub task_id : String
  pub task_name : String
  pub args : Option (Json Float)
  pub kwargs : Option (Json Float)
  pub worker_pid : ℤ
  pub worker_hostname : String
  pub started_at : Option Instant
  pub recoverable : Option (String × Instant)

-- A stored text, as JSON.
pub data TaskText (Float : Type 0) : Type 0 where
  task : TaskPayload Float → TaskText Float
  not_an_object : String → TaskText Float

unfoldable pub tasks_of :
    {Float : Type 0} → List (String × TaskText Float) → List (TaskPayload Float)
tasks_of [] = []
tasks_of ((_, task p) ∷ rest) = p ∷ tasks_of rest
tasks_of ((_, not_an_object _) ∷ rest) = tasks_of rest

-- What `send_task` is called with.
pub record TaskCall (Float : Type 0) : Type 0 where
  pub task_name : String
  pub args : Items Float
  pub kwargs : Fields Float

unfoldable pub coerce_args : {Float : Type 0} → Option (Json Float) → Items Float
coerce_args none = nil
coerce_args (some (array items)) = items
coerce_args (some _) = nil

unfoldable pub coerce_kwargs : {Float : Type 0} → Option (Json Float) → Fields Float
coerce_kwargs none = end
coerce_kwargs (some (object fields)) = fields
coerce_kwargs (some _) = end

abbrev pub call_of : {Float : Type 0} → TaskPayload Float → TaskCall Float
call_of p = record {
  task_name = p.task_name;
  args = coerce_args p.args;
  kwargs = coerce_kwargs p.kwargs;
}

-- `worker_hostname` names a worker that answers.
abbrev pub is_attended : {Float : Type 0} → List String → TaskPayload Float → Bool
is_attended active p = not (is_empty p.worker_hostname) && contains active p.worker_hostname

-- The age is counted from now on if `started_at` is no date, and is never negative.
unfoldable pub is_orphaned :
    {Float : Type 0}
    → (now : Instant) → (active : List String) → (threshold : ℕ) → TaskPayload Float
    → Bool
is_orphaned now active threshold p =
    let started_at : Instant = elim p.started_at [ none ↦ now | some t ↦ t ] in
    not (ltb (now - started_at) (seconds threshold)) && not (is_attended active p)

-- What the loop of `recover_orphaned_tasks` does not pass over.
abbrev pub is_sendable : {Float : Type 0} → TaskPayload Float → Bool
is_sendable p =
    not (is_empty p.task_name)
    && (not (is_empty p.task_id) && not (p.task_name == "app.queue.jobs.recover_orphaned_tasks"))

module _ {Float : Type 0} (hash : Hash (TaskText Float)) where
  -- The hashes "queue:in_flight_tasks" and "queue:recoverable_tasks".
  pub record Tasks : Type 0 where
    pub in_flight : hash.State
    pub recoverable : hash.State

  unfoldable pub track_in_flight_task : Tasks → TaskPayload Float → Tasks
  track_in_flight_task s p = record s { in_flight = hash.hset s.in_flight p.task_id (task p) }

  unfoldable pub clear_in_flight_task : Tasks → String → Tasks
  clear_in_flight_task s task_id = record s { in_flight = hash.hdel s.in_flight task_id }

  unfoldable pub list_in_flight_tasks : Tasks → List (TaskPayload Float)
  list_in_flight_tasks s = tasks_of (hash.hgetall s.in_flight)

  unfoldable pub list_recoverable_tasks : Tasks → List (TaskPayload Float)
  list_recoverable_tasks s = tasks_of (hash.hgetall s.recoverable)

  unfoldable pub remove_recoverable_task : Tasks → String → Tasks
  remove_recoverable_task s task_id = record s { recoverable = hash.hdel s.recoverable task_id }

  unfoldable pub marked : (reason : String) → Instant → TaskPayload Float → TaskPayload Float
  marked reason now p = record p { recoverable = some (reason, now) }

  unfoldable pub mark_recoverable_task :
      (reason : String) → Instant → Tasks → TaskPayload Float → Bool × Tasks
  unfolding hsetnx clear_in_flight_task
  mark_recoverable_task reason now s p =
      let task_id = strip p.task_id in
      if is_empty task_id
      then (false, s)
      else (let (claimed, recoverable) =
            hsetnx hash s.recoverable task_id (task (marked reason now p)) in
          (claimed, clear_in_flight_task (record s { recoverable = recoverable }) task_id))

  unfoldable pub detect_orphaned_in_flight_tasks :
      Instant → (active : List String) → (threshold : ℕ) → Tasks → List (TaskPayload Float)
  detect_orphaned_in_flight_tasks now active threshold s =
      filter (is_orphaned now active threshold) (list_in_flight_tasks s)

  -- `for payload in orphaned`
  unfoldable pub mark_all : (reason : String) → Instant → List (TaskPayload Float) → Tasks → Tasks
  mark_all reason now [] s = s
  mark_all reason now (p ∷ ps) s = mark_all reason now ps (mark_recoverable_task reason now s p).1

  -- `for recoverable in list_recoverable_tasks(redis_client)`: the tasks, what has been sent, and how many; the
  -- loop ends with an exception, here `false`, at the first task that the broker does not accept.
  unfoldable pub requeue :
      (accepts : TaskPayload Float → Bool)
      → List (TaskPayload Float)
      → Tasks
      → List (TaskCall Float)
      → Bool × Tasks × List (TaskCall Float)
  requeue accepts [] s sent = (true, s, sent)
  requeue accepts (p ∷ ps) s sent =
      let passed = requeue accepts ps s sent in
      let after =
        requeue accepts ps (remove_recoverable_task s p.task_id) (sent ++ call_of p ∷ []) in
      if is_sendable p then (if accepts p then after else (false, s, sent)) else passed

  -- Whether the task returns, the tasks behind it, and what it has sent.
  unfoldable pub recover_orphaned_tasks :
      (accepts : TaskPayload Float → Bool)
      → Instant
      → (active : List String) → (threshold : ℕ) → Tasks
      → Bool × Tasks × List (TaskCall Float)
  recover_orphaned_tasks accepts now active threshold s =
      let orphaned = detect_orphaned_in_flight_tasks now active threshold s in
      let s' = mark_all "worker_crash_detected" now orphaned s in
      requeue accepts (list_recoverable_tasks s') s' []

  -- What `_on_worker_shutting_down` does when the time to drain is over: `remaining` are the ids of the
  -- tasks that are active in this process, `pid` is the process.
  unfoldable pub on_worker_shutting_down :
      Instant → (remaining : List String) → (pid_is_own : ℤ → Bool) → Tasks → Tasks
  on_worker_shutting_down now remaining pid_is_own s =
      mark_all "worker_shutdown_drain_timeout" now
        (filter (λ p. contains remaining p.task_id && pid_is_own p.worker_pid)
          (list_in_flight_tasks s))
        s
