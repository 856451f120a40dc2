-- ===== src/Queue/RecoveryExamples.antt =====
-- A task whose worker has crashed, and the theorem at this input.
use mathlib.Core.List.{Memᴰ}
use mathlib.Core.Option.{some-injective}
use why_combinator.Prelude.{
  ℕ, ◌≡◌, refl, subst, ◌⊎◌, inl, inr, Bool, true, false, none, some, [], ◌∷◌, ◌==◌, text_has_eq,
  ==→eq, Bool-cases,
}
use why_combinator.Prelude.Integers.{pos}
use why_combinator.Prelude.Texts.{strip}
use why_combinator.Platform.Hashes.{Hash, hash_in_memory, hsetnx}
use why_combinator.Db.Models.{seconds}
use why_combinator.Queue.Recovery.{
  TaskPayload, TaskText, task, tasks_of, Tasks, marked, call_of, is_orphaned,
  recover_orphaned_tasks, detect_orphaned_in_flight_tasks, list_in_flight_tasks,
  list_recoverable_tasks, mark_all, mark_recoverable_task, requeue, remove_recoverable_task,
  clear_in_flight_task, coerce_args, coerce_kwargs,
}
use why_combinator.Queue.Recovery.Marked.{IsNamed, task-injective}
use why_combinator.Queue.Recovery.Orphans.{IsFiled, orphans_requeued}

abbrev hashes : Hash (TaskText ℕ)
hashes = hash_in_memory (TaskText ℕ)

abbrev scoring : TaskPayload ℕ
scoring = record {
  task_id = "t1";
  task_name = "app.queue.jobs.score_checkpoint";
  args = none;
  kwargs = none;
  worker_pid = pos 12;
  worker_hostname = "w1";
  started_at = some 0;
  recoverable = none;
}

abbrev tasks : Tasks hashes
tasks = record { in_flight = ("t1", task scoring) ∷ []; recoverable = [] }

abbrev accepts : TaskPayload ℕ → Bool
accepts p = true

-- The worker "w1" does not answer, and the task is ten minutes old.
sent_again :
    recover_orphaned_tasks hashes accepts (seconds 600) ("w2" ∷ []) 60 tasks
    ≡ (true, record { in_flight = []; recoverable = [] }, call_of scoring ∷ [])
unfolding recover_orphaned_tasks detect_orphaned_in_flight_tasks list_in_flight_tasks
    list_recoverable_tasks mark_all mark_recoverable_task requeue remove_recoverable_task
    clear_in_flight_task hsetnx tasks_of is_orphaned marked coerce_args coerce_kwargs strip
sent_again = refl

tasks-IsFiled : IsFiled hashes tasks.in_flight
unfolding strip
tasks-IsFiled f p e = elim (Bool-cases ("t1" == f)) [
  | inl t ↦
      let same : scoring ≡ p = task-injective scoring p (some-injective _ _ (rw t at e)) in
      let named : IsNamed scoring = record { stripped = refl; named = refl } in
      subst (λ q. (q.task_id ≡ f) × IsNamed q) same (==→eq "t1" f t, named)
  | inr n ↦ absurd (let clash : none ≡ some (task p) = rw n at e in cc)
]

orphans_requeued_example :
    let p = scoring in
    let (returned, s', sent) =
      recover_orphaned_tasks hashes accepts (seconds 600) ("w2" ∷ []) 60 tasks in
    ((is_orphaned (seconds 600) ("w2" ∷ []) 60 p ≡ false)
      × (hashes.hget s'.in_flight p.task_id ≡ some (task p)))
    ⊎ ((is_orphaned (seconds 600) ("w2" ∷ []) 60 p ≡ true)
        × (hashes.hget s'.in_flight p.task_id ≡ none)
        × ((Memᴰ (call_of p) sent × (hashes.hget s'.recoverable p.task_id ≡ none))
            ⊎ ((hashes.hget s'.recoverable p.task_id
                  ≡ some (task (marked hashes "worker_crash_detected" (seconds 600) p)))
                × (returned ≡ false)
                × (r : TaskPayload ℕ) × (accepts r ≡ false))))
orphans_requeued_example =
    orphans_requeued hashes accepts (seconds 600) ("w2" ∷ []) 60 tasks scoring tasks-IsFiled
      (λ f p e. absurd (let clash : none ≡ some (task p) = e in cc)) refl refl refl
