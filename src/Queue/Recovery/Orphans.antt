-- ===== src/Queue/Recovery/Orphans.antt =====
-- No orphaned task of app/queue/recovery.py is lost
use mathlib.Core.List.{Memᴰ}
use mathlib.Core.Option.{some-injective}
use why_combinator.Prelude.Members.{Memᴰ-filter, Memᴰ-filter_in}
use why_combinator.Prelude.{
  ℕ, ◌≡◌, refl, sym, ◌∙◌, ap, subst, ◌⊎◌, inl, inr, String, Bool, true, false, none, some, List, [],
  ◌∷◌, text_has_eq, ==_false, filter, Bool-cases,
}
use why_combinator.Platform.Hashes.{Hash, hsetnx-some}
use why_combinator.Db.Models.{Instant}
use why_combinator.Queue.Recovery.{
  TaskPayload, TaskText, task, tasks_of, Tasks, marked, mark_recoverable_task, mark_all, call_of,
  is_sendable, is_orphaned, list_in_flight_tasks, list_recoverable_tasks,
  detect_orphaned_in_flight_tasks, recover_orphaned_tasks,
}
use why_combinator.Queue.Recovery.Marked.{
  IsNamed, Memᴰ-tasks_of, tasks_of-Memᴰ, task-injective, mark-recoverable, mark_all-other,
  mark_all-moves,
}
use why_combinator.Queue.Recovery.Requeued.{requeue-in_flight, requeue-sends}

module _ {Float : Type 0} (hash : Hash (TaskText Float)) where
  -- Every task stands in the field that has its id for a name.
  abbrev pub IsFiled : hash.State → Type 0
  IsFiled h =
      (f : String) (p : TaskPayload Float)
      → hash.hget h f ≡ some (task p)
      → (p.task_id ≡ f) × IsNamed p

  Memᴰ-hash :
      (h : hash.State) (p : TaskPayload Float)
      → IsFiled h
      → Memᴰ p (tasks_of (hash.hgetall h))
      → (hash.hget h p.task_id ≡ some (task p)) × IsNamed p
  Memᴰ-hash h p filed m =
      let (f, n) = Memᴰ-tasks_of (hash.hgetall h) m in
      let at_f = hash.all_get h f (task p) n in
      let (own, named) = filed f p at_f in
      (subst (λ g. hash.hget h g ≡ some (task p)) (sym own) at_f, named)

  mark-IsFiled :
      (reason : String) (now : Instant) (s : Tasks hash) (p : TaskPayload Float)
      → IsNamed p
      → IsFiled s.recoverable
      → IsFiled (mark_recoverable_task hash reason now s p).1.recoverable
  unfolding marked
  mark-IsFiled reason now s p n filed f q e =
      let e' =
        subst (λ h. hash.hget h f ≡ some (task q)) (mark-recoverable hash reason now s p n) e in
      elim (hsetnx-some hash s.recoverable p.task_id (task (marked hash reason now p)) f (task q)
        e') [
          | inl was ↦ filed f q was
          | inr (own, same) ↦
              let made : marked hash reason now p ≡ q = task-injective _ _ same in
              subst (λ r. (r.task_id ≡ f) × IsNamed r) made
                (own, record { stripped = n.stripped; named = n.named })
        ]

  mark_all-IsFiled :
      (reason : String) (now : Instant) (ps : List (TaskPayload Float)) (s : Tasks hash)
      → ((p : TaskPayload Float) → Memᴰ p ps → IsNamed p)
      → IsFiled s.recoverable
      → IsFiled (mark_all hash reason now ps s).recoverable
  unfolding mark_all
  mark_all-IsFiled reason now [] s n filed = filed
  mark_all-IsFiled reason now (p ∷ ps) s n filed =
      mark_all-IsFiled reason now ps (mark_recoverable_task hash reason now s p).1
        (λ q m. n q (Memᴰ.tail m)) (mark-IsFiled reason now s p (n p (Memᴰ.head refl)) filed)

  -- For hashes in which every task is filed under its id, and a task in flight that can be sent and is not
  -- recoverable yet: one that is not orphaned stays in flight. An orphaned one is not in flight any more;
  -- it has been sent and is gone, or it is recoverable, marked as such, and the job has failed because
  -- the broker refused a task.
  pub orphans_requeued :
      (accepts : TaskPayload Float → Bool) (now : Instant) (active : List String) (threshold : ℕ)
      (s : Tasks hash) (p : TaskPayload Float)
      → IsFiled s.in_flight
      → IsFiled s.recoverable
      → hash.hget s.in_flight p.task_id ≡ some (task p)
      → hash.hget s.recoverable p.task_id ≡ none
      → is_sendable p ≡ true
      → let (returned, s', sent) = recover_orphaned_tasks hash accepts now active threshold s in
        ((is_orphaned now active threshold p ≡ false)
          × (hash.hget s'.in_flight p.task_id ≡ some (task p)))
        ⊎ ((is_orphaned now active threshold p ≡ true)
            × (hash.hget s'.in_flight p.task_id ≡ none)
            × ((Memᴰ (call_of p) sent × (hash.hget s'.recoverable p.task_id ≡ none))
                ⊎ ((hash.hget s'.recoverable p.task_id
                      ≡ some (task (marked hash "worker_crash_detected" now p)))
                    × (returned ≡ false)
                    × (r : TaskPayload Float) × (accepts r ≡ false))))
  unfolding recover_orphaned_tasks detect_orphaned_in_flight_tasks list_in_flight_tasks
      list_recoverable_tasks marked
  orphans_requeued accepts now active threshold s p filed filed' here free good =
      let test = is_orphaned now active threshold in
      let running = tasks_of (hash.hgetall s.in_flight) in
      let orphaned = filter test running in
      let s' = mark_all hash "worker_crash_detected" now orphaned s in
      let ready = tasks_of (hash.hgetall s'.recoverable) in
      let found = λ (q : TaskPayload Float) (m : Memᴰ q orphaned).
        Memᴰ-hash s.in_flight q filed (Memᴰ-filter test running m).0 in
      let named = λ (q : TaskPayload Float) (m : Memᴰ q orphaned). (found q m).1 in
      let only : (q : TaskPayload Float) → Memᴰ q orphaned → q.task_id ≡ p.task_id → q ≡ p =
        λ q m e.
          task-injective q p
            (some-injective _ _ (sym (found q m).0 ∙ ap (hash.hget s.in_flight) e ∙ here)) in
      let kept = requeue-in_flight hash accepts ready s' [] in
      elim (Bool-cases (test p)) [
        | inl t ↦
            let m =
              Memᴰ-filter_in test running
                (tasks_of-Memᴰ _ (hash.get_all s.in_flight p.task_id (task p) here)) t in
            let (gone, moved) =
              mark_all-moves hash "worker_crash_detected" now orphaned s p named m only free in
            let filed_later =
              mark_all-IsFiled "worker_crash_detected" now orphaned s named filed' in
            let q = marked hash "worker_crash_detected" now p in
            inr (
              t,
              rw kept gone,
              requeue-sends hash accepts ready s' [] q
                  (tasks_of-Memᴰ _ (hash.get_all s'.recoverable p.task_id (task q) moved))
                  (λ r n e. task-injective r q (
                    some-injective _ _ (
                      sym (Memᴰ-hash s'.recoverable r filed_later n).0
                      ∙ ap (hash.hget s'.recoverable) e
                      ∙ moved)))
                  good moved,
            )
        | inr f ↦ inl (
          f,
          rw kept (
              mark_all-other hash "worker_crash_detected" now orphaned s p.task_id named (λ q m.
                ==_false q.task_id p.task_id λ e.
                  let (_, t) = Memᴰ-filter test running m in
                  absurd (
                    let clash : false ≡ true = sym f ∙ subst (λ r. test r ≡ true) (only q m e) t in
                    cc))
              ∙ here),
        )
      ]
