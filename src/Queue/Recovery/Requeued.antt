-- ===== src/Queue/Recovery/Requeued.antt =====
-- What the loop of `recover_orphaned_tasks` of app/queue/jobs.py sends
use mathlib.Core.List.{Memᴰ}
use mathlib.Core.List.Memᴰ
use why_combinator.Prelude.Members.{Memᴰ-last, Memᴰ-append_left}
use why_combinator.Prelude.{
  ◌≡◌, refl, ◌∙◌, subst, ◌⊎◌, inl, inr, String, Bool, true, false, none, some, List, [], ◌∷◌, ◌++◌,
  arith, if◌then◌else◌, ◌==◌, text_has_eq, ==-refl, ==→eq, Bool-cases,
}
use why_combinator.Platform.Hashes.{Hash}
use why_combinator.Queue.Recovery.{
  TaskPayload, TaskText, TaskCall, task, Tasks, call_of, is_sendable, remove_recoverable_task,
  requeue,
}

module _ {Float : Type 0} (hash : Hash (TaskText Float)) (accepts : TaskPayload Float → Bool) where
  requeue-sent :
      (ps : List (TaskPayload Float)) (s : Tasks hash) (sent : List (TaskCall Float))
      (c : TaskCall Float)
      → Memᴰ c sent
      → Memᴰ c (requeue hash accepts ps s sent).2
  unfolding requeue
  requeue-sent [] s sent c m = m
  requeue-sent (p ∷ ps) s sent c m = elim (Bool-cases (is_sendable p)) [
    | inl t ↦ elim (Bool-cases (accepts p)) [
      | inl y ↦
          rw (t, y)
            (requeue-sent ps (remove_recoverable_task hash s p.task_id) (sent ++ call_of p ∷ []) c
              (Memᴰ-append_left sent (call_of p ∷ []) m))
      | inr n ↦ rw (t, n) m
    ]
    | inr f ↦ rw f (requeue-sent ps s sent c m)
  ]

  pub requeue-in_flight :
      (ps : List (TaskPayload Float)) (s : Tasks hash) (sent : List (TaskCall Float))
      → (requeue hash accepts ps s sent).1.in_flight ≡ s.in_flight
  unfolding requeue remove_recoverable_task
  requeue-in_flight [] s sent = refl
  requeue-in_flight (p ∷ ps) s sent = ground (
    arith,
    requeue-in_flight ps s sent,
    requeue-in_flight ps (remove_recoverable_task hash s p.task_id) (sent ++ call_of p ∷ []),
  )

  remove-recoverable :
      (s : Tasks hash) (i f : String)
      → hash.hget (remove_recoverable_task hash s i).recoverable f
        ≡ (if i == f then none else hash.hget s.recoverable f)
  unfolding remove_recoverable_task
  remove-recoverable s i f = hash.get-del s.recoverable i f

  requeue-gone :
      (ps : List (TaskPayload Float)) (s : Tasks hash) (sent : List (TaskCall Float)) (f : String)
      → hash.hget s.recoverable f ≡ none
      → hash.hget (requeue hash accepts ps s sent).1.recoverable f ≡ none
  unfolding requeue
  requeue-gone [] s sent f h = h
  requeue-gone (p ∷ ps) s sent f h =
      let removed = remove-recoverable s p.task_id f in
      ground (
        arith,
        removed,
        requeue-gone ps s sent f h,
        requeue-gone ps (remove_recoverable_task hash s p.task_id) (sent ++ call_of p ∷ []) f,
      )

  pub requeue-sends :
      (ps : List (TaskPayload Float)) (s : Tasks hash) (sent : List (TaskCall Float))
      (q : TaskPayload Float)
      → Memᴰ q ps
      → ((p : TaskPayload Float) → Memᴰ p ps → p.task_id ≡ q.task_id → p ≡ q)
      → is_sendable q ≡ true
      → hash.hget s.recoverable q.task_id ≡ some (task q)
      → (Memᴰ (call_of q) (requeue hash accepts ps s sent).2
          × (hash.hget (requeue hash accepts ps s sent).1.recoverable q.task_id ≡ none))
        ⊎ ((hash.hget (requeue hash accepts ps s sent).1.recoverable q.task_id ≡ some (task q))
            × ((requeue hash accepts ps s sent).0 ≡ false)
            × (r : TaskPayload Float) × (accepts r ≡ false))
  unfolding requeue
  requeue-sends [] s sent q m only good had = absurd (Memᴰ.not-nil m)
  requeue-sends (p ∷ ps) s sent q m only good had =
      let s' = remove_recoverable_task hash s p.task_id in
      let sent' = sent ++ call_of p ∷ [] in
      elim (Bool-cases (p.task_id == q.task_id)) [
        | inl own ↦
            let same : p ≡ q = only p (Memᴰ.head refl) (==→eq p.task_id q.task_id own) in
            let fine : is_sendable p ≡ true = rw same good in
            elim (Bool-cases (accepts p)) [
              | inl y ↦
                  rw (fine, y)
                    (inl (
                      requeue-sent ps s' sent' (call_of q)
                          (subst (λ r. Memᴰ (call_of r) sent') same (Memᴰ-last (call_of p) sent)),
                      requeue-gone ps s' sent' q.task_id
                          (remove-recoverable s p.task_id q.task_id ∙ rw own refl),
                    ))
              | inr n ↦ rw (fine, n) (inr (had, refl, p, n))
            ]
        | inr apart ↦
            let there : Memᴰ q ps = elim (Memᴰ.cases_cons m) [
              | inl here ↦
                  absurd (
                    let clash : (p.task_id == q.task_id) ≡ true = rw here (==-refl p.task_id) in cc)
              | inr k ↦ k
            ] in
            let later = λ (r : TaskPayload Float) (k : Memᴰ r ps). only r (Memᴰ.tail k) in
            elim (Bool-cases (is_sendable p)) [
              | inl t ↦ elim (Bool-cases (accepts p)) [
                | inl y ↦
                    rw (t, y)
                      (requeue-sends ps s' sent' q there later good
                        (remove-recoverable s p.task_id q.task_id ∙ rw apart had))
                | inr n ↦ rw (t, n) (inr (had, refl, p, n))
              ]
              | inr f ↦ rw f (requeue-sends ps s sent q there later good had)
            ]
      ]
