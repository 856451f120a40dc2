-- ===== src/Queue/Recovery/Marked.antt =====
-- What marking tasks as recoverable does to the hashes of app/queue/recovery.py
use mathlib.Core.List.{Memᴰ}
use mathlib.Core.List.Memᴰ
use why_combinator.Prelude.{
  ◌≡◌, refl, ◌∙◌, ap, inl, inr, String, true, false, none, some, List, [], ◌∷◌, arith,
  if◌then◌else◌, ◌==◌, text_has_eq, ==-refl, ==→eq, Bool-cases,
}
use why_combinator.Prelude.Texts.{strip, is_empty}
use why_combinator.Platform.Hashes.{Hash, hsetnx, hsetnx-own, hsetnx-other, hsetnx-kept}
use why_combinator.Db.Models.{Instant}
use why_combinator.Queue.Recovery.{
  TaskPayload, TaskText, task, not_an_object, tasks_of, Tasks, marked, mark_recoverable_task,
  mark_all,
}

module _ {Float : Type 0} where
  pub Memᴰ-tasks_of :
      {p : TaskPayload Float} (entries : List (String × TaskText Float))
      → Memᴰ p (tasks_of entries)
      → (f : String) × Memᴰ (f, task p) entries
  unfolding tasks_of
  Memᴰ-tasks_of [] m = absurd (Memᴰ.not-nil m)
  Memᴰ-tasks_of ((f, task q) ∷ rest) m = elim (Memᴰ.cases_cons m) [
    | inl here ↦ (f, Memᴰ.head (rw here refl))
    | inr there ↦ let (g, n) = Memᴰ-tasks_of rest there in (g, Memᴰ.tail n)
  ]
  Memᴰ-tasks_of ((f, not_an_object t) ∷ rest) m =
      let (g, n) = Memᴰ-tasks_of rest m in (g, Memᴰ.tail n)

  pub task-injective : (p q : TaskPayload Float) → task p ≡ task q → p ≡ q
  task-injective p q e = cc

  pub tasks_of-Memᴰ :
      {f : String} {p : TaskPayload Float} (entries : List (String × TaskText Float))
      → Memᴰ (f, task p) entries
      → Memᴰ p (tasks_of entries)
  unfolding tasks_of
  tasks_of-Memᴰ {f} {p} [] m = absurd (Memᴰ.not-nil m)
  tasks_of-Memᴰ {f} {p} ((g, task q) ∷ rest) m = elim (Memᴰ.cases_cons m) [
    | inl here ↦ Memᴰ.head (task-injective p q (ap (λ (e : String × TaskText Float). e.1) here))
    | inr there ↦ Memᴰ.tail (tasks_of-Memᴰ rest there)
  ]
  tasks_of-Memᴰ {f} {p} ((g, not_an_object t) ∷ rest) m = elim (Memᴰ.cases_cons m) [
    | inl here ↦ absurd (
        let clash : task p ≡ not_an_object t = ap (λ (e : String × TaskText Float). e.1) here in cc)
    | inr there ↦ tasks_of-Memᴰ rest there
  ]

  -- The id names a field, and is stored as it is.
  pub record IsNamed (p : TaskPayload Float) : Type 0 where
    pub stripped : strip p.task_id ≡ p.task_id
    pub named : is_empty p.task_id ≡ false

module _ {Float : Type 0} (hash : Hash (TaskText Float)) (reason : String) (now : Instant) where
  mark-in_flight :
      (s : Tasks hash) (p : TaskPayload Float) (f : String)
      → IsNamed p
      → hash.hget (mark_recoverable_task hash reason now s p).1.in_flight f
        ≡ (if p.task_id == f then none else hash.hget s.in_flight f)
  unfolding mark_recoverable_task
  mark-in_flight s p f n = rw (n.stripped, n.named) (hash.get-del s.in_flight p.task_id f)

  pub mark-recoverable :
      (s : Tasks hash) (p : TaskPayload Float)
      → IsNamed p
      → (mark_recoverable_task hash reason now s p).1.recoverable
        ≡ (hsetnx hash s.recoverable p.task_id (task (marked hash reason now p))).1
  unfolding mark_recoverable_task
  mark-recoverable s p n = rw (n.stripped, n.named) refl

  abbrev pub AreNamed : List (TaskPayload Float) → Type 0
  AreNamed ps = (p : TaskPayload Float) → Memᴰ p ps → IsNamed p

  -- A field of the hash of recoverable tasks keeps what it holds, ...
  mark_all-kept :
      (ps : List (TaskPayload Float)) (s : Tasks hash) (f : String) (v : TaskText Float)
      → AreNamed ps
      → hash.hget s.recoverable f ≡ some v
      → hash.hget (mark_all hash reason now ps s).recoverable f ≡ some v
  unfolding mark_all
  mark_all-kept [] s f v n h = h
  mark_all-kept (p ∷ ps) s f v n h =
      mark_all-kept ps (mark_recoverable_task hash reason now s p).1 f v (λ q m. n q (Memᴰ.tail m))
        (rw (mark-recoverable s p (n p (Memᴰ.head refl)))
          (hsetnx-kept hash s.recoverable p.task_id (task (marked hash reason now p)) f v h))

  -- ... and one of the hash of tasks in flight that is free stays free.
  mark_all-free :
      (ps : List (TaskPayload Float)) (s : Tasks hash) (f : String)
      → AreNamed ps
      → hash.hget s.in_flight f ≡ none
      → hash.hget (mark_all hash reason now ps s).in_flight f ≡ none
  unfolding mark_all
  mark_all-free [] s f n h = h
  mark_all-free (p ∷ ps) s f n h =
      mark_all-free ps (mark_recoverable_task hash reason now s p).1 f (λ q m. n q (Memᴰ.tail m))
        (mark-in_flight s p f (n p (Memᴰ.head refl)) ∙ ground (arith, h))

  -- A field that no task is named for is left alone.
  pub mark_all-other :
      (ps : List (TaskPayload Float)) (s : Tasks hash) (f : String)
      → AreNamed ps
      → ((p : TaskPayload Float) → Memᴰ p ps → (p.task_id == f) ≡ false)
      → hash.hget (mark_all hash reason now ps s).in_flight f ≡ hash.hget s.in_flight f
  unfolding mark_all
  mark_all-other [] s f n h = refl
  mark_all-other (p ∷ ps) s f n h =
      mark_all-other ps (mark_recoverable_task hash reason now s p).1 f (λ q m. n q (Memᴰ.tail m))
        (λ q m. h q (Memᴰ.tail m))
      ∙ mark-in_flight s p f (n p (Memᴰ.head refl))
      ∙ rw (h p (Memᴰ.head refl)) refl

  -- A task that is the only one of its name moves from one hash to the other.
  pub mark_all-moves :
      (ps : List (TaskPayload Float)) (s : Tasks hash) (p : TaskPayload Float)
      → AreNamed ps
      → Memᴰ p ps
      → ((q : TaskPayload Float) → Memᴰ q ps → q.task_id ≡ p.task_id → q ≡ p)
      → hash.hget s.recoverable p.task_id ≡ none
      → (hash.hget (mark_all hash reason now ps s).in_flight p.task_id ≡ none)
        × (hash.hget (mark_all hash reason now ps s).recoverable p.task_id
            ≡ some (task (marked hash reason now p)))
  unfolding mark_all
  mark_all-moves [] s p n m only free = absurd (Memᴰ.not-nil m)
  mark_all-moves (q ∷ ps) s p n m only free =
      let first = n q (Memᴰ.head refl) in
      let later = λ (r : TaskPayload Float) (k : Memᴰ r ps). n r (Memᴰ.tail k) in
      let s' = (mark_recoverable_task hash reason now s q).1 in
      elim (Bool-cases (q.task_id == p.task_id)) [
        | inl own ↦
            let same : q ≡ p = only q (Memᴰ.head refl) (==→eq q.task_id p.task_id own) in
            (
              mark_all-free ps s' p.task_id later
                  (mark-in_flight s q p.task_id first ∙ rw own refl),
              mark_all-kept ps s' p.task_id (task (marked hash reason now p)) later (
                  rw (mark-recoverable s q first, same)
                    (hsetnx-own hash s.recoverable p.task_id (task (marked hash reason now p))
                      free)),
            )
        | inr apart ↦ elim (Memᴰ.cases_cons m) [
          | inl here ↦
              absurd
                (let clash : (q.task_id == p.task_id) ≡ true = rw here (==-refl q.task_id) in cc)
          | inr there ↦
              mark_all-moves ps s' p later there (λ r k. only r (Memᴰ.tail k))
                (rw (mark-recoverable s q first) (
                  hsetnx-other hash s.recoverable q.task_id (task (marked hash reason now q))
                    p.task_id apart
                  ∙ free))
        ]
      ]
