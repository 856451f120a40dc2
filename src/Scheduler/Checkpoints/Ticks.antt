-- ===== src/Scheduler/Checkpoints/Ticks.antt =====
-- What one tick enqueues, and why the next one does not enqueue it again.
use why_combinator.Prelude.{
  ℕ, ◌+◌, ◌≤◌, ◌<◌, ◌≡◌, ◌≢◌, ◌⊎◌, inl, inr, refl, sym, ◌∙◌, ap, subst, String, Bool, true, false,
  none, some, List, [], ◌∷◌, map, arith, if◌then◌else◌, ◌==◌, nat_has_eq, take, max_of, Outcome, ok,
  Option-cases, Bool-cases, any, count-take_le, any-count, contains, length, length-take,
}
use why_combinator.Platform.Sql.{Engine}
use why_combinator.Platform.Floats.{Floats}
use why_combinator.Db.Models.{Uuid, Instant, Run, seconds}
use why_combinator.Scheduler.Keys.{
  next_checkpoint_at, leader_heartbeat, Stored, stamp, heartbeat, SchedulerRedis,
}
use why_combinator.Scheduler.LeaderElection.{
  try_acquire_or_renew_scheduler_leader, publish_scheduler_leader_heartbeat,
}
use why_combinator.Scheduler.LeaderElection.Exclusion.{attempt_other}
use why_combinator.Scheduler.FairOrder.{weighted_fair_due_order}
use why_combinator.Scheduler.FairOrder.Rounds.{fair_order_complete}
use why_combinator.Scheduler.Interval.{
  CheckpointConfig, apply_checkpoint_jitter, interval_bounds, jitter_bounds,
}
use why_combinator.Scheduler.Checkpoints.{
  TickError, Surroundings, is_started_running, resolve_resume_checkpoint_at, resume_step, due_step,
  collect_due, store_next, tick_interval, chosen, lead, enqueue_periodic_checkpoint_scores,
}

any-take :
    {A : Type 0} (p : A → Bool) (n : ℕ) (xs : List A) → any p (take n xs) ≡ true → any p xs ≡ true
any-take p n xs h = ground (arith, any-count p xs, any-count p (take n xs), count-take_le p n xs)

any-fair_order :
    (p : Run → Bool) (runs : List Run)
    → any p (weighted_fair_due_order runs) ≡ true
    → any p runs ≡ true
any-fair_order p runs h = ground (
  arith,
  any-count p runs,
  any-count p (weighted_fair_due_order runs),
  (fair_order_complete runs p).1,
)

abbrev pub has_id : Uuid → Run → Bool
has_id j run = run.id == j

pub contains-ids :
    (j : Uuid) (runs : List Run)
    → contains (map (λ (run : Run). run.id) runs) j ≡ any (has_id j) runs
contains-ids j [] = refl
contains-ids j (run ∷ runs) = ground (arith, contains-ids j runs)

module _ (db : Engine) (redis : SchedulerRedis) (floats : Floats) (config : CheckpointConfig)
    (w : Surroundings) where
  abbrev pub step : redis.State → Instant → ℕ → Run → redis.State × Outcome TickError Bool
  step = due_step db redis floats config w

  resume_state :
      (s : redis.State) (now : Instant) (i : ℕ) (run : Run)
      → ((resume_step db redis floats config w s now i run).0 ≡ s)
        ⊎ ((next : Instant) × ((resume_step db redis floats config w s now i run).0
              ≡ redis.set s (next_checkpoint_at run.id) (stamp next)))
  unfolding resume_step
  resume_state s now i run =
      elim (Option-cases (resolve_resume_checkpoint_at db redis floats config w run i)) [
        | inl e ↦ inl (rw (e, resume_step))
        | inr (base, e) ↦
            inr (apply_checkpoint_jitter w.digest config base run.id i, rw (e, resume_step))
      ]

  pub step_state :
      (s : redis.State) (now : Instant) (i : ℕ) (run : Run)
      → ((step s now i run).0 ≡ s)
        ⊎ ((redis.get s (next_checkpoint_at run.id) ≡ none)
            × (next : Instant) × ((step s now i run).0
                ≡ redis.set s (next_checkpoint_at run.id) (stamp next)))
  unfolding due_step
  step_state s now i run = ground (arith, resume_state s now i run)

  step_waits :
      (s : redis.State) (now : Instant) (i : ℕ) (run : Run) (t : Instant)
      → redis.get s (next_checkpoint_at run.id) ≡ some (stamp t)
      → now < t
      → (step s now i run).1 ≢ ok true
  unfolding due_step
  step_waits s now i run t h lt e = ground arith

  step_keeps :
      (s : redis.State) (now : Instant) (i : ℕ) (run : Run) (j : Uuid) (v : Stored)
      → redis.get s (next_checkpoint_at j) ≡ some v
      → redis.get (step s now i run).0 (next_checkpoint_at j) ≡ some v
  step_keeps s now i run j v h = elim (step_state s now i run) [
    | inl same ↦ rw same h
    | inr (free, next, written) ↦
        let other : (run.id == j) ≡ false = ground arith in
        rw written (
          redis.get-set s (next_checkpoint_at run.id) (stamp next) (next_checkpoint_at j)
          ∙ rw other h)
  ]

  abbrev pub collect :
      redis.State → Instant → ℕ → List Run → redis.State × Outcome TickError (List Run)
  collect = collect_due db redis floats config w

  collect_keeps :
      (s : redis.State) (now : Instant) (i : ℕ) (runs : List Run) (j : Uuid) (v : Stored)
      → redis.get s (next_checkpoint_at j) ≡ some v
      → redis.get (collect s now i runs).0 (next_checkpoint_at j) ≡ some v
  unfolding collect_due
  collect_keeps s now i [] j v h = h
  collect_keeps s now i (run ∷ runs) j v h =
      let here = step_keeps s now i run j v h in
      ground (arith, collect_keeps (step s now i run).0 now i runs j v here)

  pub collect_cons :
      (s : redis.State) (now : Instant) (i : ℕ) (run : Run) (runs due : List Run)
      → (collect s now i (run ∷ runs)).1 ≡ ok due
      → (b : Bool) × (rest : List Run) × ((step s now i run).1 ≡ ok b)
        × ((collect (step s now i run).0 now i runs).1 ≡ ok rest)
        × (due ≡ (if b then run ∷ rest else rest))
  unfolding collect_due
  collect_cons s now i run runs due e = ground arith

  -- A run whose next time is not reached is passed over.
  collect_waits :
      (s : redis.State) (now : Instant) (i : ℕ) (runs : List Run) (due : List Run) (j : Uuid)
      (t : Instant)
      → redis.get s (next_checkpoint_at j) ≡ some (stamp t)
      → now < t
      → (collect s now i runs).1 ≡ ok due
      → any (has_id j) due ≡ false
  collect_waits s now i [] due j t h lt e = unfold collect_due in ground arith
  collect_waits s now i (run ∷ runs) due j t h lt e =
      let (b, rest, here, later, whole) = collect_cons s now i run runs due e in
      let kept = step_keeps s now i run j (stamp t) h in
      let none_later = collect_waits (step s now i run).0 now i runs rest j t kept lt later in
      elim (Bool-cases (run.id == j)) [
        | inl own ↦
            let same : j ≡ run.id = ground arith in
            let waits =
              step_waits s now i run t
                (subst (λ x. redis.get s (next_checkpoint_at x) ≡ some (stamp t)) same h) lt in
            elim (Bool-cases b) [
              | inl due_now ↦ absurd (waits (here ∙ ap ok due_now))
              | inr not_now ↦ ground arith
            ]
        | inr other ↦ ground arith
      ]

  store_next_lem :
      (s : redis.State) (now : Instant) (i : ℕ) (runs : List Run) (j : Uuid)
      → redis.get (store_next db redis floats config w s now i runs) (next_checkpoint_at j) ≡ (
          if any (has_id j) runs
          then some (stamp (apply_checkpoint_jitter w.digest config (now + seconds i) j i))
          else redis.get s (next_checkpoint_at j))
  unfolding store_next
  store_next_lem s now i [] j = refl
  store_next_lem s now i (run ∷ runs) j =
      let next = apply_checkpoint_jitter w.digest config (now + seconds i) run.id i in
      let s' = redis.set s (next_checkpoint_at run.id) (stamp next) in
      ground (
        arith,
        store_next_lem s' now i runs j,
        redis.get-set s (next_checkpoint_at run.id) (stamp next) (next_checkpoint_at j),
      )

  abbrev pub tick : ℕ → String → redis.State → Instant → redis.State × Outcome TickError (List Uuid)
  tick = enqueue_periodic_checkpoint_scores db redis floats config w

  -- The state behind the election, and behind the leader's heartbeat.
  abbrev pub elected : ℕ → String → redis.State → redis.State
  elected ttl id s = (try_acquire_or_renew_scheduler_leader redis ttl s id).1

  abbrev pub published : ℕ → String → redis.State → Instant → redis.State
  published ttl id s now = publish_scheduler_leader_heartbeat redis (elected ttl id s) id now

  abbrev pub interval : ℕ
  interval = tick_interval db redis floats config w

  abbrev pub loaded : List Run
  loaded = db.select Run is_started_running w.runs

  pub chosen_due :
      (p : Run → Bool) (due : List Run)
      → any p (chosen db redis floats config w due) ≡ true
      → any p due ≡ true
  chosen_due p due h =
      any-fair_order p due
        (any-take p (max_of 1 config.max_enqueues_per_tick) (weighted_fair_due_order due) h)

  -- What a tick that returns has done behind the election: nothing, or it collected the due runs and
  -- chose of them.
  pub tick_cases :
      (ttl : ℕ) (id : String) (s : redis.State) (now : Instant) (ids : List Uuid)
      → (tick ttl id s now).1 ≡ ok ids
      → ((ids ≡ []) × ((tick ttl id s now).0 ≡ elected ttl id s))
        ⊎ ((due : List Run) × ((collect (published ttl id s now) now interval loaded).1 ≡ ok due)
            × (ids ≡ map (λ (run : Run). run.id) (chosen db redis floats config w due))
            × ((tick ttl id s now).0
                ≡ store_next db redis floats config w
                    (collect (published ttl id s now) now interval loaded).0
                    now
                    interval
                    (chosen db redis floats config w due)))
  unfolding enqueue_periodic_checkpoint_scores lead
  tick_cases ttl id s now ids e = ground arith

  published_other :
      (ttl : ℕ) (id : String) (s : redis.State) (now : Instant) (j : Uuid)
      → redis.get (published ttl id s now) (next_checkpoint_at j)
        ≡ redis.get s (next_checkpoint_at j)
  unfolding publish_scheduler_leader_heartbeat
  published_other ttl id s now j =
      redis.get-set (elected ttl id s) leader_heartbeat (heartbeat id now) (next_checkpoint_at j)
      ∙ attempt_other redis ttl s id (next_checkpoint_at j) refl

  -- The runs that a tick enqueues have their next time one interval and their jitter later.
  pub tick_stores :
      (ttl : ℕ) (id : String) (s : redis.State) (now : Instant) (ids : List Uuid) (j : Uuid)
      → (tick ttl id s now).1 ≡ ok ids
      → contains ids j ≡ true
      → redis.get (tick ttl id s now).0 (next_checkpoint_at j)
        ≡ some (stamp (apply_checkpoint_jitter w.digest config (now + seconds interval) j interval))
  tick_stores ttl id s now ids j e m = elim (tick_cases ttl id s now ids e) [
    | inl (nothing, _) ↦ cc (nothing, m)
    | inr (due, _, which, state) ↦
        let there : any (has_id j) (chosen db redis floats config w due) ≡ true =
          sym (contains-ids j (chosen db redis floats config w due)) ∙ rw which at m in
        rw (state, store_next_lem) (rw there refl)
  ]

  -- A run whose next time lies ahead is not enqueued.
  pub tick_waits :
      (ttl : ℕ) (id : String) (s : redis.State) (now : Instant) (ids : List Uuid) (j : Uuid)
      (t : Instant)
      → (tick ttl id s now).1 ≡ ok ids
      → redis.get s (next_checkpoint_at j) ≡ some (stamp t)
      → now < t
      → contains ids j ≡ false
  tick_waits ttl id s now ids j t e h lt = elim (tick_cases ttl id s now ids e) [
    | inl (nothing, _) ↦ rw nothing refl
    | inr (due, collected, which, _) ↦
        let waits =
          collect_waits (published ttl id s now) now interval loaded due j t
            (published_other ttl id s now j ∙ h) lt collected in
        rw (which, contains-ids j (chosen db redis floats config w due))
          (elim (Bool-cases (any (has_id j) (chosen db redis floats config w due))) [
            | inl there ↦ cc (chosen_due (has_id j) due there, waits)
            | inr not_there ↦ not_there
          ])
  ]

  -- How far the choice is bounded, and where its runs come from.
  pub chosen_bound :
      (due : List Run)
      → length (chosen db redis floats config w due) ≤ max_of 1 config.max_enqueues_per_tick
  chosen_bound due =
      omega
        (arith, length-take (max_of 1 config.max_enqueues_per_tick) (weighted_fair_due_order due))

-- After a tick that returns, another one that returns (by the same or another process, and whatever
-- has become of the tables by then) enqueues none of the runs of the first before the interval of
-- the first has passed, as long as nobody else writes to Redis in between.
pub no_double_enqueue :
    (db : Engine) (redis : SchedulerRedis) (floats : Floats) (config : CheckpointConfig)
    (w w' : Surroundings) (ttl : ℕ) (id id' : String) (s : redis.State) (now now' : Instant)
    (ids ids' : List Uuid) (j : Uuid)
    → (tick db redis floats config w ttl id s now).1 ≡ ok ids
    → (tick db redis floats config w' ttl id' (tick db redis floats config w ttl id s now).0 now').1
      ≡ ok ids'
    → now' < now + seconds (tick_interval db redis floats config w)
    → contains ids j ≡ true
    → contains ids' j ≡ false
no_double_enqueue db redis floats config w w' ttl id id' s now now' ids ids' j e e' early m =
    let i = tick_interval db redis floats config w in
    let positive =
      (interval_bounds floats config (max_of 1 config.interval_seconds) w.inspection).0 in
    let later = (jitter_bounds w.digest config (now + seconds i) j i positive).0 in
    tick_waits db redis floats config w' ttl id' (tick db redis floats config w ttl id s now).0 now'
      ids' j (apply_checkpoint_jitter w.digest config (now + seconds i) j i) e'
      (tick_stores db redis floats config w ttl id s now ids j e m) (omega arith)
