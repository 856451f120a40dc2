-- ===== src/Scheduler/Checkpoints/Window.antt =====
-- Which runs a tick can enqueue.
use why_combinator.Prelude.{
  ℕ, ◌+◌, ◌≤◌, ◌≡◌, inl, inr, refl, sym, ◌∙◌, String, Bool, true, false, ◌&&◌, none, some, List, [],
  ◌∷◌, map, arith, ltb, ok, any, contains, nat_has_eq, length, max_of,
}
use why_combinator.Platform.Sql.{Engine, any-select}
use why_combinator.Platform.Floats.{Floats}
use why_combinator.Db.Models.{Uuid, Instant, Run, Challenge, seconds}
use why_combinator.Scheduler.Keys.{SchedulerRedis}
use why_combinator.Scheduler.Interval.{CheckpointConfig}
use why_combinator.Scheduler.Checkpoints.{
  Surroundings, is_started_running, due_step, collect_due, chosen,
}
use why_combinator.Scheduler.Checkpoints.Ticks.{
  has_id, contains-ids, chosen_due, chosen_bound, collect_cons, published, interval, loaded, tick,
  tick_cases,
}

-- The run has started, and its challenge's iteration window is still open.
abbrev pub is_open : (Run → Challenge) → Instant → Run → Bool
is_open challenge now run = elim run.started_at [
  | none ↦ false
  | some t ↦ ltb now (t + seconds (challenge run).iteration_window_seconds)
]

length-map : (runs : List Run) → length (map (λ (run : Run). run.id) runs) ≡ length runs
length-map [] = refl
length-map (run ∷ runs) = omega (arith, length-map runs)

module _ (db : Engine) (redis : SchedulerRedis) (floats : Floats) (config : CheckpointConfig)
    (w : Surroundings) where
  step_open :
      (s : redis.State) (now : Instant) (i : ℕ) (run : Run)
      → (due_step db redis floats config w s now i run).1 ≡ ok true
      → is_open w.challenge now run ≡ true
  unfolding due_step
  step_open s now i run e = ground arith

  collect_open :
      (p : Run → Bool) (s : redis.State) (now : Instant) (i : ℕ) (runs due : List Run)
      → (collect_due db redis floats config w s now i runs).1 ≡ ok due
      → any p due ≡ true
      → any (λ run. is_open w.challenge now run && p run) runs ≡ true
  collect_open p s now i [] due e h = unfold collect_due in ground arith
  collect_open p s now i (run ∷ runs) due e h =
      let (b, rest, here, later, whole) =
        collect_cons db redis floats config w s now i run runs due e in
      let s' = (due_step db redis floats config w s now i run).0 in
      ground (arith, step_open s now i run, collect_open p s' now i runs rest later)

  -- A tick that returns has enqueued no more runs than the limit allows (at least one), and each of
  -- their ids is that of a stored run that is running, has started, and whose iteration window is
  -- still open.
  pub tick_enqueues :
      (ttl : ℕ) (id : String) (s : redis.State) (now : Instant) (ids : List Uuid)
      → (tick db redis floats config w ttl id s now).1 ≡ ok ids
      → (length ids ≤ max_of 1 config.max_enqueues_per_tick)
        × ((j : Uuid)
            → contains ids j ≡ true
            → any
                (λ run. is_started_running run && (is_open w.challenge now run && has_id j run))
                w.runs
              ≡ true)
  tick_enqueues ttl id s now ids e = elim (tick_cases db redis floats config w ttl id s now ids e) [
    | inl (nothing, _) ↦ (rw nothing (ground arith), λ j m. cc (nothing, m))
    | inr (due, collected, which, _) ↦ (
      rw which (
          omega (
            arith,
            length-map (chosen db redis floats config w due),
            chosen_bound db redis floats config w due,
          )),
      λ j m.
          sym (
            any-select db (λ run. is_open w.challenge now run && has_id j run) is_started_running
              w.runs)
          ∙ collect_open (has_id j) (published db redis floats config w ttl id s now) now
              (interval db redis floats config w) (loaded db redis floats config w) due collected
              (chosen_due db redis floats config w (has_id j) due
                (sym (contains-ids j (chosen db redis floats config w due)) ∙ rw which at m)),
    )
  ]
