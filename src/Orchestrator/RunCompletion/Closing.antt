-- ===== src/Orchestrator/RunCompletion/Closing.antt =====
-- The completion of a run as a whole.
use mathlib.Core.List.{Memᴰ}
use why_combinator.Prelude.{
  ℕ, ◌≡◌, refl, ◌∙◌, String, Bool, true, false, some, List, map, length, if◌then◌else◌, ◌==◌,
  nat_has_eq, any, Outcome, ok, raise,
}
use why_combinator.Platform.Sql.{Engine}
use why_combinator.Platform.Floats.{Floats}
use why_combinator.Platform.Redis.{Redis}
use why_combinator.Db.Enums.{
  RunState, created, running, canceling, completed, canceled, failed, run_state_has_eq,
}
use why_combinator.Db.Models.{Uuid, Instant, Run, Agent, Submission}
use why_combinator.Db.Tables.{replace, IsKeyed, find_keyed, Memᴰ-loaded}
use why_combinator.Validation.RunState.{apply_run_state_transition}
use why_combinator.Scoring.Penalties.{of_agent, generate_non_production_penalties}
use why_combinator.Leaderboard.Cache.{
  CacheKey, CacheText, CacheObject, cache_key_has_eq, read_leaderboard_scoreboard_cache,
}
use why_combinator.Leaderboard.Materializer.Ranking.{submission_key}
use why_combinator.Leaderboard.Materializer.Entries.{materialize_replaces}
use why_combinator.Orchestrator.RunCompletion.{
  Store, CompletionError, run_transition, CompletionCounts, run_key, is_hacker_of, is_pending_of,
  attempted, prompt_of, close_run, complete_run,
}
use why_combinator.Orchestrator.RunCompletion.Attempts.{
  reject, reject_all_lem, none_pending, any-rejected, attempts_complete,
}

module _ (floats : Floats) (db : Engine) (sum_of : List floats.Float → floats.Float)
    (redis : Redis CacheKey (CacheText floats.Float) cache_key_has_eq) (ttl : ℕ) (reachable : Bool)
    (penalty_value heavy_multiplier : floats.Float) (summarize : String → String → String)
    (attempt_id : Uuid → Uuid) where
  open floats use {Float}

  abbrev complete :
      Store Float
      → redis.State
      → Uuid
      → Instant
      → Outcome CompletionError CompletionCounts × Store Float × redis.State
  complete =
      complete_run floats db sum_of redis ttl reachable penalty_value heavy_multiplier summarize
        attempt_id

  -- The submissions behind the loop over the hackers of the run.
  abbrev pub with_attempts : Store Float → Run → List Submission
  with_attempts store run =
      (attempted floats db sum_of redis ttl reachable penalty_value heavy_multiplier summarize
        attempt_id store run).1

  -- The submissions behind both loops.
  abbrev pub finalized : Store Float → Run → List Submission
  finalized store run =
      map (λ s. if is_pending_of run.id s then reject s else s) (with_attempts store run)

  abbrev closed :
      Store Float
      → redis.State
      → Run
      → Instant
      → Outcome CompletionError CompletionCounts × Store Float × redis.State
  closed store cache run now =
      close_run floats db sum_of redis ttl reachable penalty_value heavy_multiplier summarize
        attempt_id store cache run
        (attempted floats db sum_of redis ttl reachable penalty_value heavy_multiplier summarize
          attempt_id store run).0
        (length (db.select Submission (is_pending_of run.id) (with_attempts store run)))
        (finalized store run) now

  complete_closes :
      (store : Store Float) (cache : redis.State) (run : Run) (now : Instant)
      → Memᴰ run store.runs
      → IsKeyed run_key store.runs
      → IsKeyed submission_key (with_attempts store run)
      → complete store cache run.id now ≡ closed store cache run now
  unfolding complete_run
  complete_closes store cache run now m keyed keyed' =
      let found = find_keyed run_key db store.runs run keyed m in
      let rejected = reject_all_lem now db run.id (with_attempts store run) keyed' in
      rw (found, complete_run) (rw rejected refl)

  abbrev pub completed_run : Run → Instant → Run
  completed_run run now = record run { state = completed; ended_at = some now }

  close_running :
      (run : Run) (now : Instant)
      → run.state ≡ running
      → apply_run_state_transition run completed now ≡ ok (completed_run run now)
  unfolding apply_run_state_transition
  close_running run now e = rw e refl

  hackers_attempt :
      (store : Store Float) (run : Run) (a : Agent)
      → Memᴰ a store.agents
      → is_hacker_of run.id a ≡ true
      → any (of_agent run.id a.id) (finalized store run) ≡ true
  hackers_attempt store run a m h =
      any-rejected (of_agent run.id a.id) (is_pending_of run.id) (with_attempts store run)
        (λ s. refl)
      ∙ attempts_complete db summarize attempt_id
          (prompt_of floats db sum_of redis ttl reachable penalty_value heavy_multiplier summarize
            attempt_id store run)
          run.id (db.select Agent (is_hacker_of run.id) store.agents) 0 store.submissions a
          (Memᴰ-loaded db (is_hacker_of run.id) store.agents m h)

  -- Completing a running run succeeds, where the ids of runs are a key, and those of submissions are one
  -- after the attempts have been added: the run is then completed and stamped with its end and no other
  -- run is changed, none of its submissions is pending, and each of its hackers has a submission.
  pub complete_run_completes :
      (store : Store Float) (cache : redis.State) (run : Run) (now : Instant)
      → Memᴰ run store.runs
      → IsKeyed run_key store.runs
      → IsKeyed submission_key (with_attempts store run)
      → run.state ≡ running
      → let (outcome, store', _) = complete store cache run.id now in
        ((counts : CompletionCounts) × (outcome ≡ ok counts))
        × (store'.runs ≡ replace run_key (completed_run run now) store.runs)
        × (any (is_pending_of run.id) store'.submissions ≡ false)
        × ((a : Agent)
            → Memᴰ a store.agents
            → is_hacker_of run.id a ≡ true
            → any (of_agent run.id a.id) store'.submissions ≡ true)
  unfolding close_run
  complete_run_completes store cache run now m keyed keyed' is_running =
      rw (complete_closes store cache run now m keyed keyed') (
        rw (close_running run now is_running, close_run)
          (
            (_, refl),
            refl,
            none_pending run.id (with_attempts store run),
            λ a i h. hackers_attempt store run a i h,
          ))

  close_refused :
      (run : Run) (now : Instant) (state : RunState)
      → run.state ≡ state
      → (state == running) ≡ false
      → (state == completed) ≡ false
      → apply_run_state_transition run completed now
        ≡ raise (record { current_state = state; target_state = completed })
  unfolding apply_run_state_transition
  close_refused run now created e h k = rw e refl
  close_refused run now running e h k = cc
  close_refused run now canceling e h k = rw e refl
  close_refused run now completed e h k = cc
  close_refused run now canceled e h k = rw e refl
  close_refused run now failed e h k = rw e refl

  -- Completing a run that is neither running nor completed is refused with the error of the transition,
  -- under the same conditions on ids, and leaves the store as it was. With a cache that can be reached
  -- there is then a scoreboard of the run in the cache all the same.
  pub complete_run_refused :
      (store : Store Float) (cache : redis.State) (run : Run) (now : Instant)
      → Memᴰ run store.runs
      → IsKeyed run_key store.runs
      → IsKeyed submission_key (with_attempts store run)
      → (run.state == running) ≡ false
      → (run.state == completed) ≡ false
      → let (outcome, store', cache') = complete store cache run.id now in
        (outcome
          ≡ raise (run_transition (record { current_state = run.state; target_state = completed })))
        × (store' ≡ store)
        × (reachable ≡ true
            → (rows : List (CacheObject Float)) × (read_leaderboard_scoreboard_cache redis true
                  cache' run.id
                ≡ some rows))
  unfolding close_run
  complete_run_refused store cache run now m keyed keyed' not_running not_completed =
      let submissions = finalized store run in
      let penalties =
        (generate_non_production_penalties floats db penalty_value heavy_multiplier "run_end"
          store.agents submissions store.penalties run.id).1 in
      rw (complete_closes store cache run now m keyed keyed') (
        rw (close_refused run now run.state refl not_running not_completed, close_run)
          (
            refl,
            refl,
            λ up.
                let shown =
                  materialize_replaces floats db sum_of redis ttl reachable store.scores penalties
                    submissions store.entries cache run.id in
                (_, shown.2 up),
          ))
