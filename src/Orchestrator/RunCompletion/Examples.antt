-- ===== src/Orchestrator/RunCompletion/Examples.antt =====
-- The completion of a run, and the theorems at concrete inputs.
use mathlib.Core.List.{Memᴰ}
use why_combinator.Prelude.{
  ℕ, ◌+◌, ◌≡◌, refl, String, true, false, none, some, List, [], ◌∷◌, any, map, Outcome, ok, raise,
}
use why_combinator.Platform.Sql.{in_order}
use why_combinator.Platform.Redis.{Redis, in_memory}
use why_combinator.Platform.Floats.{thousandths}
use why_combinator.Db.Enums.{
  RunState, running, completed, canceling, hacker, judge, pending, SubmissionState,
}
use why_combinator.Db.Models.{Uuid, Instant, Run, Agent, Submission}
use why_combinator.Db.Tables.{replace, IsKeyed, IsKeyed-nil, IsKeyed-cons}
use why_combinator.Scoring.Penalties.{of_agent}
use why_combinator.Leaderboard.Cache.{
  CacheKey, CacheText, CacheObject, cache_key_has_eq, read_leaderboard_scoreboard_cache,
}
use why_combinator.Leaderboard.Materializer.Ranking.{submission_key}
use why_combinator.Orchestrator.RunCompletion.{
  Store, CompletionError, run_transition, CompletionCounts, run_key, is_hacker_of, is_pending_of,
  auto_attempt, record_attempts, complete_run,
}
use why_combinator.Orchestrator.RunCompletion.Closing.{
  with_attempts, complete_run_completes, complete_run_refused,
}

abbrev cache : Redis CacheKey (CacheText ℕ) cache_key_has_eq
cache = in_memory CacheKey (CacheText ℕ) cache_key_has_eq

abbrev cold : cache.State
cold k = none

abbrev run : RunState → Run
run st = record { id = 5; challenge_id = 9; state = st; started_at = some 0; ended_at = none }

abbrev sum_of : List ℕ → ℕ
sum_of [] = 0
sum_of (x ∷ xs) = x + sum_of xs

abbrev submission : Uuid → Uuid → SubmissionState → Submission
submission i a st = record {
  id = i;
  run_id = 5;
  agent_id = a;
  state = st;
  value_hypothesis = "";
  summary = "";
  accepted_at = none;
  human_testing_required = false;
}

abbrev agents : List Agent
agents =
    record { id = 1; run_id = 5; role = hacker }
    ∷ record { id = 2; run_id = 5; role = hacker }
    ∷ record { id = 3; run_id = 5; role = judge }
    ∷ []

abbrev store : RunState → Store ℕ
store st = record {
  runs = run st ∷ [];
  challenges = [];
  agents = agents;
  submissions = submission 20 1 pending ∷ [];
  scores = [];
  penalties = [];
  entries = [];
}

abbrev summarize : String → String → String
summarize prompt hypothesis = "s"

abbrev attempt_id : Uuid → Uuid
attempt_id i = i + 100

abbrev complete :
    Store ℕ
    → cache.State
    → Uuid
    → Instant
    → Outcome CompletionError CompletionCounts × Store ℕ × cache.State
complete = complete_run thousandths in_order sum_of cache 300 true 300 2000 summarize attempt_id

abbrev attempted : RunState → List Submission
attempted st =
    with_attempts thousandths in_order sum_of cache 300 true 300 2000 summarize attempt_id
      (store st) (run st)

runs-IsKeyed : (st : RunState) → IsKeyed run_key ((store st).runs)
runs-IsKeyed st = IsKeyed-cons run_key (run st) [] refl (IsKeyed-nil run_key)

-- The second hacker gets an attempt.
attempts : (st : RunState) → map submission_key (attempted st) ≡ 20 ∷ 102 ∷ []
unfolding record_attempts auto_attempt
attempts st = refl

attempted-IsKeyed : (st : RunState) → IsKeyed submission_key (attempted st)
unfolding record_attempts auto_attempt
attempted-IsKeyed st =
    let k = IsKeyed-nil submission_key in
    let k =
      IsKeyed-cons submission_key
        (auto_attempt in_order summarize attempt_id "unknown challenge" 5
          (record { id = 2; run_id = 5; role = hacker }))
        [] refl k in
    IsKeyed-cons submission_key (submission 20 1 pending) _ refl k

complete_run_completes_example :
    let (outcome, store', _) = complete (store running) cold 5 77 in
    ((counts : CompletionCounts) × (outcome ≡ ok counts))
    × (store'.runs
        ≡ replace run_key
            (record (run running) { state = completed; ended_at = some 77 })
            (run running ∷ []))
    × (any (is_pending_of 5) store'.submissions ≡ false)
    × ((a : Agent)
        → Memᴰ a agents
        → is_hacker_of 5 a ≡ true
        → any (of_agent 5 a.id) store'.submissions ≡ true)
complete_run_completes_example =
    complete_run_completes thousandths in_order sum_of cache 300 true 300 2000 summarize attempt_id
      (store running) cold (run running) 77 (Memᴰ.head refl) (runs-IsKeyed running)
      (attempted-IsKeyed running) refl

complete_run_refused_example :
    let (outcome, store', cache') = complete (store canceling) cold 5 77 in
    (outcome
      ≡ raise (run_transition (record { current_state = canceling; target_state = completed })))
    × (store' ≡ store canceling)
    × (true ≡ true
        → (rows : List (CacheObject ℕ)) × (read_leaderboard_scoreboard_cache cache true cache' 5
            ≡ some rows))
complete_run_refused_example =
    complete_run_refused thousandths in_order sum_of cache 300 true 300 2000 summarize attempt_id
      (store canceling) cold (run canceling) 77 (Memᴰ.head refl) (runs-IsKeyed canceling)
      (attempted-IsKeyed canceling) refl refl
