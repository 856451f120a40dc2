-- ===== src/Orchestrator/RunCompletion.antt =====
-- app/orchestrator/run_completion.py
mod Examples
pub mod Attempts
pub mod Closing
use why_combinator.Prelude.{
  ℕ, suc, ◌≡◌, String, Bool, true, false, ◌&&◌, Option, none, some, List, [], ◌∷◌, ◌++◌, length,
  head?, if◌then◌else◌, ◌==◌, nat_has_eq, Outcome, ok, raise, ◌>>=◌,
}
use why_combinator.Platform.Sql.{Engine}
use why_combinator.Platform.Floats.{Floats}
use why_combinator.Platform.Redis.{Redis}
use why_combinator.Db.Enums.{
  RunState, completed, hacker, agent_role_has_eq, SubmissionState, pending, rejected,
  submission_state_has_eq,
}
use why_combinator.Db.Models.{
  Uuid, Instant, Run, Challenge, Agent, Submission, ScoreEvent, PenaltyEvent, LeaderboardEntry,
}
use why_combinator.Db.Tables.{replace}
use why_combinator.Validation.RunState.{RunStateTransitionError, apply_run_state_transition}
use why_combinator.Validation.SubmissionState.{
  SubmissionStateTransitionError, apply_submission_state_transition,
}
use why_combinator.Scoring.Penalties.{of_agent, generate_non_production_penalties}
use why_combinator.Leaderboard.Cache.{CacheKey, CacheText, cache_key_has_eq}
use why_combinator.Leaderboard.Materializer.{materialize_leaderboard}
use why_combinator.Leaderboard.Materializer.Ranking.{submission_key}

-- The tables that the completion of a run reads or writes.
pub record Store (Float : Type 0) : Type 0 where
  pub runs : List Run
  pub challenges : List Challenge
  pub agents : List Agent
  pub submissions : List Submission
  pub scores : List (ScoreEvent Float)
  pub penalties : List (PenaltyEvent Float)
  pub entries : List (LeaderboardEntry Float)

pub data CompletionError : Type 0 where
  run_not_found : CompletionError
  submission_transition : SubmissionStateTransitionError → CompletionError
  run_transition : RunStateTransitionError → CompletionError

pub record CompletionCounts : Type 0 where
  pub auto_attempts_created : ℕ
  pub finalized_submissions : ℕ
  pub non_production_penalties : ℕ
  pub leaderboard_entries : ℕ

abbrev pub run_key : Run → Uuid
run_key run = run.id

abbrev pub is_hacker_of : Uuid → Agent → Bool
is_hacker_of run_id a = (a.run_id == run_id) && (a.role == hacker)

abbrev pub is_pending_of : Uuid → Submission → Bool
is_pending_of run_id s = (s.run_id == run_id) && (s.state == pending)

abbrev pub no_submission : String
no_submission = "auto-generated attempt: no submission provided before run close"

-- `summarize` is generate_submission_semantic_summary for a prompt and a hypothesis, and `attempt_id`
-- the id drawn for the attempt of a hacker.
module _ (db : Engine) (summarize : String → String → String) (attempt_id : Uuid → Uuid) where
  pub auto_attempt : String → Uuid → Agent → Submission
  auto_attempt prompt run_id h = record {
    id = attempt_id h.id;
    run_id = run_id;
    agent_id = h.id;
    state = rejected;
    value_hypothesis = no_submission;
    summary = summarize prompt no_submission;
    accepted_at = none;
    human_testing_required = false;
  }

  -- `for hacker in hackers`: the number of attempts added, and the table with them.
  pub record_attempts : String → Uuid → List Agent → ℕ × List Submission → ℕ × List Submission
  record_attempts prompt run_id [] state = state
  record_attempts prompt run_id (h ∷ hackers) (n, submissions) =
      let existing = head? (db.select Submission (of_agent run_id h.id) submissions) in
      record_attempts prompt run_id hackers (elim existing [
        | some _ ↦ (n, submissions)
        | none ↦ (suc n, submissions ++ auto_attempt prompt run_id h ∷ [])
      ])

-- `for submission in pending_submissions`
pub reject_all :
    Instant → List Submission → List Submission → Outcome CompletionError (List Submission)
reject_all now [] table = ok table
reject_all now (s ∷ ss) table = elim (apply_submission_state_transition s rejected now) [
  | raise e ↦ raise (submission_transition e)
  | ok s' ↦ reject_all now ss (replace submission_key s' table)
]

module _ (floats : Floats) (db : Engine) (sum_of : List floats.Float → floats.Float)
    (redis : Redis CacheKey (CacheText floats.Float) cache_key_has_eq) (ttl : ℕ) (reachable : Bool)
    (penalty_value heavy_multiplier : floats.Float) (summarize : String → String → String)
    (attempt_id : Uuid → Uuid) where
  open floats use {Float}

  abbrev pub prompt_of : Store Float → Run → String
  prompt_of store run =
      elim (head? (db.select Challenge (λ c. c.id == run.challenge_id) store.challenges)) [
        | some challenge ↦ challenge.prompt
        | none ↦ "unknown challenge"
      ]

  -- The submissions behind the first loop, and the number of attempts added.
  abbrev pub attempted : Store Float → Run → ℕ × List Submission
  attempted store run =
      record_attempts db summarize attempt_id (prompt_of store run) run.id
        (db.select Agent (is_hacker_of run.id) store.agents) (0, store.submissions)

  -- What follows the loops. The cache is written before the transition of the run is tried; where that
  -- raises, nothing is committed to the store.
  pub close_run :
      Store Float
      → redis.State
      → Run
      → (attempts finalized : ℕ) → List Submission
      → Instant
      → Outcome CompletionError CompletionCounts × Store Float × redis.State
  close_run store cache run attempts finalized submissions now =
      let (created, penalties) =
        generate_non_production_penalties floats db penalty_value heavy_multiplier "run_end"
          store.agents submissions store.penalties run.id in
      let (entries, table, cache') =
        materialize_leaderboard floats db sum_of redis ttl reachable store.scores penalties
          submissions store.entries cache run.id in
      elim (apply_run_state_transition run completed now) [
        | raise e ↦ (raise (run_transition e), store, cache')
        | ok run' ↦ (
          ok (record {
            auto_attempts_created = attempts;
            finalized_submissions = finalized;
            non_production_penalties = length created;
            leaderboard_entries = length entries;
          }),
          record store {
            runs = replace run_key run' store.runs;
            submissions = submissions;
            penalties = penalties;
            entries = table;
          },
          cache',
        )
      ]

  pub complete_run :
      Store Float
      → redis.State
      → Uuid
      → Instant
      → Outcome CompletionError CompletionCounts × Store Float × redis.State
  complete_run store cache run_id now =
      elim (head? (db.select Run (λ r. r.id == run_id) store.runs)) [
        | none ↦ (raise run_not_found, store, cache)
        | some run ↦
            let (attempts, submissions) = attempted store run in
            let pending_submissions = db.select Submission (is_pending_of run.id) submissions in
            elim (reject_all now pending_submissions submissions) [
              | raise e ↦ (raise e, store, cache)
              | ok submissions' ↦
                  close_run store cache run attempts (length pending_submissions) submissions' now
            ]
      ]
