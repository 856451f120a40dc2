-- ===== src/Leaderboard/Materializer.antt =====
-- app/leaderboard/materializer.py
pub mod Ranking
pub mod Shown
pub mod Order
pub mod Entries
use why_combinator.Prelude.{
  ℕ, suc, ◌≡◌, Bool, true, false, not, ◌&&◌, Option, none, some, List, [], ◌∷◌, ◌++◌, map, leb, ltb,
  if◌then◌else◌, ◌==◌, nat_has_eq, filter, head?,
}
use why_combinator.Prelude.Sort.{sort}
use why_combinator.Prelude.Orders.{lexicographic}
use why_combinator.Prelude.Selection.{collect_some}
use why_combinator.Platform.Sql.{Engine}
use why_combinator.Platform.Floats.{Floats}
use why_combinator.Platform.Redis.{Redis}
use why_combinator.Leaderboard.Cache.{
  CacheKey, CacheText, CacheRow, cache_key_has_eq, write_leaderboard_scoreboard_cache,
}
use why_combinator.Db.Enums.{accepted, submission_state_has_eq}
use why_combinator.Db.Models.{
  Uuid, Instant, Submission, ScoreEvent, PenaltyEvent, TieBreakMetadata, LeaderboardEntry,
}

-- `tie_break_metadata` holds three of the other values, and is built from them where it is used.
pub record RankedSubmission (Float : Type 0) : Type 0 where
  pub submission_id : Uuid
  pub final_score : Float
  pub accepted_at : Option Instant
  pub total_penalty : Float

abbrev pub tie_break_metadata : {Float : Type 0} → RankedSubmission Float → TieBreakMetadata Float
tie_break_metadata c = record {
  accepted_at = c.accepted_at;
  total_penalty = c.total_penalty;
  submission_id = c.submission_id;
}

-- `datetime.max`
abbrev pub datetime_max : Instant
datetime_max = 315_537_897_599_999_999

abbrev pub accepted_sort_key : {Float : Type 0} → RankedSubmission Float → Instant
accepted_sort_key c = elim c.accepted_at [ some t ↦ t | none ↦ datetime_max ]

-- `enumerate(ranked_candidates, start=rank)`
unfoldable pub number :
    {Float : Type 0} → Uuid → ℕ → List (RankedSubmission Float) → List (LeaderboardEntry Float)
number run_id rank [] = []
number run_id rank (c ∷ cs) =
    record {
      run_id = run_id;
      submission_id = c.submission_id;
      rank = rank;
      final_score = c.final_score;
      tie_break_metadata = tie_break_metadata c;
    }
    ∷ number run_id (suc rank) cs

abbrev pub scored_candidate :
    {Float : Type 0} → Submission → Option Float → Float → Option (RankedSubmission Float)
scored_candidate submission none penalty = none
scored_candidate submission (some score) penalty = some (record {
  submission_id = submission.id;
  final_score = score;
  accepted_at = submission.accepted_at;
  total_penalty = penalty;
})

-- The `where` of the query for submissions.
abbrev pub is_accepted_in : Uuid → Submission → Bool
is_accepted_in run_id submission = (submission.run_id == run_id) && (submission.state == accepted)

-- `sum_of` is what the database answers to `coalesce(sum(value), 0.0)` for these values.
module _ (floats : Floats) (db : Engine) (sum_of : List floats.Float → floats.Float) where
  open floats use {Float, less, round_to}

  unfoldable pub latest_final_score : List (ScoreEvent Float) → Uuid → Option Float
  latest_final_score events submission_id =
      let rows = db.select (ScoreEvent Float) (λ e. e.submission_id == submission_id) events in
      elim (head? (sort (λ a b. leb b.created_at a.created_at) rows)) [
        | none ↦ none
        | some row ↦ some row.final_score
      ]

  unfoldable pub total_penalty : List (PenaltyEvent Float) → Uuid → Float
  total_penalty events submission_id =
      round_to
        (sum_of (
          map (λ (e : PenaltyEvent Float). e.value)
            (db.select (PenaltyEvent Float) (λ e. e.submission_id == submission_id) events)))
        6

  -- What the loop makes of a submission; one without a score is passed over.
  unfoldable pub candidate :
      List (ScoreEvent Float)
      → List (PenaltyEvent Float)
      → Submission
      → Option (RankedSubmission Float)
  candidate scores penalties submission =
      scored_candidate submission (latest_final_score scores submission.id)
        (total_penalty penalties submission.id)

  -- The comparison of the keys `(-final_score, accepted_at, total_penalty, str(submission_id))`.
  abbrev pub ranks_before : RankedSubmission Float → RankedSubmission Float → Bool
  ranks_before =
      lexicographic (λ a b. less b.final_score a.final_score)
        (lexicographic (λ a b. ltb (accepted_sort_key a) (accepted_sort_key b))
          (lexicographic (λ a b. less a.total_penalty b.total_penalty)
            (λ a b. leb a.submission_id b.submission_id)))

  unfoldable pub ranked_candidates :
      List (ScoreEvent Float)
      → List (PenaltyEvent Float)
      → List Submission
      → Uuid
      → List (RankedSubmission Float)
  unfolding collect_some
  ranked_candidates scores penalties submissions run_id = sort ranks_before (
      collect_some (candidate scores penalties)
        (db.select Submission (is_accepted_in run_id) submissions))

-- The row that is cached for an entry.
pub cache_row : {Float : Type 0} → LeaderboardEntry Float → CacheRow Float
cache_row entry = record {
  rank = entry.rank;
  submission_id = entry.submission_id;
  final_score = entry.final_score;
  tie_break_metadata = entry.tie_break_metadata;
}

module _ (floats : Floats) (db : Engine) (sum_of : List floats.Float → floats.Float)
    (redis : Redis CacheKey (CacheText floats.Float) cache_key_has_eq) where
  open floats use {Float}

  -- The new entries, the table of entries with the old ones of the run replaced, and the cache. `ttl`
  -- and `reachable` are those of the cache.
  unfoldable pub materialize_leaderboard :
      (ttl : ℕ) (reachable : Bool)
      → List (ScoreEvent Float)
      → List (PenaltyEvent Float)
      → List Submission
      → List (LeaderboardEntry Float)
      → redis.State
      → Uuid
      → List (LeaderboardEntry Float) × List (LeaderboardEntry Float) × redis.State
  materialize_leaderboard ttl reachable scores penalties submissions table cache run_id =
      let entries =
        number run_id 1 (ranked_candidates floats db sum_of scores penalties submissions run_id) in
      (
        entries,
        filter (λ e. not (e.run_id == run_id)) table ++ entries,
        write_leaderboard_scoreboard_cache redis ttl reachable cache run_id (map cache_row entries),
      )
