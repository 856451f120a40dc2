-- ===== src/Scoring/Replay.antt =====
-- app/scoring/replay.py
pub mod Faithful
pub mod Reproduction
use why_combinator.Prelude.{
  ℕ, suc, ◌-◌, String, Bool, true, false, ◌&&◌, Option, none, some, List, [], ◌∷◌, map, ltb, leb,
  if◌then◌else◌, ◌==◌, nat_has_eq, text_has_eq, any, head?, Outcome, ok, raise, ◌>>=◌,
}
use why_combinator.Prelude.Integers.{ℤ, sub_ℕ}
use why_combinator.Prelude.Sort.{sort}
use why_combinator.Prelude.Orders.{lexicographic}
use why_combinator.Platform.Sql.{Engine}
use why_combinator.Platform.Floats.{Floats}
use why_combinator.Platform.Json.{Json, Fields, get, fields_of, numeric, text}
use why_combinator.Db.Models.{Uuid, Instant, Run, Submission, ScoreEvent, FrozenSnapshot}
use why_combinator.Scoring.FinalScore.{
  ComponentName, quality_name, novelty_name, feasibility_name, criteria_name,
  similarity_penalty_name, too_safe_penalty_name, non_production_penalty_name, PerComponent,
  component, key_of, each_component, FloorCap, ScoreComponentBounds, BoundsError,
  compose_final_score, FinalScoreBreakdown,
}
use why_combinator.Scoring.FrozenScores.{
  ReplayError, floor_key, cap_key, lift_bounds, to_float, default_weights, coerce_component,
  score_components_from_payload, active_weight, active_weights_snapshot, bound, floor_cap,
  score_component_bounds_from_policies, run_not_found, snapshot_not_found, events_not_found,
  missing_components, not_numeric, malformed_bounds, weight_not_a_float, invalid_bounds,
}

pub record ReplaySubmissionResult (Float : Type 0) : Type 0 where
  pub submission_id : Uuid
  pub original_final_score : Float
  pub replay_final_score : Float
  pub components : PerComponent Float

pub record ReplayScoringResult (Float : Type 0) : Type 0 where
  pub run_id : Uuid
  pub checkpoint_id : String
  pub captured_at : Instant
  pub active_weights : PerComponent Float
  pub active_policies : Fields Float
  pub submissions : List (ReplaySubmissionResult Float)

pub data Direction : Type 0 where
  up down unchanged : Direction

pub record ReplayScoreDelta (Float : Type 0) : Type 0 where
  pub submission_id : Uuid
  pub original_final_score : Float
  pub replay_final_score : Float
  pub delta : Float
  pub absolute_delta : Float
  pub original_rank : ℕ
  pub replay_rank : ℕ
  pub rank_shift : ℤ
  pub direction : Direction

-- `getenv` and `parse` are those of Scoring.FinalScore.
module _ (floats : Floats) (getenv : String → Option String)
    (parse : String → Option floats.Float) where
  open floats use {Float, of_int, decimal, less, sub, round_to}

  -- What the loop makes of a score event.
  unfoldable pub replay_event :
      PerComponent Float
      → Option (ScoreComponentBounds Float)
      → ScoreEvent Float
      → Outcome ReplayError (ReplaySubmissionResult Float)
  replay_event weights bounds event =
      score_components_from_payload floats getenv parse event.payload event.submission_id
      >>= λ components.
          lift_bounds (compose_final_score floats getenv parse components weights bounds) >>= λ b.
          ok (record {
            submission_id = event.submission_id;
            original_final_score = event.final_score;
            replay_final_score = b.final_score;
            components = b.components;
          })

  -- `for score_event in score_events`
  unfoldable pub replay_events :
      PerComponent Float
      → Option (ScoreComponentBounds Float)
      → List (ScoreEvent Float)
      → Outcome ReplayError (List (ReplaySubmissionResult Float))
  replay_events weights bounds [] = ok []
  replay_events weights bounds (event ∷ events) = replay_event weights bounds event >>= λ row.
      replay_events weights bounds events >>= λ rows. ok (row ∷ rows)

  abbrev pub of_snapshot : Uuid → Option String → FrozenSnapshot Float → Bool
  of_snapshot run_id none s = s.snapshot.run_id == run_id
  of_snapshot run_id (some checkpoint_id) s =
      (s.snapshot.run_id == run_id) && (s.snapshot.checkpoint_id == checkpoint_id)

  module _ (db : Engine) where
    unfoldable pub resolve_checkpoint_snapshot :
        List (FrozenSnapshot Float)
        → Uuid
        → Option String
        → Outcome ReplayError (FrozenSnapshot Float)
    resolve_checkpoint_snapshot snapshots run_id checkpoint_id =
        let rows = db.select (FrozenSnapshot Float) (of_snapshot run_id checkpoint_id) snapshots in
        elim (head? (sort (λ a b. leb b.snapshot.captured_at a.snapshot.captured_at) rows)) [
          | none ↦ raise (snapshot_not_found checkpoint_id)
          | some snapshot ↦ ok snapshot
        ]

    -- The `where` of the query for events, joined to the submission that an event belongs to.
    abbrev pub is_scored_in :
        List Submission → Uuid → (checkpoint_id : String) → ScoreEvent Float → Bool
    is_scored_in submissions run_id checkpoint_id e =
        (e.checkpoint_id == checkpoint_id)
        && any (λ (s : Submission). (s.id == e.submission_id) && (s.run_id == run_id)) submissions

    unfoldable pub scored_events :
        List (ScoreEvent Float)
        → List Submission
        → Uuid
        → (checkpoint_id : String) → List (ScoreEvent Float)
    scored_events events submissions run_id checkpoint_id =
        sort
          (lexicographic (λ a b. less b.final_score a.final_score)
            (λ a b. leb a.submission_id b.submission_id))
          (db.select (ScoreEvent Float) (is_scored_in submissions run_id checkpoint_id) events)

    -- The configuration of the run, which the result passes on, is left out.
    unfoldable pub replay_scoring_from_frozen_snapshot :
        List Run
        → List Submission
        → List (ScoreEvent Float)
        → List (FrozenSnapshot Float)
        → Uuid
        → Option String
        → Outcome ReplayError (ReplayScoringResult Float)
    replay_scoring_from_frozen_snapshot runs submissions events snapshots run_id checkpoint_id =
        if any (λ (r : Run). r.id == run_id) runs
        then (resolve_checkpoint_snapshot snapshots run_id checkpoint_id >>= λ frozen.
            active_weights_snapshot floats getenv parse frozen.active_weights >>= λ weights.
            score_component_bounds_from_policies floats getenv parse frozen.active_policies
            >>= λ bounds.
                elim (scored_events events submissions run_id frozen.snapshot.checkpoint_id) [
                  | [] ↦ raise (events_not_found frozen.snapshot.checkpoint_id)
                  | row ∷ rows ↦ replay_events weights bounds (row ∷ rows) >>= λ results.
                      ok (record {
                        run_id = run_id;
                        checkpoint_id = frozen.snapshot.checkpoint_id;
                        captured_at = frozen.snapshot.captured_at;
                        active_weights = weights;
                        active_policies = frozen.active_policies;
                        submissions = results;
                      })
                ])
        else raise run_not_found

  -- The rank of a submission in `{row.submission_id: index + 1 for …}`, where a later row overwrites an
  -- earlier one; every submission that is asked for has one.
  unfoldable pub rank_in : List (ReplaySubmissionResult Float) → ℕ → Uuid → ℕ → ℕ
  rank_in [] index i found = found
  rank_in (row ∷ rows) index i found =
      rank_in rows (suc index) i (if row.submission_id == i then suc index else found)

  abbrev pub by_score :
      (ReplaySubmissionResult Float → Float)
      → ReplaySubmissionResult Float
      → ReplaySubmissionResult Float
      → Bool
  by_score score =
      lexicographic (λ a b. less (score b) (score a)) (λ a b. leb a.submission_id b.submission_id)

  abbrev pub original_score : ReplaySubmissionResult Float → Float
  original_score row = row.original_final_score

  abbrev pub replay_score : ReplaySubmissionResult Float → Float
  replay_score row = row.replay_final_score

  -- `abs(x)`
  abbrev pub absolute : Float → Float
  absolute x = if less x (of_int 0) then sub (of_int 0) x else x

  unfoldable pub score_delta :
      (original_sorted replay_sorted : List (ReplaySubmissionResult Float))
      → ReplaySubmissionResult Float
      → ReplayScoreDelta Float
  score_delta original_sorted replay_sorted row =
      let delta = round_to (sub row.replay_final_score row.original_final_score) 6 in
      let original_rank = rank_in original_sorted 0 row.submission_id 0 in
      let replay_rank = rank_in replay_sorted 0 row.submission_id 0 in
      record {
        submission_id = row.submission_id;
        original_final_score = row.original_final_score;
        replay_final_score = row.replay_final_score;
        delta = delta;
        absolute_delta = absolute delta;
        original_rank = original_rank;
        replay_rank = replay_rank;
        rank_shift = sub_ℕ replay_rank original_rank;
        direction =
            if less (of_int 0) delta then up else if less delta (of_int 0) then down else unchanged;
      }

  unfoldable pub generate_replay_score_deltas :
      ReplayScoringResult Float → List (ReplayScoreDelta Float)
  generate_replay_score_deltas replay =
      let original_sorted = sort (by_score original_score) replay.submissions in
      let replay_sorted = sort (by_score replay_score) replay.submissions in
      sort
        (lexicographic (λ a b. less b.absolute_delta a.absolute_delta)
          (λ a b. leb a.submission_id b.submission_id))
        (map (score_delta original_sorted replay_sorted) replay.submissions)
