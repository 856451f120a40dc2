-- ===== src/Scoring/Replay/Reproduction.antt =====
-- What app/scoring/replay.py says of a checkpoint whose scores were not tampered with
use mathlib.Core.List.{Memᴰ}
use why_combinator.Prelude.{
  ◌≡◌, refl, ◌∙◌, ap, subst, inl, inr, String, true, false, Option, some, List, [], ◌∷◌, map, arith,
  ◌==◌, nat_has_eq, any, any-cong, All, ok, List-cases,
}
use why_combinator.Prelude.Integers.{pos}
use why_combinator.Prelude.Perms.{any-perm}
use why_combinator.Prelude.Sort.{sort, sort-perm, sort-All, sort-cong}
use why_combinator.Prelude.Members.{All-of, Memᴰ-perm}
use why_combinator.Platform.Sql.{Engine, any-select}
use why_combinator.Platform.Floats.{Floats}
use why_combinator.Platform.Json.{get, object}
use why_combinator.Db.Models.{Uuid, Run, Submission, ScoreEvent, FrozenSnapshot}
use why_combinator.Db.Tables.{Memᴰ-select}
use why_combinator.Scoring.FinalScore.{PerComponent, ScoreComponentBounds, asdict, asdict_bounds}
use why_combinator.Scoring.Replay.{
  ReplaySubmissionResult, ReplayScoringResult, ReplayScoreDelta, unchanged,
  resolve_checkpoint_snapshot, is_scored_in, scored_events, replay_scoring_from_frozen_snapshot,
  by_score, original_score, replay_score, score_delta, replay_events, generate_replay_score_deltas,
}
use why_combinator.Scoring.FrozenScores.{active_weights_snapshot}
use why_combinator.Scoring.Replay.Faithful.{
  IsRounding, IsScored, IsReproduced, replay_events_reproduce, weights_roundtrip, bounds_roundtrip,
}

module _ (floats : Floats) (getenv : String → Option String) (parse : String → Option floats.Float)
    (rounding : IsRounding floats) where
  open floats use {Float, of_int, less}

  abbrev pub IsUnchanged : ReplayScoreDelta Float → Type 0
  IsUnchanged d = (d.direction ≡ unchanged) × (d.rank_shift ≡ pos 0)

  score_delta-IsUnchanged :
      (ranked : List (ReplaySubmissionResult Float)) (row : ReplaySubmissionResult Float)
      → IsReproduced floats getenv parse rounding row
      → IsUnchanged (score_delta floats getenv parse ranked ranked row)
  unfolding score_delta
  score_delta-IsUnchanged ranked row same =
      rw (same, rounding.zero row.original_final_score)
        (let flat = rounding.asym (of_int 0) (of_int 0) in (ground (arith, flat), ground arith))

  All-deltas :
      (ranked rows : List (ReplaySubmissionResult Float))
      → All (IsReproduced floats getenv parse rounding) rows
      → All IsUnchanged (map (score_delta floats getenv parse ranked ranked) rows)
  All-deltas ranked [] all = tt
  All-deltas ranked (row ∷ rows) all =
      (score_delta-IsUnchanged ranked row all.0, All-deltas ranked rows all.1)

  deltas-IsUnchanged :
      (replay : ReplayScoringResult Float)
      → All (IsReproduced floats getenv parse rounding) replay.submissions
      → All IsUnchanged (generate_replay_score_deltas floats getenv parse replay)
  unfolding generate_replay_score_deltas
  deltas-IsUnchanged replay all =
      let same_order : sort (by_score floats getenv parse (replay_score floats getenv parse))
            replay.submissions
          ≡ sort (by_score floats getenv parse (original_score floats getenv parse))
              replay.submissions =
        sort-cong (IsReproduced floats getenv parse rounding) _ _ (λ x y p q. rw (p, q) refl)
          replay.submissions all in
      sort-All IsUnchanged _ _ (
        rw same_order (
          All-deltas
            (sort (by_score floats getenv parse (original_score floats getenv parse))
              replay.submissions)
            replay.submissions all))

  module _ (db : Engine) where
    scored_events-cons :
        (submissions : List Submission) (events : List (ScoreEvent Float)) (run_id : Uuid)
        (checkpoint_id : String)
        → any (is_scored_in floats getenv parse db submissions run_id checkpoint_id) events ≡ true
        → (e : ScoreEvent Float) × (es : List (ScoreEvent Float)) × (scored_events floats getenv
              parse db events submissions run_id checkpoint_id
            ≡ e ∷ es)
    unfolding scored_events
    scored_events-cons submissions events run_id checkpoint_id h =
        let test = is_scored_in floats getenv parse db submissions run_id checkpoint_id in
        let found : any test
              (scored_events floats getenv parse db events submissions run_id checkpoint_id)
            ≡ true =
          any-perm test (sort-perm _ _)
          ∙ any-select db test test events
          ∙ any-cong _ test events (λ e. ground arith)
          ∙ h in
        elim (List-cases
          (scored_events floats getenv parse db events submissions run_id checkpoint_id)) [
            | inl e ↦ let clash : false ≡ true = rw e at found in cc
            | inr rest ↦ rest
          ]

    scored_events-All :
        (weights : PerComponent Float) (bounds : ScoreComponentBounds Float)
        (submissions : List Submission) (events : List (ScoreEvent Float)) (run_id : Uuid)
        (checkpoint_id : String)
        → ((e : ScoreEvent Float)
            → Memᴰ e events
            → is_scored_in floats getenv parse db submissions run_id checkpoint_id e ≡ true
            → IsScored floats getenv parse rounding weights bounds e)
        → All
            (IsScored floats getenv parse rounding weights bounds)
            (scored_events floats getenv parse db events submissions run_id checkpoint_id)
    unfolding scored_events
    scored_events-All weights bounds submissions events run_id checkpoint_id h = All-of _ _ λ e m.
        let (stored, fits) =
          Memᴰ-select db (is_scored_in floats getenv parse db submissions run_id checkpoint_id)
            events (Memᴰ-perm (sort-perm _ _) m) in
        h e stored fits

    -- Where floats behave as IsRounding says: the replay of a run that exists, from a snapshot that holds the
    -- weights and the bounds, with at least one score event of the snapshot's checkpoint in the run, all of
    -- them compositions under these weights and bounds, succeeds. It has one row for each such event, in
    -- their order, with the final score that was recorded; and the report on it says of every submission
    -- that score and rank are unchanged.
    pub replay_reproduces :
        (runs : List Run) (submissions : List Submission) (events : List (ScoreEvent Float))
        (snapshots : List (FrozenSnapshot Float)) (run_id : Uuid) (checkpoint_id : Option String)
        (frozen : FrozenSnapshot Float) (weights : PerComponent Float)
        (bounds : ScoreComponentBounds Float)
        → any (λ (r : Run). r.id == run_id) runs ≡ true
        → resolve_checkpoint_snapshot floats getenv parse db snapshots run_id checkpoint_id
          ≡ ok frozen
        → frozen.active_weights ≡ asdict weights
        → get "score_component_bounds" frozen.active_policies ≡ some (object (asdict_bounds bounds))
        → any
            (is_scored_in floats getenv parse db submissions run_id frozen.snapshot.checkpoint_id)
            events
          ≡ true
        → ((e : ScoreEvent Float)
            → Memᴰ e events
            → is_scored_in floats getenv parse db submissions run_id frozen.snapshot.checkpoint_id e
              ≡ true
            → IsScored floats getenv parse rounding weights bounds e)
        → (r : ReplayScoringResult Float) × (replay_scoring_from_frozen_snapshot floats getenv parse
              db runs submissions events snapshots run_id checkpoint_id
            ≡ ok r)
          × (map (λ (row : ReplaySubmissionResult Float). row.submission_id) r.submissions
              ≡ map
                  (λ (e : ScoreEvent Float). e.submission_id)
                  (scored_events floats getenv parse db events submissions run_id
                    frozen.snapshot.checkpoint_id))
          × All (IsReproduced floats getenv parse rounding) r.submissions
          × All IsUnchanged (generate_replay_score_deltas floats getenv parse r)
    unfolding replay_scoring_from_frozen_snapshot
    replay_reproduces runs submissions events snapshots run_id checkpoint_id frozen weights bounds
          here found w p some_event scored =
        let (e, es, split) =
          scored_events-cons submissions events run_id frozen.snapshot.checkpoint_id some_event in
        let all =
          scored_events-All weights bounds submissions events run_id frozen.snapshot.checkpoint_id
            scored in
        let (rows, made, same, kept) =
          replay_events_reproduce floats getenv parse rounding weights bounds _ all in
        let weights_ok : active_weights_snapshot floats getenv parse frozen.active_weights
            ≡ ok weights =
          ap (active_weights_snapshot floats getenv parse) w
          ∙ weights_roundtrip floats getenv parse rounding weights in
        let bounds_ok =
          bounds_roundtrip floats getenv parse rounding frozen.active_policies bounds p in
        let made_split =
          subst (λ l. replay_events floats getenv parse weights (some bounds) l ≡ ok rows) split
            made in
        let result : ReplayScoringResult Float = record {
          run_id = run_id;
          checkpoint_id = frozen.snapshot.checkpoint_id;
          captured_at = frozen.snapshot.captured_at;
          active_weights = weights;
          active_policies = frozen.active_policies;
          submissions = rows;
        } in
        (
          result,
          rw (here, found, weights_ok, bounds_ok, split, made_split) refl,
          same,
          kept,
          deltas-IsUnchanged result kept,
        )
