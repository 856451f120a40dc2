-- ===== src/Leaderboard/Materializer/Ranking.antt =====
-- The leaderboard of a run does not depend on the order in which the database returns its rows.
use mathlib.Core.List.{Permᴰ}
use mathlib.Core.List.Permᴰ
use mathlib.Core.Option.{some-injective}
use why_combinator.Prelude.{
  ℕ, ◌≡◌, refl, sym, ◌∙◌, ap, Bool, true, some, List, ltb, arith, nat_has_eq,
}
use why_combinator.Prelude.Sort.{sort, IsOrder}
use why_combinator.Prelude.Orders.{
  IsLess, lexicographic-IsOrder, IsLess-on, IsLess-flip, ltb-IsLess, leb-on,
}
use why_combinator.Prelude.Unique.{sort_unique, Separates}
use why_combinator.Prelude.Selection.{
  collect_some, collect_some-perm, collect_some-cong, Memᴰ-collect_some,
}
use why_combinator.Platform.Sql.{Engine}
use why_combinator.Platform.Floats.{Floats}
use why_combinator.Platform.Redis.{Redis}
use why_combinator.Db.Tables.{IsKeyed, Memᴰ-select}
use why_combinator.Db.Models.{Uuid, Submission, ScoreEvent, PenaltyEvent, LeaderboardEntry}
use why_combinator.Leaderboard.Cache.{CacheKey, CacheText, cache_key_has_eq}
use why_combinator.Leaderboard.Materializer.{
  RankedSubmission, accepted_sort_key, is_accepted_in, latest_final_score, total_penalty, candidate,
  ranks_before, ranked_candidates, materialize_leaderboard,
}

abbrev pub submission_key : Submission → Uuid
submission_key s = s.id

module _ (floats : Floats) (linear : IsLess floats.less)
    (sum_of : List floats.Float → floats.Float) where
  open floats use {Float}

  abbrev pub before : (db : Engine) → RankedSubmission Float → RankedSubmission Float → Bool
  before db = ranks_before floats db sum_of

  pub before-IsOrder : (db : Engine) → IsOrder (before db)
  before-IsOrder db =
      lexicographic-IsOrder _ _
        (IsLess-flip _
          (IsLess-on floats.less (λ (c : RankedSubmission Float). c.final_score) linear))
        (lexicographic-IsOrder _ _ (IsLess-on ltb accepted_sort_key ltb-IsLess) (
          lexicographic-IsOrder _ _
            (IsLess-on floats.less (λ (c : RankedSubmission Float). c.total_penalty) linear)
            (leb-on (λ (c : RankedSubmission Float). c.submission_id))))

  -- Two candidates that each may come before the other are of one submission.
  tied :
      (db : Engine) (a b : RankedSubmission Float)
      → before db a b ≡ true
      → before db b a ≡ true
      → a.submission_id ≡ b.submission_id
  tied db a b h k = ground (
    arith,
    linear.asym a.final_score b.final_score,
    linear.asym b.final_score a.final_score,
    linear.asym a.total_penalty b.total_penalty,
    linear.asym b.total_penalty a.total_penalty,
  )

  candidate_id :
      (db : Engine) (scores : List (ScoreEvent Float)) (penalties : List (PenaltyEvent Float))
      (s : Submission) (c : RankedSubmission Float)
      → candidate floats db sum_of scores penalties s ≡ some c
      → c.submission_id ≡ s.id
  unfolding candidate
  candidate_id db scores penalties s c e = ground arith

  abbrev candidates :
      Engine
      → List (ScoreEvent Float)
      → List (PenaltyEvent Float)
      → List Submission
      → Uuid
      → List (RankedSubmission Float)
  candidates db scores penalties submissions run_id =
      collect_some (candidate floats db sum_of scores penalties)
        (db.select Submission (is_accepted_in run_id) submissions)

  -- With the id as the key of the submissions, no two candidates are tied.
  candidates-Separates :
      (db : Engine) (scores : List (ScoreEvent Float)) (penalties : List (PenaltyEvent Float))
      (submissions : List Submission) (run_id : Uuid)
      → IsKeyed submission_key submissions
      → Separates (before-IsOrder db) (candidates db scores penalties submissions run_id)
  candidates-Separates db scores penalties submissions run_id keyed x y m n h k =
      let rows = db.select Submission (is_accepted_in run_id) submissions in
      let f = candidate floats db sum_of scores penalties in
      let (s, i, e) = Memᴰ-collect_some f rows m in
      let (t, j, e') = Memᴰ-collect_some f rows n in
      let same_id : s.id ≡ t.id =
        sym (candidate_id db scores penalties s x e)
        ∙ tied db x y h k
        ∙ candidate_id db scores penalties t y e' in
      let same : s ≡ t =
        keyed s t (Memᴰ-select db (is_accepted_in run_id) submissions i).0
          (Memᴰ-select db (is_accepted_in run_id) submissions j).0 same_id in
      some-injective x y (sym e ∙ ap f same ∙ e')

  candidate_same :
      (db db' : Engine) (scores : List (ScoreEvent Float)) (penalties : List (PenaltyEvent Float))
      (s : Submission)
      → latest_final_score floats db sum_of scores s.id
        ≡ latest_final_score floats db' sum_of scores s.id
      → total_penalty floats db sum_of penalties s.id
        ≡ total_penalty floats db' sum_of penalties s.id
      → candidate floats db sum_of scores penalties s
        ≡ candidate floats db' sum_of scores penalties s
  unfolding candidate
  candidate_same db db' scores penalties s e e' = cc (e, e')

  ranked_unique :
      (db db' : Engine) (scores : List (ScoreEvent Float)) (penalties : List (PenaltyEvent Float))
      (submissions : List Submission) (run_id : Uuid)
      → ((id : Uuid)
          → latest_final_score floats db sum_of scores id
            ≡ latest_final_score floats db' sum_of scores id)
      → ((id : Uuid)
          → total_penalty floats db sum_of penalties id
            ≡ total_penalty floats db' sum_of penalties id)
      → IsKeyed submission_key submissions
      → ranked_candidates floats db sum_of scores penalties submissions run_id
        ≡ ranked_candidates floats db' sum_of scores penalties submissions run_id
  unfolding ranked_candidates
  ranked_unique db db' scores penalties submissions run_id same_score same_penalty keyed =
      let p = is_accepted_in run_id in
      let reordered : Permᴰ (db.select Submission p submissions)
          (db'.select Submission p submissions) =
        Permᴰ.trans (db.select-perm Submission p submissions)
          (Permᴰ.symm (db'.select-perm Submission p submissions)) in
      let f = candidate floats db sum_of scores penalties in
      let f' = candidate floats db' sum_of scores penalties in
      let same : (s : Submission) → f s ≡ f' s =
        λ s. candidate_same db db' scores penalties s (same_score s.id) (same_penalty s.id) in
      sort_unique (before-IsOrder db) (collect_some-perm f reordered)
        (candidates-Separates db scores penalties submissions run_id keyed)
      ∙ ap (sort (before db)) (collect_some-cong f f' (db'.select Submission p submissions) same)

  -- The leaderboard that a run gets does not depend on the order in which the database returns the
  -- submissions: where the floats are compared as numbers, without NaN, the id is the key of the
  -- submissions, and two engines agree on the latest score and on the total penalty of every submission,
  -- they lead to the same entries, the same table and the same cache.
  pub materialize_unique :
      (db db' : Engine) (redis : Redis CacheKey (CacheText Float) cache_key_has_eq) (ttl : ℕ)
      (reachable : Bool) (scores : List (ScoreEvent Float)) (penalties : List (PenaltyEvent Float))
      (submissions : List Submission) (table : List (LeaderboardEntry Float)) (cache : redis.State)
      (run_id : Uuid)
      → ((id : Uuid)
          → latest_final_score floats db sum_of scores id
            ≡ latest_final_score floats db' sum_of scores id)
      → ((id : Uuid)
          → total_penalty floats db sum_of penalties id
            ≡ total_penalty floats db' sum_of penalties id)
      → IsKeyed submission_key submissions
      → materialize_leaderboard floats db sum_of redis ttl reachable scores penalties submissions
          table cache run_id
        ≡ materialize_leaderboard floats db' sum_of redis ttl reachable scores penalties submissions
            table cache run_id
  unfolding materialize_leaderboard
  materialize_unique db db' redis ttl reachable scores penalties submissions table cache run_id h k
        keyed =
      rw (ranked_unique db db' scores penalties submissions run_id h k keyed) refl
