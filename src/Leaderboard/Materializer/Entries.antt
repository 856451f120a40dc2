-- ===== src/Leaderboard/Materializer/Entries.antt =====
-- What the leaderboard of a run shows.
use why_combinator.Prelude.{
  ℕ, zero, suc, ==-refl, ◌≡◌, refl, ◌∙◌, ap, Bool, true, not, ◌&&◌, some, List, [], ◌∷◌, map, arith,
  if◌then◌else◌, ◌==◌, nat_has_eq, filter, any, All, inl, inr, count, count-cong, filter-append,
  filter-twice, filter-apart, append-nil, length, Option-cases,
}
use why_combinator.Prelude.Sort.{sort-IsSorted, sort-perm}
use why_combinator.Prelude.Orders.{IsLess}
use why_combinator.Prelude.Perms.{count-perm}
use why_combinator.Prelude.Selection.{collect_some, count-collect_some, passes}
use why_combinator.Platform.Sql.{Engine, count-select}
use why_combinator.Platform.Floats.{Floats}
use why_combinator.Platform.Redis.{Redis}
use why_combinator.Db.Models.{Uuid, Submission, ScoreEvent, PenaltyEvent, LeaderboardEntry}
use why_combinator.Leaderboard.Cache.{
  CacheKey, CacheText, entry, cache_key_has_eq, read_leaderboard_scoreboard_cache,
  scoreboard_roundtrip,
}
use why_combinator.Leaderboard.Materializer.{
  RankedSubmission, number, is_accepted_in, latest_final_score, candidate, ranks_before,
  ranked_candidates, cache_row, materialize_leaderboard,
}
use why_combinator.Leaderboard.Materializer.Order.{IsRanking, number-IsRanking}
use why_combinator.Leaderboard.Materializer.Shown.{IsShown, passes-latest, number-IsShown}
use why_combinator.Leaderboard.Materializer.Ranking.{before-IsOrder}

-- n, n + 1, …: `length` numbers.
abbrev pub count_up : ℕ → ℕ → List ℕ
count_up n zero = []
count_up n (suc length) = n ∷ count_up (suc n) length

module _ {Float : Type 0} where
  -- The accepted submission of the run has a score event, and its id passes the test.
  abbrev pub is_ranked : List (ScoreEvent Float) → Uuid → (Uuid → Bool) → Submission → Bool
  is_ranked scores run_id p s =
      is_accepted_in run_id s
      && (any (λ (x : ScoreEvent Float). x.submission_id == s.id) scores && p s.id)

  abbrev pub entry_rank : LeaderboardEntry Float → ℕ
  entry_rank e = e.rank

  rank-number :
      (run_id : Uuid) (n : ℕ) (cs : List (RankedSubmission Float))
      → map entry_rank (number run_id n cs) ≡ count_up n (length (number run_id n cs))
  unfolding number
  rank-number run_id n [] = refl
  rank-number run_id n (c ∷ cs) = ap (◌∷◌ n) (rank-number run_id (suc n) cs)

  all_of_run :
      (run_id : Uuid) (n : ℕ) (cs : List (RankedSubmission Float))
      → filter (λ e. e.run_id == run_id) (number run_id n cs) ≡ number run_id n cs
  unfolding number
  all_of_run run_id n [] = refl
  all_of_run run_id n (c ∷ cs) = ground (arith, all_of_run run_id (suc n) cs, ==-refl run_id)

  none_of_others :
      (run_id : Uuid) (n : ℕ) (cs : List (RankedSubmission Float))
      → filter (λ e. not (e.run_id == run_id)) (number run_id n cs) ≡ []
  unfolding number
  none_of_others run_id n [] = refl
  none_of_others run_id n (c ∷ cs) =
      ground (arith, none_of_others run_id (suc n) cs, ==-refl run_id)

module _ (floats : Floats) (db : Engine) (sum_of : List floats.Float → floats.Float)
    (redis : Redis CacheKey (CacheText floats.Float) cache_key_has_eq) (ttl : ℕ)
    (reachable : Bool) where
  open floats use {Float}

  abbrev materialize :
      List (ScoreEvent Float)
      → List (PenaltyEvent Float)
      → List Submission
      → List (LeaderboardEntry Float)
      → redis.State
      → Uuid
      → List (LeaderboardEntry Float) × List (LeaderboardEntry Float) × redis.State
  materialize = materialize_leaderboard floats db sum_of redis ttl reachable

  passes-candidate :
      (scores : List (ScoreEvent Float)) (penalties : List (PenaltyEvent Float)) (p : Uuid → Bool)
      (s : Submission)
      → passes
          (λ (c : RankedSubmission Float). p c.submission_id)
          (candidate floats db sum_of scores penalties s)
        ≡ passes (λ _. p s.id) (latest_final_score floats db sum_of scores s.id)
  unfolding candidate
  passes-candidate scores penalties p s =
      elim (Option-cases (latest_final_score floats db sum_of scores s.id)) [
        | inl e ↦ rw (e, candidate) refl
        | inr (score, e) ↦ rw (e, candidate) refl
      ]

  ranked_count :
      (scores : List (ScoreEvent Float)) (penalties : List (PenaltyEvent Float))
      (submissions : List Submission) (run_id : Uuid) (p : Uuid → Bool)
      → count
          (λ (c : RankedSubmission Float). p c.submission_id)
          (ranked_candidates floats db sum_of scores penalties submissions run_id)
        ≡ count (is_ranked scores run_id p) submissions
  unfolding ranked_candidates
  ranked_count scores penalties submissions run_id p =
      let test = λ (c : RankedSubmission Float). p c.submission_id in
      let f = candidate floats db sum_of scores penalties in
      let rows = db.select Submission (is_accepted_in run_id) submissions in
      count-perm test (sort-perm (ranks_before floats db sum_of) (collect_some f rows))
      ∙ count-collect_some test f rows
      ∙ count-select db (λ s. passes test (f s)) (is_accepted_in run_id) submissions
      ∙ count-cong _ (is_ranked scores run_id p) submissions (λ s.
        ap (λ b. is_accepted_in run_id s && b)
          (passes-candidate scores penalties p s
            ∙ passes-latest floats sum_of db scores s.id (p s.id)))

  count-number :
      (p : Uuid → Bool) (run_id : Uuid) (n : ℕ) (cs : List (RankedSubmission Float))
      → count (λ (e : LeaderboardEntry Float). p e.submission_id) (number run_id n cs)
        ≡ count (λ (c : RankedSubmission Float). p c.submission_id) cs
  unfolding number
  count-number p run_id n [] = refl
  count-number p run_id n (c ∷ cs) = omega (arith, count-number p run_id (suc n) cs)

  -- The entries have the ranks 1, 2, … in a row. Every entry comes before all later ones by the higher score,
  -- then the earlier acceptance (none counts as the end of time), then the lower penalty, then the smaller
  -- id. Every entry shows an accepted submission of the run: its acceptance, the final score of an event of
  -- the submission than which none of its events is later, and the rounded sum of its penalties in some
  -- order. And for every test on ids as many entries pass as there are accepted submissions of the run that
  -- have a score event and pass. The floats are compared as numbers, without NaN.
  pub materialize_ranks :
      IsLess floats.less
      → (scores : List (ScoreEvent Float)) (penalties : List (PenaltyEvent Float))
        (submissions : List Submission) (table : List (LeaderboardEntry Float))
        (cache : redis.State) (run_id : Uuid) (p : Uuid → Bool)
      → let entries = (materialize scores penalties submissions table cache run_id).0 in
        (map entry_rank entries ≡ count_up 1 (length entries))
        × IsRanking floats entries
        × All (IsShown floats sum_of scores penalties submissions run_id) entries
        × (count (λ (e : LeaderboardEntry Float). p e.submission_id) entries
            ≡ count (is_ranked scores run_id p) submissions)
  unfolding materialize_leaderboard ranked_candidates
  materialize_ranks linear scores penalties submissions table cache run_id p =
      let cs = ranked_candidates floats db sum_of scores penalties submissions run_id in
      let rows = db.select Submission (is_accepted_in run_id) submissions in
      (
        rank-number run_id 1 cs,
        number-IsRanking floats sum_of db run_id 1 cs (
            sort-IsSorted (before-IsOrder floats linear sum_of db)
              (collect_some (candidate floats db sum_of scores penalties) rows)),
        number-IsShown floats sum_of db scores penalties submissions run_id 1,
        count-number p run_id 1 cs ∙ ranked_count scores penalties submissions run_id p,
      )

  -- Materializing replaces the leaderboard of the run and no other: the table then holds exactly the new
  -- entries for the run, and the entries of other runs as before. With a cache that can be reached the
  -- scoreboard is read back from it with the same rows.
  pub materialize_replaces :
      (scores : List (ScoreEvent Float)) (penalties : List (PenaltyEvent Float))
      (submissions : List Submission) (table : List (LeaderboardEntry Float)) (cache : redis.State)
      (run_id : Uuid)
      → let result = materialize scores penalties submissions table cache run_id in
        (filter (λ e. e.run_id == run_id) result.1 ≡ result.0)
        × (filter (λ e. not (e.run_id == run_id)) result.1
            ≡ filter (λ e. not (e.run_id == run_id)) table)
        × (reachable ≡ true
            → read_leaderboard_scoreboard_cache redis true result.2 run_id
              ≡ some (map entry (map cache_row result.0)))
  unfolding materialize_leaderboard
  materialize_replaces scores penalties submissions table cache run_id =
      let cs = ranked_candidates floats db sum_of scores penalties submissions run_id in
      let mine = λ (e : LeaderboardEntry Float). e.run_id == run_id in
      let others = λ (e : LeaderboardEntry Float). not (e.run_id == run_id) in
      (
        filter-append mine (filter others table) (number run_id 1 cs)
            ∙ rw (filter-apart mine table) (all_of_run run_id 1 cs),
        filter-append others (filter others table) (number run_id 1 cs)
            ∙ rw (filter-twice others table, none_of_others run_id 1 cs) (append-nil _),
        λ up.
            let rows = map cache_row (number run_id 1 cs) in
            rw up (
              (scoreboard_roundtrip redis ttl cache run_id run_id "" rows).0
              ∙ ap
                  (λ b.
                    if b
                    then some (map entry rows)
                    else read_leaderboard_scoreboard_cache redis true cache run_id)
                  (==-refl run_id)),
      )
