-- ===== src/Leaderboard/Examples.antt =====
-- A leaderboard, and the theorems at concrete inputs.
use mathlib.Core.List.{Permᴰ}
use mathlib.Core.List.Permᴰ
use why_combinator.Prelude.{
  ℕ, ◌+◌, ◌≡◌, refl, true, false, not, none, some, List, [], ◌∷◌, map, ◌==◌, nat_has_eq, filter,
  count, length, All, ◌++◌, ==→eq, subst, Bool-cases, inl, inr,
}
use why_combinator.Prelude.Sort.{sort}
use why_combinator.Prelude.Orders.{ltb-IsLess}
use why_combinator.Prelude.Selection.{collect_some}
use why_combinator.Platform.Sql.{Engine, in_order}
use why_combinator.Platform.Redis.{Redis, in_memory}
use why_combinator.Platform.Floats.{thousandths}
use why_combinator.Platform.Json.{end}
use why_combinator.Db.Tables.{IsKeyed, IsKeyed-nil, IsKeyed-cons}
use why_combinator.Db.Enums.{accepted, rejected}
use why_combinator.Db.Models.{Uuid, Submission, ScoreEvent, PenaltyEvent, LeaderboardEntry}
use why_combinator.Leaderboard.Cache.{
  CacheKey, CacheText, entry, cache_key_has_eq, read_leaderboard_scoreboard_cache,
}
use why_combinator.Leaderboard.Materializer.{
  cache_row, materialize_leaderboard, is_accepted_in, ranked_candidates, candidate,
  latest_final_score, total_penalty, number,
}
use why_combinator.Leaderboard.Materializer.Ranking.{submission_key, materialize_unique}
use why_combinator.Leaderboard.Materializer.Order.{IsRanking}
use why_combinator.Leaderboard.Materializer.Shown.{IsShown}
use why_combinator.Leaderboard.Materializer.Entries.{
  entry_rank, count_up, is_ranked, materialize_ranks, materialize_replaces,
}

abbrev cache : Redis CacheKey (CacheText ℕ) cache_key_has_eq
cache = in_memory CacheKey (CacheText ℕ) cache_key_has_eq

abbrev cold : cache.State
cold k = none

abbrev submission : Uuid → Submission
submission i = record {
  id = i;
  run_id = 5;
  agent_id = i;
  state = accepted;
  value_hypothesis = "";
  summary = "";
  accepted_at = some 10;
  human_testing_required = false;
}

abbrev submissions : List Submission
submissions =
    submission 1 ∷ submission 2 ∷ submission 3 ∷ record (submission 4) { state = rejected } ∷ []

abbrev score : Uuid → ℕ → ℕ → ScoreEvent ℕ
score i s t = record {
  id = i;
  submission_id = i;
  checkpoint_id = "c";
  quality_score = s;
  novelty_score = s;
  feasibility_score = s;
  criteria_score = s;
  final_score = s;
  payload = end;
  payload_checksum = "";
  created_at = t;
}

abbrev scores : List (ScoreEvent ℕ)
scores = score 1 700 1 ∷ score 2 900 1 ∷ score 2 700 2 ∷ score 3 800 1 ∷ score 4 950 1 ∷ []

abbrev penalty : ℕ → PenaltyEvent ℕ
penalty value = record {
  submission_id = 1;
  checkpoint_id = "c";
  source = "system";
  penalty_type = "late";
  value = value;
  explanation = "";
}

abbrev penalties : List (PenaltyEvent ℕ)
penalties = penalty 20 ∷ penalty 30 ∷ []

abbrev sum_of : List ℕ → ℕ
sum_of [] = 0
sum_of (x ∷ xs) = x + sum_of xs

abbrev materialize :
    List (LeaderboardEntry ℕ) → List (LeaderboardEntry ℕ) × List (LeaderboardEntry ℕ) × cache.State
materialize table =
    materialize_leaderboard thousandths in_order sum_of cache 300 true scores penalties submissions
      table cold 5

abbrev entry_submission : LeaderboardEntry ℕ → Uuid
entry_submission e = e.submission_id

-- The tie of 1 and 2 is broken by the penalty.
ranked : map entry_submission (materialize []).0 ≡ 3 ∷ 2 ∷ 1 ∷ []
unfolding materialize_leaderboard ranked_candidates candidate latest_final_score total_penalty
    number sort collect_some
ranked = refl

submissions-IsKeyed : IsKeyed submission_key submissions
submissions-IsKeyed =
    let k = IsKeyed-nil submission_key in
    let k = IsKeyed-cons submission_key (record (submission 4) { state = rejected }) [] refl k in
    let k = IsKeyed-cons submission_key (submission 3) _ refl k in
    let k = IsKeyed-cons submission_key (submission 2) _ refl k in
    IsKeyed-cons submission_key (submission 1) _ refl k

-- An engine that returns the rows the other way round.
abbrev turned : {A : Type 0} → List A → List A
turned [] = []
turned (x ∷ xs) = turned xs ++ x ∷ []

last-perm : {A : Type 0} (x : A) (xs : List A) → Permᴰ (xs ++ x ∷ []) (x ∷ xs)
last-perm x [] = Permᴰ.refl (x ∷ [])
last-perm x (y ∷ ys) = Permᴰ.trans (Permᴰ.cons refl (last-perm x ys)) (Permᴰ.swap refl refl)

turned-perm : {A : Type 0} (xs : List A) → Permᴰ (turned xs) xs
turned-perm [] = Permᴰ.nil
turned-perm (x ∷ xs) = Permᴰ.trans (last-perm x (turned xs)) (Permᴰ.cons refl (turned-perm xs))

abbrev turned_round : Engine
turned_round = record {
  select = λ Row p rows. turned (filter p rows);
  select-perm = λ Row p rows. turned-perm (filter p rows);
}

-- The engines do return the submissions in different orders.
orders_differ :
    map submission_key (in_order.select Submission (is_accepted_in 5) submissions) ≡ 1 ∷ 2 ∷ 3 ∷ []
    × (map submission_key (turned_round.select Submission (is_accepted_in 5) submissions)
        ≡ 3 ∷ 2 ∷ 1 ∷ [])
orders_differ = (refl, refl)

same_score :
    (id : Uuid)
    → latest_final_score thousandths in_order sum_of scores id
      ≡ latest_final_score thousandths turned_round sum_of scores id
unfolding latest_final_score sort
same_score id =
    let Same : Uuid → Type 0 = λ i.
      latest_final_score thousandths in_order sum_of scores i
      ≡ latest_final_score thousandths turned_round sum_of scores i in
    let of : (i : Uuid) → (i == id) ≡ true → Same i → Same id =
      λ i t h. subst Same (==→eq i id t) h in
    elim (Bool-cases (1 == id)) [
      | inl t ↦ of 1 t refl
      | inr a ↦ elim (Bool-cases (2 == id)) [
        | inl t ↦ of 2 t refl
        | inr b ↦ elim (Bool-cases (3 == id)) [
          | inl t ↦ of 3 t refl
          | inr c ↦ elim (Bool-cases (4 == id)) [
            | inl t ↦ of 4 t refl
            | inr d ↦ rw (a, b, c, d, latest_final_score) refl
          ]
        ]
      ]
    ]

same_penalty :
    (id : Uuid)
    → total_penalty thousandths in_order sum_of penalties id
      ≡ total_penalty thousandths turned_round sum_of penalties id
unfolding total_penalty
same_penalty id = elim (Bool-cases (1 == id)) [ inl t ↦ rw t refl | inr f ↦ rw f refl ]

materialize_unique_example :
    materialize []
    ≡ materialize_leaderboard thousandths turned_round sum_of cache 300 true scores penalties
        submissions [] cold 5
materialize_unique_example =
    materialize_unique thousandths ltb-IsLess sum_of in_order turned_round cache 300 true scores
      penalties submissions [] cold 5 same_score same_penalty submissions-IsKeyed

materialize_ranks_example :
    (map entry_rank (materialize []).0 ≡ count_up 1 (length (materialize []).0))
    × IsRanking thousandths (materialize []).0
    × All (IsShown thousandths sum_of scores penalties submissions 5) (materialize []).0
    × (count (λ (e : LeaderboardEntry ℕ). e.submission_id == 2) (materialize []).0
        ≡ count (is_ranked scores 5 (λ i. i == 2)) submissions)
materialize_ranks_example =
    materialize_ranks thousandths in_order sum_of cache 300 true ltb-IsLess scores penalties
      submissions [] cold 5 (λ i. i == 2)

materialize_replaces_example :
    (filter (λ e. e.run_id == 5) (materialize []).1 ≡ (materialize []).0)
    × (filter (λ e. not (e.run_id == 5)) (materialize []).1 ≡ [])
    × (true ≡ true
        → read_leaderboard_scoreboard_cache cache true (materialize []).2 5
          ≡ some (map entry (map cache_row (materialize []).0)))
materialize_replaces_example =
    materialize_replaces thousandths in_order sum_of cache 300 true scores penalties submissions []
      cold 5
