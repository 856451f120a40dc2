-- ===== src/Leaderboard/Materializer/Shown.antt =====
-- What app/leaderboard/materializer.py writes for each submission, told from the tables.
use mathlib.Core.List.{Memᴰ, Permᴰ}
use mathlib.Core.List.Permᴰ
use mathlib.Core.List.Memᴰ
use mathlib.Core.Option.{some-injective, none-ne-some}
use why_combinator.Prelude.{
  ℕ, suc, ◌≡◌, refl, sym, ◌∙◌, subst, inl, inr, Bool, true, false, ◌&&◌, none, some, List, [], ◌∷◌,
  map, arith, ◌==◌, nat_has_eq, filter, any, any-cong, head?, All, leb, ltb, Option-cases,
  Bool-cases, ==→eq,
}
use why_combinator.Prelude.Members.{Memᴰ-perm, Memᴰ-head?, any-Memᴰ, All-of, All-at}
use why_combinator.Prelude.Perms.{any-perm}
use why_combinator.Prelude.Selection.{passes, collect_some, Memᴰ-collect_some}
use why_combinator.Prelude.Sort.{sort, sort-perm, sort-IsSorted, IsSorted, IsOrder}
use why_combinator.Platform.Sql.{Engine, any-select}
use why_combinator.Platform.Floats.{Floats}
use why_combinator.Db.Tables.{Memᴰ-select, Memᴰ-loaded}
use why_combinator.Db.Enums.{accepted, submission_state_has_eq}
use why_combinator.Db.Models.{Uuid, Submission, ScoreEvent, PenaltyEvent, LeaderboardEntry}
use why_combinator.Leaderboard.Materializer.{
  RankedSubmission, number, tie_break_metadata, is_accepted_in, latest_final_score, total_penalty,
  candidate, ranks_before, ranked_candidates,
}

module _ {Float : Type 0} where
  abbrev pub entry_of : Uuid → ℕ → RankedSubmission Float → LeaderboardEntry Float
  entry_of run_id n c = record {
    run_id = run_id;
    submission_id = c.submission_id;
    rank = n;
    final_score = c.final_score;
    tie_break_metadata = tie_break_metadata c;
  }

  pub All-number :
      (P : LeaderboardEntry Float → Type 0) (run_id : Uuid) (n : ℕ)
      (cs : List (RankedSubmission Float))
      → ((c : RankedSubmission Float) (k : ℕ) → Memᴰ c cs → P (entry_of run_id k c))
      → All P (number run_id n cs)
  unfolding number
  All-number P run_id n [] h = tt
  All-number P run_id n (c ∷ cs) h =
      (h c n (Memᴰ.head refl), All-number P run_id (suc n) cs (λ x k m. h x k (Memᴰ.tail m)))

module _ (floats : Floats) where
  open floats use {Float, less, round_to}

  -- The event is one of the submission's, and none of them is later.
  abbrev pub IsLatest : List (ScoreEvent Float) → Uuid → ScoreEvent Float → Type 0
  IsLatest scores id x =
      Memᴰ x scores
      × (x.submission_id ≡ id)
      × All (λ y. ((y.submission_id == id) && ltb x.created_at y.created_at) ≡ false) scores

  module _ (sum_of : List Float → Float) where
    -- The entry shows an accepted submission of the run: its acceptance, the final score of one of its latest
    -- events, and the rounded sum of its penalties.
    abbrev pub IsShown :
        List (ScoreEvent Float)
        → List (PenaltyEvent Float)
        → List Submission
        → Uuid
        → LeaderboardEntry Float
        → Type 0
    IsShown scores penalties submissions run_id e =
        (s : Submission) × Memᴰ s submissions
        × (s.run_id ≡ run_id)
        × (s.state ≡ accepted)
        × (e.run_id ≡ run_id)
        × (e.submission_id ≡ s.id)
        × ((e.tie_break_metadata).submission_id ≡ s.id)
        × ((e.tie_break_metadata).accepted_at ≡ s.accepted_at)
        × ((x : ScoreEvent Float) × IsLatest scores s.id x × (e.final_score ≡ x.final_score))
        × ((rows : List (PenaltyEvent Float)) × Permᴰ rows
              (filter (λ (p : PenaltyEvent Float). p.submission_id == s.id) penalties)
            × ((e.tie_break_metadata).total_penalty
                ≡ round_to (sum_of (map (λ (p : PenaltyEvent Float). p.value) rows)) 6))

    module _ (db : Engine) where
      newest : ScoreEvent Float → ScoreEvent Float → Bool
      newest a b = leb b.created_at a.created_at

      newest-IsOrder : IsOrder newest
      unfolding newest
      newest-IsOrder = record { total = λ x y h. ground arith; trans = λ x y z h k. ground arith }

      first_newest :
          (l : List (ScoreEvent Float)) (a y : ScoreEvent Float)
          → IsSorted newest l
          → head? l ≡ some a
          → Memᴰ y l
          → ltb a.created_at y.created_at ≡ false
      unfolding newest
      first_newest [] a y h e m = absurd (none-ne-some a e)
      first_newest (x ∷ l) a y h e m =
          let same : x ≡ a = some-injective x a e in
          elim (Memᴰ.cases_cons m) [
            | inl here ↦ let both : y ≡ a = here ∙ same in rw both (ground arith)
            | inr there ↦
                let below : newest x y ≡ true = All-at (λ z. newest x z ≡ true) y l h.0 there in
                let below' : newest a y ≡ true = subst (λ z. newest z y ≡ true) same below in
                ground (arith, below')
          ]

      latest_lem :
          (scores : List (ScoreEvent Float)) (id : Uuid) (score : Float)
          → latest_final_score floats db sum_of scores id ≡ some score
          → (x : ScoreEvent Float) × IsLatest scores id x × (score ≡ x.final_score)
      unfolding latest_final_score newest
      latest_lem scores id score e =
          let mine = λ (y : ScoreEvent Float). y.submission_id == id in
          let rows = db.select (ScoreEvent Float) mine scores in
          let l = sort newest rows in
          elim (Option-cases (head? l)) [
            | inl n ↦ absurd (none-ne-some score (rw (n, latest_final_score) at e))
            | inr (x, h) ↦
                let (there, own) =
                  Memᴰ-select db mine scores (Memᴰ-perm (sort-perm newest rows) (Memᴰ-head? l h)) in
                (
                  x,
                  (
                    there,
                    ==→eq x.submission_id id own,
                    All-of (λ y. (mine y && ltb x.created_at y.created_at) ≡ false) scores
                        (λ y m. elim (Bool-cases (mine y)) [
                          | inr f ↦ rw f refl
                          | inl t ↦
                              let found : Memᴰ y l =
                                Memᴰ-perm (Permᴰ.symm (sort-perm newest rows))
                                  (Memᴰ-loaded db mine scores m t) in
                              rw t (first_newest l x y (sort-IsSorted newest-IsOrder rows) h found)
                        ]),
                  ),
                  sym (some-injective _ _ (rw (h, latest_final_score) at e)),
                )
          ]

      -- A submission has a latest score exactly if it has a score event.
      pub passes-latest :
          (scores : List (ScoreEvent Float)) (id : Uuid) (b : Bool)
          → passes (λ _. b) (latest_final_score floats db sum_of scores id)
            ≡ (any (λ (x : ScoreEvent Float). x.submission_id == id) scores && b)
      unfolding latest_final_score newest
      passes-latest scores id b =
          let mine = λ (y : ScoreEvent Float). y.submission_id == id in
          let rows = db.select (ScoreEvent Float) mine scores in
          let l = sort newest rows in
          let same : any mine l ≡ any mine scores =
            any-perm mine (sort-perm newest rows)
            ∙ any-select db mine mine scores
            ∙ any-cong (λ y. mine y && mine y) mine scores (λ y. ground arith) in
          elim (Option-cases (head? l)) [
            | inl n ↦ rw (n, latest_final_score) (ground (arith, same, empty l n))
            | inr (x, h) ↦
                let m = Memᴰ-head? l h in
                let own = (Memᴰ-select db mine scores (Memᴰ-perm (sort-perm newest rows) m)).1 in
                let found : any mine l ≡ true = any-Memᴰ mine l m own in
                rw (h, latest_final_score) (ground (arith, same, found))
          ]
        where
          empty :
              (l : List (ScoreEvent Float))
              → head? l ≡ none
              → any (λ (y : ScoreEvent Float). y.submission_id == id) l ≡ false
          empty [] e = refl
          empty (x ∷ l) e = absurd (none-ne-some x (sym e))

      candidate-IsShown :
          (scores : List (ScoreEvent Float)) (penalties : List (PenaltyEvent Float))
          (submissions : List Submission) (run_id : Uuid) (s : Submission)
          (c : RankedSubmission Float) (n : ℕ)
          → Memᴰ s submissions
          → is_accepted_in run_id s ≡ true
          → candidate floats db sum_of scores penalties s ≡ some c
          → IsShown scores penalties submissions run_id (entry_of run_id n c)
      unfolding candidate total_penalty
      candidate-IsShown scores penalties submissions run_id s c n m own e =
          elim (Option-cases (latest_final_score floats db sum_of scores s.id)) [
            | inl none_yet ↦ absurd (none-ne-some c (rw (none_yet, candidate) at e))
            | inr (score, h) ↦
                let built = some-injective _ _ (rw (h, candidate) at e) in
                subst (λ x. IsShown scores penalties submissions run_id (entry_of run_id n x)) built
                  (
                    s,
                    m,
                    ==→eq s.run_id run_id (ground (arith, own)),
                    ==→eq s.state accepted (ground (arith, own)),
                    refl,
                    refl,
                    refl,
                    refl,
                    latest_lem scores s.id score h,
                    (
                      db.select (PenaltyEvent Float) (λ p. p.submission_id == s.id) penalties,
                      db.select-perm (PenaltyEvent Float) (λ p. p.submission_id == s.id) penalties,
                      refl,
                    ),
                  )
          ]

      -- Every entry of the leaderboard shows a submission.
      pub number-IsShown :
          (scores : List (ScoreEvent Float)) (penalties : List (PenaltyEvent Float))
          (submissions : List Submission) (run_id : Uuid) (n : ℕ)
          → All (IsShown scores penalties submissions run_id) (
              number run_id n
                (ranked_candidates floats db sum_of scores penalties submissions run_id))
      unfolding ranked_candidates
      number-IsShown scores penalties submissions run_id n =
          let f = candidate floats db sum_of scores penalties in
          let rows = db.select Submission (is_accepted_in run_id) submissions in
          All-number (IsShown scores penalties submissions run_id) run_id n
            (ranked_candidates floats db sum_of scores penalties submissions run_id)
            λ c k m.
              let (s, i, e) =
                Memᴰ-collect_some f rows
                  (Memᴰ-perm (sort-perm (ranks_before floats db sum_of) (collect_some f rows)) m) in
              let (there, own) = Memᴰ-select db (is_accepted_in run_id) submissions i in
              candidate-IsShown scores penalties submissions run_id s c k there own e
