-- ===== src/Leaderboard/Materializer/Order.antt =====
-- In which order app/leaderboard/materializer.py ranks the entries, told by the values that they show.
use why_combinator.Prelude.{
  ℕ, suc, ◌≡◌, refl, ◌⊎◌, inl, inr, Bool, true, false, Option, none, some, List, [], ◌∷◌, arith,
  nat_has_eq, All, leb, ltb, ◌<◌, ◌≤◌, Option-cases, Bool-cases,
}
use why_combinator.Prelude.Members.{All-at}
use why_combinator.Prelude.Orders.{lexicographic}
use why_combinator.Prelude.Sort.{IsSorted}
use why_combinator.Platform.Sql.{Engine}
use why_combinator.Platform.Floats.{Floats}
use why_combinator.Db.Enums.{submission_state_has_eq}
use why_combinator.Db.Models.{Uuid, Instant, LeaderboardEntry}
use why_combinator.Leaderboard.Materializer.{
  RankedSubmission, number, datetime_max, accepted_sort_key, ranks_before,
}
use why_combinator.Leaderboard.Materializer.Shown.{entry_of, All-number}

-- A submission that was never accepted counts as accepted at the end of time.
abbrev pub acceptance : Option Instant → Instant
acceptance none = datetime_max
acceptance (some t) = t

acceptance-key :
    {Float : Type 0} (c : RankedSubmission Float) → accepted_sort_key c ≡ acceptance c.accepted_at
acceptance-key c = elim (Option-cases c.accepted_at) [ inl n ↦ rw n refl | inr (t, e) ↦ rw e refl ]

lexicographic-cases :
    {A : Type 0} (less rest : A → A → Bool) (x y : A)
    → lexicographic less rest x y ≡ true
    → (less x y ≡ true) ⊎ ((less x y ≡ false) × (less y x ≡ false) × (rest x y ≡ true))
lexicographic-cases less rest x y h = elim (Bool-cases (less x y)) [
  | inl t ↦ inl t
  | inr f ↦ elim (Bool-cases (less y x)) [
    | inl t ↦ absurd (let clash : false ≡ true = rw (f, t) at h in cc)
    | inr f' ↦ inr (f, f', rw (f, f') at h)
  ]
]

module _ (floats : Floats) where
  open floats use {Float, less}

  -- Neither of two numbers is less than the other.
  abbrev pub IsTie : Float → Float → Type 0
  IsTie x y = (less x y ≡ false) × (less y x ≡ false)

  -- The higher score first, then the earlier acceptance, then the lower penalty, then the smaller id.
  abbrev pub Outranks : LeaderboardEntry Float → LeaderboardEntry Float → Type 0
  Outranks a b =
      let s = a.tie_break_metadata in
      let t = b.tie_break_metadata in
      (less b.final_score a.final_score ≡ true)
      ⊎ (IsTie a.final_score b.final_score
          × ((acceptance s.accepted_at < acceptance t.accepted_at)
              ⊎ ((acceptance s.accepted_at ≡ acceptance t.accepted_at)
                  × ((less s.total_penalty t.total_penalty ≡ true)
                      ⊎ (IsTie s.total_penalty t.total_penalty
                          × (a.submission_id ≤ b.submission_id))))))

  -- Every entry comes before all later ones.
  abbrev pub IsRanking : List (LeaderboardEntry Float) → Type 0
  IsRanking [] = Unit
  IsRanking (e ∷ es) = All (Outranks e) es × IsRanking es

  module _ (sum_of : List Float → Float) (db : Engine) where
    abbrev by_penalty : RankedSubmission Float → RankedSubmission Float → Bool
    by_penalty =
        lexicographic (λ a b. less a.total_penalty b.total_penalty)
          (λ a b. leb a.submission_id b.submission_id)

    abbrev by_acceptance : RankedSubmission Float → RankedSubmission Float → Bool
    by_acceptance =
        lexicographic (λ a b. ltb (accepted_sort_key a) (accepted_sort_key b)) by_penalty

    abbrev OutranksByPenalty : RankedSubmission Float → RankedSubmission Float → Type 0
    OutranksByPenalty a b =
        (less a.total_penalty b.total_penalty ≡ true)
        ⊎ (IsTie a.total_penalty b.total_penalty × (a.submission_id ≤ b.submission_id))

    penalty_lem : (a b : RankedSubmission Float) → by_penalty a b ≡ true → OutranksByPenalty a b
    penalty_lem a b h =
        elim (lexicographic-cases
          (λ (a b : RankedSubmission Float). less a.total_penalty b.total_penalty)
          (λ a b. leb a.submission_id b.submission_id) a b h) [
            | inl lower ↦ inl lower
            | inr (u, v, last) ↦ inr ((u, v), ground (arith, last))
          ]

    acceptance_lem :
        (a b : RankedSubmission Float)
        → by_acceptance a b ≡ true
        → (acceptance a.accepted_at < acceptance b.accepted_at)
          ⊎ ((acceptance a.accepted_at ≡ acceptance b.accepted_at) × OutranksByPenalty a b)
    acceptance_lem a b h =
        elim (lexicographic-cases
          (λ (a b : RankedSubmission Float). ltb (accepted_sort_key a) (accepted_sort_key b))
          by_penalty a b h) [
            | inl earlier ↦
                inl (rw (← acceptance-key a, ← acceptance-key b) (ground (arith, earlier)))
            | inr (u, v, last) ↦ inr (
              rw (← acceptance-key a, ← acceptance-key b) (ground (arith, u, v)),
              penalty_lem a b last,
            )
          ]

    outranks :
        (run_id : Uuid) (k n : ℕ) (a b : RankedSubmission Float)
        → ranks_before floats db sum_of a b ≡ true
        → Outranks (entry_of run_id k a) (entry_of run_id n b)
    outranks run_id k n a b h =
        elim (lexicographic-cases
          (λ (a b : RankedSubmission Float). less b.final_score a.final_score) by_acceptance a b
          h) [ inl higher ↦ inl higher | inr (u, v, rest) ↦ inr ((v, u), acceptance_lem a b rest) ]

    -- A sorted list of candidates makes a ranking.
    pub number-IsRanking :
        (run_id : Uuid) (n : ℕ) (cs : List (RankedSubmission Float))
        → IsSorted (ranks_before floats db sum_of) cs
        → IsRanking (number run_id n cs)
    unfolding number
    number-IsRanking run_id n [] h = tt
    number-IsRanking run_id n (c ∷ cs) h = (
      All-number (Outranks (entry_of run_id n c)) run_id (suc n) cs (λ x k m.
          outranks run_id n k c x
            (All-at (λ y. ranks_before floats db sum_of c y ≡ true) x cs h.0 m)),
      number-IsRanking run_id (suc n) cs h.1,
    )
