-- ===== src/Queue/Examples.antt =====
-- Budgets and claims at work, and the theorems at concrete inputs.
use why_combinator.Prelude.{ℕ, ◌+◌, ◌≡◌, refl, some, List, [], ◌∷◌, nat_has_eq}
use why_combinator.Platform.Redis.{in_memory}
use why_combinator.Db.Models.{Uuid}
use why_combinator.Queue.Budget.{
  reserve_budget, Remaining, number, BudgetRedis, reservations, granted, budget_conserved,
}
use why_combinator.Queue.Dedup.{ScoreJobKey, score_job, score_job_key_has_eq}

abbrev budgets : BudgetRedis
budgets = in_memory Uuid Remaining nat_has_eq

abbrev ten : budgets.State
ten i = some (number 10)

-- The second request is for more than is left.
abbrev requests : List (Uuid × ℕ)
requests = (5, 7) ∷ (5, 4) ∷ (6, 1) ∷ (5, 3) ∷ []

all_granted : granted budgets 5 ten requests ≡ 10
unfolding granted reserve_budget
all_granted = refl

budget_conserved_example :
    (m : ℕ) × (budgets.get (reservations budgets ten requests) 5 ≡ some (number m))
    × (granted budgets 5 ten requests + m ≡ 10)
budget_conserved_example = budget_conserved budgets ten requests 5 10 refl

abbrev claims : List ScoreJobKey
claims = score_job 1 "c1" ∷ score_job 2 "c1" ∷ score_job 1 "c1" ∷ []
