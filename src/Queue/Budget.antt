-- ===== src/Queue/Budget.antt =====
-- app/queue/budget.py
use why_combinator.Prelude.{
  ℕ, ◌+◌, ◌-◌, ◌≤◌, ◌⊎◌, ◌≡◌, refl, sym, ◌∙◌, ap, inl, inr, String, Bool, true, false, Option, none,
  some, List, [], ◌∷◌, arith, ltb, if◌then◌else◌, ◌==◌, nat_has_eq, ==→eq, Bool-cases,
}
use mathlib.Core.Option.{some-injective}
use why_combinator.Platform.Redis.{Redis}
use why_combinator.Db.Models.{Uuid}

-- What f"run:{run_id}:budget_remaining" holds, as the script's `tonumber` reads it.
pub data Remaining : Type 0 where
  number : ℕ → Remaining
  text : String → Remaining

number-injective : (a b : ℕ) → number a ≡ number b → a ≡ b
number-injective a b e = cc

-- A key is the id of its run.
abbrev pub BudgetRedis : Type 1
BudgetRedis = Redis Uuid Remaining nat_has_eq

module _ (redis : BudgetRedis) where
  -- The script and what the function makes of its answer: whether the units were reserved, and what
  -- remains. Costs and budgets are not negative, so that its answers -1 and -2 are never a rest; DECRBY
  -- writes the rest.
  unfoldable pub reserve_budget : redis.State → Uuid → ℕ → (Bool × Option ℕ) × redis.State
  reserve_budget s run_id units = elim (redis.get s run_id) [
    | none ↦ ((false, none), s)
    | some raw ↦ elim raw [
      | text t ↦ ((false, none), s)
      | number remaining ↦
          if ltb remaining units
          then ((false, some remaining), s)
          else ((true, some (remaining - units)), redis.set s run_id (number (remaining - units)))
    ]
  ]

  reserve_cases :
      (s : redis.State) (run_id : Uuid) (units : ℕ)
      → (((reserve_budget s run_id units).0.0 ≡ false) × ((reserve_budget s run_id units).1 ≡ s))
        ⊎ ((n : ℕ) × (redis.get s run_id ≡ some (number n))
            × (units ≤ n)
            × ((reserve_budget s run_id units).0.0 ≡ true)
            × ((reserve_budget s run_id units).1 ≡ redis.set s run_id (number (n - units))))
  unfolding reserve_budget
  reserve_cases s run_id units = ground arith

  -- Reservations one after another, of any runs.
  pub reservations : redis.State → List (Uuid × ℕ) → redis.State
  reservations s [] = s
  reservations s ((run_id, units) ∷ rest) = reservations (reserve_budget s run_id units).1 rest

  -- The units of a run that were granted.
  unfoldable pub granted : Uuid → redis.State → List (Uuid × ℕ) → ℕ
  granted i s [] = 0
  granted i s ((run_id, units) ∷ rest) =
      let later = granted i (reserve_budget s run_id units).1 rest in
      if (reserve_budget s run_id units).0.0
      then (if run_id == i then units + later else later)
      else later

  -- The budget of a run pays for what is granted to it, and for nothing else: after any sequence of
  -- reservations of any runs the rest and the units granted to the run add up to what it had. So no more
  -- is ever granted than there was.
  pub budget_conserved :
      (s : redis.State) (requests : List (Uuid × ℕ)) (i : Uuid) (n : ℕ)
      → redis.get s i ≡ some (number n)
      → (m : ℕ) × (redis.get (reservations s requests) i ≡ some (number m))
        × (granted i s requests + m ≡ n)
  unfolding reservations granted
  budget_conserved s [] i n h = (n, h, omega arith)
  budget_conserved s ((run_id, units) ∷ rest) i n h =
      let s' = (reserve_budget s run_id units).1 in
      elim (reserve_cases s run_id units) [
        | inl (denied, same) ↦
            let (m, e, sum) = budget_conserved s' rest i n (rw same h) in
            (m, e, ground (arith, sum, denied))
        | inr (k, had, enough, allowed, set) ↦
            let after = redis.get-set s run_id (number (k - units)) i in
            elim (Bool-cases (run_id == i)) [
              | inl own ↦
                  let same : run_id ≡ i = ==→eq run_id i own in
                  let all : k ≡ n =
                    number-injective k n
                      (some-injective _ _ (sym had ∙ ap (redis.get s) same ∙ h)) in
                  let (m, e, sum) =
                    budget_conserved s' rest i (k - units) (rw set (after ∙ rw own refl)) in
                  (m, e, ground (arith, sum, allowed, own, enough, all))
              | inr other ↦
                  let (m, e, sum) = budget_conserved s' rest i n (rw set (after ∙ rw other h)) in
                  (m, e, ground (arith, sum, allowed, other))
            ]
      ]
