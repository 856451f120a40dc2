-- ===== src/Sandbox/Concurrency/Slots.antt =====
-- The slots of app/sandbox/concurrency.py bound the containers of a run.
use why_combinator.Prelude.{
  ℕ, ◌+◌, ◌-◌, ◌≤◌, ◌≡◌, ◌∙◌, ap, true, List, ◌∷◌, ◌++◌, arith, max_of, if◌then◌else◌, ◌==◌,
  nat_has_eq, ==→eq, count, count-append,
}
use why_combinator.Db.Models.{Uuid}
use why_combinator.Sandbox.Concurrency.{
  SlotRedis, current, acquire_run_hacker_container_slot, release_run_hacker_container_slot, Workers,
  start_container, Step, start, finish, killed, Reach, here, next,
}

module _ (redis : SlotRedis) where
  abbrev pub running : Uuid → Workers redis → ℕ
  running i w = count (λ r. r == i) w.containers

  current-set :
      (s : redis.State) (k j : Uuid) (n : ℕ)
      → current redis (redis.set s k n) j ≡ (if k == j then n else current redis s j)
  current-set s k j n = ground (arith, redis.get-set s k n j)

  current-delete :
      (s : redis.State) (k j : Uuid)
      → current redis (redis.delete s k) j ≡ (if k == j then 0 else current redis s j)
  current-delete s k j = ground (arith, redis.get-delete s k j)

  start-slots :
      (limit n : ℕ) (w : Workers redis) (run_id i : Uuid)
      → current redis w.server i ≡ running i w + n
      → current redis w.server i ≤ max_of 1 limit
      → let w' = start_container redis limit w run_id in
        (current redis w'.server i ≡ running i w' + (n + 0))
        × (current redis w'.server i ≤ max_of 1 limit)
  unfolding start_container acquire_run_hacker_container_slot
  start-slots limit n w run_id i h b = ground (
    arith,
    h,
    b,
    current-set w.server run_id i (current redis w.server run_id + 1),
    ==→eq run_id i,
  )

  without :
      (i run_id : Uuid) (before after : List Uuid)
      → count (λ r. r == i) (before ++ run_id ∷ after)
        ≡ (if run_id == i then 1 else 0) + count (λ r. r == i) (before ++ after)
  without i run_id before after = omega (
    arith,
    count-append (λ r. r == i) before (run_id ∷ after),
    count-append (λ r. r == i) before after,
  )

  current-release :
      (s : redis.State) (run_id i : Uuid)
      → current redis (release_run_hacker_container_slot redis s run_id) i
        ≡ (if run_id == i then current redis s i - 1 else current redis s i)
  unfolding release_run_hacker_container_slot
  current-release s run_id i =
      let same : (run_id == i) ≡ true → current redis s run_id ≡ current redis s i =
        λ e. ap (current redis s) (==→eq run_id i e) in
      ground (
        arith,
        same,
        current-delete s run_id i,
        current-set s run_id i (current redis s run_id - 1),
      )

  -- How many containers of a run were lost with their workers.
  abbrev pub lost_in : (limit : ℕ) (w w' : Workers redis) → Uuid → Step redis limit w w' → ℕ
  lost_in limit w w' i (start _ _) = 0
  lost_in limit w w' i (finish _ _ _ _ _) = 0
  lost_in limit w w' i (killed run_id _ _ _ _) = if run_id == i then 1 else 0

  abbrev pub lost : (limit : ℕ) (w w' : Workers redis) → Uuid → Reach redis limit w w' → ℕ
  lost limit w w' i here = 0
  lost limit w w' i (next {v} r st) = lost limit w v i r + lost_in limit v w' i st

  Step-slots :
      (limit n : ℕ) (w w' : Workers redis) (i : Uuid) (st : Step redis limit w w')
      → current redis w.server i ≡ running i w + n
      → current redis w.server i ≤ max_of 1 limit
      → (current redis w'.server i ≡ running i w' + (n + lost_in limit w w' i st))
        × (current redis w'.server i ≤ max_of 1 limit)
  Step-slots limit n w w' i (start run_id e) h b = rw e (start-slots limit n w run_id i h b)
  Step-slots limit n w w' i (finish run_id before after e e') h b =
      let had = ap (count (λ r. r == i)) e ∙ without i run_id before after in
      rw e' (ground (arith, h, b, had, current-release w.server run_id i))
  Step-slots limit n w w' i (killed run_id before after e e') h b =
      let had = ap (count (λ r. r == i)) e ∙ without i run_id before after in
      rw e' (ground (arith, h, b, had))

  -- Whatever the workers do from a state in which each container of a run has one slot and the run has no
  -- more slots than the limit, however their steps interleave: the run has one slot for each of its
  -- containers and one for each container that was lost with a killed worker, and never more slots than
  -- the limit, which is at least one.
  pub slots_bound :
      (limit : ℕ) (w w' : Workers redis) (i : Uuid)
      → current redis w.server i ≡ running i w
      → current redis w.server i ≤ max_of 1 limit
      → (r : Reach redis limit w w')
      → (current redis w'.server i ≡ running i w' + lost limit w w' i r)
        × (current redis w'.server i ≤ max_of 1 limit)
  slots_bound limit w w' i h b here = (omega (arith, h), b)
  slots_bound limit w w' i h b (next {v} r st) =
      let (exact, within) = slots_bound limit w v i h b r in
      Step-slots limit (lost limit w v i r) v w' i st exact within
