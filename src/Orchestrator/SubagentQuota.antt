-- ===== src/Orchestrator/SubagentQuota.antt =====
-- app/orchestrator/subagent_quota.py
use why_combinator.Prelude.{
  ℕ, ◌+◌, ◌-◌, ◌≤◌, ◌≡◌, ◌↔◌, Bool, true, false, ◌&&◌, none, some, List, [], ◌∷◌, arith, ltb,
  if◌then◌else◌, HasEq, ◌==◌, nat_has_eq, ==→eq,
}
use why_combinator.Platform.Redis.{Redis}
use why_combinator.Db.Models.{Uuid}

-- f"run:{run_id}:agent:{parent_agent_id}:subagent_spawns_used"
pub data SpawnsKey : Type 0 where
  subagent_spawns_used : (run_id parent_agent_id : Uuid) → SpawnsKey

abbrev pub spawns_key_same : SpawnsKey → SpawnsKey → Bool
spawns_key_same (subagent_spawns_used r a) (subagent_spawns_used r' a') = (r == r') && (a == a')

pub spawns_key_same_iff : (k j : SpawnsKey) → (spawns_key_same k j ≡ true) ↔ (k ≡ j)
spawns_key_same_iff k j = ground arith

instance abbrev pub spawns_key_has_eq : HasEq SpawnsKey
spawns_key_has_eq = record { same = spawns_key_same; same_iff = spawns_key_same_iff }

-- The key holds a count.
abbrev pub SpawnsRedis : Type 1
SpawnsRedis = Redis SpawnsKey ℕ spawns_key_has_eq

module _ (redis : SpawnsRedis) where
  abbrev pub used : redis.State → SpawnsKey → ℕ
  used s key = elim (redis.get s key) [ none ↦ 0 | some n ↦ n ]

  -- The script and what is made of its answer: whether the spawns were reserved, and how many are left.
  -- When they are refused this is read by a GET behind the script, here with no command of others in
  -- between. `limit` is `quota_limit`, or SUBAGENT_SPAWN_QUOTA_PER_AGENT.
  unfoldable pub check_and_reserve_subagent_quota :
      (limit : ℕ) → redis.State → SpawnsKey → (increment : ℕ) → (Bool × ℕ) × redis.State
  check_and_reserve_subagent_quota limit s key increment =
      if ltb limit (used s key + increment)
      then ((false, limit - used s key), s)
      else ((true, limit - (used s key + increment)), redis.set s key (used s key + increment))

  -- Spawns that agents ask for one after another: the state behind them, ...
  unfoldable pub spawns : (limit : ℕ) → redis.State → List (SpawnsKey × ℕ) → redis.State
  spawns limit s [] = s
  spawns limit s ((key, increment) ∷ rest) =
      spawns limit (check_and_reserve_subagent_quota limit s key increment).1 rest

  -- ... and how many of one agent were allowed.
  unfoldable pub allowed : (limit : ℕ) → SpawnsKey → redis.State → List (SpawnsKey × ℕ) → ℕ
  allowed limit k s [] = 0
  allowed limit k s ((key, increment) ∷ rest) =
      let (answer, s') = check_and_reserve_subagent_quota limit s key increment in
      let later = allowed limit k s' rest in
      if answer.0 && (key == k) then increment + later else later

  used-reserve :
      (limit : ℕ) (s : redis.State) (key k : SpawnsKey) (increment : ℕ)
      → let (answer, s') = check_and_reserve_subagent_quota limit s key increment in
        (used s' k ≡ (if answer.0 && (key == k) then used s k + increment else used s k))
        × (used s k ≤ limit → used s' k ≤ limit)
  unfolding check_and_reserve_subagent_quota
  used-reserve limit s key k increment =
      ground (arith, redis.get-set s key (used s key + increment) k, ==→eq key k)

  -- The counter of an agent counts exactly the spawns that were allowed to it, whichever agents ask in
  -- between; and it never passes the limit. So an agent that has not spawned is allowed at most `limit`
  -- spawns in all, however it splits them up.
  pub allowed_bound :
      (limit : ℕ) (s : redis.State) (requests : List (SpawnsKey × ℕ)) (k : SpawnsKey)
      → used s k ≤ limit
      → (used s k + allowed limit k s requests ≡ used (spawns limit s requests) k)
        × (used (spawns limit s requests) k ≤ limit)
  unfolding spawns allowed
  allowed_bound limit s [] k h = (omega arith, h)
  allowed_bound limit s ((key, increment) ∷ rest) k h =
      let (step, bound) = used-reserve limit s key k increment in
      let later =
        allowed_bound limit (check_and_reserve_subagent_quota limit s key increment).1 rest k
          (bound h) in
      ground (arith, step, later)
