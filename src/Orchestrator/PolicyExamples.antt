-- ===== src/Orchestrator/PolicyExamples.antt =====
-- Spawning and admission at work, and the theorems at concrete inputs.
use why_combinator.Prelude.{
  ◌≤◌, ◌<◌, ◌≡◌, ◌↔◌, ◌+◌, ℕ, refl, true, ◌&&◌, none, List, [], ◌∷◌, arith, count, leb,
}
use why_combinator.Platform.Sql.{in_order}
use why_combinator.Platform.Redis.{in_memory}
use why_combinator.Db.Models.{Uuid, SubagentEdge}
use why_combinator.Orchestrator.SpawnPolicy.{
  SpawnPolicy, is_child_of, is_edge_to, evaluate_spawn_policy, max_depth_exceeded, spawn_iff,
  deepest,
}
use why_combinator.Orchestrator.SubagentQuota.{
  SpawnsKey, subagent_spawns_used, spawns_key_has_eq, SpawnsRedis, used, spawns, allowed,
  check_and_reserve_subagent_quota, allowed_bound,
}

abbrev edge : Uuid → Uuid → SubagentEdge
edge p c = record { run_id = 5; parent_agent_id = p; child_agent_id = c; depth = 1 }

abbrev edges : List SubagentEdge
edges = edge 1 2 ∷ edge 1 3 ∷ []

abbrev policy : SpawnPolicy
policy = record { max_depth = 1; max_children = 3 }

too_deep : (evaluate_spawn_policy in_order edges 5 2 policy).reason ≡ max_depth_exceeded
unfolding evaluate_spawn_policy deepest
too_deep = refl

spawn_iff_example :
    let decision = evaluate_spawn_policy in_order edges 5 1 policy in
    ((decision.allowed ≡ true) ↔ (
      (count (is_child_of 5 1) edges < 3)
      × (1 ≤ 1)
      × (count (λ e. is_edge_to 5 1 e && leb 1 e.depth) edges ≡ 0)))
    × (decision.existing_children ≡ count (is_child_of 5 1) edges)
spawn_iff_example = spawn_iff in_order edges 5 1 policy

abbrev counters : SpawnsRedis
counters = in_memory SpawnsKey ℕ spawns_key_has_eq

abbrev no_spawns : counters.State
no_spawns k = none

-- The second request would pass the limit of three, the last one does not.
abbrev spawn_requests : List (SpawnsKey × ℕ)
spawn_requests =
    (subagent_spawns_used 5 1, 2)
    ∷ (subagent_spawns_used 5 1, 2)
    ∷ (subagent_spawns_used 5 2, 3)
    ∷ (subagent_spawns_used 5 1, 1)
    ∷ []

three_allowed : allowed counters 3 (subagent_spawns_used 5 1) no_spawns spawn_requests ≡ 3
unfolding allowed check_and_reserve_subagent_quota
three_allowed = refl

allowed_bound_example :
    (used counters no_spawns (subagent_spawns_used 5 1)
        + allowed counters 3 (subagent_spawns_used 5 1) no_spawns spawn_requests
      ≡ used counters (spawns counters 3 no_spawns spawn_requests) (subagent_spawns_used 5 1))
    × (used counters (spawns counters 3 no_spawns spawn_requests) (subagent_spawns_used 5 1) ≤ 3)
allowed_bound_example =
    allowed_bound counters 3 no_spawns spawn_requests (subagent_spawns_used 5 1) (omega arith)
