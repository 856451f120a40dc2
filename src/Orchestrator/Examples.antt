-- ===== src/Orchestrator/Examples.antt =====
-- Subagent graphs at work, and the theorems at concrete inputs.
use why_combinator.Prelude.{
  ◌<◌, ◌≤◌, ◌≡◌, ◌↔◌, refl, Bool, true, false, contains, nat_has_eq, some, List, [], ◌∷◌, ◌++◌,
  arith, ok, raise,
}
use why_combinator.Platform.Sql.{in_order}
use why_combinator.Db.Models.{Uuid, SubagentEdge}
use why_combinator.Orchestrator.SubagentGraph.{
  Adjacency, search, search_fuel, has_path, build_adjacency, persist_subagent_edge,
  would_introduce_cycle, self_referential, integrity_error,
}
use why_combinator.Orchestrator.SubagentGraph.Walk.{Reach, here, step, IsAcyclic}
use why_combinator.Orchestrator.SubagentGraph.Search.{edges_of, has_path_decides}
use why_combinator.Orchestrator.SubagentGraph.Acyclic.{graph, persist-IsAcyclic, persist_iff}

abbrev edge : Uuid → Uuid → SubagentEdge
edge p c = record { run_id = 5; parent_agent_id = p; child_agent_id = c; depth = 1 }

-- 1 → 2 → 3
abbrev chain : List SubagentEdge
chain = edge 1 2 ∷ edge 2 3 ∷ []

abbrev runs : List Uuid
runs = 5 ∷ []

abbrev agents : List Uuid
agents = 1 ∷ 2 ∷ 3 ∷ []

stranger_refused : persist_subagent_edge in_order runs agents chain 5 3 4 3 ≡ raise integrity_error
unfolding persist_subagent_edge has_path build_adjacency
stranger_refused = refl

cycle_refused :
    persist_subagent_edge in_order runs agents chain 5 3 1 2 ≡ raise would_introduce_cycle
unfolding persist_subagent_edge has_path build_adjacency
cycle_refused = refl

loop_refused : persist_subagent_edge in_order runs agents chain 5 3 3 2 ≡ raise self_referential
unfolding persist_subagent_edge has_path build_adjacency
loop_refused = refl

shortcut_persisted :
    persist_subagent_edge in_order runs agents chain 5 1 3 1 ≡ ok (edge 1 3, chain ++ edge 1 3 ∷ [])
unfolding persist_subagent_edge has_path build_adjacency
shortcut_persisted = refl

-- Along the chain the numbers rise.
chain_rises : (u v : Uuid) → graph 5 chain u v ≡ true → u < v
chain_rises u v h = ground arith

rising_le :
    {e : Uuid → Uuid → Bool}
    → ((u v : Uuid) → e u v ≡ true → u < v)
    → {a b : Uuid} → Reach e a b
    → a ≤ b
rising_le up here = omega arith
rising_le up (step {u} {v} r h) = omega (arith, up u v h, rising_le up r)

rising-IsAcyclic : {e : Uuid → Uuid → Bool} → ((u v : Uuid) → e u v ≡ true → u < v) → IsAcyclic e
rising-IsAcyclic up u v h back = omega (arith, up u v h, rising_le up back)

chain-IsAcyclic : IsAcyclic (graph 5 chain)
chain-IsAcyclic = rising-IsAcyclic chain_rises

abbrev adjacency : Adjacency
adjacency = (1, 2 ∷ []) ∷ (2, 3 ∷ []) ∷ []

has_path_decides_example :
    (search (search_fuel adjacency) adjacency 3 (1 ∷ []) [] ≡ some (has_path adjacency 1 3))
    × ((has_path adjacency 1 3 ≡ true) ↔ Reach (edges_of adjacency) 1 3)
has_path_decides_example = has_path_decides adjacency 1 3

persist-IsAcyclic_example : IsAcyclic (graph 5 (chain ++ edge 1 3 ∷ []))
persist-IsAcyclic_example =
    persist-IsAcyclic in_order runs agents chain 5 1 3 1 5 chain-IsAcyclic shortcut_persisted

persist_iff_example :
    (persist_subagent_edge in_order runs agents chain 5 1 3 1
      ≡ ok (edge 1 3, chain ++ edge 1 3 ∷ []))
    ↔ (IsAcyclic (graph 5 (chain ++ edge 1 3 ∷ []))
        × (graph 5 chain 1 3 ≡ false)
        × (contains runs 5 ≡ true)
        × (contains agents 1 ≡ true)
        × (contains agents 3 ≡ true))
persist_iff_example = persist_iff in_order runs agents chain 5 1 3 1 chain-IsAcyclic
