-- ===== src/Orchestrator/SpawnPolicy.antt =====
-- app/orchestrator/spawn_policy.py
use why_combinator.Prelude.{
  ℕ, ◌+◌, ◌≤◌, ◌<◌, ◌≡◌, ◌↔◌, Bool, true, false, ◌&&◌, List, [], ◌∷◌, arith, ltb, leb, length,
  if◌then◌else◌, ◌==◌, nat_has_eq, max_of, count,
}
use why_combinator.Platform.Sql.{Engine, length-select, count-select}
use why_combinator.Db.Models.{Uuid, SubagentEdge}

-- A limit that is negative acts as 0 does: the counts it is compared with are not negative.
pub record SpawnPolicy : Type 0 where
  pub max_depth : ℕ
  pub max_children : ℕ

pub data SpawnReason : Type 0 where
  spawn_ok max_children_exceeded max_depth_exceeded : SpawnReason

pub record SpawnPolicyDecision : Type 0 where
  pub allowed : Bool
  pub reason : SpawnReason
  pub parent_depth : ℕ
  pub existing_children : ℕ

-- `max` over a column, 0 where there is no row
unfoldable pub deepest : List SubagentEdge → ℕ
deepest [] = 0
deepest (e ∷ es) = let rest = deepest es in max_of e.depth rest

abbrev pub is_child_of : Uuid → Uuid → SubagentEdge → Bool
is_child_of run_id parent e = (e.run_id == run_id) && (e.parent_agent_id == parent)

abbrev pub is_edge_to : Uuid → Uuid → SubagentEdge → Bool
is_edge_to run_id agent e = (e.run_id == run_id) && (e.child_agent_id == agent)

unfoldable pub evaluate_spawn_policy :
    Engine → List SubagentEdge → Uuid → Uuid → SpawnPolicy → SpawnPolicyDecision
unfolding deepest
evaluate_spawn_policy db table run_id parent policy =
    let existing_children = length (db.select SubagentEdge (is_child_of run_id parent) table) in
    let parent_depth = deepest (db.select SubagentEdge (is_edge_to run_id parent) table) in
    let next_depth = parent_depth + 1 in
    if leb policy.max_children existing_children
    then record {
      allowed = false;
      reason = max_children_exceeded;
      parent_depth = parent_depth;
      existing_children = existing_children;
    }
    else if ltb policy.max_depth next_depth
    then record {
      allowed = false;
      reason = max_depth_exceeded;
      parent_depth = parent_depth;
      existing_children = existing_children;
    }
    else record {
      allowed = true;
      reason = spawn_ok;
      parent_depth = parent_depth;
      existing_children = existing_children;
    }

deepest-below :
    (m : ℕ) (es : List SubagentEdge)
    → (ltb m (deepest es + 1) ≡ false)
      ↔ ((1 ≤ m) × (count (λ (e : SubagentEdge). leb m e.depth) es ≡ 0))
unfolding deepest
deepest-below m [] = ground arith
deepest-below m (e ∷ es) = ground (arith, deepest-below m es)

-- A spawn is allowed exactly if the parent has fewer children in the run than the policy allows, some
-- depth is allowed, and every edge of the run that leads to the parent lies above the deepest level. The
-- number of children that is reported is the number of those edges in the table.
pub spawn_iff :
    (db : Engine) (table : List SubagentEdge) (run_id parent : Uuid) (policy : SpawnPolicy)
    → let decision = evaluate_spawn_policy db table run_id parent policy in
      ((decision.allowed ≡ true) ↔ (
        (count (is_child_of run_id parent) table < policy.max_children)
        × (1 ≤ policy.max_depth)
        × (count (λ e. is_edge_to run_id parent e && leb policy.max_depth e.depth) table ≡ 0)))
      × (decision.existing_children ≡ count (is_child_of run_id parent) table)
unfolding evaluate_spawn_policy
spawn_iff db table run_id parent policy =
    let children = length-select db (is_child_of run_id parent) table in
    let above =
      count-select db (λ (e : SubagentEdge). leb policy.max_depth e.depth)
        (is_edge_to run_id parent) table in
    let depth =
      deepest-below policy.max_depth (db.select SubagentEdge (is_edge_to run_id parent) table) in
    (ground (arith, children, above, depth), ground (arith, children))
