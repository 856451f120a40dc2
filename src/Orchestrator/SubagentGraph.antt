-- ===== src/Orchestrator/SubagentGraph.antt =====
-- app/orchestrator/subagent_graph.py
pub mod Walk
pub mod Search
pub mod Acyclic
use why_combinator.Prelude.{
  ℕ, zero, suc, ◌+◌, ◌≡◌, Bool, true, false, not, ◌&&◌, ◌||◌, Option, none, some, List, [], ◌∷◌,
  ◌++◌, if◌then◌else◌, ◌==◌, nat_has_eq, contains, length, any, Outcome, ok, raise,
}
use why_combinator.Platform.Sql.{Engine}
use why_combinator.Db.Models.{Uuid, SubagentEdge}

-- `dict[UUID, set[UUID]]`; a set is the list of its members, each once.
abbrev pub Adjacency : Type 0
Adjacency = List (Uuid × List Uuid)

-- `adjacency[parent].add(child)` on a `defaultdict(set)`
pub add_child : Adjacency → Uuid → Uuid → Adjacency
add_child [] parent child = (parent, child ∷ []) ∷ []
add_child ((k, children) ∷ rest) parent child =
    if k == parent
    then (k, if contains children child then children else children ++ child ∷ []) ∷ rest
    else (k, children) ∷ add_child rest parent child

-- `adjacency.get(node, set())`
pub neighbors : Adjacency → Uuid → List Uuid
neighbors [] node = []
neighbors ((k, children) ∷ rest) node = if k == node then children else neighbors rest node

pub add_edges : Adjacency → List SubagentEdge → Adjacency
unfolding add_child
add_edges adjacency [] = adjacency
add_edges adjacency (edge ∷ edges) =
    add_edges (add_child adjacency edge.parent_agent_id edge.child_agent_id) edges

abbrev pub of_run : Uuid → SubagentEdge → Bool
of_run run_id edge = edge.run_id == run_id

unfoldable pub build_adjacency : Engine → List SubagentEdge → Uuid → Adjacency
unfolding add_edges
build_adjacency db table run_id = add_edges [] (db.select SubagentEdge (of_run run_id) table)

-- The `while queue` loop, with fuel; `none` means that it ran out.
pub search : ℕ → Adjacency → Uuid → List Uuid → List Uuid → Option Bool
search fuel adjacency target [] visited = some false
search zero adjacency target (node ∷ queue) visited = none
search (suc fuel) adjacency target (node ∷ queue) visited =
    let again = search fuel adjacency target queue visited in
    let deeper =
      search fuel adjacency target (queue ++ neighbors adjacency node) (node ∷ visited) in
    if node == target then some true else if contains visited node then again else deeper

-- The members of all sets: each is put on the queue at most once for its key.
pub size : Adjacency → ℕ
size [] = 0
size ((k, children) ∷ rest) = length children + size rest

abbrev pub search_fuel : Adjacency → ℕ
search_fuel adjacency = suc (size adjacency)

unfoldable pub has_path : Adjacency → Uuid → Uuid → Bool
unfolding search size neighbors
has_path adjacency start target =
    elim (search (search_fuel adjacency) adjacency target (start ∷ []) []) [
      | some found ↦ found
      | none ↦ false
    ]

pub data SubagentGraphError : Type 0 where
  -- SubagentGraphValidationError, with either of its messages
  self_referential would_introduce_cycle : SubagentGraphError
  -- the flush breaks UniqueConstraint("run_id", "parent_agent_id", "child_agent_id"), or a foreign key
  integrity_error : SubagentGraphError

abbrev pub same_edge : Uuid → Uuid → Uuid → SubagentEdge → Bool
same_edge run_id parent child edge =
    edge.run_id == run_id && (edge.parent_agent_id == parent && edge.child_agent_id == child)

-- The foreign keys of an edge: `runs` and `agents` are the ids of the stored runs and agents.
abbrev pub refers : (runs agents : List Uuid) → SubagentEdge → Bool
refers runs agents edge =
    contains runs edge.run_id
    && (contains agents edge.parent_agent_id && contains agents edge.child_agent_id)

unfoldable pub persist_subagent_edge :
    Engine
    → (runs agents : List Uuid) → List SubagentEdge
    → Uuid
    → Uuid
    → Uuid
    → ℕ
    → Outcome SubagentGraphError (SubagentEdge × List SubagentEdge)
persist_subagent_edge db runs agents table run_id parent child depth =
    let edge : SubagentEdge = record {
      run_id = run_id;
      parent_agent_id = parent;
      child_agent_id = child;
      depth = depth;
    } in
    if parent == child
    then raise self_referential
    else if has_path (build_adjacency db table run_id) child parent
    then raise would_introduce_cycle
    else if any (same_edge run_id parent child) table || not (refers runs agents edge)
    then raise integrity_error
    else ok (edge, table ++ edge ∷ [])
