-- ===== src/Orchestrator/SubagentGraph/Acyclic.antt =====
-- `persist_subagent_edge` keeps every run's graph free of cycles, and which edges it persists.
use mathlib.Core.Path.{fun_ext}
use why_combinator.Prelude.{
  ℕ, ◌≡◌, ◌≢◌, ◌↔◌, inl, inr, ◌∙◌, sym, subst, Bool, true, false, ◌&&◌, ◌||◌, List, [], ◌∷◌, ◌++◌,
  arith, ◌==◌, nat_has_eq, contains, contains-append, any, any-append, Bool-cases, ok, ==_false,
}
use why_combinator.Platform.Sql.{Engine, any-select}
use why_combinator.Db.Models.{Uuid, SubagentEdge}
use why_combinator.Orchestrator.SubagentGraph.{
  Adjacency, add_child, add_edges, neighbors, build_adjacency, has_path, same_edge, of_run,
  persist_subagent_edge,
}
use why_combinator.Orchestrator.SubagentGraph.Walk.{
  Edges, Reach, here, IsAcyclic, plus, plus-IsAcyclic, IsAcyclic-plus,
}
use why_combinator.Orchestrator.SubagentGraph.Search.{edges_of, has_path_decides}

edges_of-add_child :
    (adjacency : Adjacency) (p c u v : Uuid)
    → edges_of (add_child adjacency p c) u v ≡ plus (edges_of adjacency) p c u v
unfolding add_child neighbors
edges_of-add_child [] p c u v = ground arith
edges_of-add_child ((k, children) ∷ rest) p c u v =
    ground (arith, edges_of-add_child rest p c u v, contains-append children (c ∷ []) v)

abbrev leads : Uuid → Uuid → SubagentEdge → Bool
leads u v edge = edge.parent_agent_id == u && edge.child_agent_id == v

edges_of-add_edges :
    (adjacency : Adjacency) (edges : List SubagentEdge) (u v : Uuid)
    → edges_of (add_edges adjacency edges) u v ≡ (edges_of adjacency u v || any (leads u v) edges)
unfolding add_edges
edges_of-add_edges adjacency [] u v = ground arith
edges_of-add_edges adjacency (e ∷ edges) u v = ground (
  arith,
  edges_of-add_edges (add_child adjacency e.parent_agent_id e.child_agent_id) edges u v,
  edges_of-add_child adjacency e.parent_agent_id e.child_agent_id u v,
)

-- The graph of a run, read off the table.
abbrev pub graph : Uuid → List SubagentEdge → Edges
graph run_id table u v = any (same_edge run_id u v) table

-- The adjacency holds the edges of the run, in whatever order the database returns its rows.
pub edges_of-build_adjacency :
    (db : Engine) (table : List SubagentEdge) (run_id u v : Uuid)
    → edges_of (build_adjacency db table run_id) u v ≡ graph run_id table u v
unfolding build_adjacency neighbors
edges_of-build_adjacency db table run_id u v =
    edges_of-add_edges [] (db.select SubagentEdge (of_run run_id) table) u v
    ∙ any-select db (leads u v) (of_run run_id) table

graph-append_same :
    (table : List SubagentEdge) (e : SubagentEdge)
    → graph e.run_id (table ++ e ∷ [])
      ≡ plus (graph e.run_id table) e.parent_agent_id e.child_agent_id
graph-append_same table e =
    fun_ext λ u. fun_ext λ v. ground (arith, any-append (same_edge e.run_id u v) table (e ∷ []))

graph-append_other :
    (table : List SubagentEdge) (e : SubagentEdge) (r : Uuid)
    → e.run_id ≢ r
    → graph r (table ++ e ∷ []) ≡ graph r table
graph-append_other table e r h =
    fun_ext λ u. fun_ext λ v. ground (arith, any-append (same_edge r u v) table (e ∷ []))

abbrev new_edge : Uuid → Uuid → Uuid → ℕ → SubagentEdge
new_edge run_id parent child depth = record {
  run_id = run_id;
  parent_agent_id = parent;
  child_agent_id = child;
  depth = depth;
}

module _ (db : Engine) (runs agents : List Uuid) (table : List SubagentEdge)
    (run_id parent child : Uuid) (depth : ℕ) where
  path_iff :
      (has_path (build_adjacency db table run_id) child parent ≡ true)
      ↔ Reach (graph run_id table) child parent
  path_iff =
      let same : edges_of (build_adjacency db table run_id) ≡ graph run_id table =
        fun_ext λ u. fun_ext λ v. edges_of-build_adjacency db table run_id u v in
      rw same at (has_path_decides (build_adjacency db table run_id) child parent).1

  abbrev new : SubagentEdge
  new = new_edge run_id parent child depth

  persist_cases :
      {edge : SubagentEdge} {table' : List SubagentEdge}
      → persist_subagent_edge db runs agents table run_id parent child depth ≡ ok (edge, table')
      → (parent ≢ child)
        × (has_path (build_adjacency db table run_id) child parent ≡ false)
        × (edge ≡ new)
        × (table' ≡ table ++ new ∷ [])
        × (graph run_id table parent child ≡ false)
        × (contains runs run_id ≡ true)
        × (contains agents parent ≡ true)
        × (contains agents child ≡ true)
  unfolding persist_subagent_edge
  persist_cases h = ground arith

  -- An edge that is persisted brings no cycle into the graph of any run, whatever order the database
  -- returns its rows in.
  pub persist-IsAcyclic :
      (r : Uuid) {edge : SubagentEdge} {table' : List SubagentEdge}
      → IsAcyclic (graph r table)
      → persist_subagent_edge db runs agents table run_id parent child depth ≡ ok (edge, table')
      → IsAcyclic (graph r table')
  persist-IsAcyclic r acyclic h =
      let (_, apart, _, same, _, _, _, _) = persist_cases h in
      let no_walk : ¬ Reach (graph run_id table) child parent = λ w. cc (path_iff.1 w) in
      rw same (elim (Bool-cases (run_id == r)) [
        | inl e ↦
            let e' : r ≡ run_id = ground arith in
            let before : IsAcyclic (graph run_id table) =
              subst (λ x. IsAcyclic (graph x table)) e' acyclic in
            let after : IsAcyclic (graph run_id (table ++ new ∷ [])) =
              subst IsAcyclic (sym (graph-append_same table new)) (plus-IsAcyclic before no_walk) in
            subst (λ x. IsAcyclic (graph x (table ++ new ∷ []))) (sym e') after
        | inr other ↦ subst IsAcyclic (sym (graph-append_other table new r (ground arith))) acyclic
      ])

  accepted :
      parent ≢ child
      → has_path (build_adjacency db table run_id) child parent ≡ false
      → graph run_id table parent child ≡ false
      → contains runs run_id ≡ true
      → contains agents parent ≡ true
      → contains agents child ≡ true
      → persist_subagent_edge db runs agents table run_id parent child depth
        ≡ ok (new, table ++ new ∷ [])
  unfolding persist_subagent_edge
  accepted differ apart fresh r p c = rw (==_false parent child differ, apart, fresh, r, p, c)

  -- Where the graph of the run has no cycle, an edge is persisted exactly if the graph with that edge has no
  -- cycle either, the edge is not there yet, and its run and both of its agents are stored.
  pub persist_iff :
      IsAcyclic (graph run_id table)
      → (persist_subagent_edge db runs agents table run_id parent child depth
          ≡ ok (new, table ++ new ∷ []))
        ↔ (IsAcyclic (graph run_id (table ++ new ∷ []))
            × (graph run_id table parent child ≡ false)
            × (contains runs run_id ≡ true)
            × (contains agents parent ≡ true)
            × (contains agents child ≡ true))
  persist_iff acyclic = (
    λ h.
        let (_, _, _, _, fresh, r, p, c) = persist_cases h in
        (persist-IsAcyclic run_id acyclic h, fresh, r, p, c),
    λ (wide, fresh, r, p, c).
        let apart = IsAcyclic-plus (subst IsAcyclic (graph-append_same table new) wide) in
        accepted (λ same. apart (rw same here))
          (elim (Bool-cases (has_path (build_adjacency db table run_id) child parent)) [
            | inl walk ↦ absurd (apart (path_iff.0 walk))
            | inr no_walk ↦ no_walk
          ])
          fresh r p c,
  )
