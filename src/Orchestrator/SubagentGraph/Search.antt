-- ===== src/Orchestrator/SubagentGraph/Search.antt =====
-- `_has_path` decides whether a walk exists, and its loop ends.
use why_combinator.Prelude.{
  ℕ, zero, suc, ◌+◌, ◌≤◌, ◌≡◌, ◌↔◌, inl, inr, refl, Bool, true, false, ◌||◌, some, List, [], ◌∷◌,
  ◌++◌, arith, if◌then◌else◌, ◌==◌, nat_has_eq, contains, length, length-append, contains-append,
  Bool-cases,
}
use why_combinator.Db.Models.{Uuid}
use why_combinator.Orchestrator.SubagentGraph.{
  Adjacency, neighbors, search, size, search_fuel, has_path,
}
use why_combinator.Orchestrator.SubagentGraph.Walk.{Edges, Reach, here, step}

abbrev pub edges_of : Adjacency → Edges
edges_of adjacency u v = contains (neighbors adjacency u) v

-- The set members whose key is still to be visited.
pending : Adjacency → List Uuid → ℕ
pending [] visited = 0
pending ((k, children) ∷ rest) visited =
    (if contains visited k then 0 else length children) + pending rest visited

pending-nil : (adjacency : Adjacency) → pending adjacency [] ≡ size adjacency
unfolding pending size
pending-nil [] = refl
pending-nil ((k, children) ∷ rest) = omega (arith, pending-nil rest)

pending_mono :
    (adjacency : Adjacency) (node : Uuid) (visited : List Uuid)
    → pending adjacency (node ∷ visited) ≤ pending adjacency visited
unfolding pending
pending_mono [] node visited = omega arith
pending_mono ((k, children) ∷ rest) node visited = ground (arith, pending_mono rest node visited)

pending-visit :
    (adjacency : Adjacency) (node : Uuid) (visited : List Uuid)
    → contains visited node ≡ false
    → pending adjacency (node ∷ visited) + length (neighbors adjacency node)
      ≤ pending adjacency visited
unfolding pending neighbors
pending-visit [] node visited h = omega arith
pending-visit ((k, children) ∷ rest) node visited h =
    ground (arith, pending_mono rest node visited, pending-visit rest node visited h)

module _ (adjacency : Adjacency) (target : Uuid) where
  search_ends :
      (fuel : ℕ) (queue visited : List Uuid)
      → length queue + pending adjacency visited ≤ fuel
      → (found : Bool) × (search fuel adjacency target queue visited ≡ some found)
  unfolding search
  search_ends fuel [] visited h = (false, refl)
  search_ends zero (node ∷ queue) visited h = absurd (omega arith)
  search_ends (suc fuel) (node ∷ queue) visited h = elim (Bool-cases (node == target)) [
    | inl e ↦ (true, rw e)
    | inr other ↦ elim (Bool-cases (contains visited node)) [
      | inl old ↦ rw (other, old) (search_ends fuel queue visited (omega arith))
      | inr new ↦
          rw (other, new)
            (search_ends fuel (queue ++ neighbors adjacency node) (node ∷ visited) (
              omega (
                arith,
                length-append queue (neighbors adjacency node),
                pending-visit adjacency node visited new,
              )))
    ]
  ]

  -- What is still to do: the start is on the way, and every edge out of a visited vertex is too.
  record Inv (start : Uuid) (queue visited : List Uuid) : Type 0 where
    reached : (u : Uuid) → contains queue u ≡ true → Reach (edges_of adjacency) start u
    source : (contains visited start || contains queue start) ≡ true
    absent : contains visited target ≡ false
    closed :
        (u v : Uuid)
        → contains visited u ≡ true
        → edges_of adjacency u v ≡ true
        → (contains visited v || contains queue v) ≡ true

  Inv-start : (start : Uuid) → Inv start (start ∷ []) []
  Inv-start start = record {
    reached = λ u h. let same : u ≡ start = ground arith in rw same here;
    source = ground arith;
    absent = refl;
    closed = λ u v h e. cc;
  }

  Inv-skip :
      (start node : Uuid) (queue visited : List Uuid)
      → contains visited node ≡ true
      → Inv start (node ∷ queue) visited
      → Inv start queue visited
  Inv-skip start node queue visited old i = record {
    reached = λ u h. i.reached u (ground arith);
    source = ground (arith, i.source);
    absent = i.absent;
    closed = λ u v h e. ground (arith, i.closed u v);
  }

  Inv-visit :
      (start node : Uuid) (queue visited : List Uuid)
      → (node == target) ≡ false
      → Inv start (node ∷ queue) visited
      → Inv start (queue ++ neighbors adjacency node) (node ∷ visited)
  Inv-visit start node queue visited other i = record {
    reached = λ u h. elim (Bool-cases (contains queue u)) [
      | inl waiting ↦ i.reached u (ground arith)
      | inr other ↦
          step (i.reached node (ground arith))
            (ground (arith, contains-append queue (neighbors adjacency node) u))
    ];
    source = ground (arith, i.source, contains-append queue (neighbors adjacency node) start);
    absent = ground (arith, i.absent);
    closed =
        λ u v h e. ground (arith, i.closed u v, contains-append queue (neighbors adjacency node) v);
  }

  visited_all :
      (start : Uuid) (visited : List Uuid)
      → Inv start [] visited
      → {v : Uuid} → Reach (edges_of adjacency) start v
      → contains visited v ≡ true
  visited_all start visited i here = ground (arith, i.source)
  visited_all start visited i (step {u} {v} r e) =
      ground (arith, i.closed u v (visited_all start visited i r) e)

  search_correct :
      (fuel : ℕ) (start : Uuid) (queue visited : List Uuid) (found : Bool)
      → Inv start queue visited
      → search fuel adjacency target queue visited ≡ some found
      → (found ≡ true) ↔ Reach (edges_of adjacency) start target
  unfolding search
  search_correct fuel start [] visited found i h =
      (λ e. cc, λ r. let v = visited_all start visited i r in cc (v, i.absent))
  search_correct zero start (node ∷ queue) visited found i h = cc
  search_correct (suc fuel) start (node ∷ queue) visited found i h =
      elim (Bool-cases (node == target)) [
        | inl e ↦
            let same : node ≡ target = ground arith in
            (λ _. rw same at (i.reached node (ground arith)), λ _. ground arith)
        | inr other ↦ elim (Bool-cases (contains visited node)) [
          | inl old ↦
              search_correct fuel start queue visited found
                (Inv-skip start node queue visited old i) (ground arith)
          | inr new ↦
              search_correct fuel start (queue ++ neighbors adjacency node) (node ∷ visited) found
                (Inv-visit start node queue visited other i) (ground arith)
        ]
      ]

has_path_eq :
    (adjacency : Adjacency) (start target : Uuid) (found : Bool)
    → search (search_fuel adjacency) adjacency target (start ∷ []) [] ≡ some found
    → has_path adjacency start target ≡ found
unfolding has_path
has_path_eq adjacency start target found e = rw (e, has_path)

-- `_has_path` returns, and says whether the adjacency has a walk (of any length, so also the empty
-- one) from the start to the target. The loop, which may look at a vertex again and again, ends
-- within one round more than there are entries in all sets together.
pub has_path_decides :
    (adjacency : Adjacency) (start target : Uuid)
    → (search (search_fuel adjacency) adjacency target (start ∷ []) []
        ≡ some (has_path adjacency start target))
      × ((has_path adjacency start target ≡ true) ↔ Reach (edges_of adjacency) start target)
has_path_decides adjacency start target =
    let (found, e) =
      search_ends adjacency target (search_fuel adjacency) (start ∷ []) []
        (omega (arith, pending-nil adjacency)) in
    let right =
      search_correct adjacency target (search_fuel adjacency) start (start ∷ []) [] found
        (Inv-start adjacency target start) e in
    let same = has_path_eq adjacency start target found e in (rw same e, rw same right)
