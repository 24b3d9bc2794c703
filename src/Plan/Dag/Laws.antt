-- ===== src/Plan/Dag/Laws.antt =====
-- What runDag in src/plan-runtime/runner.ts makes of the nodes and edges that a script gives it.
use nano_symphony.Common.{
  suc, String, ◌≡◌, refl, sym, ap, ◌∙◌, subst, ◌⊎◌, inl, inr, Option, none, some, List, [], ◌∷◌,
  arith, nat_eq, nat_eq_iff, Bool-cases, Option-cases, one_of, length,
}
use nano_symphony.Plan.Dag.{
  DagEdge, DagError, Frontier, Graph, no_edges, first_duplicate, add_edge, add_edges, kahn,
  check_cycle, unvisited, dag_layers,
}
use nano_symphony.Plan.Dag.Counts.{occ, occ_eq_of_length}
use nano_symphony.Plan.Dag.Edges.{IsKnown, Gains, add_edges-Gains}
use nano_symphony.Plan.Dag.Round.{occ-visited, length-visited}
use nano_symphony.Plan.Dag.Loop.{InOrder, flatten, Ends, layers_from-Ends}
use nano_symphony.Plan.Dag.Stuck.{IsStuck, occ_unique, Inv-start, unvisited-IsStuck}

-- The layers hold the nodes as often as they are listed, and an edge leads from a layer to a later one.
abbrev pub IsLayering : List String → List DagEdge → List (List String) → Type 0
IsLayering nodes edges layers =
    InOrder edges [] layers × ((id : String) → occ id (flatten layers) ≡ occ id nodes)

-- what `dag` does before it runs a node
pub data Outcome (nodes : List String) (edges : List DagEdge)
    : Option (DagError ⊎ List (List String)) → Type 0 where
  repeated : (id : String) → Outcome nodes edges (some (inl (DagError.duplicate_node id)))
  unknown : (id : String) → Outcome nodes edges (some (inl (DagError.unknown_node id)))
  stuck :
      (ids : List String)
      → IsStuck edges ids
      → Outcome nodes edges (some (inl (DagError.cycle_detected ids)))
  ran :
      (layers : List (List String))
      → IsLayering nodes edges layers
      → Outcome nodes edges (some (inr layers))

sum-cases : (r : DagError ⊎ Graph) → ((x : DagError) × (r ≡ inl x)) ⊎ ((g : Graph) × (r ≡ inr g))
sum-cases (inl x) = inl (x, refl)
sum-cases (inr g) = inr (g, refl)

error_or : DagError → DagError ⊎ Graph → DagError
error_or x (inl y) = y
error_or x (inr g) = x

accepted_none : (g : Graph) (x : DagError) → inr g ≡ inl x → ⊥
accepted_none g x h = cc

-- The only errors of the edges are unknown ends.
add_edges-unknown :
    (nodes : List String) (es : List DagEdge) (g : Graph) (x : DagError)
    → add_edges nodes es g ≡ inl x
    → (id : String) × (x ≡ DagError.unknown_node id)
unfolding add_edges error_or
add_edges-unknown nodes [] g x h = absurd (accepted_none g x h)
add_edges-unknown nodes (e ∷ es) g x h = elim (Bool-cases (one_of e.from nodes)) [
  | inl a ↦ elim (Bool-cases (one_of e.to nodes)) [
    | inl b ↦ add_edges-unknown nodes es (add_edge e g) x (rw (a, b) at h)
    | inr b ↦ (e.to, sym (ap (error_or x) (rw (a, b) at h)))
  ]
  | inr a ↦ (e.from, sym (ap (error_or x) (rw a at h)))
]

module _ (nodes : List String) (edges : List DagEdge) (g : Graph)
    (unique : first_duplicate [] nodes ≡ none)
    (accepted : add_edges nodes edges no_edges ≡ inr g) where
  known : IsKnown nodes edges
  known = (add_edges-Gains nodes edges no_edges g accepted).0

  gains : Gains edges no_edges g
  gains = (add_edges-Gains nodes edges no_edges g accepted).1

  kahn-Ends : Ends nodes edges g.adj [] (kahn nodes g)
  unfolding occ
  kahn-Ends =
      layers_from-Ends nodes edges g.adj known (λ p v. gains.targets p v ∙ omega arith)
        (suc (length nodes)) g.in_degree [] _ (omega arith) (Inv-start nodes edges g unique gains)

  check_cycle-Outcome : Outcome nodes edges (check_cycle nodes (kahn nodes g))
  unfolding check_cycle occ
  check_cycle-Outcome =
      let e = kahn-Ends in
      let start : Frontier = record { in_degree = e.degrees; next_layer = [] } in
      let at_most = occ-visited nodes edges g.adj e.visited [] start e.complete in
      let shorter = length-visited nodes edges g.adj e.visited [] start e.complete in
      rw e.result (elim (Bool-cases (nat_eq (length e.visited) (length nodes))) [
        | inl same ↦
            let all_places = occ_eq_of_length e.visited nodes at_most ((nat_eq_iff _ _).0 same) in
            rw same (ran e.layers (e.in_order, λ id. omega (arith, e.counted id, all_places id)))
        | inr differ ↦ rw differ (
            stuck (unvisited e.visited nodes) (
              unvisited-IsStuck nodes e.visited edges g.adj e.degrees known
                (λ v. occ_unique nodes v unique) e.complete shorter (λ same. ground arith)))
      ])

-- `dag` always ends its search for layers: it refuses ids that are repeated or unknown, or it reports nodes each of
-- which waits for one of them, or it has layers that hold every node once, each after the layers with its predecessors.
pub dag_layers-Outcome :
    (nodes : List String) (edges : List DagEdge) → Outcome nodes edges (dag_layers nodes edges)
unfolding dag_layers
dag_layers-Outcome nodes edges = elim (Option-cases (first_duplicate [] nodes)) [
  | inr (id, e) ↦ rw e (repeated id)
  | inl e ↦ elim (sum-cases (add_edges nodes edges no_edges)) [
    | inl (x, f) ↦
        let (id, same) = add_edges-unknown nodes edges no_edges x f in rw (e, f, same) (unknown id)
    | inr (g, f) ↦ rw (e, f) (check_cycle-Outcome nodes edges g e f)
  ]
]

layers_or : List (List String) → Option (DagError ⊎ List (List String)) → List (List String)
layers_or ls (some (inr layers)) = layers
layers_or ls _ = ls

ids_or : List String → Option (DagError ⊎ List (List String)) → List String
ids_or us (some (inl (DagError.cycle_detected ids))) = ids
ids_or us _ = us

module _ (nodes : List String) (edges : List DagEdge) where
  answered :
      {r : Option (DagError ⊎ List (List String))}
      → Outcome nodes edges r
      → (a : DagError ⊎ List (List String)) × (r ≡ some a)
  answered (repeated id) = (_, refl)
  answered (unknown id) = (_, refl)
  answered (stuck ids h) = (_, refl)
  answered (ran layers h) = (_, refl)

  Outcome-IsLayering :
      {r : Option (DagError ⊎ List (List String))} (layers : List (List String))
      → Outcome nodes edges r
      → r ≡ some (inr layers)
      → IsLayering nodes edges layers
  unfolding layers_or
  Outcome-IsLayering layers (repeated id) e = cc
  Outcome-IsLayering layers (unknown id) e = cc
  Outcome-IsLayering layers (stuck ids h) e = cc
  Outcome-IsLayering layers (ran ls h) e =
      subst (λ l. IsLayering nodes edges l) (ap (layers_or layers) e) h

  Outcome-IsStuck :
      {r : Option (DagError ⊎ List (List String))} (ids : List String)
      → Outcome nodes edges r
      → r ≡ some (inl (DagError.cycle_detected ids))
      → IsStuck edges ids
  unfolding ids_or
  Outcome-IsStuck ids (repeated id) e = cc
  Outcome-IsStuck ids (unknown id) e = cc
  Outcome-IsStuck ids (stuck us h) e = subst (λ l. IsStuck edges l) (ap (ids_or ids) e) h
  Outcome-IsStuck ids (ran ls h) e = cc

-- Whatever nodes and edges a script gives, the loop over the layers ends within the rounds that it has: there is an answer.
pub dag_layers-total :
    (nodes : List String) (edges : List DagEdge)
    → (a : DagError ⊎ List (List String)) × (dag_layers nodes edges ≡ some a)
dag_layers-total nodes edges = answered nodes edges (dag_layers-Outcome nodes edges)

-- When `dag` has layers, every id stands in them as often as in the list of nodes, and all nodes with an
-- edge to a node of a layer stand in earlier layers.
pub dag_layers-IsLayering :
    (nodes : List String) (edges : List DagEdge) (layers : List (List String))
    → dag_layers nodes edges ≡ some (inr layers)
    → IsLayering nodes edges layers
dag_layers-IsLayering nodes edges layers =
    Outcome-IsLayering nodes edges layers (dag_layers-Outcome nodes edges)

-- When `dag` reports a cycle, it names at least one node, and each node that it names has an edge from one that it
-- names: from another one of them, or from itself.
pub dag_layers-IsStuck :
    (nodes : List String) (edges : List DagEdge) (ids : List String)
    → dag_layers nodes edges ≡ some (inl (DagError.cycle_detected ids))
    → IsStuck edges ids
dag_layers-IsStuck nodes edges ids =
    Outcome-IsStuck nodes edges ids (dag_layers-Outcome nodes edges)
