-- ===== src/Plan/Dag.antt =====
-- The layers in which a plan script's `dag` runs its nodes: the first half of runDag in
-- src/plan-runtime/runner.ts. A node enters by its id, a map from ids is a function, and a set is the list
-- of its elements.
pub mod Counts
pub mod Edges
pub mod Round
pub mod Loop
pub mod Stuck
pub mod Laws
use nano_symphony.Common.{
  ℕ, zero, suc, String, ◌⊎◌, inl, inr, Bool, true, false, not, Option, none, some, List, [], ◌∷◌,
  ◌++◌, map, ◌==◌, nat_eq, if◌then◌else◌, one_of, length, keep,
}
use nano_symphony.Common.Int.{ℤ, pos, negsuc}

pub record DagEdge : Type 0 where
  pub from : String
  pub to : String

-- what `dag` throws before it runs a node
pub data DagError : Type 0 where
  duplicate_node unknown_node : String → DagError
  cycle_detected : List String → DagError

-- `map.set(k, v)`
abbrev pub put {ℓ} : {A : Type ℓ} → String → A → (String → A) → String → A
put k v m j = if k == j then v else m j

abbrev pub add_one : ℤ → ℤ
add_one (pos n) = pos (suc n)
add_one (negsuc zero) = pos 0
add_one (negsuc (suc n)) = negsuc n

abbrev pub sub_one : ℤ → ℤ
sub_one (pos zero) = negsuc 0
sub_one (pos (suc n)) = pos n
sub_one (negsuc n) = negsuc (suc n)

abbrev pub is_zero : ℤ → Bool
is_zero (pos zero) = true
is_zero _ = false

pub record Graph : Type 0 where
  pub adj : String → List String
  pub in_degree : String → ℤ

-- The loop over the nodes, with those before: the first id that occurs again.
unfoldable pub first_duplicate : List String → List String → Option String
first_duplicate seen [] = none
first_duplicate seen (n ∷ ns) = if one_of n seen then some n else first_duplicate (n ∷ seen) ns

-- the maps when the nodes are entered
abbrev pub no_edges : Graph
no_edges = record { adj = λ _. []; in_degree = λ _. pos 0 }

unfoldable pub add_edge : DagEdge → Graph → Graph
add_edge e g = record {
  adj = put e.from (g.adj e.from ++ e.to ∷ []) g.adj;
  in_degree = put e.to (add_one (g.in_degree e.to)) g.in_degree;
}

unfoldable pub add_edges : List String → List DagEdge → Graph → DagError ⊎ Graph
unfolding add_edge
add_edges nodes [] g = inr g
add_edges nodes (e ∷ es) g =
    let rest = add_edges nodes es (add_edge e g) in
    if one_of e.from nodes
    then if one_of e.to nodes then rest else inl (DagError.unknown_node e.to)
    else inl (DagError.unknown_node e.from)

-- the in-degrees that are left, and the next layer
pub record Frontier : Type 0 where
  pub in_degree : String → ℤ
  pub next_layer : List String

unfoldable pub relax : String → Frontier → Frontier
relax to f =
    let new_degree = sub_one (f.in_degree to) in
    record {
      in_degree = put to new_degree f.in_degree;
      next_layer = if is_zero new_degree then f.next_layer ++ to ∷ [] else f.next_layer;
    }

unfoldable pub relax_all : List String → Frontier → Frontier
unfolding relax
relax_all [] f = f
relax_all (to ∷ ts) f = relax_all ts (relax to f)

unfoldable pub relax_layer : (String → List String) → List String → Frontier → Frontier
unfolding relax_all
relax_layer adj [] f = f
relax_layer adj (id ∷ ids) f = relax_layer adj ids (relax_all (adj id) f)

unfoldable pub visit_all : List String → List String → List String
visit_all [] visited = visited
visit_all (id ∷ ids) visited = visit_all ids (if one_of id visited then visited else id ∷ visited)

-- what the loop over the layers leaves
pub data Layering : Type 0 where
  layered : List (List String) → List String → Layering
  out_of_fuel : Layering

abbrev pub above : List String → Layering → Layering
above layer (layered ls visited) = layered (layer ∷ ls) visited
above layer out_of_fuel = out_of_fuel

unfoldable pub layers_from :
    ℕ → (String → List String) → (String → ℤ) → List String → List String → Layering
unfolding relax_layer visit_all
layers_from fuel adj in_degree visited [] = layered [] visited
layers_from zero adj in_degree visited (id ∷ ids) = out_of_fuel
layers_from (suc fuel) adj in_degree visited (id ∷ ids) =
    let f = relax_layer adj (id ∷ ids) (record { in_degree = in_degree; next_layer = [] }) in
    above (id ∷ ids) (layers_from fuel adj f.in_degree (visit_all (id ∷ ids) visited) f.next_layer)

abbrev pub first_layer : List String → (String → ℤ) → List String
first_layer nodes in_degree = keep (λ n. is_zero (in_degree n)) nodes

abbrev pub unvisited : List String → List String → List String
unvisited visited nodes = keep (λ n. not (one_of n visited)) nodes

-- the test on `visited.size`; no answer stands for a loop that ran out of fuel
unfoldable pub check_cycle : List String → Layering → Option (DagError ⊎ List (List String))
check_cycle nodes (layered ls visited) = some (
    if nat_eq (length visited) (length nodes)
    then inr ls
    else inl (DagError.cycle_detected (unvisited visited nodes)))
check_cycle nodes out_of_fuel = none

abbrev pub kahn : List String → Graph → Layering
kahn nodes g = layers_from (suc (length nodes)) g.adj g.in_degree [] (first_layer nodes g.in_degree)

abbrev pub layers_with : List String → DagError ⊎ Graph → Option (DagError ⊎ List (List String))
layers_with nodes (inl e) = some (inl e)
layers_with nodes (inr g) = check_cycle nodes (kahn nodes g)

abbrev pub layers_unless :
    List String → List DagEdge → Option String → Option (DagError ⊎ List (List String))
layers_unless nodes edges (some id) = some (inl (DagError.duplicate_node id))
layers_unless nodes edges none = layers_with nodes (add_edges nodes edges no_edges)

unfoldable pub dag_layers : List String → List DagEdge → Option (DagError ⊎ List (List String))
unfolding first_duplicate add_edges layers_from check_cycle
dag_layers nodes edges = layers_unless nodes edges (first_duplicate [] nodes)
