-- ===== src/Tests/Layering.antt =====
-- A script's nodes and edges at concrete ids.
use nano_symphony.Common.{String, ◌≡◌, refl, ◌⊎◌, inl, inr, some, List, [], ◌∷◌}
use nano_symphony.Plan.Dag.{
  DagEdge, DagError, dag_layers, first_duplicate, add_edges, add_edge, layers_from, relax_layer,
  relax_all, relax, visit_all, check_cycle,
}
use nano_symphony.Plan.Dag.Stuck.{IsStuck}
use nano_symphony.Plan.Dag.Laws.{
  IsLayering, dag_layers-total, dag_layers-IsLayering, dag_layers-IsStuck,
}

abbrev to : String → String → DagEdge
to a b = record { from = a; to = b }

abbrev ids : List String
ids = "c" ∷ "a" ∷ "b" ∷ []

-- c comes after b, and b after a
abbrev in_a_row : List DagEdge
in_a_row = to "b" "c" ∷ to "a" "b" ∷ []

-- a and b wait for each other
abbrev around : List DagEdge
around = to "a" "b" ∷ to "b" "a" ∷ to "b" "c" ∷ []

dag_layers-run : dag_layers ids in_a_row ≡ some (inr (("a" ∷ []) ∷ ("b" ∷ []) ∷ ("c" ∷ []) ∷ []))
unfolding dag_layers first_duplicate add_edges add_edge layers_from relax_layer relax_all relax
    visit_all check_cycle
dag_layers-run = refl

dag_layers-around : dag_layers ids around ≡ some (inl (DagError.cycle_detected ids))
unfolding dag_layers first_duplicate add_edges add_edge layers_from relax_layer relax_all relax
    visit_all check_cycle
dag_layers-around = refl

dag_layers-total_example : (a : DagError ⊎ List (List String)) × (dag_layers ids around ≡ some a)
dag_layers-total_example = dag_layers-total ids around

dag_layers-IsLayering_example : IsLayering ids in_a_row (("a" ∷ []) ∷ ("b" ∷ []) ∷ ("c" ∷ []) ∷ [])
dag_layers-IsLayering_example =
    dag_layers-IsLayering ids in_a_row (("a" ∷ []) ∷ ("b" ∷ []) ∷ ("c" ∷ []) ∷ []) dag_layers-run

dag_layers-IsStuck_example : IsStuck around ids
dag_layers-IsStuck_example = dag_layers-IsStuck ids around ids dag_layers-around
