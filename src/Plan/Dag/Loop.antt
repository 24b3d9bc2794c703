-- ===== src/Plan/Dag/Loop.antt =====
-- The loop over the layers of runDag in src/plan-runtime/runner.ts.
use nano_symphony.Common.{
  ℕ, zero, suc, ◌+◌, ◌<◌, String, ◌≡◌, refl, ap, inl, inr, Bool, true, ◌&&◌, ◌||◌, not, List, [],
  ◌∷◌, ◌++◌, arith, ◌==◌, eq_refl, nat_eq, Bool-cases, one_of, length, all, All,
}
use nano_symphony.Common.Int.{ℤ}
use nano_symphony.Plan.Dag.{
  DagEdge, Frontier, relax_layer, visit_all, Layering, layered, above, layers_from,
}
use nano_symphony.Plan.Dag.Counts.{one_if, occ, occ-append}
use nano_symphony.Plan.Dag.Edges.{left, between, IsKnown}
use nano_symphony.Plan.Dag.Round.{Inv, Inv-layer, Inv-next, length-visited}

-- every edge into the node comes from one of the list
abbrev pub is_ready : List DagEdge → List String → String → Bool
is_ready edges seen v = all (λ e. not (e.to == v) || one_of e.from seen) edges

-- Each layer is ready once those before it are visited.
abbrev pub InOrder : List DagEdge → List String → List (List String) → Type 0
InOrder edges seen [] = Unit
InOrder edges seen (layer ∷ layers) =
    All (λ v. is_ready edges seen v ≡ true) layer × InOrder edges (visit_all layer seen) layers

unfoldable pub flatten : List (List String) → List String
flatten [] = []
flatten (layer ∷ layers) = layer ++ flatten layers

left-is_ready :
    (edges : List DagEdge) (seen : List String) (v : String)
    → left edges seen v ≡ 0
    → is_ready edges seen v ≡ true
unfolding left
left-is_ready [] seen v h = refl
left-is_ready (e ∷ es) seen v h = elim (Bool-cases (e.to == v)) [
  | inl a ↦ elim (Bool-cases (one_of e.from seen)) [
    | inl b ↦ ground (arith, a, b, left-is_ready es seen v)
    | inr b ↦ ground (arith, a, b)
  ]
  | inr a ↦ ground (arith, a, left-is_ready es seen v)
]

pub All-occ {κ} :
    (P : String → Type κ) (xs : List String) → ((v : String) → 0 < occ v xs → P v) → All P xs
unfolding occ
All-occ P [] h = tt
All-occ P (x ∷ xs) h =
    (h x (ground (arith, eq_refl x)), All-occ P xs (λ v k. h v (omega (arith, k))))

owes_none :
    (before here next owed : ℕ) (is_node : Bool)
    → before + here + next ≡ one_if (is_node && nat_eq owed 0)
    → 0 < here
    → owed ≡ 0
owes_none before here next owed is_node h k = ground arith

module _ (nodes : List String) (es : List DagEdge) (adj : String → List String) where
  abbrev start : (String → ℤ) → Frontier
  start degree = record { in_degree = degree; next_layer = [] }

  All-is_ready :
      (seen layer : List String) (degree : String → ℤ)
      → Inv nodes es adj seen layer (start degree)
      → All (λ v. is_ready es seen v ≡ true) layer
  All-is_ready seen layer degree h =
      All-occ (λ v. is_ready es seen v ≡ true) layer
        (λ v k. left-is_ready es seen v (owes_none _ _ _ _ _ (h.places v) k))

  -- what the loop has done when it ends
  pub record Ends (seen : List String) (r : Layering) : Type 0 where
    pub layers : List (List String)
    pub visited : List String
    pub result : r ≡ layered layers visited
    pub in_order : InOrder es seen layers
    pub counted : (v : String) → occ v visited ≡ occ v seen + occ v (flatten layers)
    pub degrees : String → ℤ
    pub complete : Inv nodes es adj visited [] (start degrees)

  Ends-above :
      (seen layer : List String) (r : Layering)
      → All (λ v. is_ready es seen v ≡ true) layer
      → ((v : String) → occ v (visit_all layer seen) ≡ occ v seen + occ v layer)
      → Ends (visit_all layer seen) r
      → Ends seen (above layer r)
  unfolding flatten
  Ends-above seen layer r ready sum e = record {
    layers = layer ∷ e.layers;
    visited = e.visited;
    result = ap (above layer) e.result;
    in_order = (ready, e.in_order);
    counted = λ v. omega (arith, e.counted v, sum v, occ-append v layer (flatten e.layers));
    degrees = e.degrees;
    complete = e.complete;
  }

  module _ (known : IsKnown nodes es)
      (targets : (p v : String) → occ v (adj p) ≡ between es p v) where
    -- With more rounds than there are nodes left, the loop ends.
    pub layers_from-Ends :
        (fuel : ℕ) (degree : String → ℤ) (seen layer : List String)
        → length nodes < fuel + length seen
        → Inv nodes es adj seen layer (start degree)
        → Ends seen (layers_from fuel adj degree seen layer)
    unfolding layers_from flatten occ
    layers_from-Ends fuel degree seen [] enough h = record {
      layers = [];
      visited = seen;
      result = refl;
      in_order = tt;
      counted = λ v. omega arith;
      degrees = degree;
      complete = h;
    }
    layers_from-Ends zero degree seen (p ∷ layer) enough h =
        absurd
          (omega (arith, enough, length-visited nodes es adj seen (p ∷ layer) (start degree) h))
    layers_from-Ends (suc fuel) degree seen (p ∷ layer) enough h =
        let f = relax_layer adj (p ∷ layer) (start degree) in
        let step = Inv-layer nodes es adj known targets (p ∷ layer) seen (start degree) h in
        let next = Inv-next nodes es adj (visit_all (p ∷ layer) seen) f step.0 in
        Ends-above seen (p ∷ layer) _ (All-is_ready seen (p ∷ layer) degree h) step.2 (
          layers_from-Ends fuel f.in_degree (visit_all (p ∷ layer) seen) f.next_layer
            (omega (arith, enough, step.1)) next)
