-- ===== src/Plan/Dag/Edges.antt =====
-- What the maps of runDag in src/plan-runtime/runner.ts say of the edges.
use nano_symphony.Common.{
  ℕ, ◌+◌, ◌<◌, String, ◌≡◌, refl, ap, ◌∙◌, subst, ◌⊎◌, inl, inr, true, false, ◌&&◌, not, List, [],
  ◌∷◌, arith, ◌==◌, eq_iff, Bool-cases, one_of, All,
}
use nano_symphony.Common.Int.{pos}
use nano_symphony.Plan.Dag.{DagEdge, DagError, Graph, add_edge, add_edges}
use nano_symphony.Plan.Dag.Counts.{one_if, occ, occ-append}

-- the edges into `v` from outside the list
unfoldable pub left : List DagEdge → List String → String → ℕ
left [] seen v = 0
left (e ∷ es) seen v = one_if (e.to == v && not (one_of e.from seen)) + left es seen v

-- the edges from `p` to `v`
unfoldable pub between : List DagEdge → String → String → ℕ
between [] p v = 0
between (e ∷ es) p v = one_if (e.from == p && e.to == v) + between es p v

-- both ends are nodes
abbrev pub IsKnown : List String → List DagEdge → Type 0
IsKnown nodes = All (λ e. (one_of e.from nodes ≡ true) × (one_of e.to nodes ≡ true))

pub left-visit :
    (es : List DagEdge) (p : String) (seen : List String) (v : String)
    → one_of p seen ≡ false
    → left es seen v ≡ between es p v + left es (p ∷ seen) v
unfolding left between
left-visit [] p seen v h = refl
left-visit (e ∷ es) p seen v h = elim (Bool-cases (e.from == p)) [
  | inl same ↦
      let new : one_of e.from seen ≡ false =
        ap (λ x. one_of x seen) ((eq_iff e.from p).0 same) ∙ h in
      ground (arith, same, new, left-visit es p seen v h)
  | inr other ↦ ground (arith, other, left-visit es p seen v h)
]

pub between-known :
    (nodes : List String) (es : List DagEdge) (p v : String)
    → IsKnown nodes es
    → 0 < between es p v
    → one_of v nodes ≡ true
unfolding between
between-known nodes [] p v k h = ground arith
between-known nodes (e ∷ es) p v k h = elim (Bool-cases (e.to == v)) [
  | inl same ↦ subst (λ x. one_of x nodes ≡ true) ((eq_iff e.to v).0 same) k.0.1
  | inr other ↦ ground (arith, other, between-known nodes es p v k.1)
]

-- what the maps `h` have more than the maps `g`
pub record Gains (es : List DagEdge) (g h : Graph) : Type 0 where
  pub targets : (p v : String) → occ v (h.adj p) ≡ occ v (g.adj p) + between es p v
  pub degrees :
      (v : String) (n : ℕ) → g.in_degree v ≡ pos n → h.in_degree v ≡ pos (n + left es [] v)

Gains-none : (g : Graph) → Gains [] g g
unfolding left between
Gains-none g = record { targets = λ p v. omega arith; degrees = λ v n e. e ∙ ap pos (omega arith) }

occ-add_edge :
    (e : DagEdge) (g : Graph) (p v : String)
    → occ v ((add_edge e g).adj p) ≡ occ v (g.adj p) + one_if (e.from == p && e.to == v)
unfolding add_edge occ
occ-add_edge e g p v = elim (Bool-cases (e.from == p)) [
  | inl same ↦
      rw (same, (eq_iff e.from p).0 same) (occ-append v (g.adj p) (e.to ∷ []) ∙ omega arith)
  | inr other ↦ rw other (omega arith)
]

degree-add_edge :
    (e : DagEdge) (g : Graph) (v : String) (n : ℕ)
    → g.in_degree v ≡ pos n
    → (add_edge e g).in_degree v ≡ pos (n + one_if (e.to == v))
unfolding add_edge
degree-add_edge e g v n h = elim (Bool-cases (e.to == v)) [
  | inl same ↦ rw (same, (eq_iff e.to v).0 same, h) (ap pos (omega arith))
  | inr other ↦ rw other (h ∙ ap pos (omega arith))
]

Gains-add_edge :
    (e : DagEdge) (es : List DagEdge) (g h : Graph) → Gains es (add_edge e g) h → Gains (e ∷ es) g h
unfolding left between
Gains-add_edge e es g h a = record {
  targets = λ p v. omega (arith, a.targets p v, occ-add_edge e g p v);
  degrees = λ v n d. a.degrees v _ (degree-add_edge e g v n d) ∙ ap pos (ground arith);
}

graph_or : Graph → DagError ⊎ Graph → Graph
graph_or g (inl e) = g
graph_or g (inr h) = h

refused : (x : DagError) (h : Graph) → inl x ≡ inr h → ⊥
refused x h e = cc

-- When `dag` accepts the edges, both ends of each are nodes, and the maps say what the edges say.
pub add_edges-Gains :
    (nodes : List String) (es : List DagEdge) (g h : Graph)
    → add_edges nodes es g ≡ inr h
    → IsKnown nodes es × Gains es g h
unfolding add_edges graph_or
add_edges-Gains nodes [] g h e = (tt, subst (λ x. Gains [] g x) (ap (graph_or g) e) (Gains-none g))
add_edges-Gains nodes (x ∷ es) g h e = elim (Bool-cases (one_of x.from nodes)) [
  | inl a ↦ elim (Bool-cases (one_of x.to nodes)) [
    | inl b ↦
        let rest = add_edges-Gains nodes es (add_edge x g) h (rw (a, b) at e) in
        (((a, b), rest.0), Gains-add_edge x es g h rest.1)
    | inr b ↦ absurd (refused _ h (rw (a, b) at e))
  ]
  | inr a ↦ absurd (refused _ h (rw a at e))
]
