-- ===== src/Plan/Dag/Stuck.antt =====
-- The first layer, the nodes that are never visited, and ids that occur once, for runDag in
-- src/plan-runtime/runner.ts.
use nano_symphony.Common.{
  ℕ, zero, suc, ◌+◌, ◌≤◌, ◌<◌, String, ◌≡◌, refl, sym, ap, ◌∙◌, ◌≢◌, inl, inr, Bool, true, false,
  ◌&&◌, not, none, some, List, [], ◌∷◌, arith, ◌==◌, eq_iff, nat_eq, if◌then◌else◌, Bool-cases,
  one_of, length, keep, any, All,
}
use nano_symphony.Common.Int.{ℤ, pos}
use nano_symphony.Plan.Dag.{
  DagEdge, is_zero, first_duplicate, first_layer, unvisited, Graph, no_edges,
}
use nano_symphony.Plan.Dag.Counts.{one_if, occ, occ-one_of, length_le_of_occ}
use nano_symphony.Plan.Dag.Edges.{left, IsKnown, Gains}
use nano_symphony.Plan.Dag.Round.{Inv}
use nano_symphony.Plan.Dag.Loop.{All-occ}

occ-if :
    (b : Bool) (v x : String) (xs : List String)
    → occ v (if b then x ∷ xs else xs) ≡ (if b then one_if (x == v) else 0) + occ v xs
unfolding occ
occ-if true v x xs = refl
occ-if false v x xs = omega arith

occ-keep :
    (p : String → Bool) (v : String) (xs : List String)
    → occ v (keep p xs) ≡ (if p v then occ v xs else 0)
unfolding occ
occ-keep p v [] = ground arith
occ-keep p v (x ∷ xs) = occ-if (p x) v x (keep p xs) ∙ elim (Bool-cases (x == v)) [
  | inl same ↦
      let alike : p x ≡ p v = ap p ((eq_iff x v).0 same) in
      rw alike (ground (arith, occ-keep p v xs))
  | inr other ↦ ground (arith, other, occ-keep p v xs)
]

unique_from :
    (seen ns : List String) (v : String)
    → first_duplicate seen ns ≡ none
    → occ v ns + one_if (one_of v seen) ≤ 1
unfolding first_duplicate occ
unique_from seen [] v h = ground arith
unique_from seen (n ∷ ns) v h = elim (Bool-cases (one_of n seen)) [
  | inl a ↦ absurd (no_none n (rw a at h))
  | inr a ↦
      let rest = unique_from (n ∷ seen) ns v (rw a at h) in
      elim (Bool-cases (n == v)) [
        | inl same ↦
            let new : one_of v seen ≡ false =
              ap (λ x. one_of x seen) (sym ((eq_iff n v).0 same)) ∙ a in
            ground (arith, same, new, rest, eq_iff n v, eq_iff v n)
        | inr other ↦ ground (arith, other, rest, eq_iff n v, eq_iff v n)
      ]
]
  where
    no_none : (n : String) → some n ≡ none → ⊥
    no_none n e = cc

-- Without a duplicate every id occurs at most once.
pub occ_unique :
    (nodes : List String) (v : String)
    → first_duplicate [] nodes ≡ none
    → occ v nodes ≡ one_if (one_of v nodes)
occ_unique nodes v h = ground (arith, unique_from [] nodes v h, occ-one_of v nodes)

first_place :
    (owed n : ℕ) (is_node : Bool)
    → n ≡ one_if is_node
    → (if is_zero (pos owed) then n else 0) ≡ one_if (is_node && nat_eq owed 0)
first_place zero n is_node h = ground arith
first_place (suc owed) n is_node h = ground arith

-- before the first round
pub Inv-start :
    (nodes : List String) (edges : List DagEdge) (g : Graph)
    → first_duplicate [] nodes ≡ none
    → Gains edges no_edges g
    → Inv nodes edges g.adj []
        (first_layer nodes g.in_degree)
        (record { in_degree = g.in_degree; next_layer = [] })
unfolding occ
Inv-start nodes edges g unique gains =
    let degree = λ (v : String). gains.degrees v 0 refl ∙ ap pos (zero_left (left edges [] v)) in
    record {
      degrees = degree;
      places = λ v.
          let kept = occ-keep (λ n. is_zero (g.in_degree n)) v nodes in
          let place =
            first_place (left edges [] v) (occ v nodes) (one_of v nodes)
              (occ_unique nodes v unique) in
          no_more (kept ∙ ap (λ d. if is_zero d then occ v nodes else 0) (degree v) ∙ place);
    }
  where
    zero_left : (n : ℕ) → 0 + n ≡ n
    zero_left n = omega arith

    no_more : {m n : ℕ} → m ≡ n → 0 + m + 0 ≡ n
    no_more h = omega (arith, h)

-- There is a node, and every one has an edge from one of them, which may be itself.
abbrev pub IsStuck : List DagEdge → List String → Type 0
IsStuck edges us = (us ≢ []) × All (λ u. any (λ e. e.to == u && one_of e.from us) edges ≡ true) us

one_of-unvisited :
    (visited nodes : List String) (v : String)
    → one_of v nodes ≡ true
    → one_of v visited ≡ false
    → one_of v (unvisited visited nodes) ≡ true
one_of-unvisited visited nodes v a b = ground (
  arith,
  a,
  b,
  occ-one_of v nodes,
  occ-one_of v (unvisited visited nodes),
  occ-keep (λ n. not (one_of n visited)) v nodes,
)

left-stuck :
    (nodes visited : List String) (edges : List DagEdge) (v : String)
    → IsKnown nodes edges
    → 0 < left edges visited v
    → any (λ e. e.to == v && one_of e.from (unvisited visited nodes)) edges ≡ true
unfolding left
left-stuck nodes visited [] v known h = ground arith
left-stuck nodes visited (e ∷ es) v known h = elim (Bool-cases (one_of e.from visited)) [
  | inl a ↦ ground (arith, a, left-stuck nodes visited es v known.1)
  | inr a ↦ ground (
    arith,
    a,
    one_of-unvisited visited nodes e.from known.0.0 a,
    left-stuck nodes visited es v known.1,
  )
]

module _ (nodes visited : List String) (edges : List DagEdge) (adj : String → List String)
    (degree : String → ℤ) (known : IsKnown nodes edges)
    (unique : (v : String) → occ v nodes ≡ one_if (one_of v nodes))
    (h : Inv nodes edges adj visited [] (record { in_degree = degree; next_layer = [] })) where
  no_places :
      (v : String) → occ v visited ≡ one_if (one_of v nodes && nat_eq (left edges visited v) 0)
  unfolding occ
  no_places v = omega (arith, h.places v)

  -- Every node was visited when none is left.
  length-all_visited : unvisited visited nodes ≡ [] → length nodes ≤ length visited
  unfolding occ
  length-all_visited e = length_le_of_occ nodes visited (λ v.
      let zero_left : occ v (unvisited visited nodes) ≡ 0 = ap (occ v) e in
      ground (
        arith,
        zero_left,
        unique v,
        occ-one_of v visited,
        occ-keep (λ n. not (one_of n visited)) v nodes,
      ))

  waits : (v : String) → 0 < occ v (unvisited visited nodes) → 0 < left edges visited v
  waits v k = ground (
    arith,
    k,
    no_places v,
    occ-one_of v visited,
    occ-one_of v nodes,
    occ-keep (λ n. not (one_of n visited)) v nodes,
  )

  pub unvisited-IsStuck :
      length visited ≤ length nodes
      → length visited ≢ length nodes
      → IsStuck edges (unvisited visited nodes)
  unvisited-IsStuck le differ = (
    λ e. differ (omega (arith, le, length-all_visited e)),
    All-occ _ (unvisited visited nodes) (λ v k. left-stuck nodes visited edges v known (waits v k)),
  )
