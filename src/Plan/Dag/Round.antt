-- ===== src/Plan/Dag/Round.antt =====
-- One round of the loop over the layers of runDag in src/plan-runtime/runner.ts.
use nano_symphony.Common.{
  ℕ, zero, suc, ◌+◌, ◌≤◌, ◌<◌, String, ◌≡◌, refl, sym, ap, ◌∙◌, subst, inl, inr, Bool, true, false,
  ◌&&◌, List, [], ◌∷◌, ◌++◌, arith, ◌==◌, eq_iff, ltb, nat_eq, if◌then◌else◌, Bool-cases, one_of,
  length,
}
use nano_symphony.Common.Int.{ℤ, pos}
use nano_symphony.Plan.Dag.{
  DagEdge, sub_one, is_zero, Frontier, relax, relax_all, relax_layer, visit_all,
}
use nano_symphony.Plan.Dag.Counts.{one_if, occ, occ-append, occ-one_of, occ_self, length_le_of_occ}
use nano_symphony.Plan.Dag.Edges.{left, left-visit, between, between-known, IsKnown}

module _ (k : String → ℕ) where
  -- the in-degrees while the targets `ts` are still to be counted
  Owes : List String → (String → ℤ) → Type 0
  Owes ts degree = (v : String) → degree v ≡ pos (occ v ts + k v)

  new_degree :
      (t : String) (ts : List String) (f : Frontier)
      → Owes (t ∷ ts) f.in_degree
      → sub_one (f.in_degree t) ≡ pos (occ t ts + k t)
  unfolding Owes
  new_degree t ts f h =
      let one_less : occ t (t ∷ ts) + k t ≡ suc (occ t ts + k t) = omega (arith, occ_self t ts) in
      ap sub_one (h t ∙ ap pos one_less)

  relax-Owes :
      (t : String) (ts : List String) (f : Frontier)
      → Owes (t ∷ ts) f.in_degree
      → Owes ts (relax t f).in_degree
  unfolding Owes relax occ
  relax-Owes t ts f h v = elim (Bool-cases (t == v)) [
    | inl same ↦
        rw same (new_degree t ts f h ∙ ap (λ x. pos (occ x ts + k x)) ((eq_iff t v).0 same))
    | inr other ↦
        rw other (h v ∙ ap (λ b. pos (one_if b + occ v ts + k v)) other ∙ ap pos (omega arith))
  ]

  occ-pushed :
      (t v : String) (next : List String) (n : ℕ)
      → occ v (if is_zero (pos n) then next ++ t ∷ [] else next)
        ≡ occ v next + one_if (t == v && nat_eq n 0)
  unfolding occ
  occ-pushed t v next zero = occ-append v next (t ∷ []) ∙ ground arith
  occ-pushed t v next (suc n) = ground arith

  same_sum :
      (t v : String) (ts : List String)
      → one_if (t == v && nat_eq (occ t ts + k t) 0) ≡ one_if (t == v && nat_eq (occ v ts + k v) 0)
  same_sum t v ts = elim (Bool-cases (t == v)) [
    | inl same ↦ ap (λ x. one_if (t == v && nat_eq (occ x ts + k x) 0)) ((eq_iff t v).0 same)
    | inr other ↦ rw other refl
  ]

  occ-relax :
      (t : String) (ts : List String) (f : Frontier) (v : String)
      → Owes (t ∷ ts) f.in_degree
      → occ v (relax t f).next_layer
        ≡ occ v f.next_layer + one_if (t == v && nat_eq (occ v ts + k v) 0)
  unfolding relax
  occ-relax t ts f v h = rw (new_degree t ts f h) (
      occ-pushed t v f.next_layer (occ t ts + k t)
      ∙ ap (λ n. occ v f.next_layer + n) (same_sum t v ts))

  -- Once all of `ts` are counted, the nodes among them that owe nothing stand in the next layer.
  relax_all-lem :
      (ts : List String) (f : Frontier)
      → Owes ts f.in_degree
      → ((v : String) → (relax_all ts f).in_degree v ≡ pos (k v))
        × ((v : String)
            → occ v (relax_all ts f).next_layer
              ≡ occ v f.next_layer + one_if (ltb 0 (occ v ts) && nat_eq (k v) 0))
  unfolding relax_all occ Owes
  relax_all-lem [] f h = (λ v. h v ∙ ap pos (omega arith), λ v. ground arith)
  relax_all-lem (t ∷ ts) f h =
      let rest = relax_all-lem ts (relax t f) (relax-Owes t ts f h) in
      (
        rest.0,
        λ v.
            rest.1 v
            ∙ ap (λ n. n + one_if (ltb 0 (occ v ts) && nat_eq (k v) 0)) (occ-relax t ts f v h)
            ∙ ground arith,
      )

none_before :
    (before here others next : ℕ) (b : Bool)
    → here ≡ suc others
    → before + here + next ≡ one_if b
    → ltb 0 before ≡ false
none_before before here others next b e h = ground arith

at_most :
    (seen layer next all_nodes : ℕ) (is_node owes_none : Bool)
    → is_node ≡ ltb 0 all_nodes
    → seen + layer + next ≡ one_if (is_node && owes_none)
    → seen ≤ all_nodes
at_most seen layer next zero is_node owes_none e h = ground arith
at_most seen layer next (suc n) is_node owes_none e h = ground arith

-- the sum of the places of a node before and after a node of the layer is visited
place_step :
    (before layer next next' self targets owed owed' : ℕ) (is_node : Bool)
    → owed ≡ targets + owed'
    → before + (self + layer) + next ≡ one_if (is_node && nat_eq owed 0)
    → next' ≡ next + one_if (ltb 0 targets && nat_eq owed' 0)
    → (0 < targets → is_node ≡ true)
    → self + before + layer + next' ≡ one_if (is_node && nat_eq owed' 0)
place_step before layer next next' self zero owed owed' is_node e h n k = ground arith
place_step before layer next next' self (suc t) owed owed' true e h n k = ground arith
place_step before layer next next' self (suc t) owed owed' false e h n k =
    ground (arith, k (omega arith))

module _ (nodes : List String) (es : List DagEdge) (adj : String → List String) where
  -- Every edge out of `seen` is counted, and a node stands in one of the three lists, once, when no edge
  -- into it is left.
  pub record Inv (seen layer : List String) (f : Frontier) : Type 0 where
    pub degrees : (v : String) → f.in_degree v ≡ pos (left es seen v)
    pub places :
        (v : String)
        → occ v seen + occ v layer + occ v f.next_layer
          ≡ one_if (one_of v nodes && nat_eq (left es seen v) 0)

  module _ (known : IsKnown nodes es)
      (targets : (p v : String) → occ v (adj p) ≡ between es p v) where
    head-new :
        (p : String) (seen layer : List String) (f : Frontier)
        → Inv seen (p ∷ layer) f
        → one_of p seen ≡ false
    head-new p seen layer f h =
        occ-one_of p seen
        ∙ none_before (occ p seen) (occ p (p ∷ layer)) (occ p layer) (occ p f.next_layer)
            (one_of p nodes && nat_eq (left es seen p) 0) (occ_self p layer) (h.places p)

    Inv-visit :
        (p : String) (seen layer : List String) (f : Frontier)
        → Inv seen (p ∷ layer) f
        → Inv (p ∷ seen) layer (relax_all (adj p) f)
    unfolding occ Owes
    Inv-visit p seen layer f h =
        let new = head-new p seen layer f h in
        let step =
          relax_all-lem (λ v. left es (p ∷ seen) v) (adj p) f
            (λ v.
              h.degrees v
              ∙ ap pos (
                  left-visit es p seen v new
                  ∙ ap (λ n. n + left es (p ∷ seen) v) (sym (targets p v)))) in
        record {
          degrees = λ v. step.0 v;
          places = λ v.
              place_step (occ v seen) (occ v layer) (occ v f.next_layer)
                (occ v (relax_all (adj p) f).next_layer) (one_if (p == v)) (occ v (adj p))
                (left es seen v) (left es (p ∷ seen) v) (one_of v nodes)
                (left-visit es p seen v new
                  ∙ ap (λ n. n + left es (p ∷ seen) v) (sym (targets p v)))
                (h.places v) (step.1 v)
                (λ b. between-known nodes es p v known (subst (λ n. 0 < n) (targets p v) b));
        }

    -- A whole layer is visited.
    pub Inv-layer :
        (layer seen : List String) (f : Frontier)
        → Inv seen layer f
        → Inv (visit_all layer seen) [] (relax_layer adj layer f)
          × (length (visit_all layer seen) ≡ length layer + length seen)
          × ((v : String) → occ v (visit_all layer seen) ≡ occ v seen + occ v layer)
    unfolding visit_all relax_layer occ
    Inv-layer [] seen f h = (h, omega arith, λ v. omega arith)
    Inv-layer (p ∷ layer) seen f h =
        let rest = Inv-layer layer (p ∷ seen) (relax_all (adj p) f) (Inv-visit p seen layer f h) in
        rw (head-new p seen layer f h) (rest.0, omega (arith, rest.1), λ v. omega (arith, rest.2 v))

  -- the next layer is taken up
  pub Inv-next :
      (seen : List String) (f : Frontier)
      → Inv seen [] f
      → Inv seen f.next_layer (record { in_degree = f.in_degree; next_layer = [] })
  unfolding occ
  Inv-next seen f h = record { degrees = h.degrees; places = λ v. omega (arith, h.places v) }

  -- No node is visited twice, and none but nodes.
  pub occ-visited :
      (seen layer : List String) (f : Frontier)
      → Inv seen layer f
      → (v : String) → occ v seen ≤ occ v nodes
  occ-visited seen layer f h v =
      at_most (occ v seen) (occ v layer) (occ v f.next_layer) (occ v nodes) (one_of v nodes)
        (nat_eq (left es seen v) 0) (occ-one_of v nodes) (h.places v)

  pub length-visited :
      (seen layer : List String) (f : Frontier) → Inv seen layer f → length seen ≤ length nodes
  length-visited seen layer f h = length_le_of_occ seen nodes (occ-visited seen layer f h)
