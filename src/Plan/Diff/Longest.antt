-- ===== src/Plan/Diff/Longest.antt =====
-- The table of src/http/plan-diff.ts holds the lengths of longest common subsequences.
use mathlib.Core.List.{Sublistᴰ}
use mathlib.Core.List.Sublistᴰ
use nano_symphony.Common.{
  ℕ, suc, ◌≤◌, max, String, ◌≡◌, refl, sym, ap, ◌∙◌, subst, inl, inr, false, List, [], ◌∷◌, arith,
  ◌==◌, eq_iff, nat_eq, nat_eq_iff, Bool-cases, length,
}
use nano_symphony.Plan.Diff.{LineKind, Entry, first, behind, table, cell, walk, line_diff}
use nano_symphony.Plan.Diff.Table.{
  lcs, lcs-nil, Agrees, Agrees-table, Agrees-below, Agrees-right, Agrees-here,
}
use nano_symphony.Plan.Diff.Lines.{
  in_old, in_new, in_both, old_side, new_side, kept, if_chain, line_diff-sides,
}

-- a cell of two different lines is one of its neighbours
no_other :
    (c right below : ℕ) → c ≡ max below right → nat_eq c right ≡ false → nat_eq c below ≡ false → ⊥
no_other c right below h a b = ground arith

lcs-differ :
    (x : String) (xs : List String) (y : String) (ys : List String)
    → (x == y) ≡ false
    → lcs (x ∷ xs) (y ∷ ys) ≡ max (lcs xs (y ∷ ys)) (lcs (x ∷ xs) ys)
unfolding lcs
lcs-differ x xs y ys e = rw e refl

-- The walk keeps as many lines as the table promises.
length-kept-walk :
    (dp : List (List ℕ)) (i j : ℕ) (xs ys : List String)
    → Agrees dp i j xs ys
    → length (kept (walk dp i j xs ys)) ≡ lcs xs ys
unfolding walk kept in_both lcs
length-kept-walk dp i j [] [] h = refl
length-kept-walk dp i j [] (y ∷ ys) h =
    length-kept-walk dp i (suc j) [] ys (Agrees-right dp i j [] y ys h)
length-kept-walk dp i j (x ∷ xs) [] h =
    length-kept-walk dp (suc i) j xs [] (Agrees-below dp i j x xs [] h) ∙ lcs-nil xs
length-kept-walk dp i j (x ∷ xs) (y ∷ ys) h =
    let right = Agrees-right dp i j (x ∷ xs) y ys h in
    let below = Agrees-below dp i j x xs (y ∷ ys) h in
    let diagonal = Agrees-right dp (suc i) j xs y ys below in
    let here_eq = Agrees-here dp i j (x ∷ xs) (y ∷ ys) h in
    let right_eq = Agrees-here dp i (suc j) (x ∷ xs) ys right in
    let below_eq = Agrees-here dp (suc i) j xs (y ∷ ys) below in
    if_chain (λ es. length (kept es) ≡ lcs (x ∷ xs) (y ∷ ys)) (x == y)
      (nat_eq (cell dp i j) (cell dp i (suc j))) (nat_eq (cell dp i j) (cell dp (suc i) j))
      (λ e. rw e (ap suc (length-kept-walk dp (suc i) (suc j) xs ys diagonal)))
      (λ e a.
        length-kept-walk dp i (suc j) (x ∷ xs) ys right
        ∙ sym right_eq
        ∙ sym ((nat_eq_iff _ _).0 a)
        ∙ here_eq)
      (λ e a b.
        length-kept-walk dp (suc i) j xs (y ∷ ys) below
        ∙ sym below_eq
        ∙ sym ((nat_eq_iff _ _).0 b)
        ∙ here_eq)
      (λ e a b. absurd (
        no_other (cell dp i j) (cell dp i (suc j)) (cell dp (suc i) j)
          (here_eq
            ∙ lcs-differ x xs y ys e
            ∙ ap (λ n. max n (lcs (x ∷ xs) ys)) (sym below_eq)
            ∙ ap (λ n. max (cell dp (suc i) j) n) (sym right_eq))
          a b))

module _ {zs xs : List String} {x : String} where
  behind-Sublist : Sublistᴰ zs (x ∷ xs) → Sublistᴰ (behind zs) xs
  behind-Sublist p = elim (Sublistᴰ.cases_cons p) [
    | inl q ↦ shorter q
    | inr (r, e, q) ↦ subst (λ l. Sublistᴰ (behind l) xs) (sym e) q
  ]
    where
      shorter : {ls ks : List String} → Sublistᴰ ls ks → Sublistᴰ (behind ls) ks
      shorter Sublistᴰ.slnil = Sublistᴰ.slnil
      shorter (Sublistᴰ.cons q) = Sublistᴰ.cons (shorter q)
      shorter (Sublistᴰ.cons-cons e q) = Sublistᴰ.cons q

length-behind : (zs : List String) → length zs ≤ suc (length (behind zs))
length-behind [] = omega arith
length-behind (z ∷ zs) = omega arith

no_common_head :
    (x : String) (r : List String) (y : String) (t : List String)
    → (x == y) ≡ false
    → x ∷ r ≡ y ∷ t
    → ⊥
no_common_head x r y t e h = absurd (text_differs (ap (λ l. first l x) h))
  where
    text_differs : x ≡ y → ⊥
    text_differs same = ground (arith, eq_iff x y)

lcs-longest : (xs ys zs : List String) → Sublistᴰ zs xs → Sublistᴰ zs ys → length zs ≤ lcs xs ys
unfolding lcs
lcs-longest [] ys zs p q = rw (Sublistᴰ.eq-nil p) (omega arith)
lcs-longest (x ∷ xs) [] zs p q = rw (Sublistᴰ.eq-nil q) (omega arith)
lcs-longest (x ∷ xs) (y ∷ ys) zs p q = elim (Bool-cases (x == y)) [
  | inl e ↦
      let rest = lcs-longest xs ys (behind zs) (behind-Sublist p) (behind-Sublist q) in
      rw e (omega (arith, rest, length-behind zs))
  | inr e ↦ elim (Sublistᴰ.cases_cons p) [
    | inl p' ↦ let rest = lcs-longest xs (y ∷ ys) zs p' q in rw e (omega (arith, rest))
    | inr (r, f, _) ↦ elim (Sublistᴰ.cases_cons q) [
      | inl q' ↦ let rest = lcs-longest (x ∷ xs) ys zs p q' in rw e (omega (arith, rest))
      | inr (t, g, _) ↦ absurd (no_common_head x r y t e (sym f ∙ g))
    ]
  ]
]

-- what is kept stands in both texts
in_both-in_old :
    (k : LineKind) (s : String) {ks os : List String}
    → Sublistᴰ ks os
    → Sublistᴰ (in_both k s ks) (in_old k s os)
unfolding in_both in_old
in_both-in_old LineKind.context s p = Sublistᴰ.cons-cons refl p
in_both-in_old LineKind.added s p = p
in_both-in_old LineKind.removed s p = Sublistᴰ.cons p

in_both-in_new :
    (k : LineKind) (s : String) {ks ns : List String}
    → Sublistᴰ ks ns
    → Sublistᴰ (in_both k s ks) (in_new k s ns)
unfolding in_both in_new
in_both-in_new LineKind.context s p = Sublistᴰ.cons-cons refl p
in_both-in_new LineKind.added s p = Sublistᴰ.cons p
in_both-in_new LineKind.removed s p = p

kept-old_side : (es : List Entry) → Sublistᴰ (kept es) (old_side es)
unfolding kept old_side
kept-old_side [] = Sublistᴰ.slnil
kept-old_side (e ∷ es) = in_both-in_old e.kind e.text (kept-old_side es)

kept-new_side : (es : List Entry) → Sublistᴰ (kept es) (new_side es)
unfolding kept new_side
kept-new_side [] = Sublistᴰ.slnil
kept-new_side (e ∷ es) = in_both-in_new e.kind e.text (kept-new_side es)

-- The lines that the diff shows as context are a common subsequence of the two texts, and no common
-- subsequence of them is longer.
pub line_diff-IsLongest :
    (old_lines new_lines : List String)
    → Sublistᴰ (kept (line_diff old_lines new_lines)) old_lines
      × Sublistᴰ (kept (line_diff old_lines new_lines)) new_lines
      × ((zs : List String)
          → Sublistᴰ zs old_lines
          → Sublistᴰ zs new_lines
          → length zs ≤ length (kept (line_diff old_lines new_lines)))
unfolding line_diff
line_diff-IsLongest old_lines new_lines =
    let es = line_diff old_lines new_lines in
    let sides = line_diff-sides old_lines new_lines in
    let count =
      length-kept-walk (table old_lines new_lines) 0 0 old_lines new_lines
        (Agrees-table old_lines new_lines) in
    (
      subst (λ side. Sublistᴰ (kept es) side) sides.0 (kept-old_side es),
      subst (λ side. Sublistᴰ (kept es) side) sides.1 (kept-new_side es),
      λ zs p q. omega (arith, lcs-longest old_lines new_lines zs p q, count),
    )
