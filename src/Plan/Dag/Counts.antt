-- ===== src/Plan/Dag/Counts.antt =====
-- How often an id occurs in a list, for the layers of src/plan-runtime/runner.ts.
use nano_symphony.Common.{
  ℕ, suc, ◌+◌, ◌≤◌, String, ◌≡◌, refl, sym, ◌∙◌, subst, inl, inr, Bool, true, false, List, [], ◌∷◌,
  ◌++◌, arith, ◌==◌, eq_iff, eq_refl, ltb, if◌then◌else◌, lt→ltb, Bool-cases, one_of, length,
}

-- 1 when the test holds
abbrev pub one_if : Bool → ℕ
one_if true = 1
one_if false = 0

unfoldable pub occ : String → List String → ℕ
occ v [] = 0
occ v (x ∷ xs) = one_if (x == v) + occ v xs

pub occ-append : (v : String) (xs ys : List String) → occ v (xs ++ ys) ≡ occ v xs + occ v ys
unfolding occ
occ-append v [] ys = omega arith
occ-append v (x ∷ xs) ys = omega (arith, occ-append v xs ys)

pub occ-one_of : (v : String) (xs : List String) → one_of v xs ≡ ltb 0 (occ v xs)
unfolding occ
occ-one_of v [] = refl
occ-one_of v (x ∷ xs) = ground (arith, eq_iff v x, eq_iff x v, occ-one_of v xs)

-- the list without the first occurrence
remove : String → List String → List String
remove v [] = []
remove v (x ∷ xs) = let rest = remove v xs in if x == v then xs else x ∷ rest

occ-remove :
    (v w : String) (xs : List String)
    → one_of v xs ≡ true
    → occ w xs ≡ one_if (v == w) + occ w (remove v xs)
unfolding occ remove
occ-remove v w [] h = cc
occ-remove v w (x ∷ xs) h = elim (Bool-cases (x == v)) [
  | inl e ↦ rw (e, (eq_iff x v).0 e) refl
  | inr e ↦ ground (arith, e, eq_iff x v, eq_iff v x, occ-remove v w xs)
]

length-remove :
    (v : String) (xs : List String) → one_of v xs ≡ true → length xs ≡ suc (length (remove v xs))
unfolding remove
length-remove v [] h = cc
length-remove v (x ∷ xs) h = ground (arith, eq_iff x v, eq_iff v x, length-remove v xs)

member : (x : String) (n : ℕ) (ys : List String) → suc n ≤ occ x ys → one_of x ys ≡ true
member x n ys h = occ-one_of x ys ∙ lt→ltb 0 (occ x ys) (omega (arith, h))

pub occ_self : (x : String) (xs : List String) → occ x (x ∷ xs) ≡ suc (occ x xs)
unfolding occ
occ_self x xs = ground (arith, eq_refl x)

module _ (x : String) (xs ys : List String) (h : (v : String) → occ v (x ∷ xs) ≤ occ v ys) where
  first_member : one_of x ys ≡ true
  first_member = member x (occ x xs) ys (subst (λ n. n ≤ occ x ys) (occ_self x xs) (h x))

  occ-rest : (v : String) → occ v xs ≤ occ v (remove x ys)
  unfolding occ
  occ-rest v = omega (arith, h v, occ-remove x v ys first_member)

-- A list that has nothing more often than another is not longer.
pub length_le_of_occ :
    (xs ys : List String) → ((v : String) → occ v xs ≤ occ v ys) → length xs ≤ length ys
length_le_of_occ [] ys h = omega arith
length_le_of_occ (x ∷ xs) ys h = omega (
  arith,
  length-remove x ys (first_member x xs ys h),
  length_le_of_occ xs (remove x ys) (occ-rest x xs ys h),
)

occ-nothing : (v : String) (ys : List String) → length ys ≡ 0 → occ v ys ≡ 0
unfolding occ
occ-nothing v [] h = refl
occ-nothing v (y ∷ ys) h = omega (arith, h)

-- If it is as long, it has everything as often.
pub occ_eq_of_length :
    (xs ys : List String)
    → ((v : String) → occ v xs ≤ occ v ys)
    → length xs ≡ length ys
    → (v : String) → occ v xs ≡ occ v ys
unfolding occ
occ_eq_of_length [] ys h e v = sym (occ-nothing v ys (sym e))
occ_eq_of_length (x ∷ xs) ys h e v =
    let found = first_member x xs ys h in
    let rest =
      occ_eq_of_length xs (remove x ys) (occ-rest x xs ys h)
        (omega (arith, e, length-remove x ys found)) v in
    omega (arith, rest, occ-remove x v ys found)
