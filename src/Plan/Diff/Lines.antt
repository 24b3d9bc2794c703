-- ===== src/Plan/Diff/Lines.antt =====
-- The line diff of src/http/plan-diff.ts: what its entries say of the two texts.
use nano_symphony.Common.{
  ℕ, suc, String, ◌≡◌, refl, ap, ◌∙◌, Bool, true, false, List, [], ◌∷◌, ◌==◌, eq_iff, nat_eq,
  if◌then◌else◌,
}
use nano_symphony.Plan.Diff.{LineKind, Entry, table, cell, walk, line_diff}

unfoldable pub in_old : LineKind → String → List String → List String
in_old LineKind.added s rest = rest
in_old LineKind.context s rest = s ∷ rest
in_old LineKind.removed s rest = s ∷ rest

unfoldable pub in_new : LineKind → String → List String → List String
in_new LineKind.added s rest = s ∷ rest
in_new LineKind.context s rest = s ∷ rest
in_new LineKind.removed s rest = rest

unfoldable pub in_both : LineKind → String → List String → List String
in_both LineKind.context s rest = s ∷ rest
in_both _ s rest = rest

-- the lines of the entries that stand in the old text
unfoldable pub old_side : List Entry → List String
unfolding in_old
old_side [] = []
old_side (e ∷ es) = in_old e.kind e.text (old_side es)

unfoldable pub new_side : List Entry → List String
unfolding in_new
new_side [] = []
new_side (e ∷ es) = in_new e.kind e.text (new_side es)

-- the lines that both texts keep
unfoldable pub kept : List Entry → List String
unfolding in_both
kept [] = []
kept (e ∷ es) = in_both e.kind e.text (kept es)

-- a chain of three tests, by cases
pub if_chain {ℓ κ} :
    {A : Type ℓ} (P : A → Type κ) (a b c : Bool) {k l m n : A}
    → (a ≡ true → P k)
    → (a ≡ false → b ≡ true → P l)
    → (a ≡ false → b ≡ false → c ≡ true → P m)
    → (a ≡ false → b ≡ false → c ≡ false → P n)
    → P (if a then k else if b then l else if c then m else n)
if_chain P true b c p q r s = p refl
if_chain P false true c p q r s = q refl refl
if_chain P false false true p q r s = r refl refl refl
if_chain P false false false p q r s = s refl refl refl

walk-old_side :
    (dp : List (List ℕ)) (i j : ℕ) (xs ys : List String) → old_side (walk dp i j xs ys) ≡ xs
unfolding walk old_side in_old
walk-old_side dp i j [] [] = refl
walk-old_side dp i j [] (y ∷ ys) = walk-old_side dp i (suc j) [] ys
walk-old_side dp i j (x ∷ xs) [] = ap (λ t. x ∷ t) (walk-old_side dp (suc i) j xs [])
walk-old_side dp i j (x ∷ xs) (y ∷ ys) =
    if_chain (λ es. old_side es ≡ x ∷ xs) (x == y) (nat_eq (cell dp i j) (cell dp i (suc j)))
      (nat_eq (cell dp i j) (cell dp (suc i) j))
      (λ e. ap (λ t. x ∷ t) (walk-old_side dp (suc i) (suc j) xs ys))
      (λ e a. walk-old_side dp i (suc j) (x ∷ xs) ys)
      (λ e a b. ap (λ t. x ∷ t) (walk-old_side dp (suc i) j xs (y ∷ ys)))
      (λ e a b. ap (λ t. x ∷ t) (walk-old_side dp (suc i) (suc j) xs ys))

walk-new_side :
    (dp : List (List ℕ)) (i j : ℕ) (xs ys : List String) → new_side (walk dp i j xs ys) ≡ ys
unfolding walk new_side in_new
walk-new_side dp i j [] [] = refl
walk-new_side dp i j [] (y ∷ ys) = ap (λ t. y ∷ t) (walk-new_side dp i (suc j) [] ys)
walk-new_side dp i j (x ∷ xs) [] = walk-new_side dp (suc i) j xs []
walk-new_side dp i j (x ∷ xs) (y ∷ ys) =
    if_chain (λ es. new_side es ≡ y ∷ ys) (x == y) (nat_eq (cell dp i j) (cell dp i (suc j)))
      (nat_eq (cell dp i j) (cell dp (suc i) j))
      (λ e.
        ap (λ t. x ∷ t) (walk-new_side dp (suc i) (suc j) xs ys)
        ∙ ap (λ z. z ∷ ys) ((eq_iff x y).0 e))
      (λ e a. ap (λ t. y ∷ t) (walk-new_side dp i (suc j) (x ∷ xs) ys))
      (λ e a b. walk-new_side dp (suc i) j xs (y ∷ ys))
      (λ e a b. ap (λ t. y ∷ t) (walk-new_side dp (suc i) (suc j) xs ys))

-- The entries of the diff, read without those added, are the old lines, and read without those
-- removed the new lines, in order.
pub line_diff-sides :
    (old_lines new_lines : List String)
    → (old_side (line_diff old_lines new_lines) ≡ old_lines)
      × (new_side (line_diff old_lines new_lines) ≡ new_lines)
unfolding line_diff
line_diff-sides old_lines new_lines = (
  walk-old_side (table old_lines new_lines) 0 0 old_lines new_lines,
  walk-new_side (table old_lines new_lines) 0 0 old_lines new_lines,
)
