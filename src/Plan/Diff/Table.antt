-- ===== src/Plan/Diff/Table.antt =====
-- The table `dp` of diffMarkdown in src/http/plan-diff.ts against a recursion on the two texts.
use nano_symphony.Common.{
  ℕ, zero, suc, ◌+◌, max, String, ◌≡◌, refl, sym, ap, ◌∙◌, List, [], ◌∷◌, arith, ◌==◌,
  if◌then◌else◌, drop,
}
use nano_symphony.Plan.Diff.{first, at, zeros, fill_row, table, cell}

-- the length of a longest common subsequence, by recursion on the lists
unfoldable pub lcs : List String → List String → ℕ
lcs [] ys = 0
lcs (x ∷ xs) [] = 0
lcs (x ∷ xs) (y ∷ ys) =
    let both = suc (lcs xs ys) in
    let either = max (lcs xs (y ∷ ys)) (lcs (x ∷ xs) ys) in if x == y then both else either

lcs_row : List String → List String → List ℕ
lcs_row xs [] = 0 ∷ []
lcs_row xs (y ∷ ys) = lcs xs (y ∷ ys) ∷ lcs_row xs ys

pub lcs-nil : (xs : List String) → lcs xs [] ≡ 0
unfolding lcs
lcs-nil [] = refl
lcs-nil (x ∷ xs) = refl

first-lcs_row : (xs ys : List String) → first (lcs_row xs ys) 0 ≡ lcs xs ys
unfolding lcs_row
first-lcs_row xs [] = sym (lcs-nil xs)
first-lcs_row xs (y ∷ ys) = refl

zeros-lcs_row : (ys : List String) → zeros ys ≡ lcs_row [] ys
unfolding zeros lcs lcs_row
zeros-lcs_row [] = refl
zeros-lcs_row (y ∷ ys) = ap (λ t. 0 ∷ t) (zeros-lcs_row ys)

fill_row-lcs_row :
    (x : String) (xs ys : List String) → fill_row x ys (lcs_row xs ys) ≡ lcs_row (x ∷ xs) ys
unfolding fill_row lcs lcs_row
fill_row-lcs_row x xs [] = refl
fill_row-lcs_row x xs (y ∷ ys) =
    rw (fill_row-lcs_row x xs ys, first-lcs_row xs ys, first-lcs_row (x ∷ xs) ys) refl

first-table : (xs ys : List String) → first (table xs ys) [] ≡ lcs_row xs ys
unfolding table
first-table [] ys = zeros-lcs_row ys
first-table (x ∷ xs) ys =
    ap (λ row. fill_row x ys row) (first-table xs ys) ∙ fill_row-lcs_row x xs ys

at-lcs_row : (xs ys : List String) (l : ℕ) → at (lcs_row xs ys) l 0 ≡ lcs xs (drop l ys)
unfolding lcs_row
at-lcs_row xs [] zero = sym (lcs-nil xs)
at-lcs_row xs [] (suc l) = sym (lcs-nil xs)
at-lcs_row xs (y ∷ ys) zero = refl
at-lcs_row xs (y ∷ ys) (suc l) = at-lcs_row xs ys l

at-zero {ℓ} : {A : Type ℓ} (rows : List A) (d : A) → at rows 0 d ≡ first rows d
at-zero [] d = refl
at-zero (r ∷ rows) d = refl

cell-table : (xs ys : List String) (k l : ℕ) → cell (table xs ys) k l ≡ lcs (drop k xs) (drop l ys)
unfolding cell table lcs
cell-table xs ys zero l =
    ap (λ row. at row l 0) (at-zero (table xs ys) [] ∙ first-table xs ys) ∙ at-lcs_row xs ys l
cell-table [] ys (suc k) l = refl
cell-table (x ∷ xs) ys (suc k) l = cell-table xs ys k l

-- The cells from `dp[i][j]` on are those of the lines that are left.
pub Agrees : List (List ℕ) → ℕ → ℕ → List String → List String → Type 0
Agrees dp i j xs ys = (k l : ℕ) → cell dp (i + k) (j + l) ≡ lcs (drop k xs) (drop l ys)

pub Agrees-table : (xs ys : List String) → Agrees (table xs ys) 0 0 xs ys
unfolding Agrees
Agrees-table xs ys k l =
    ap (λ n. cell (table xs ys) n (0 + l)) (omega arith)
    ∙ ap (λ n. cell (table xs ys) k n) (omega arith)
    ∙ cell-table xs ys k l

module _ (dp : List (List ℕ)) (i j : ℕ) where
  pub Agrees-below :
      (x : String) (xs ys : List String) → Agrees dp i j (x ∷ xs) ys → Agrees dp (suc i) j xs ys
  unfolding Agrees
  Agrees-below x xs ys h k l = ap (λ n. cell dp n (j + l)) (omega arith) ∙ h (suc k) l

  pub Agrees-right :
      (xs : List String) (y : String) (ys : List String)
      → Agrees dp i j xs (y ∷ ys)
      → Agrees dp i (suc j) xs ys
  unfolding Agrees
  Agrees-right xs y ys h k l = ap (λ n. cell dp (i + k) n) (omega arith) ∙ h k (suc l)

  pub Agrees-here : (xs ys : List String) → Agrees dp i j xs ys → cell dp i j ≡ lcs xs ys
  unfolding Agrees
  Agrees-here xs ys h =
      ap (λ n. cell dp n j) (omega arith) ∙ ap (λ n. cell dp (i + 0) n) (omega arith) ∙ h 0 0
