-- ===== src/Plan/Diff.antt =====
-- The comparison of two revisions of a plan: src/http/plan-diff.ts. A text is split into its lines by the
-- runtime's regular expression, which is an argument; a line is a text.
pub mod Lines
pub mod Table
pub mod Longest
pub mod Hunks
pub mod Steps
use nano_symphony.Common.{
  ℕ, zero, suc, ◌+◌, max, String, List, [], ◌∷◌, ◌==◌, nat_eq, if◌then◌else◌,
}

pub data LineKind : Type 0 where
  context added removed : LineKind

pub record Entry : Type 0 where
  pub kind : LineKind
  pub text : String

abbrev pub entry : LineKind → String → Entry
entry k s = record { kind = k; text = s }

-- A read at an index, with a default that stands for a read past the end.
abbrev pub at {ℓ} : {A : Type ℓ} → List A → ℕ → A → A
at [] i d = d
at (x ∷ xs) zero d = x
at (x ∷ xs) (suc i) d = at xs i d

abbrev pub first {ℓ} : {A : Type ℓ} → List A → A → A
first [] d = d
first (x ∷ xs) d = x

abbrev pub behind {ℓ} : {A : Type ℓ} → List A → List A
behind [] = []
behind (x ∷ xs) = xs

-- the last row of `dp`, Array(n + 1).fill(0)
unfoldable pub zeros : List String → List ℕ
zeros [] = 0 ∷ []
zeros (y ∷ ys) = 0 ∷ zeros ys

-- the row of `dp` for the line `x`, computed from its right end and the row below it
unfoldable pub fill_row : String → List String → List ℕ → List ℕ
fill_row x [] below = 0 ∷ []
fill_row x (y ∷ ys) below =
    let right = fill_row x ys (behind below) in
    (if x == y then suc (first (behind below) 0) else max (first below 0) (first right 0)) ∷ right

-- `dp`, a row for every suffix of the old lines
unfoldable pub table : List String → List String → List (List ℕ)
unfolding zeros fill_row
table [] new_lines = zeros new_lines ∷ []
table (x ∷ xs) new_lines =
    let below = table xs new_lines in fill_row x new_lines (first below []) ∷ below

unfoldable pub cell : List (List ℕ) → ℕ → ℕ → ℕ
cell dp i j = at (at dp i []) j 0

-- the walk from `dp[i][j]`, with the lines that are left on either side
unfoldable pub walk : List (List ℕ) → ℕ → ℕ → List String → List String → List Entry
unfolding cell
walk dp i j [] [] = []
walk dp i j [] (y ∷ ys) = entry LineKind.added y ∷ walk dp i (suc j) [] ys
walk dp i j (x ∷ xs) [] = entry LineKind.removed x ∷ walk dp (suc i) j xs []
walk dp i j (x ∷ xs) (y ∷ ys) =
    let keep_line = entry LineKind.context x ∷ walk dp (suc i) (suc j) xs ys in
    let add_line = entry LineKind.added y ∷ walk dp i (suc j) (x ∷ xs) ys in
    let remove_line = entry LineKind.removed x ∷ walk dp (suc i) j xs (y ∷ ys) in
    let replace_line =
      entry LineKind.removed x ∷ entry LineKind.added y ∷ walk dp (suc i) (suc j) xs ys in
    if x == y
    then keep_line
    else if nat_eq (cell dp i j) (cell dp i (suc j))
    then add_line
    else if nat_eq (cell dp i j) (cell dp (suc i) j)
    then remove_line
    else replace_line

-- the entries of `diff`
unfoldable pub line_diff : List String → List String → List Entry
unfolding table walk
line_diff old_lines new_lines = walk (table old_lines new_lines) 0 0 old_lines new_lines
