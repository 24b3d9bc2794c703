-- ===== src/Common/Tables.antt =====
-- A database table as the list of its rows, in insertion order: the reads and writes that name one
-- key column.
use Prim.Native.String.{String}
use mathlib.Core.Path.{◌≡◌}
use mathlib.Core.Logic.{◌≢◌}
use mathlib.Core.List.{List, [], ◌∷◌}
use mathlib.Core.Option
use mathlib.Core.Option.{Option, none, some}
use native.Mathlib.Omega.{arith}
use text.Mathlib.Text.{◌==◌}
use text.Mathlib.TextEquality.{eq_iff}
use nano_symphony.Common.Tests.{if◌then◌else◌}

module _ {ℓ} {A : Type ℓ} (key : A → String) where
  -- SELECT * FROM rows WHERE key = k
  unfoldable pub find_row : String → List A → Option A
  find_row k [] = none
  find_row k (r ∷ rs) = if key r == k then some r else find_row k rs

  -- UPDATE rows SET f WHERE key = k
  unfoldable pub update_rows : String → (A → A) → List A → List A
  update_rows k f [] = []
  update_rows k f (r ∷ rs) = (if key r == k then f r else r) ∷ update_rows k f rs

  -- DELETE FROM rows WHERE key = k
  unfoldable pub delete_rows : String → List A → List A
  delete_rows k [] = []
  delete_rows k (r ∷ rs) = let rest = delete_rows k rs in if key r == k then rest else r ∷ rest

  -- no row has the key
  abbrev pub Lacks : String → List A → Type 0
  Lacks k [] = Unit
  Lacks k (r ∷ rs) = (key r ≢ k) × Lacks k rs

  -- the column is a primary key
  abbrev pub IsKeyed : List A → Type 0
  IsKeyed [] = Unit
  IsKeyed (r ∷ rs) = Lacks (key r) rs × IsKeyed rs

  pub find_row-update_rows :
      (j k : String) (f : A → A)
      → ((r : A) → key (f r) ≡ key r)
      → (rows : List A)
      → find_row j (update_rows k f rows)
        ≡ (if k == j then Option.map f (find_row j rows) else find_row j rows)
  unfolding find_row update_rows
  find_row-update_rows j k f same [] = ground arith
  find_row-update_rows j k f same (r ∷ rs) = ground (
    arith,
    same r,
    eq_iff (key r) k,
    eq_iff (key r) j,
    eq_iff k j,
    find_row-update_rows j k f same rs,
  )

  pub key-find_row : (k : String) (rows : List A) (r : A) → find_row k rows ≡ some r → key r ≡ k
  unfolding find_row
  key-find_row k [] r h = cc
  key-find_row k (x ∷ rs) r h = ground (arith, eq_iff (key x) k, key-find_row k rs r)
