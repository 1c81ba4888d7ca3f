-- ===== src/Base/Table.antt =====
-- SQL statements on a table without an index on the columns that are searched: a list of rows in
-- the order of insertion, and a condition as a Boolean test.
use mathlib.Core.Path.{◌≡◌, refl}
use mathlib.Core.Bool.{Bool, true, false}
use mathlib.Core.Option.{Option, none, some}
use mathlib.Core.List.{List, [], ◌∷◌}
use Prim.Native.Nat.{ℕ, suc}
use native.Mathlib.Omega.{arith}
use zkapi_ef_collab.Base.Equality.{if◌then◌else◌}

module _ {ℓ} {A : Type ℓ} where
  -- The first row of `SELECT … WHERE p`, which is what `query_row` reads.
  abbrev pub select_first : (A → Bool) → List A → Option A
  select_first p [] = none
  select_first p (r ∷ rs) = if p r then some r else select_first p rs

  abbrev pub select_all : (A → Bool) → List A → List A
  select_all p [] = []
  select_all p (r ∷ rs) = if p r then r ∷ select_all p rs else select_all p rs

  -- `UPDATE … SET f WHERE p`, and the number of rows that it changes.
  abbrev pub update_where : (A → Bool) → (A → A) → List A → List A
  update_where p f [] = []
  update_where p f (r ∷ rs) = (if p r then f r else r) ∷ update_where p f rs

  abbrev pub count_where : (A → Bool) → List A → ℕ
  count_where p [] = 0
  count_where p (r ∷ rs) = if p r then suc (count_where p rs) else count_where p rs

  abbrev pub delete_where : (A → Bool) → List A → List A
  delete_where p [] = []
  delete_where p (r ∷ rs) = if p r then delete_where p rs else r ∷ delete_where p rs

  -- Whether some row passes the test.
  abbrev pub exists_where : (A → Bool) → List A → Bool
  exists_where p [] = false
  exists_where p (r ∷ rs) = if p r then true else exists_where p rs

  pub select_first-none :
      (p : A → Bool) (rs : List A) → exists_where p rs ≡ false → select_first p rs ≡ none
  select_first-none p [] h = refl
  select_first-none p (r ∷ rs) h = ground (arith, select_first-none p rs)
