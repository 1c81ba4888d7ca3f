-- ===== src/Server/Store/Rows.antt =====
-- What the statements on `nullifiers` do to the row under one key.
use mathlib.Core.Option
use zkapi_ef_collab.Base.{
  String, List, [], ◌∷◌, ◌++◌, Bool, true, false, Option, none, some, ◌==◌, string_eq, nat_eq,
  if◌then◌else◌, select_first, update_where, count_where, exists_where, arith, ◌≡◌, refl, ◌≢◌,
}
use zkapi_ef_collab.Server.Store.Defs.{Row}
use zkapi_ef_collab.Server.Store.Nullifiers.{has_key, has_key_and_status}

-- The row that a query by nullifier reads.
abbrev pub row_at : String → List Row → Option Row
row_at key rows = select_first (has_key key) rows

-- PRIMARY KEY: no key stands in two rows.
abbrev pub IsUnique : List Row → Type 0
IsUnique [] = Unit
IsUnique (row ∷ rows) = (row_at row.nullifier rows ≡ none) × IsUnique rows

pub exists-row_at :
    (key : String) (rows : List Row)
    → exists_where (has_key key) rows ≡ false
    → row_at key rows ≡ none
exists-row_at key [] h = refl
exists-row_at key (row ∷ rows) h = ground (arith, exists-row_at key rows)

pub row_at-exists :
    (key : String) (rows : List Row)
    → row_at key rows ≡ none
    → exists_where (has_key key) rows ≡ false
row_at-exists key [] h = refl
row_at-exists key (row ∷ rows) h = ground (arith, row_at-exists key rows)

pub exists-ne-none :
    (key : String) (rows : List Row)
    → exists_where (has_key key) rows ≡ true
    → row_at key rows ≢ none
exists-ne-none key [] h = cc
exists-ne-none key (row ∷ rows) h = ground (arith, exists-ne-none key rows)

pub row_at-key :
    (key : String) (rows : List Row) (row : Row) → row_at key rows ≡ some row → row.nullifier ≡ key
row_at-key key [] row h = cc
row_at-key key (r ∷ rows) row h = ground (arith, row_at-key key rows row)

-- INSERT puts the row behind the others.
pub row_at-append :
    (key : String) (rows : List Row) (row : Row)
    → row_at key (rows ++ row ∷ []) ≡ elim (row_at key rows) [
      | none ↦ if row.nullifier == key then some row else none
      | some r ↦ some r
    ]
row_at-append key [] row = refl
row_at-append key (r ∷ rows) row = ground (arith, row_at-append key rows row)

pub append-IsUnique :
    (rows : List Row) (row : Row)
    → IsUnique rows
    → row_at row.nullifier rows ≡ none
    → IsUnique (rows ++ row ∷ [])
append-IsUnique [] row u h = (refl, tt)
append-IsUnique (r ∷ rows) row u h =
    ground (arith, append-IsUnique rows row u.1, row_at-append r.nullifier rows row)

-- UPDATE of the rows that pass a test, where the key is not among the columns set.
module _ (test : Row → Bool) (change : Row → Row)
    (keeps : (row : Row) → (change row).nullifier ≡ row.nullifier) where
  pub row_at-update :
      (key : String) (rows : List Row)
      → row_at key (update_where test change rows)
        ≡ Option.map (λ r. if test r then change r else r) (row_at key rows)
  row_at-update key [] = refl
  row_at-update key (r ∷ rows) = ground (arith, keeps r, row_at-update key rows)

  pub update-IsUnique : (rows : List Row) → IsUnique rows → IsUnique (update_where test change rows)
  update-IsUnique [] u = tt
  update-IsUnique (r ∷ rows) u =
      ground (arith, keeps r, row_at-update r.nullifier rows, update-IsUnique rows u.1)

-- `WHERE nullifier = ? AND status = ?` finds a row exactly when the row under the key has the status.
pub count_none :
    (key status : String) (rows : List Row)
    → row_at key rows ≡ none
    → count_where (has_key_and_status key status) rows ≡ 0
count_none key status [] h = refl
count_none key status (r ∷ rows) h = ground (arith, count_none key status rows)

pub count_some :
    (key status : String) (rows : List Row) (row : Row)
    → IsUnique rows
    → row_at key rows ≡ some row
    → count_where (has_key_and_status key status) rows ≡ (if row.status == status then 1 else 0)
count_some key status [] row u h = cc
count_some key status (r ∷ rows) row u h =
    ground (arith, count_some key status rows row u.1, count_none key status rows)
