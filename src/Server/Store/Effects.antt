-- ===== src/Server/Store/Effects.antt =====
-- What each operation on `nullifiers` answers and which row it leaves under a key.
use mathlib.Core.Option
use zkapi_ef_collab.Base.{
  ℕ, String, List, [], ◌∷◌, ◌++◌, Option, none, some, string_eq, nat_eq, if◌then◌else◌,
  update_where, exists_where, arith, ◌≡◌, refl, inl, inr, ◌≢◌, Option-cases, Bool-cases,
}
use zkapi_ef_collab.Server.Wire.{Felt252}
use zkapi_ef_collab.Server.External.{Codec}
use zkapi_ef_collab.Server.Error.{ok, err, ServerError, internal}
use zkapi_ef_collab.Server.Store.Defs.{Row, Store, TranscriptRecord}
use zkapi_ef_collab.Server.Store.Nullifiers.{
  has_key, has_key_and_status, insert_nullifier, finalized_row, finalize,
}
use zkapi_ef_collab.Server.Store.Rows.{
  row_at, IsUnique, exists-row_at, exists-ne-none, row_at-exists, row_at-append, row_at-update,
  update-IsUnique, row_at-key, count_some, count_none,
}

-- INSERT on a free key answers and adds the row; no other key is touched.
pub insert_free :
    (row : Row) (taken : ServerError) (s : Store)
    → row_at row.nullifier s.nullifiers ≡ none
    → insert_nullifier row taken s ≡ (ok tt, record s { nullifiers = s.nullifiers ++ row ∷ [] })
insert_free row taken s h = rw (row_at-exists row.nullifier s.nullifiers h)

pub row_at-insert_self :
    (rows : List Row) (row : Row)
    → row_at row.nullifier rows ≡ none
    → row_at row.nullifier (rows ++ row ∷ []) ≡ some row
row_at-insert_self rows row h = rw (row_at-append row.nullifier rows row, h) (ground arith)

pub row_at-insert_ne :
    (key : String) (rows : List Row) (row : Row)
    → key ≢ row.nullifier
    → row_at key (rows ++ row ∷ []) ≡ row_at key rows
row_at-insert_ne key rows row h = ground (arith, row_at-append key rows row)

pub insert_ok :
    (row : Row) (taken : ServerError) (s : Store) {t : Store}
    → insert_nullifier row taken s ≡ (ok tt, t)
    → (row_at row.nullifier s.nullifiers ≡ none)
      × (t ≡ record s { nullifiers = s.nullifiers ++ row ∷ [] })
insert_ok row taken s h = elim (Bool-cases (exists_where (has_key row.nullifier) s.nullifiers)) [
  | inl e ↦ let bad = rw e at h in (cc bad, cc bad)
  | inr e ↦ (exists-row_at row.nullifier s.nullifiers e, let good = rw e at h in cc good)
]

pub insert_err :
    (row : Row) (taken : ServerError) (s : Store) {e : ServerError} {t : Store}
    → insert_nullifier row taken s ≡ (err e, t)
    → (e ≡ taken) × (t ≡ s) × (row_at row.nullifier s.nullifiers ≢ none)
insert_err row taken s h = elim (Bool-cases (exists_where (has_key row.nullifier) s.nullifiers)) [
  | inl e ↦ let bad = rw e at h in (cc bad, cc bad, exists-ne-none row.nullifier s.nullifiers e)
  | inr e ↦ let good = rw e at h in (cc good, cc good, cc good)
]

module _ {Sig : Type 0} (codec : Codec Sig) (nullifier : Felt252)
    (transcript : TranscriptRecord Sig) (now : ℕ) (s : Store) where
  abbrev pub archived : Store
  archived = record s {
    nullifiers =
        update_where (has_key_and_status (codec.to_hex nullifier) "Reserved")
          (finalized_row codec transcript now) s.nullifiers;
  }

  pub archived-IsUnique : IsUnique s.nullifiers → IsUnique archived.nullifiers
  archived-IsUnique u =
      update-IsUnique (has_key_and_status (codec.to_hex nullifier) "Reserved")
        (finalized_row codec transcript now) (λ _. refl) s.nullifiers u

  -- A refusal changes nothing.
  pub finalize_err :
      {e : ServerError} {t : Store} → finalize codec nullifier transcript now s ≡ (err e, t) → t ≡ s
  unfolding finalize
  finalize_err h = ground arith

  pub finalize_reserved :
      (row : Row)
      → IsUnique s.nullifiers
      → row_at (codec.to_hex nullifier) s.nullifiers ≡ some row
      → row.status ≡ "Reserved"
      → finalize codec nullifier transcript now s ≡ (ok tt, archived)
  unfolding finalize
  finalize_reserved row u h e =
      rw (count_some (codec.to_hex nullifier) "Reserved" s.nullifiers row u h, e) (ground arith)

  pub finalize_settled :
      (row : Row)
      → IsUnique s.nullifiers
      → row_at (codec.to_hex nullifier) s.nullifiers ≡ some row
      → row.status ≢ "Reserved"
      → finalize codec nullifier transcript now s
        ≡ (err (internal "nullifier not in Reserved state or does not exist"), s)
  unfolding finalize
  finalize_settled row u h e =
      ground (arith, count_some (codec.to_hex nullifier) "Reserved" s.nullifiers row u h)

  -- It answers only for a row in the status Reserved.
  pub finalize_ok :
      {t : Store}
      → IsUnique s.nullifiers
      → finalize codec nullifier transcript now s ≡ (ok tt, t)
      → (row : Row) × (row_at (codec.to_hex nullifier) s.nullifiers ≡ some row)
        × (row.status ≡ "Reserved")
        × (t ≡ archived)
  unfolding finalize
  finalize_ok u h = elim (Option-cases (row_at (codec.to_hex nullifier) s.nullifiers)) [
    | inl e ↦ absurd (ground (arith, count_none (codec.to_hex nullifier) "Reserved" s.nullifiers e))
    | inr (row, e) ↦
        let counted = count_some (codec.to_hex nullifier) "Reserved" s.nullifiers row u e in
        (row, e, ground (arith, counted), ground (arith, counted))
  ]

  pub row_at-archived_self :
      (row : Row)
      → row_at (codec.to_hex nullifier) s.nullifiers ≡ some row
      → row.status ≡ "Reserved"
      → row_at (codec.to_hex nullifier) archived.nullifiers
        ≡ some (finalized_row codec transcript now row)
  row_at-archived_self row h e =
      rw
        (
          row_at-update (has_key_and_status (codec.to_hex nullifier) "Reserved")
              (finalized_row codec transcript now) (λ _. refl) (codec.to_hex nullifier)
              s.nullifiers,
          h,
        )
        (ground (arith, row_at-key (codec.to_hex nullifier) s.nullifiers row h))

  keep_other :
      (key : String)
      → key ≢ codec.to_hex nullifier
      → (o : Option Row) → ((row : Row) → o ≡ some row → row.nullifier ≡ key)
      → Option.map
          (λ r.
            if has_key_and_status (codec.to_hex nullifier) "Reserved" r
            then finalized_row codec transcript now r
            else r)
          o
        ≡ o
  keep_other key h none k = refl
  keep_other key h (some r) k = ground (arith, k r refl)

  pub row_at-archived_ne :
      (key : String)
      → key ≢ codec.to_hex nullifier
      → row_at key archived.nullifiers ≡ row_at key s.nullifiers
  row_at-archived_ne key h =
      rw
        (row_at-update (has_key_and_status (codec.to_hex nullifier) "Reserved")
          (finalized_row codec transcript now) (λ _. refl) key s.nullifiers)
        (keep_other key h (row_at key s.nullifiers) (row_at-key key s.nullifiers))
