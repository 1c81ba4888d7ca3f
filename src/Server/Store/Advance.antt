-- ===== src/Server/Store/Advance.antt =====
-- How a call on the store may change the row under a nullifier.
use mathlib.Core.Option
use zkapi_ef_collab.Base.{
  ℕ, String, Bool, true, false, Option, none, some, ◌==◌, string_eq, nat_eq, if◌then◌else◌,
  count_where, exists_where, arith, ◌≡◌, refl, ◌⊎◌, inl, inr, Bool-cases,
}
use zkapi_ef_collab.Server.Wire.{Felt252}
use zkapi_ef_collab.Server.External.{Codec}
use zkapi_ef_collab.Server.Error.{ServerError}
use zkapi_ef_collab.Server.Store.Defs.{Row, Store, TranscriptRecord, reserved, status_to_str}
use zkapi_ef_collab.Server.Store.Nullifiers.{
  has_key, has_key_and_status, insert_nullifier, finalized_row, finalize,
}
use zkapi_ef_collab.Server.Store.Rows.{
  row_at, IsUnique, exists-row_at, row_at-append, append-IsUnique, row_at-update, update-IsUnique,
}

-- The columns that an INSERT fixes for good.
pub record SameReservation (r r' : Row) : Type 0 where
  pub same_kind : r'.reservation_kind ≡ r.reservation_kind
  pub same_client : r'.client_request_id ≡ r.client_request_id
  pub same_payload : r'.payload_hash ≡ r.payload_hash
  pub same_binding : r'.api_request_binding ≡ r.api_request_binding
  pub same_creation : r'.created_at ≡ r.created_at

abbrev pub IsFresh : Row → Type 0
IsFresh r = (r.status ≡ "Reserved") ⊎ (r.status ≡ "ClearanceReserved")

-- A row stays, is inserted as a reservation, or goes from Reserved to Finalized.
abbrev pub Advances : Option Row → Option Row → Type 0
Advances none none = Unit
Advances none (some r) = IsFresh r
Advances (some r) none = ⊥
Advances (some r) (some r') =
    (r' ≡ r) ⊎ ((r.status ≡ "Reserved") × (r'.status ≡ "Finalized") × SameReservation r r')

abbrev pub AllAdvance : Store → Store → Type 0
AllAdvance s t = (key : String) → Advances (row_at key s.nullifiers) (row_at key t.nullifiers)

pub Advances-refl : (r : Option Row) → Advances r r
Advances-refl none = tt
Advances-refl (some r) = inl refl

insert_advance :
    (before : Option Row) (test : Bool) (row : Row)
    → IsFresh row
    → Advances before (elim before [ none ↦ if test then some row else none | some r ↦ some r ])
insert_advance none true row f = f
insert_advance none false row f = tt
insert_advance (some r) test row f = inl refl

pub insert_nullifier-AllAdvance :
    (row : Row) (taken : ServerError) (s : Store)
    → IsFresh row
    → AllAdvance s (insert_nullifier row taken s).1
insert_nullifier-AllAdvance row taken s f key =
    elim (Bool-cases (exists_where (has_key row.nullifier) s.nullifiers)) [
      | inl e ↦ rw e (Advances-refl _)
      | inr e ↦ rw (e, row_at-append key s.nullifiers row) (insert_advance _ _ row f)
    ]

pub insert_nullifier-IsUnique :
    (row : Row) (taken : ServerError) (s : Store)
    → IsUnique s.nullifiers
    → IsUnique (insert_nullifier row taken s).1.nullifiers
insert_nullifier-IsUnique row taken s u =
    elim (Bool-cases (exists_where (has_key row.nullifier) s.nullifiers)) [
      | inl e ↦ rw e u
      | inr e ↦
          rw e (append-IsUnique s.nullifiers row u (exists-row_at row.nullifier s.nullifiers e))
    ]

module _ {Sig : Type 0} (codec : Codec Sig) (transcript : TranscriptRecord Sig) (now : ℕ) where
  abbrev finalized_if : String → Row → Row
  finalized_if key r =
      if has_key_and_status key (status_to_str reserved) r
      then finalized_row codec transcript now r
      else r

  finalized_if-Advances :
      (key : String) (before : Option Row) → Advances before (Option.map (finalized_if key) before)
  finalized_if-Advances key none = tt
  finalized_if-Advances key (some r) = ground arith

  pub finalize-AllAdvance :
      (nullifier : Felt252) (s : Store) → AllAdvance s (finalize codec nullifier transcript now s).1
  unfolding finalize
  finalize-AllAdvance nullifier s key = elim (Bool-cases (count_where chosen s.nullifiers == 0)) [
    | inl e ↦ rw e (Advances-refl _)
    | inr e ↦
        rw
          (
            e,
            row_at-update chosen (finalized_row codec transcript now) (λ _. refl) key s.nullifiers,
          )
          (finalized_if-Advances _ (row_at key s.nullifiers))
  ]
    where
      chosen : Row → Bool
      chosen = has_key_and_status (codec.to_hex nullifier) (status_to_str reserved)

  pub finalize-IsUnique :
      (nullifier : Felt252) (s : Store)
      → IsUnique s.nullifiers
      → IsUnique (finalize codec nullifier transcript now s).1.nullifiers
  unfolding finalize
  finalize-IsUnique nullifier s u = elim (Bool-cases (count_where chosen s.nullifiers == 0)) [
    | inl e ↦ rw e u
    | inr e ↦
        rw e
          (update-IsUnique chosen (finalized_row codec transcript now) (λ _. refl) s.nullifiers u)
  ]
    where
      chosen : Row → Bool
      chosen = has_key_and_status (codec.to_hex nullifier) (status_to_str reserved)
