-- ===== src/Server/Processor/Admission.antt =====
-- When `validate_and_reserve` lets a request through, and what it leaves in the store.

use zkapi_ef_collab.Base.{
  ℕ, String, [], ◌∷◌, ◌++◌, true, none, some, string_eq, nat_eq, option_eq, if◌then◌else◌, arith,
  ◌≡◌, refl, ◌⊎◌, inl, inr, sym, ◌∙◌, ap, Option-cases, Bool-cases,
}
use zkapi_ef_collab.Server.Wire.{ApiRequest}
use zkapi_ef_collab.Server.Error.{Result, ok, err, replay, Result-cases}
use zkapi_ef_collab.Server.Store.{
  Row, Store, TranscriptRecord, NullifierStatus, reserved, finalized, clearance_reserved,
  str_to_status, row_to_record,
}
use zkapi_ef_collab.Server.Store.Nullifiers.{
  api_request_binding, reserved_row, insert_nullifier, reserve_v2, reserve_openrouter_lease,
  reserve_bound_v2, reserve_with_kind, lookup_by_nullifier,
}
use zkapi_ef_collab.Server.Store.Rows.{row_at}
use zkapi_ef_collab.Server.Store.Effects.{insert_ok}
use zkapi_ef_collab.Server.Processor.Defs.{
  Processor, ReservationKind, proxy, openrouter_lease, kind_str,
}
use zkapi_ef_collab.Server.Processor.Validate.{
  reserve_as, admitted, check_new, same_request, resume, resume_or_reserve, validate_and_reserve,
}

admitted-none :
    {Sig : Type 0} (r : Result (Unit {0}) × Store) {t : Store}
    → admitted {Sig = Sig} r ≡ (ok none, t)
    → r ≡ (ok tt, t)
admitted-none (ok u, s) h = ground arith
admitted-none (err e, s) h = cc

module _ {Sig : Type 0} (p : Processor Sig) (request : ApiRequest) (kind : ReservationKind) where
  open p use {codec, crypto}

  abbrev pub key_of : String
  key_of = codec.to_hex request.public_inputs.request_nullifier

  -- The row that the INSERT of this request writes.
  abbrev pub row_of : String → ℕ → Row
  row_of binding created_at =
      reserved_row codec request.public_inputs.request_nullifier request.client_request_id
        request.payload_hash (kind_str kind) (some binding) created_at

  pub reserve_as_eq :
      (created_at : ℕ) (s : Store) (binding : String)
      → api_request_binding codec request ≡ ok binding
      → reserve_as p kind request created_at s
        ≡ insert_nullifier (row_of binding created_at) replay s
  unfolding reserve_v2 reserve_openrouter_lease reserve_bound_v2 reserve_with_kind
  reserve_as_eq created_at s binding e =
      elim kind
        as (λ k.
          reserve_as p k request created_at s
          ≡ insert_nullifier
              (reserved_row codec request.public_inputs.request_nullifier request.client_request_id
                request.payload_hash (kind_str k) (some binding) created_at)
              replay s) [
                | proxy ↦ rw (e, reserve_bound_v2)
                | openrouter_lease ↦ rw (e, reserve_bound_v2)
              ]

  module _ (now created_at : ℕ) (s t : Store) where
    -- A reservation of this very request by this endpoint was there already.
    abbrev pub IsResumed : String → Type 0
    IsResumed binding =
        (t ≡ s)
        × (row : Row) × (row_at key_of s.nullifiers ≡ some row)
        × (same_request p request kind binding (row_to_record codec row) ≡ true)
        × (str_to_status row.status ≡ reserved)

    -- The nullifier was new, every check passed, and the request was inserted.
    abbrev pub IsInserted : String → Type 0
    IsInserted binding =
        (row_at key_of s.nullifiers ≡ none)
        × (check_new p request now ≡ ok tt)
        × (t ≡ record s { nullifiers = s.nullifiers ++ row_of binding created_at ∷ [] })

    admitted_cases :
        (binding : String)
        → api_request_binding codec request ≡ ok binding
        → row_at key_of s.nullifiers ≡ none
        → check_new p request now ≡ ok tt
        → admitted {Sig = Sig} (reserve_as p kind request created_at s) ≡ (ok none, t)
        → IsInserted binding
    admitted_cases binding b n c h = (
      n,
      c,
      (insert_ok (row_of binding created_at) replay s
          (sym (reserve_as_eq created_at s binding b) ∙ admitted-none _ h)).1,
    )

    -- The answer under a nullifier with a row, and under a new one.
    pub resume_known :
        (binding : String) (row : Row)
        → row_at key_of s.nullifiers ≡ some row
        → resume_or_reserve p request kind now created_at binding s ≡ (
          if same_request p request kind binding (row_to_record codec row)
              then resume p request (str_to_status row.status) (row_to_record codec row)
              else err replay,
          s,
        )
    unfolding resume_or_reserve lookup_by_nullifier row_to_record
    resume_known binding row e = rw (e, lookup_by_nullifier, resume_or_reserve)

    pub reserve_unknown :
        (binding : String)
        → row_at key_of s.nullifiers ≡ none
        → resume_or_reserve p request kind now created_at binding s
          ≡ elim (check_new p request now) [
            | err e ↦ (err e, s)
            | ok _ ↦ admitted (reserve_as p kind request created_at s)
          ]
    unfolding resume_or_reserve lookup_by_nullifier
    reserve_unknown binding e = rw (e, lookup_by_nullifier, resume_or_reserve)

    resume-none :
        (status : NullifierStatus) (existing : TranscriptRecord Sig)
        → resume p request status existing ≡ ok none
        → status ≡ reserved
    resume-none finalized existing h = absurd (ground arith)
    resume-none reserved existing h = refl
    resume-none clearance_reserved existing h = absurd (cc h)

    resume_admits :
        (binding : String) (row : Row)
        → row_at key_of s.nullifiers ≡ some row
        → resume_or_reserve p request kind now created_at binding s ≡ (ok none, t)
        → IsResumed binding
    resume_admits binding row e h =
        let answer = sym (resume_known binding row e) ∙ h in
        elim (Bool-cases (same_request p request kind binding (row_to_record codec row))) [
          | inl same ↦
              let resumed = rw same at answer in
              (
                cc resumed,
                row,
                e,
                same,
                resume-none (str_to_status row.status) (row_to_record codec row)
                    (ap (λ q. q.0) resumed),
              )
          | inr other ↦ let refused = rw other at answer in absurd (cc refused)
        ]

    reserve_admits :
        (binding : String)
        → api_request_binding codec request ≡ ok binding
        → row_at key_of s.nullifiers ≡ none
        → resume_or_reserve p request kind now created_at binding s ≡ (ok none, t)
        → IsInserted binding
    reserve_admits binding b e h = elim (Result-cases (check_new p request now)) [
      | inl (x, c) ↦ absurd (ground (arith, reserve_unknown binding e))
      | inr (u, c) ↦ admitted_cases binding b e c (ground (arith, reserve_unknown binding e))
    ]

    admits_bound :
        (binding : String)
        → api_request_binding codec request ≡ ok binding
        → resume_or_reserve p request kind now created_at binding s ≡ (ok none, t)
        → IsResumed binding ⊎ IsInserted binding
    admits_bound binding b h = elim (Option-cases (row_at key_of s.nullifiers)) [
      | inl e ↦ inr (reserve_admits binding b e h)
      | inr (row, e) ↦ inl (resume_admits binding row e h)
    ]

    -- A request is let through only as an exact retry or after every check.
    pub validate_admits :
        validate_and_reserve p request kind now created_at s ≡ (ok none, t)
        → (binding : String) × (api_request_binding codec request ≡ ok binding)
          × (IsResumed binding ⊎ IsInserted binding)
    unfolding validate_and_reserve
    validate_admits h = elim (Result-cases (api_request_binding codec request)) [
      | inl (x, b) ↦ absurd (ground arith)
      | inr (binding, b) ↦ (binding, b, admits_bound binding b (ground arith))
    ]
