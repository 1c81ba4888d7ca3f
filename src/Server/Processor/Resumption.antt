-- ===== src/Server/Processor/Resumption.antt =====
-- The answers that `validate_and_reserve` reads from the store.

use zkapi_ef_collab.Base.{
  ℕ, String, true, Option, none, some, string_eq, nat_eq, option_eq, arith, ◌≡◌, inl, inr, sym, ◌∙◌,
  ap, Option-cases,
}
use zkapi_ef_collab.Server.Wire.{ApiRequest, RequestResponse}
use zkapi_ef_collab.Server.Error.{Result, ok, err, Result-cases}
use zkapi_ef_collab.Server.Store.{Row, Store, TranscriptRecord, finalized, row_to_record}
use zkapi_ef_collab.Server.Store.Nullifiers.{api_request_binding}
use zkapi_ef_collab.Server.Store.Rows.{row_at}
use zkapi_ef_collab.Server.Processor.Defs.{Processor, ReservationKind}
use zkapi_ef_collab.Server.Processor.Validate.{
  same_request, check_new, validate_and_reserve, resume_or_reserve, response_from_record, resume,
  admitted,
}
use zkapi_ef_collab.Server.Processor.Admission.{key_of, resume_known, reserve_unknown}

module _ {Sig : Type 0} (p : Processor Sig) (request : ApiRequest) where
  open p use {codec, crypto}

  -- Once let through or answered, the request passes the deployment checks against every store.
  pub validate_passed :
      (kind : ReservationKind) (now created_at : ℕ) (s t : Store) (x : Option (RequestResponse Sig))
      → validate_and_reserve p request kind now created_at s ≡ (ok x, t)
      → (binding : String) × (api_request_binding codec request ≡ ok binding)
        × ((now' created_at' : ℕ) (s' : Store)
            → validate_and_reserve p request kind now' created_at' s'
              ≡ resume_or_reserve p request kind now' created_at' binding s')
  unfolding validate_and_reserve
  validate_passed kind now created_at s t x h =
      elim (Result-cases (api_request_binding codec request)) [
        | inl (e, b) ↦ absurd (ground arith)
        | inr (binding, b) ↦ (binding, b, λ now' created_at' s'. ground arith)
      ]

  admitted_not_some :
      (r : Result (Unit {0}) × Store) {x : RequestResponse Sig} {t : Store}
      → admitted r ≡ (ok (some x), t)
      → ⊥
  admitted_not_some (ok u, s) h = cc h
  admitted_not_some (err e, s) h = cc h

  never_some :
      (kind : ReservationKind) (now created_at : ℕ) (s t : Store) (binding : String)
      (response : RequestResponse Sig)
      → row_at (key_of p request kind) s.nullifiers ≡ none
      → resume_or_reserve p request kind now created_at binding s ≡ (ok (some response), t)
      → ⊥
  never_some kind now created_at s t binding response e h =
      let answer = sym (reserve_unknown p request kind now created_at s t binding e) ∙ h in
      elim (Result-cases (check_new p request now)) [
        | inl (x, c) ↦ let refused = rw c at answer in cc refused
        | inr (u, c) ↦ admitted_not_some _ (rw c at answer)
      ]

  -- An answer from the store depends on no clock and changes nothing.
  pub resumed_again :
      (kind : ReservationKind) (now created_at now' created_at' : ℕ) (s t : Store)
      (binding : String) (response : RequestResponse Sig)
      → resume_or_reserve p request kind now created_at binding s ≡ (ok (some response), t)
      → (t ≡ s)
        × (resume_or_reserve p request kind now' created_at' binding s ≡ (ok (some response), s))
  resumed_again kind now created_at now' created_at' s t binding response h =
      elim (Option-cases (row_at (key_of p request kind) s.nullifiers)) [
        | inl e ↦ absurd (never_some kind now created_at s t binding response e h)
        | inr (row, e) ↦
            let first = sym (resume_known p request kind now created_at s t binding row e) ∙ h in
            let again = resume_known p request kind now' created_at' s t binding row e in
            (sym (ap (λ q. q.1) first), again ∙ ap (λ r. (r, s)) (ap (λ q. q.0) first))
      ]

  resume_ok :
      (existing : TranscriptRecord Sig) (response : RequestResponse Sig)
      → response_from_record existing request.client_request_id ≡ ok response
      → resume p request finalized existing ≡ ok (some response)
  resume_ok existing response e = rw (e, resume)

  pub resume_finalized :
      (kind : ReservationKind) (now created_at : ℕ) (t : Store) (binding : String) (row : Row)
      (response : RequestResponse Sig)
      → row_at (key_of p request kind) t.nullifiers ≡ some row
      → row.status ≡ "Finalized"
      → same_request p request kind binding (row_to_record codec row) ≡ true
      → response_from_record (row_to_record codec row) request.client_request_id ≡ ok response
      → resume_or_reserve p request kind now created_at binding t ≡ (ok (some response), t)
  unfolding string_eq
  resume_finalized kind now created_at t binding row response e f same back =
      rw (resume_known p request kind now created_at t t binding row e, same)
        (simp f (ap (λ r. (r, t)) (resume_ok (row_to_record codec row) response back)))
