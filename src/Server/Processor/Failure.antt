-- ===== src/Server/Processor/Failure.antt =====
-- A call that fails leaves the store as it was.
use zkapi_ef_collab.Base.{
  ℕ, String, ◌!=◌, ◌==◌, subst, exists_where, count_where, string_eq, option_eq, nat_eq, ltb, ◌≡◌,
  refl, inl, inr, Option-cases, Bool-cases,
}
use zkapi_ef_collab.Server.Wire.{Felt252, ApiRequest, ClearanceRequest}
use zkapi_ef_collab.Server.External.{Codec, Outcome-cases}
use zkapi_ef_collab.Server.Error.{Result, ok, err, ServerError, Result-cases}
use zkapi_ef_collab.Server.Store.{
  Row, Store, TranscriptRecord, NullifierStatus, reserved, finalized, clearance_reserved,
}
use zkapi_ef_collab.Server.Store.Nullifiers.{
  api_request_binding, reserve_v2, reserve_openrouter_lease, reserve_bound_v2, reserve_with_kind,
  insert_nullifier, has_key, has_key_and_status, reserve_clearance, finalize, lookup_by_nullifier,
}
use zkapi_ef_collab.Server.Processor.Defs.{
  Processor, ProviderResponse, ReservationKind, proxy, openrouter_lease,
}
use zkapi_ef_collab.Server.Processor.Validate.{
  reserve_as, admitted, check_new, same_request, resume, response_from_record, resume_or_reserve,
  bound_to_deployment, validate_and_reserve,
}
use zkapi_ef_collab.Server.Processor.Finalize.{
  Draws, answered, anonymous_commitment, charge_cap, sign_and_archive, finalize_request,
  process_clearance, clear_known,
}

-- What an error leaves behind is the store of the call.
abbrev pub KeepsOnError : {A : Type 0} → Store → Result A × Store → Type 0
KeepsOnError s (ok a, t) = Unit
KeepsOnError s (err e, t) = t ≡ s

pub kept_on_error :
    {A : Type 0} (s t : Store) (e : ServerError) (r : Result A × Store)
    → KeepsOnError s r
    → r ≡ (err e, t)
    → t ≡ s
kept_on_error s t e r k h = subst (KeepsOnError s) h k

admitted-KeepsOnError :
    (Sig : Type 0) (s : Store) (r : Result (Unit {0}) × Store)
    → KeepsOnError s r
    → KeepsOnError s (admitted {Sig = Sig} r)
admitted-KeepsOnError Sig s (ok u, t) k = tt
admitted-KeepsOnError Sig s (err e, t) k = k

answered-KeepsOnError :
    {A : Type 0} (a : A) (s : Store) (r : Result (Unit {0}) × Store)
    → KeepsOnError s r
    → KeepsOnError s (answered a r)
answered-KeepsOnError a s (ok u, t) k = tt
answered-KeepsOnError a s (err e, t) k = k

insert-KeepsOnError :
    (row : Row) (taken : ServerError) (s : Store) → KeepsOnError s (insert_nullifier row taken s)
insert-KeepsOnError row taken s =
    elim (Bool-cases (exists_where (has_key row.nullifier) s.nullifiers)) [
      | inl e ↦ rw e refl
      | inr e ↦ rw e tt
    ]

module _ {Sig : Type 0} (codec : Codec Sig) where
  finalize-KeepsOnError :
      (n : Felt252) (transcript : TranscriptRecord Sig) (now : ℕ) (s : Store)
      → KeepsOnError s (finalize codec n transcript now s)
  unfolding finalize
  finalize-KeepsOnError n transcript now s =
      elim (Bool-cases
        (count_where (has_key_and_status (codec.to_hex n) "Reserved") s.nullifiers == 0)) [
          | inl e ↦ rw e refl
          | inr e ↦ rw e tt
        ]

  reserve_bound-KeepsOnError :
      (request : ApiRequest) (kind : String) (now : ℕ) (s : Store)
      → KeepsOnError s (reserve_bound_v2 codec request kind now s)
  unfolding reserve_bound_v2 reserve_with_kind
  reserve_bound-KeepsOnError request kind now s =
      elim (Result-cases (api_request_binding codec request)) [
        | inl (x, e) ↦ rw (e, reserve_bound_v2) refl
        | inr (binding, e) ↦ rw (e, reserve_bound_v2) (insert-KeepsOnError _ _ s)
      ]

module _ {Sig : Type 0} (p : Processor Sig) where
  open p use {codec, crypto}

  reserve_as-KeepsOnError :
      (request : ApiRequest) (kind : ReservationKind) (now : ℕ) (s : Store)
      → KeepsOnError s (reserve_as p kind request now s)
  unfolding reserve_v2 reserve_openrouter_lease
  reserve_as-KeepsOnError request proxy now s =
      reserve_bound-KeepsOnError codec request "proxy" now s
  reserve_as-KeepsOnError request openrouter_lease now s =
      reserve_bound-KeepsOnError codec request "openrouter_lease" now s

  resume-KeepsOnError :
      (request : ApiRequest) (status : NullifierStatus) (existing : TranscriptRecord Sig)
      (s : Store)
      → KeepsOnError s (resume p request status existing, s)
  resume-KeepsOnError request finalized existing s =
      elim (Result-cases (response_from_record existing request.client_request_id)) [
        | inl (x, e) ↦ rw (e, resume, KeepsOnError) refl
        | inr (answer, e) ↦ rw (e, resume, KeepsOnError) tt
      ]
  resume-KeepsOnError request reserved existing s = tt
  resume-KeepsOnError request clearance_reserved existing s = refl

  resume_or_reserve-KeepsOnError :
      (request : ApiRequest) (kind : ReservationKind) (now created_at : ℕ) (binding : String)
      (s : Store)
      → KeepsOnError s (resume_or_reserve p request kind now created_at binding s)
  unfolding resume_or_reserve
  resume_or_reserve-KeepsOnError request kind now created_at binding s =
      elim (Option-cases (lookup_by_nullifier codec request.public_inputs.request_nullifier s)) [
        | inr (existing, e) ↦ elim (Bool-cases (same_request p request kind binding existing)) [
          | inl f ↦
              rw (e, f, resume_or_reserve) (resume-KeepsOnError request existing.status existing s)
          | inr f ↦ rw (e, f, resume_or_reserve) refl
        ]
        | inl e ↦ elim (Result-cases (check_new p request now)) [
          | inl (x, c) ↦ rw (e, c, resume_or_reserve) refl
          | inr (u, c) ↦
              rw (e, c, resume_or_reserve)
                (admitted-KeepsOnError Sig s _ (reserve_as-KeepsOnError request kind created_at s))
        ]
      ]

  validate-KeepsOnError :
      (request : ApiRequest) (kind : ReservationKind) (now created_at : ℕ) (s : Store)
      → KeepsOnError s (validate_and_reserve p request kind now created_at s)
  unfolding validate_and_reserve
  validate-KeepsOnError request kind now created_at s =
      elim (Bool-cases (crypto.canonical_payload_hash request.payload != request.payload_hash)) [
        | inl e ↦ rw e refl
        | inr e ↦ elim (Bool-cases (bound_to_deployment p request)) [
          | inr f ↦ rw (e, f) refl
          | inl f ↦ elim (Result-cases (api_request_binding codec request)) [
            | inl (x, b) ↦ rw (e, f, b) refl
            | inr (binding, b) ↦
                rw (e, f, b) (resume_or_reserve-KeepsOnError request kind now created_at binding s)
          ]
        ]
      ]

  archive-KeepsOnError :
      (request : ApiRequest) (kind : String) (reply : ProviderResponse) (draws : Draws) (now : ℕ)
      (s : Store)
      → KeepsOnError s (sign_and_archive p request kind reply draws now s)
  unfolding sign_and_archive
  archive-KeepsOnError request kind reply draws now s =
      elim (Outcome-cases (
        crypto.server_update (anonymous_commitment p request) reply.charge_applied
          draws.blind_delta)) [
            | inl (x, a) ↦ rw (a, sign_and_archive) refl
            | inr (next, a) ↦ elim (Outcome-cases (crypto.base64_decode request.proof.proof)) [
              | inl (x, b) ↦ rw (a, b, sign_and_archive) refl
              | inr (proof_bytes, b) ↦ elim (Result-cases (api_request_binding codec request)) [
                | inl (x, d) ↦ rw (a, b, d, sign_and_archive) refl
                | inr (binding, d) ↦
                    rw (a, b, d, sign_and_archive)
                      (answered-KeepsOnError _ s _ (finalize-KeepsOnError codec _ _ now s))
              ]
            ]
          ]

  -- A request that is refused before the upstream is asked leaves the store as it was.
  pub validate_err :
      (request : ApiRequest) (kind : ReservationKind) (now created_at : ℕ) (s t : Store)
      (e : ServerError)
      → validate_and_reserve p request kind now created_at s ≡ (err e, t)
      → t ≡ s
  validate_err request kind now created_at s t e h =
      kept_on_error s t e _ (validate-KeepsOnError request kind now created_at s) h

  pub finalize_request-KeepsOnError :
      (request : ApiRequest) (reply : ProviderResponse) (draws : Draws) (now : ℕ) (s : Store)
      → KeepsOnError s (finalize_request p request reply draws now s)
  unfolding finalize_request
  finalize_request-KeepsOnError request reply draws now s =
      elim (Option-cases (lookup_by_nullifier codec request.public_inputs.request_nullifier s)) [
        | inl a ↦ rw (a, finalize_request) refl
        | inr (existing, a) ↦
            elim (Bool-cases
              (ltb (charge_cap p request existing.reservation_kind reply) reply.charge_applied)) [
                | inl b ↦ rw (a, b, finalize_request) refl
                | inr b ↦
                    rw (a, b, finalize_request)
                      (archive-KeepsOnError request existing.reservation_kind reply draws now s)
              ]
      ]

  -- `finalize_request` archives the whole transcript or nothing: when it fails, whether at the
  -- lookup, the cap, the commitment, the proof or the UPDATE, the store is as it was.
  pub finalize_request_err :
      (request : ApiRequest) (reply : ProviderResponse) (draws : Draws) (now : ℕ) (s t : Store)
      (e : ServerError)
      → finalize_request p request reply draws now s ≡ (err e, t)
      → t ≡ s
  finalize_request_err request reply draws now s t e h =
      kept_on_error s t e _ (finalize_request-KeepsOnError request reply draws now s) h

  -- So does a refused clearance.
  pub process_clearance_err :
      (request : ClearanceRequest) (now : ℕ) (s t : Store) (e : ServerError)
      → process_clearance p request now s ≡ (err e, t)
      → t ≡ s
  unfolding process_clearance reserve_clearance
  process_clearance_err request now s t e h = kept_on_error s t e _ kept h
    where
      known :
          (status : NullifierStatus)
          → KeepsOnError s (clear_known p status request.withdrawal_nullifier, s)
      known reserved = refl
      known finalized = refl
      known clearance_reserved = tt

      kept : KeepsOnError s (process_clearance p request now s)
      kept = elim (Option-cases (lookup_by_nullifier codec request.withdrawal_nullifier s)) [
        | inr (existing, a) ↦ rw (a, process_clearance) (known existing.status)
        | inl a ↦
            rw (a, process_clearance) (answered-KeepsOnError _ s _ (insert-KeepsOnError _ _ s))
      ]
