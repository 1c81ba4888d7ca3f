-- ===== src/Server/Processor/Replay.antt =====
-- A request that was answered is answered again from the store, and changes nothing.

use mathlib.Core.Option.{some-injective}
use zkapi_ef_collab.Base.{
  ℕ, String, true, none, some, string_eq, nat_eq, option_eq, arith, ◌≡◌, refl, ◌⊎◌, inl, inr, sym,
  ◌∙◌, subst, ap,
}
use zkapi_ef_collab.Server.Wire.{Felt252, ApiRequest, RequestResponse}
use zkapi_ef_collab.Server.External.{IsLawful}
use zkapi_ef_collab.Server.Error.{Result, ok, Result-cases}
use zkapi_ef_collab.Server.Store.{Row, Store, TranscriptRecord, row_to_record}
use zkapi_ef_collab.Server.Store.Nullifiers.{finalized_row}
use zkapi_ef_collab.Server.Store.Rows.{row_at, IsUnique, append-IsUnique, row_at-key}
use zkapi_ef_collab.Server.Store.Effects.{row_at-archived_self, row_at-insert_self}
use zkapi_ef_collab.Server.Processor.Defs.{Processor, ProviderResponse, ReservationKind, proxy}
use zkapi_ef_collab.Server.Processor.Validate.{
  same_request, validate_and_reserve, resume_or_reserve,
}
use zkapi_ef_collab.Server.Processor.Finalize.{
  Draws, transcript_of, finalize_request, process_request,
}
use zkapi_ef_collab.Server.Processor.Admission.{
  key_of, row_of, IsResumed, IsInserted, validate_admits,
}
use zkapi_ef_collab.Server.Processor.Archive.{IsArchived, finalize_request_ok}
use zkapi_ef_collab.Server.Processor.Readback.{
  IsInRange, response-archived, same_request-finalized, same_request-row_of,
}
use zkapi_ef_collab.Server.Processor.Resumption.{validate_passed, resumed_again, resume_finalized}

module _ {Sig : Type 0} (p : Processor Sig) (lawful : IsLawful p.codec) (request : ApiRequest) where
  open p use {codec, crypto}

  module _ (execute : String → String → Felt252 → Result ProviderResponse) (draws : Draws)
      (now created_at finalized_at : ℕ) (s : Store) (response : RequestResponse Sig)
      (t : Store) where
    -- An answer of `process_request` comes from the store or from `finalize_request`.
    process_cases :
        process_request p execute request draws now created_at finalized_at s ≡ (ok response, t)
        → (validate_and_reserve p request proxy now created_at s ≡ (ok (some response), t))
          ⊎ ((s' : Store) × (reply : ProviderResponse) × (validate_and_reserve p request proxy now
                  created_at s
                ≡ (ok none, s'))
              × (execute request.client_request_id request.payload request.payload_hash ≡ ok reply)
              × (finalize_request p request reply draws finalized_at s' ≡ (ok response, t)))
    unfolding process_request
    process_cases h =
        elim (Result-cases (validate_and_reserve p request proxy now created_at s).0) [
          | inl (x, e) ↦ absurd (ground arith)
          | inr (none, e) ↦
              elim (Result-cases
                (execute request.client_request_id request.payload request.payload_hash)) [
                  | inl (x, f) ↦ absurd (ground arith)
                  | inr (reply, f) ↦ inr (
                    (validate_and_reserve p request proxy now created_at s).1,
                    reply,
                    ground arith,
                    f,
                    ground arith,
                  )
                ]
          | inr (some x, e) ↦ inl (ground arith)
        ]

  replays :
      (execute : String → String → Felt252 → Result ProviderResponse) (draws : Draws)
      (now created_at finalized_at : ℕ) (t : Store) (response : RequestResponse Sig)
      → validate_and_reserve p request proxy now created_at t ≡ (ok (some response), t)
      → process_request p execute request draws now created_at finalized_at t ≡ (ok response, t)
  unfolding process_request
  replays execute draws now created_at finalized_at t response h =
      rw (h, process_request) (ap (λ q. (ok response, q.1)) h)

  resumed_replay :
      (now created_at now' created_at' : ℕ) (s t : Store) (response : RequestResponse Sig)
      → validate_and_reserve p request proxy now created_at s ≡ (ok (some response), t)
      → validate_and_reserve p request proxy now' created_at' t ≡ (ok (some response), t)
  resumed_replay now created_at now' created_at' s t response h =
      let (binding, b, passed) =
        validate_passed p request proxy now created_at s t (some response) h in
      let (same, again) =
        resumed_again p request proxy now created_at now' created_at' s t binding response
          (sym (passed now created_at s) ∙ h) in
      passed now' created_at' t
      ∙ subst
          (λ q.
            resume_or_reserve p request proxy now' created_at' binding q ≡ (ok (some response), q))
          (sym same) again

  pub admitted_same :
      (kind : ReservationKind) (now created_at : ℕ) (s s' : Store) (binding : String) (row : Row)
      → row_at (key_of p request kind) s'.nullifiers ≡ some row
      → IsResumed p request kind now created_at s s' binding
        ⊎ IsInserted p request kind now created_at s s' binding
      → same_request p request kind binding (row_to_record codec row) ≡ true
  admitted_same kind now created_at s s' binding row e (inl (same, row', e', m, _)) =
      subst (λ r. same_request p request kind binding (row_to_record codec r) ≡ true)
        (some-injective row' row
          (sym e' ∙ ap (λ q. row_at (key_of p request kind) q.nullifiers) (sym same) ∙ e))
        m
  admitted_same kind now created_at s s' binding row e (inr (free, _, i)) =
      subst (λ r. same_request p request kind binding (row_to_record codec r) ≡ true)
        (some-injective (row_of p request kind binding created_at) row (
          sym (row_at-insert_self s.nullifiers (row_of p request kind binding created_at) free)
          ∙ ap (λ q. row_at (key_of p request kind) q.nullifiers) (sym i)
          ∙ e))
        (same_request-row_of p lawful request kind binding created_at)

  pub admitted-IsUnique :
      (kind : ReservationKind) (now created_at : ℕ) (s s' : Store) (binding : String)
      → IsUnique s.nullifiers
      → IsResumed p request kind now created_at s s' binding
        ⊎ IsInserted p request kind now created_at s s' binding
      → IsUnique s'.nullifiers
  admitted-IsUnique kind now created_at s s' binding u (inl r) = rw r.0 u
  admitted-IsUnique kind now created_at s s' binding u (inr (free, _, i)) =
      rw i (append-IsUnique s.nullifiers (row_of p request kind binding created_at) u free)

  -- After `finalize_request` has answered, the same request is answered from the store.
  archived_resumes :
      (kind : ReservationKind) (reply : ProviderResponse) (draws : Draws)
      (finalized_at now created_at : ℕ) (s t : Store) (binding : String)
      (response : RequestResponse Sig)
      → IsInRange reply
      → (done : IsArchived p request reply draws finalized_at s response t)
      → same_request p request kind binding (row_to_record codec done.row) ≡ true
      → resume_or_reserve p request kind now created_at binding t ≡ (ok (some response), t)
  archived_resumes kind reply draws finalized_at now created_at s t binding response r done same =
      resume_finalized p request kind now created_at t binding
        (finalized_row codec transcript finalized_at done.row) response
        (ap (λ q. row_at (key_of p request kind) q.nullifiers) done.stored
          ∙ row_at-archived_self codec request.public_inputs.request_nullifier transcript
              finalized_at s done.row done.found done.was_reserved)
        refl
        (same_request-finalized p lawful request kind binding transcript finalized_at done.row
          ∙ same)
        (response-archived p lawful request reply done.next draws done.proof_bytes done.binding
            finalized_at done.row r
            (row_at-key (key_of p request kind) s.nullifiers done.row done.found)
          ∙ ap ok (sym done.answered))
    where
      transcript : TranscriptRecord Sig
      transcript =
          transcript_of p request done.row.reservation_kind reply done.next draws done.proof_bytes
            done.binding finalized_at

  finalized_replay :
      (reply : ProviderResponse) (draws : Draws) (now created_at finalized_at now' created_at' : ℕ)
      (s s' t : Store) (response : RequestResponse Sig)
      → IsInRange reply
      → IsUnique s.nullifiers
      → validate_and_reserve p request proxy now created_at s ≡ (ok none, s')
      → finalize_request p request reply draws finalized_at s' ≡ (ok response, t)
      → validate_and_reserve p request proxy now' created_at' t ≡ (ok (some response), t)
  finalized_replay reply draws now created_at finalized_at now' created_at' s s' t response r u h
        g =
      let (binding, b, how) = validate_admits p request proxy now created_at s s' h in
      let (binding', b', passed) = validate_passed p request proxy now created_at s s' none h in
      let done =
        finalize_request_ok p request reply draws finalized_at s'
          (admitted-IsUnique proxy now created_at s s' binding u how) g in
      let agree : binding' ≡ binding = cc in
      passed now' created_at' t
      ∙ rw agree (
          archived_resumes proxy reply draws finalized_at now' created_at' s' t binding response r
            done (admitted_same proxy now created_at s s' binding done.row done.found how))

  -- A request that was answered is answered alike when it is sent again: the same response, from
  -- the store as it was left, whatever the clocks, the draws and the upstream are then. The codec
  -- reads back what it prints, the numbers of the upstream's reply fit their columns, and the store
  -- had one row for each nullifier.
  pub process_request_idempotent :
      (execute execute' : String → String → Felt252 → Result ProviderResponse)
      (draws draws' : Draws) (now created_at finalized_at now' created_at' finalized_at' : ℕ)
      (s t : Store) (response : RequestResponse Sig)
      → ((reply : ProviderResponse)
          → execute request.client_request_id request.payload request.payload_hash ≡ ok reply
          → IsInRange reply)
      → IsUnique s.nullifiers
      → process_request p execute request draws now created_at finalized_at s ≡ (ok response, t)
      → process_request p execute' request draws' now' created_at' finalized_at' t
        ≡ (ok response, t)
  process_request_idempotent execute execute' draws draws' now created_at finalized_at now'
        created_at' finalized_at' s t response r u h =
      replays execute' draws' now' created_at' finalized_at' t response
        (elim (process_cases execute draws now created_at finalized_at s response t h) [
          | inl stored ↦ resumed_replay now created_at now' created_at' s t response stored
          | inr (s', reply, v, f, g) ↦
              finalized_replay reply draws now created_at finalized_at now' created_at' s s' t
                response (r reply f) u v g
        ])
