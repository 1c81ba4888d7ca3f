-- ===== src/Server/System/Steps.antt =====
-- The statements on the store as a step relation, and that the handlers are made of such steps.

use zkapi_ef_collab.Base.{
  ℕ, String, ◌!=◌, string_eq, nat_eq, ltb, ◌≡◌, refl, inl, inr, Option-cases, Bool-cases,
}
use zkapi_ef_collab.Server.Wire.{Felt252, ApiRequest, ClearanceRequest}
use zkapi_ef_collab.Server.External.{Codec, Outcome-cases}
use zkapi_ef_collab.Server.Error.{Result, ok, err, Result-cases}
use zkapi_ef_collab.Server.Store.{Store, TranscriptRecord}
use zkapi_ef_collab.Server.Store.Nullifiers.{
  api_request_binding, reserve, reserve_bound_v2, reserve_v2, reserve_openrouter_lease,
  reserve_clearance, finalize, lookup_by_nullifier,
}
use zkapi_ef_collab.Server.Processor.{
  Processor, ProviderResponse, ReservationKind, proxy, openrouter_lease,
}
use zkapi_ef_collab.Server.Processor.Validate.{
  reserve_as, admitted, bound_to_deployment, check_new, resume_or_reserve, validate_and_reserve,
}
use zkapi_ef_collab.Server.Processor.Finalize.{
  Draws, answered, anonymous_commitment, charge_cap, sign_and_archive, finalize_request,
  process_clearance,
}

-- One statement. The lease table is free: a step may change it in any way.
pub data Step {Sig : Type 0} (codec : Codec Sig) : Store → Store → Type 0 where
  reserves :
      (s : Store) (n : Felt252) (client : String) (hash : Felt252) (now : ℕ)
      → Step codec s (reserve codec n client hash now s).1
  reserves_bound :
      (s : Store) (request : ApiRequest) (kind : String) (now : ℕ)
      → Step codec s (reserve_bound_v2 codec request kind now s).1
  archives :
      (s : Store) (n : Felt252) (transcript : TranscriptRecord Sig) (now : ℕ)
      → Step codec s (finalize codec n transcript now s).1
  clears : (s : Store) (n : Felt252) (now : ℕ) → Step codec s (reserve_clearance codec n now s).1
  on_leases : (s t : Store) → t.nullifiers ≡ s.nullifiers → Step codec s t

pub data Reach {Sig : Type 0} (codec : Codec Sig) (s : Store) : Store → Type 0 where
  here : Reach codec s s
  then_step : {t u : Store} → Reach codec s t → Step codec t u → Reach codec s u

module _ {Sig : Type 0} {codec : Codec Sig} where
  pub Reach-trans : {s t u : Store} → Reach codec s t → Reach codec t u → Reach codec s u
  Reach-trans r here = r
  Reach-trans r (then_step q st) = then_step (Reach-trans r q) st

  pub one : {s t : Store} → Step codec s t → Reach codec s t
  one st = then_step here st

admitted_store : (Sig : Type 0) (r : Result (Unit {0}) × Store) → (admitted {Sig = Sig} r).1 ≡ r.1
admitted_store Sig (ok u, s) = refl
admitted_store Sig (err e, s) = refl

answered_store : {A : Type 0} (a : A) (r : Result (Unit {0}) × Store) → (answered a r).1 ≡ r.1
answered_store a (ok u, s) = refl
answered_store a (err e, s) = refl

module _ {Sig : Type 0} (p : Processor Sig) where
  open p use {codec, crypto}

  reserve_as-Step :
      (request : ApiRequest) (kind : ReservationKind) (now : ℕ) (s : Store)
      → Step codec s (reserve_as p kind request now s).1
  unfolding reserve_v2 reserve_openrouter_lease
  reserve_as-Step request proxy now s = reserves_bound s request "proxy" now
  reserve_as-Step request openrouter_lease now s = reserves_bound s request "openrouter_lease" now

  resume-Reach :
      (request : ApiRequest) (kind : ReservationKind) (now created_at : ℕ) (binding : String)
      (s : Store)
      → Reach codec s (resume_or_reserve p request kind now created_at binding s).1
  unfolding resume_or_reserve
  resume-Reach request kind now created_at binding s =
      elim (Option-cases (lookup_by_nullifier codec request.public_inputs.request_nullifier s)) [
        | inr (existing, e) ↦ rw (e, resume_or_reserve) here
        | inl e ↦ elim (Result-cases (check_new p request now)) [
          | inl (x, c) ↦ rw (e, c, resume_or_reserve) here
          | inr (u, c) ↦
              rw (e, c, resume_or_reserve)
                (rw (admitted_store Sig (reserve_as p kind request created_at s))
                  (one (reserve_as-Step request kind created_at s)))
        ]
      ]

  -- `validate_and_reserve` is a sequence of the store's statements, on every branch.
  pub validate-Reach :
      (request : ApiRequest) (kind : ReservationKind) (now created_at : ℕ) (s : Store)
      → Reach codec s (validate_and_reserve p request kind now created_at s).1
  unfolding validate_and_reserve
  validate-Reach request kind now created_at s =
      elim (Bool-cases (crypto.canonical_payload_hash request.payload != request.payload_hash)) [
        | inl e ↦ rw e here
        | inr e ↦ elim (Bool-cases (bound_to_deployment p request)) [
          | inr f ↦ rw (e, f) here
          | inl f ↦ elim (Result-cases (api_request_binding codec request)) [
            | inl (x, b) ↦ rw (e, f, b) here
            | inr (binding, b) ↦ rw (e, f, b) (resume-Reach request kind now created_at binding s)
          ]
        ]
      ]

  archive-Reach :
      (request : ApiRequest) (kind : String) (reply : ProviderResponse) (draws : Draws) (now : ℕ)
      (s : Store)
      → Reach codec s (sign_and_archive p request kind reply draws now s).1
  unfolding sign_and_archive
  archive-Reach request kind reply draws now s =
      elim (Outcome-cases (
        crypto.server_update (anonymous_commitment p request) reply.charge_applied
          draws.blind_delta)) [
            | inl (x, a) ↦ rw (a, sign_and_archive) here
            | inr (next, a) ↦ elim (Outcome-cases (crypto.base64_decode request.proof.proof)) [
              | inl (x, b) ↦ rw (a, b, sign_and_archive) here
              | inr (proof_bytes, b) ↦ elim (Result-cases (api_request_binding codec request)) [
                | inl (x, d) ↦ rw (a, b, d, sign_and_archive) here
                | inr (binding, d) ↦
                    rw (a, b, d, sign_and_archive)
                      (rw (answered_store _ _) (one (archives s _ _ now)))
              ]
            ]
          ]

  -- `finalize_request` is a sequence of the store's statements, on every branch.
  pub finalize_request-Reach :
      (request : ApiRequest) (reply : ProviderResponse) (draws : Draws) (now : ℕ) (s : Store)
      → Reach codec s (finalize_request p request reply draws now s).1
  unfolding finalize_request
  finalize_request-Reach request reply draws now s =
      elim (Option-cases (lookup_by_nullifier codec request.public_inputs.request_nullifier s)) [
        | inl e ↦ rw (e, finalize_request) here
        | inr (existing, e) ↦
            elim (Bool-cases
              (ltb (charge_cap p request existing.reservation_kind reply) reply.charge_applied)) [
                | inl f ↦ rw (e, f, finalize_request) here
                | inr f ↦
                    rw (e, f, finalize_request)
                      (archive-Reach request existing.reservation_kind reply draws now s)
              ]
      ]

  pub process_clearance-Reach :
      (request : ClearanceRequest) (now : ℕ) (s : Store)
      → Reach codec s (process_clearance p request now s).1
  unfolding process_clearance
  process_clearance-Reach request now s =
      elim (Option-cases (lookup_by_nullifier codec request.withdrawal_nullifier s)) [
        | inr (existing, e) ↦ rw (e, process_clearance) here
        | inl e ↦ rw (e, process_clearance) (rw (answered_store _ _) (one (clears s _ now)))
      ]
