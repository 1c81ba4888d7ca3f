-- ===== src/Server/Processor/Finalize.antt =====
-- `finalize_request`, `process_request` and `process_clearance`
-- (zkapi-serverd/src/processor_v2.rs).

use zkapi_ef_collab.Base.{
  ℕ, String, List, Option, none, some, Bool, true, false, ◌&&◌, ◌==◌, string_eq, nat_eq, option_eq,
  ltb, if◌then◌else◌,
}
use zkapi_ef_collab.Server.Error.{Result, ok, err, invalid_proof, internal, nullifier_used}
use zkapi_ef_collab.Server.Wire.{
  Felt252, CurvePoint, ApiRequest, RequestResponse, ClearanceRequest, ClearanceResponse,
}
use zkapi_ef_collab.Server.External.{success, failure}
use zkapi_ef_collab.Server.Store.{
  Store, TranscriptRecord, NullifierStatus, finalized, clearance_reserved, Action,
}
use zkapi_ef_collab.Server.Store.Nullifiers.{
  api_request_binding, lookup_by_nullifier, finalize, reserve_clearance,
}
use zkapi_ef_collab.Server.Processor.Defs.{
  Processor, proxy, openrouter_lease, kind_str, sign_state, sign_clearance, ProviderResponse,
}
use zkapi_ef_collab.Server.Processor.Validate.{validate_and_reserve}

-- What `finalize_request` draws at random.
pub record Draws : Type 0 where
  pub blind_delta : Felt252
  pub anchor_seed : Felt252

abbrev pub is_some : {A : Type 0} → Option A → Bool
is_some none = false
is_some (some a) = true

-- `call?; Ok(answer)`
abbrev pub answered : {A : Type 0} → A → Result (Unit {0}) × Store → Result A × Store
answered a (ok _, s) = (ok a, s)
answered a (err e, s) = (err e, s)

module _ {Sig : Type 0} (p : Processor Sig) where
  open p use {config, signer, codec, crypto}

  -- The cap on the charge of a request that was reserved under `kind`.
  unfoldable pub charge_cap : ApiRequest → String → ProviderResponse → ℕ
  charge_cap request kind reply =
      if kind == kind_str openrouter_lease
      then request.public_inputs.solvency_bound
      else if config.policy_enabled && is_some reply.policy_reason_code
      then config.policy_charge_cap
      else config.request_charge_cap

  abbrev pub anonymous_commitment : ApiRequest → CurvePoint
  anonymous_commitment request = record {
    x = request.public_inputs.anonymous_commitment_x;
    y = request.public_inputs.anonymous_commitment_y;
  }

  abbrev pub anchor_after : ApiRequest → CurvePoint → Felt252 → Felt252
  anchor_after request next seed =
      crypto.next_anchor seed request.public_inputs.request_nullifier next.x next.y

  abbrev pub signature_after : CurvePoint → Felt252 → Sig
  signature_after next anchor = sign_state signer (
      crypto.state_message config.protocol_version config.chain_id config.contract_address next.x
        next.y anchor)

  unfoldable pub transcript_of :
      ApiRequest
      → String
      → ProviderResponse
      → CurvePoint
      → Draws
      → List ℕ
      → String
      → ℕ
      → TranscriptRecord Sig
  transcript_of request kind reply next draws proof_bytes binding now =
      let anchor = anchor_after request next draws.anchor_seed in
      record {
        nullifier = request.public_inputs.request_nullifier;
        status = finalized;
        reservation_kind = kind;
        client_request_id = some request.client_request_id;
        payload_hash = some request.payload_hash;
        charge_applied = some reply.charge_applied;
        response_code = some reply.status_code;
        response_payload = some reply.payload;
        response_hash = some (crypto.canonical_response_hash reply.payload);
        next_commitment_x = some next.x;
        next_commitment_y = some next.y;
        next_anchor = some anchor;
        blind_delta_srv = some draws.blind_delta;
        next_state_sig_epoch = none;
        next_state_sig_root = none;
        next_state_sig = some (signature_after next anchor);
        policy_reason_code = reply.policy_reason_code;
        policy_evidence_hash = reply.policy_evidence_hash;
        proof_blob = some proof_bytes;
        request_inputs_json = codec.inputs_to_json request.public_inputs;
        api_request_binding = some binding;
        created_at = now;
        finalized_at = some now;
      }

  unfoldable pub response_of :
      ApiRequest → ProviderResponse → CurvePoint → Draws → RequestResponse Sig
  response_of request reply next draws =
      let anchor = anchor_after request next draws.anchor_seed in
      record {
        status = "ok";
        client_request_id = request.client_request_id;
        request_nullifier = request.public_inputs.request_nullifier;
        response_code = reply.status_code;
        response_payload = reply.payload;
        response_hash = crypto.canonical_response_hash reply.payload;
        charge_applied = reply.charge_applied;
        next_commitment = next;
        next_anchor = anchor;
        blind_delta_srv = draws.blind_delta;
        next_state_signature = signature_after next anchor;
        policy_reason_code = reply.policy_reason_code;
        policy_evidence_hash = reply.policy_evidence_hash;
      }

  -- The part behind the charge check: update, sign, archive.
  unfoldable pub sign_and_archive :
      ApiRequest → String → ProviderResponse → Draws → ℕ → Action (RequestResponse Sig)
  sign_and_archive request kind reply draws now s =
      elim (crypto.server_update (anonymous_commitment request) reply.charge_applied
        draws.blind_delta) [
          | failure e ↦ (err (invalid_proof e), s)
          | success next ↦ elim (crypto.base64_decode request.proof.proof) [
            | failure e ↦ (err (invalid_proof e), s)
            | success proof_bytes ↦ elim (api_request_binding codec request) [
              | err e ↦ (err e, s)
              | ok binding ↦ answered (response_of request reply next draws) (
                  finalize codec request.public_inputs.request_nullifier
                    (transcript_of request kind reply next draws proof_bytes binding now) now s)
            ]
          ]
        ]

  unfoldable pub finalize_request :
      ApiRequest → ProviderResponse → Draws → ℕ → Action (RequestResponse Sig)
  finalize_request request reply draws now s =
      elim (lookup_by_nullifier codec request.public_inputs.request_nullifier s) [
        | none ↦ (err (internal "request nullifier is no longer reserved"), s)
        | some existing ↦
            if ltb (charge_cap request existing.reservation_kind reply) reply.charge_applied
            then (err (internal "provider charge exceeds cap"), s)
            else sign_and_archive request existing.reservation_kind reply draws now s
      ]

  -- The upstream is an argument: `execute` of the configured provider.
  unfoldable pub process_request :
      (String → String → Felt252 → Result ProviderResponse)
      → ApiRequest
      → Draws
      → ℕ
      → ℕ
      → ℕ
      → Action (RequestResponse Sig)
  process_request execute request draws now created_at finalized_at s =
      let (r, s') = validate_and_reserve p request proxy now created_at s in
      elim r [
        | err e ↦ (err e, s')
        | ok (some response) ↦ (ok response, s')
        | ok none ↦ elim (execute request.client_request_id request.payload request.payload_hash) [
          | err e ↦ (err e, s')
          | ok reply ↦ finalize_request request reply draws finalized_at s'
        ]
      ]

  abbrev pub clearance_response : Felt252 → ClearanceResponse Sig
  clearance_response nullifier = record {
    status = "ok";
    withdrawal_nullifier = nullifier;
    signature = sign_clearance signer (
        crypto.clearance_message config.protocol_version config.chain_id config.contract_address
          nullifier);
  }

  abbrev pub clear_known : NullifierStatus → Felt252 → Result (ClearanceResponse Sig)
  clear_known clearance_reserved nullifier = ok (clearance_response nullifier)
  clear_known _ nullifier = err nullifier_used

  unfoldable pub process_clearance : ClearanceRequest → ℕ → Action (ClearanceResponse Sig)
  process_clearance request now s =
      elim (lookup_by_nullifier codec request.withdrawal_nullifier s) [
        | some existing ↦ (clear_known existing.status request.withdrawal_nullifier, s)
        | none ↦
            answered (clearance_response request.withdrawal_nullifier)
              (reserve_clearance codec request.withdrawal_nullifier now s)
      ]
