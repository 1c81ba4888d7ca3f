-- ===== src/Server/Processor/Validate.antt =====
-- `validate_and_reserve` and the responses read from the store
-- (zkapi-serverd/src/processor_v2.rs).
use mathlib.Core.Option
use zkapi_ef_collab.Base.{
  ℕ, String, Option, none, some, Bool, ◌&&◌, ◌||◌, ◌==◌, ◌!=◌, string_eq, nat_eq, option_eq, ltb,
  if◌then◌else◌, saturating_add,
}
use zkapi_ef_collab.Server.Error.{
  Result, ok, err, invalid_proof, stale_root, replay, internal, invalid_request, protocol_mismatch,
}
use zkapi_ef_collab.Server.Wire.{zero_felt, ApiRequest, RequestResponse, RecoveryResponse}
use zkapi_ef_collab.Server.External.{success, failure}
use zkapi_ef_collab.Server.Store.{
  Store, TranscriptRecord, NullifierStatus, reserved, finalized, clearance_reserved, Action,
}
use zkapi_ef_collab.Server.Store.Nullifiers.{
  api_request_binding, lookup_by_nullifier, lookup_by_client_id, reserve_v2,
  reserve_openrouter_lease,
}
use zkapi_ef_collab.Server.Processor.Defs.{
  Processor, ReservationKind, proxy, openrouter_lease, kind_str, state_public_key,
  max_request_age_seconds, max_future_skew_seconds,
}

abbrev pub ok_option : {A : Type 0} → Result A → Option A
ok_option (ok a) = some a
ok_option (err e) = none

abbrev pub recovery_status : NullifierStatus → String
recovery_status reserved = "reserved"
recovery_status finalized = "finalized"
recovery_status clearance_reserved = "clearance_reserved"

module _ {Sig : Type 0} where
  abbrev pub response_with_signature :
      TranscriptRecord Sig → String → Option Sig → Result (RequestResponse Sig)
  response_with_signature r client_request_id none =
      err (internal "stored response lacks signature")
  response_with_signature r client_request_id (some signature) = ok (record {
    status = "ok";
    client_request_id = client_request_id;
    request_nullifier = r.nullifier;
    response_code = Option.get_or r.response_code 200;
    response_payload = Option.get_or r.response_payload "";
    response_hash = Option.get_or r.response_hash zero_felt;
    charge_applied = Option.get_or r.charge_applied 0;
    next_commitment = record {
      x = Option.get_or r.next_commitment_x zero_felt;
      y = Option.get_or r.next_commitment_y zero_felt;
    };
    next_anchor = Option.get_or r.next_anchor zero_felt;
    blind_delta_srv = Option.get_or r.blind_delta_srv zero_felt;
    next_state_signature = signature;
    policy_reason_code = r.policy_reason_code;
    policy_evidence_hash = r.policy_evidence_hash;
  })

  unfoldable pub response_from_record : TranscriptRecord Sig → String → Result (RequestResponse Sig)
  response_from_record r client_request_id =
      response_with_signature r client_request_id r.next_state_sig

  abbrev pub recovered :
      NullifierStatus → Result (RequestResponse Sig) → Option (RequestResponse Sig)
  recovered finalized r = ok_option r
  recovered _ r = none

  unfoldable pub recovery_from_record : TranscriptRecord Sig → RecoveryResponse Sig
  recovery_from_record r = record {
    status = "ok";
    nullifier_status = recovery_status r.status;
    request_response =
        recovered r.status (response_from_record r (Option.get_or r.client_request_id ""));
  }

  abbrev pub not_found_recovery : RecoveryResponse Sig
  not_found_recovery = record {
    status = "not_found";
    nullifier_status = "unknown";
    request_response = none;
  }

  -- `self.store.reserve…?; Ok(None)`
  abbrev pub admitted : Result (Unit {0}) × Store → Result (Option (RequestResponse Sig)) × Store
  admitted (ok _, s') = (ok none, s')
  admitted (err e, s') = (err e, s')

module _ {Sig : Type 0} (p : Processor Sig) where
  open p use {config, signer, current_root, codec, crypto}

  unfoldable pub recover_by_client_id : String → Store → RecoveryResponse Sig
  recover_by_client_id client_request_id s =
      Option.get_or
        (Option.map recovery_from_record (lookup_by_client_id codec client_request_id s))
        not_found_recovery

  unfoldable pub recover_by_nullifier : ℕ → Store → RecoveryResponse Sig
  recover_by_nullifier nullifier s =
      Option.get_or (Option.map recovery_from_record (lookup_by_nullifier codec nullifier s))
        not_found_recovery

  -- The checks of `validate_and_reserve` before it looks the nullifier up.
  unfoldable pub bound_to_deployment : ApiRequest → Bool
  bound_to_deployment request =
      (request.public_inputs.protocol_version == config.protocol_version)
      && (request.public_inputs.chain_id == config.chain_id)
      && (request.public_inputs.contract_address == config.contract_address)

  -- Whether a stored record is the reservation of this very request by this endpoint.
  unfoldable pub same_request : ApiRequest → ReservationKind → String → TranscriptRecord Sig → Bool
  same_request request kind binding existing =
      (existing.client_request_id == some request.client_request_id)
      && (existing.payload_hash == some request.payload_hash)
      && (existing.reservation_kind == kind_str kind)
      && (existing.api_request_binding == some binding)

  -- The answer to a request whose nullifier is known.
  abbrev pub resume :
      ApiRequest → NullifierStatus → TranscriptRecord Sig → Result (Option (RequestResponse Sig))
  resume request finalized existing =
      elim (response_from_record existing request.client_request_id) [
        | ok response ↦ ok (some response)
        | err e ↦ err e
      ]
  resume request reserved existing = ok none
  resume request clearance_reserved existing = err replay

  abbrev pub required_solvency : ℕ
  required_solvency =
      if config.policy_enabled then config.policy_charge_cap else config.request_charge_cap

  -- `request_time` is outside the freshness window at `now`.
  unfoldable pub is_stale_time : ℕ → ℕ → Bool
  is_stale_time request_time now =
      ltb (saturating_add request_time max_request_age_seconds) now
      || ltb (saturating_add now max_future_skew_seconds) request_time

  -- The checks of a request whose nullifier is new, in their order.
  unfoldable pub check_new : ApiRequest → ℕ → Result (Unit {0})
  check_new request now =
      if request.public_inputs.active_root != current_root
      then err (stale_root (codec.to_hex current_root))
      else if (request.public_inputs.state_signing_key_x != (state_public_key signer).x)
          || (request.public_inputs.state_signing_key_y != (state_public_key signer).y)
      then err (invalid_request "state signing key does not match this deployment")
      else if is_stale_time request.public_inputs.request_time now
      then err (invalid_request "request_time is outside the accepted freshness window")
      else if ltb request.public_inputs.solvency_bound required_solvency
      then err (invalid_request "solvency_bound is below required")
      else if crypto.authorization_tag request.public_inputs.request_nullifier (
            crypto.canonical_request_context request.client_request_id
              (crypto.canonical_payload_hash request.payload))
          != request.public_inputs.authorization_tag
      then err (invalid_proof "proof authorization tag does not bind this request id and payload")
      else elim (crypto.verify request.public_inputs request.proof) [
        | failure e ↦ err (invalid_proof e)
        | success valid ↦
            if valid then ok tt else err (invalid_proof "Groth16 verification returned false")
      ]

  abbrev pub reserve_as : ReservationKind → ApiRequest → ℕ → Action (Unit {0})
  reserve_as proxy request now = reserve_v2 codec request now
  reserve_as openrouter_lease request now = reserve_openrouter_lease codec request now

  -- The part behind the deployment checks, for the request's binding. `now` is read for the
  -- freshness check, `created_at` by the INSERT.
  unfoldable pub resume_or_reserve :
      ApiRequest → ReservationKind → ℕ → ℕ → String → Action (Option (RequestResponse Sig))
  resume_or_reserve request kind now created_at binding s =
      elim (lookup_by_nullifier codec request.public_inputs.request_nullifier s) [
        | some existing ↦ (
          if same_request request kind binding existing
              then resume request existing.status existing
              else err replay,
          s,
        )
        | none ↦ elim (check_new request now) [
          | err e ↦ (err e, s)
          | ok _ ↦ admitted (reserve_as kind request created_at s)
        ]
      ]

  unfoldable pub validate_and_reserve :
      ApiRequest → ReservationKind → ℕ → ℕ → Action (Option (RequestResponse Sig))
  validate_and_reserve request kind now created_at s =
      if crypto.canonical_payload_hash request.payload != request.payload_hash
      then (err (invalid_request "payload_hash does not match payload bytes"), s)
      else if bound_to_deployment request
      then elim (api_request_binding codec request) [
        | err e ↦ (err e, s)
        | ok binding ↦ resume_or_reserve request kind now created_at binding s
      ]
      else (err (protocol_mismatch "version, chain, or contract mismatch"), s)
