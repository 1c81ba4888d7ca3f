-- ===== src/Server/Wire.antt =====
-- The request types of the wire that zkapi-serverd reads (ApiRequestV2 and its parts, with the
-- fields that the literals in processor_v2.rs list) and the responses that it builds. A Felt252 is
-- a 32-byte word; it is read as the big-endian number of its bytes.
use zkapi_ef_collab.Base.{ℕ, String, Option}

abbrev pub Felt252 : Type 0
Felt252 = ℕ

-- `Felt252::ZERO`
abbrev pub zero_felt : Felt252
zero_felt = 0

-- CurvePointWire
pub record CurvePoint : Type 0 where
  pub x : Felt252
  pub y : Felt252

-- ProofBackendWire
pub data ProofBackend : Type 0 where
  groth16_bn254 stwo_cairo : ProofBackend

-- Groth16ProofWire
pub record Proof : Type 0 where
  pub backend : ProofBackend
  pub proof : String

-- RequestPublicInputsV2
pub record PublicInputs : Type 0 where
  pub protocol_version : ℕ
  pub chain_id : ℕ
  pub contract_address : Felt252
  pub active_root : Felt252
  pub state_signing_key_x : Felt252
  pub state_signing_key_y : Felt252
  pub request_time : ℕ
  pub solvency_bound : ℕ
  pub request_nullifier : Felt252
  pub authorization_tag : Felt252
  pub anonymous_commitment_x : Felt252
  pub anonymous_commitment_y : Felt252

-- ApiRequestV2
pub record ApiRequest : Type 0 where
  pub client_request_id : String
  pub payload_hash : Felt252
  pub payload : String
  pub public_inputs : PublicInputs
  pub proof : Proof

-- RequestResponseV2
pub record RequestResponse (Sig : Type 0) : Type 0 where
  pub status : String
  pub client_request_id : String
  pub request_nullifier : Felt252
  pub response_code : ℕ
  pub response_payload : String
  pub response_hash : Felt252
  pub charge_applied : ℕ
  pub next_commitment : CurvePoint
  pub next_anchor : Felt252
  pub blind_delta_srv : Felt252
  pub next_state_signature : Sig
  pub policy_reason_code : Option ℕ
  pub policy_evidence_hash : Option Felt252

-- ClearanceRequest, by the one field that the processor reads
pub record ClearanceRequest : Type 0 where
  pub withdrawal_nullifier : Felt252

-- ClearanceResponseV2
pub record ClearanceResponse (Sig : Type 0) : Type 0 where
  pub status : String
  pub withdrawal_nullifier : Felt252
  pub signature : Sig

-- RecoveryResponseV2
pub record RecoveryResponse (Sig : Type 0) : Type 0 where
  pub status : String
  pub nullifier_status : String
  pub request_response : Option (RequestResponse Sig)
