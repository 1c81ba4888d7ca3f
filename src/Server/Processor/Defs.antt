-- ===== src/Server/Processor/Defs.antt =====
-- The processor's configuration and state (zkapi-serverd/src/{config,signer_v2,provider,
-- processor_v2}.rs).
use zkapi_ef_collab.Base.{ℕ, String, Option, Bool}
use zkapi_ef_collab.Server.Wire.{Felt252, CurvePoint}
use zkapi_ef_collab.Server.External.{CompactSigner, Codec, Crypto}

pub data LeaseSource : Type 0 where
  openrouter : String → String → LeaseSource
  oa_org : String → String → LeaseSource

-- `OpenRouterLeaseSourceConfig::label`
abbrev pub label : LeaseSource → String
label (openrouter management_key api_base) = "openrouter"
label (oa_org org_base_url shared_secret) = "oa_org"

-- OpenRouterLeaseConfig
pub record LeaseConfig : Type 0 where
  pub source : LeaseSource
  pub ttl_seconds : ℕ
  pub settlement_grace_seconds : ℕ
  pub settlement_poll_seconds : ℕ

-- ServerConfig, by the fields that the processor reads
pub record ServerConfig : Type 0 where
  pub protocol_version : ℕ
  pub chain_id : ℕ
  pub contract_address : Felt252
  pub request_charge_cap : ℕ
  pub policy_enabled : Bool
  pub policy_charge_cap : ℕ
  pub openrouter_leases : Option LeaseConfig

pub record ServerSigner (Sig : Type 0) : Type 0 where
  pub state : CompactSigner Sig
  pub clearance : CompactSigner Sig

module _ {Sig : Type 0} where
  abbrev pub state_public_key : ServerSigner Sig → CurvePoint
  state_public_key s = s.state.public_key

  abbrev pub clearance_public_key : ServerSigner Sig → CurvePoint
  clearance_public_key s = s.clearance.public_key

  abbrev pub sign_state : ServerSigner Sig → Felt252 → Sig
  sign_state s message = s.state.sign message

  abbrev pub sign_clearance : ServerSigner Sig → Felt252 → Sig
  sign_clearance s message = s.clearance.sign message

-- RequestProcessor: what its methods share. The store is the state of the calls.
pub record Processor (Sig : Type 0) : Type 0 where
  pub config : ServerConfig
  pub signer : ServerSigner Sig
  pub current_root : Felt252
  pub codec : Codec Sig
  pub crypto : Crypto

pub data ReservationKind : Type 0 where
  proxy openrouter_lease : ReservationKind

-- `ReservationKind::as_str`
abbrev pub kind_str : ReservationKind → String
kind_str proxy = "proxy"
kind_str openrouter_lease = "openrouter_lease"

-- UsageInfo; an f64 is its bit pattern
pub record UsageInfo : Type 0 where
  pub prompt_tokens : ℕ
  pub completion_tokens : ℕ
  pub total_tokens : ℕ
  pub cost_usd : ℕ
  pub cost_source : String

pub record ProviderResponse : Type 0 where
  pub status_code : ℕ
  pub payload : String
  pub charge_applied : ℕ
  pub policy_reason_code : Option ℕ
  pub policy_evidence_hash : Option Felt252
  pub usage : Option UsageInfo
  pub upstream_model : Option String
  pub billing_label : String

abbrev pub max_request_age_seconds : ℕ
max_request_age_seconds = 300

abbrev pub max_future_skew_seconds : ℕ
max_future_skew_seconds = 30

abbrev pub oa_lease_expiry_safety_seconds : ℕ
oa_lease_expiry_safety_seconds = 30
