-- ===== src/Server/Lease/Defs.antt =====
-- The types of the lease endpoints (zkapi-serverd/src/{processor_v2,oa_org,openrouter,pricing}.rs).
use zkapi_ef_collab.Base.{ℕ, String, Bool, Option, ◌||◌, not, if◌then◌else◌}
use zkapi_ef_collab.Server.Wire.{ApiRequest}
use zkapi_ef_collab.Server.External.{Outcome}
use zkapi_ef_collab.Server.Error.{Result}
use zkapi_ef_collab.Server.Store.{LeaseRecord}
use zkapi_ef_collab.Server.Processor.{Processor}

-- The operations on f64, whose values are bit patterns.
pub record Floats : Type 0 where
  pub zero : ℕ
  pub one : ℕ
  pub credits_per_usd : ℕ
  pub is_finite : ℕ → Bool
  pub less : ℕ → ℕ → Bool
  pub less_or_equal : ℕ → ℕ → Bool
  pub times : ℕ → ℕ → ℕ
  pub divided_by : ℕ → ℕ → ℕ
  pub ceil : ℕ → ℕ
  pub from_u128 : ℕ → ℕ
  pub to_u128 : ℕ → ℕ

module _ (f : Floats) where
  -- pricing.rs
  unfoldable pub usd_to_credits : ℕ → ℕ
  usd_to_credits cost_usd =
      if not (f.is_finite cost_usd) || f.less_or_equal cost_usd f.zero
      then 0
      else if f.less (f.ceil (f.times cost_usd f.credits_per_usd)) f.one
      then 1
      else f.to_u128 (f.ceil (f.times cost_usd f.credits_per_usd))

  unfoldable pub credits_to_usd : ℕ → ℕ
  credits_to_usd credits = f.divided_by (f.from_u128 credits) f.credits_per_usd

-- OaKeyVerificationEvidence
pub record KeyEvidence : Type 0 where
  pub verifier_url : String
  pub station_id : String
  pub station_recently_attested : Bool
  pub key_valid_till : ℕ
  pub station_signature : String
  pub org_signature : String

-- CreatedKey of openrouter.rs
pub record CreatedKey : Type 0 where
  pub key : String
  pub hash : String

-- OaOrgCreatedKey
pub record OaCreatedKey : Type 0 where
  pub key : String
  pub hash : String
  pub expires_at : ℕ
  pub openrouter_api_base : String
  pub verification : KeyEvidence

-- OaOrgFinalUsage
pub record FinalUsage : Type 0 where
  pub usage_credits : ℕ
  pub expires_at : ℕ
  pub closed_at : ℕ
  pub finalized_at : ℕ
  pub station_id : String
  pub station_signature : String
  pub org_signature : String

-- OaOrgUsage
pub data OaUsage : Type 0 where
  pending : ℕ → OaUsage
  final : FinalUsage → OaUsage

-- OaOrgUsageExpectation
pub record UsageExpectation : Type 0 where
  pub credit_limit_usd : ℕ
  pub duration_minutes : ℕ
  pub limit_credits : ℕ
  pub minimum_expires_at : ℕ
  pub maximum_expires_at : ℕ

-- What OpenRouterProvisioner answers; `get_key_usage` by its one field
pub record Provisioner : Type 0 where
  pub inference_base : String
  pub delete_keys_named : String → Result (Unit {0})
  pub create_key : String → ℕ → ℕ → Result CreatedKey
  pub get_key_usage : String → Result ℕ

-- What OaOrgProvisioner answers
pub record OaProvisioner : Type 0 where
  pub create_key : String → ℕ → ℕ → ℕ → Result OaCreatedKey
  pub get_key_usage : String → String → UsageExpectation → Result OaUsage

-- The JSON that the lease endpoints read and write.
pub record LeaseJson : Type 0 where
  -- whether a payload parses, and then whether it is the default authorization
  pub authorization : String → Outcome Bool
  -- whether two requests serialize to the same value
  pub same_request_json : ApiRequest → ApiRequest → Outcome Bool
  pub usage_credits_of : String → Option ℕ
  pub usage_usd_of : String → Option ℕ
  pub oa_settlement : LeaseRecord → FinalUsage → ℕ → String
  pub openrouter_settlement : LeaseRecord → ℕ → String

-- RequestProcessor with the fields that only the lease endpoints read.
pub record LeaseServer (Sig : Type 0) : Type 0 where
  pub processor : Processor Sig
  pub openrouter : Option Provisioner
  pub oa_org : Option OaProvisioner
  pub floats : Floats
  pub json : LeaseJson
