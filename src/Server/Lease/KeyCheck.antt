-- ===== src/Server/Lease/KeyCheck.antt =====
-- zkapi-serverd/src/oa_org.rs: the check of a key that the OA org issues, and the call that asks for
-- one. The HTTP call and serde_json are outside: the parsed answer is an argument.

use Prim.Native.Nat.{◌%◌, ◌/◌}
use text.Mathlib.Text.{starts_with}
use zkapi_ef_collab.Base.{
  ℕ, String, Bool, not, ◌&&◌, ◌||◌, ◌==◌, ◌!=◌, nat_eq, string_eq, leb, if◌then◌else◌,
  saturating_add, saturating_sub,
}
use zkapi_ef_collab.Server.Error.{Result, ok, err, internal, invalid_request}
use zkapi_ef_collab.Server.Lease.{Floats, OaCreatedKey}
use zkapi_ef_collab.Server.Lease.Receipt.{is_hex_signature}

-- The other f64 operations of the check: `EPSILON`, 1e-9, `abs`, `max` and minus.
pub record LimitFloats : Type 0 where
  pub floats : Floats
  pub epsilon : ℕ
  pub billionth : ℕ
  pub abs : ℕ → ℕ
  pub larger : ℕ → ℕ → ℕ
  pub minus : ℕ → ℕ → ℕ

-- OaOrgKeyResponse
pub record OaOrgKeyResponse : Type 0 where
  pub source : String
  pub key : String
  pub key_hash : String
  pub credit_limit : ℕ
  pub duration_minutes : ℕ
  pub expires_at_unix : ℕ
  pub station_id : String
  pub station_recently_attested : Bool
  pub station_signature : String
  pub org_signature : String
  pub verifier_url : String
  pub openrouter_api_base : String

unfoldable pub is_secure_or_loopback_url : String → Bool
is_secure_or_loopback_url value =
    starts_with value "https://"
    || starts_with value "http://127.0.0.1:"
    || starts_with value "http://localhost:"

unfoldable pub limit_matches : LimitFloats → ℕ → ℕ → Bool
limit_matches f credit_limit requested_limit_usd =
    f.floats.is_finite credit_limit
    && f.floats.less_or_equal (f.abs (f.minus credit_limit requested_limit_usd))
        (f.larger f.epsilon (f.floats.times requested_limit_usd f.billionth))

unfoldable pub expiry_is_bounded : ℕ → ℕ → Bool
expiry_is_bounded expires_at expected_expiry =
    leb (saturating_sub expected_expiry 30) expires_at
    && leb expires_at (saturating_add expected_expiry 30)

unfoldable pub validate_response :
    LimitFloats → ℕ → OaOrgKeyResponse → ℕ → ℕ → ℕ → Result (Unit {0})
validate_response f now r requested_limit_usd requested_duration_minutes ttl_seconds =
    if r.source != "oa_org"
      || r.key == ""
      || r.key_hash == ""
      || r.station_id == ""
      || r.duration_minutes != requested_duration_minutes
      || not (limit_matches f r.credit_limit requested_limit_usd)
      || not (expiry_is_bounded r.expires_at_unix (saturating_add now ttl_seconds))
      || not (is_secure_or_loopback_url r.verifier_url)
      || not (is_secure_or_loopback_url r.openrouter_api_base)
      || not (is_hex_signature r.station_signature && is_hex_signature r.org_signature)
    then err (internal "OA org returned unusable or unbounded key evidence")
    else ok tt

-- The key that is returned for an answer that passed.
abbrev pub created_key : OaOrgKeyResponse → OaCreatedKey
created_key r = record {
  key = r.key;
  hash = r.key_hash;
  expires_at = r.expires_at_unix;
  openrouter_api_base = r.openrouter_api_base;
  verification = record {
    verifier_url = r.verifier_url;
    station_id = r.station_id;
    station_recently_attested = r.station_recently_attested;
    key_valid_till = r.expires_at_unix;
    station_signature = r.station_signature;
    org_signature = r.org_signature;
  };
}

-- The end of `create_key`, on a parsed answer.
abbrev pub accept_key : LimitFloats → ℕ → OaOrgKeyResponse → ℕ → ℕ → ℕ → Result OaCreatedKey
accept_key f now r limit_usd minutes ttl_seconds =
    elim (validate_response f now r limit_usd minutes ttl_seconds) [
      | err e ↦ err e
      | ok done ↦ ok (created_key r)
    ]

-- `create_key`: its guard, and then its end on what the call for that many minutes answers.
unfoldable pub create_key :
    LimitFloats → ℕ → (ℕ → Result OaOrgKeyResponse) → ℕ → ℕ → Result OaCreatedKey
create_key f now request limit_usd ttl_seconds =
    if ttl_seconds == 0 || ttl_seconds % 60 != 0
    then err (invalid_request "OA org lease TTL must be a positive whole number of minutes")
    else elim (request (ttl_seconds / 60)) [
      | err e ↦ err e
      | ok r ↦ accept_key f now r limit_usd (ttl_seconds / 60) ttl_seconds
    ]
