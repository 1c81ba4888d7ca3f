-- ===== src/Server/Lease/KeyBounds.antt =====
-- What a key that zkapi-serverd/src/oa_org.rs accepts from the OA org is.

use text.Mathlib.TextBridge.{IsPrefix}
use Prim.Native.Char.{code}
use Prim.Native.String.{len}
use zkapi_ef_collab.Base.{
  String, nat_eq, saturating_add, saturating_sub, string_eq, true, ℕ, ◌≡◌, ◌≢◌, ◌≤◌, ◌⊎◌,
}
use zkapi_ef_collab.Server.Error.{Result, ok}
use zkapi_ef_collab.Server.Lease.{OaCreatedKey}
use zkapi_ef_collab.Server.Lease.KeyCheck.{LimitFloats, OaOrgKeyResponse, created_key}

-- The URL begins with one of the three texts.
abbrev pub IsSecureUrl : String → Type 0
IsSecureUrl url =
    (IsPrefix "https://" url ⊎ IsPrefix "http://127.0.0.1:" url) ⊎ IsPrefix "http://localhost:" url

-- A digit, or a letter from A to F of either case.
abbrev pub IsHexDigit : ℕ → Type 0
IsHexDigit n = (((48 ≤ n) × (n ≤ 57)) ⊎ ((65 ≤ n) × (n ≤ 70))) ⊎ ((97 ≤ n) × (n ≤ 102))

abbrev pub AreHexDigits : String → Type 0
AreHexDigits String.[] = Unit
AreHexDigits (String.◌∷◌ c rest) = IsHexDigit (code c) × AreHexDigits rest

-- A signature is 128 hex digits.
abbrev pub IsHexSignature : String → Type 0
IsHexSignature s = (len s ≡ 128) × AreHexDigits s

-- The key has a secret and a name, lives as long as asked up to half a minute, has two secure URLs,
-- and is signed by the station and the org.
abbrev pub IsUsable : OaCreatedKey → ℕ → Type 0
IsUsable k expected_expiry =
    (k.key ≢ "")
    × (k.hash ≢ "")
    × (k.verification.station_id ≢ "")
    × (saturating_sub expected_expiry 30 ≤ k.expires_at)
    × (k.expires_at ≤ saturating_add expected_expiry 30)
    × (k.verification.key_valid_till ≡ k.expires_at)
    × IsSecureUrl k.openrouter_api_base
    × IsSecureUrl k.verification.verifier_url
    × IsHexSignature k.verification.station_signature
    × IsHexSignature k.verification.org_signature

-- The answer comes from the org, is for as many minutes as asked, and its limit is the dollars asked
-- for up to a billionth of them or the precision of an f64.
abbrev pub IsAsked : LimitFloats → OaOrgKeyResponse → ℕ → ℕ → Type 0
IsAsked f r limit_usd minutes =
    (r.source ≡ "oa_org")
    × (r.duration_minutes ≡ minutes)
    × (f.floats.is_finite r.credit_limit ≡ true)
    × (f.floats.less_or_equal (f.abs (f.minus r.credit_limit limit_usd))
          (f.larger f.epsilon (f.floats.times limit_usd f.billionth))
        ≡ true)

-- The key is one that was answered, as asked for.
abbrev pub IsIssued : LimitFloats → ℕ → Result OaOrgKeyResponse → ℕ → ℕ → ℕ → OaCreatedKey → Type 0
IsIssued f now answer limit_usd minutes ttl_seconds k =
    (r : OaOrgKeyResponse) × (answer ≡ ok r)
    × (created_key r ≡ k)
    × IsAsked f r limit_usd minutes
    × IsUsable k (saturating_add now ttl_seconds)
