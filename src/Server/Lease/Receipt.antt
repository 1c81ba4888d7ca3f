-- ===== src/Server/Lease/Receipt.antt =====
-- zkapi-serverd/src/oa_org.rs: the check of a usage receipt, and what the processor makes of an
-- accepted one. The HTTP call and serde_json are outside: the parsed answer is an argument.

use Prim.Native.Char.{Char, code}
use Prim.Native.String.{len}
use Prim.Native.Nat.{max}
use mathlib.Core.Option
use zkapi_ef_collab.Base.{
  ℕ, String, Bool, true, not, ◌&&◌, ◌||◌, Option, none, some, ◌==◌, ◌!=◌, nat_eq, string_eq, ltb,
  leb, if◌then◌else◌,
}
use zkapi_ef_collab.Server.Error.{Result, ok, err, internal}
use zkapi_ef_collab.Server.Lease.{FinalUsage, OaUsage, UsageExpectation, pending, final}

-- OaOrgUsageResponse
pub record OaOrgUsageResponse : Type 0 where
  pub source : String
  pub version : ℕ
  pub status : String
  pub client_request_id : String
  pub station_request_id : String
  pub key_hash : String
  pub retry_after_seconds : Option ℕ
  pub usage_credits : Option ℕ
  pub credit_limit_credits : Option ℕ
  pub expires_at_unix : Option ℕ
  pub closed_at_unix : Option ℕ
  pub finalized_at_unix : Option ℕ
  pub station_id : Option String
  pub station_signature : Option String
  pub org_signature : Option String

-- `u8::is_ascii_hexdigit`, of every byte: a character of more bytes has none that is one.
abbrev pub is_ascii_hexdigit : Char → Bool
is_ascii_hexdigit c =
    let n = code c in (leb 48 n && leb n 57) || (leb 65 n && leb n 70) || (leb 97 n && leb n 102)

unfoldable pub all_hexdigits : String → Bool
all_hexdigits String.[] = true
all_hexdigits (String.◌∷◌ c rest) = is_ascii_hexdigit c && all_hexdigits rest

unfoldable pub is_hex_signature : String → Bool
is_hex_signature value = len value == 128 && all_hexdigits value

-- A `Some` in the tuple of the final fields.
abbrev or_absent : {A B : Type 0} → Option A → (A → Option B) → Option B
or_absent none f = none
or_absent (some a) f = f a

-- The tuple of the final fields, where all are there: the usage and the limit.
unfoldable pub final_fields : OaOrgUsageResponse → Option (FinalUsage × ℕ)
final_fields r = or_absent r.usage_credits λ usage_credits.
    or_absent r.credit_limit_credits λ credit_limit_credits.
      or_absent r.expires_at_unix λ expires_at. or_absent r.closed_at_unix λ closed_at.
        or_absent r.finalized_at_unix λ finalized_at. or_absent r.station_id λ station_id.
          or_absent r.station_signature λ station_signature.
            or_absent r.org_signature λ org_signature. some (
              record {
                usage_credits = usage_credits;
                expires_at = expires_at;
                closed_at = closed_at;
                finalized_at = finalized_at;
                station_id = station_id;
                station_signature = station_signature;
                org_signature = org_signature;
              },
              credit_limit_credits,
            )

-- The evidence that every answer has to match.
unfoldable pub common_matches : OaOrgUsageResponse → String → String → Bool
common_matches r client_request_id key_hash =
    r.source == "oa_org"
    && r.version == 1
    && r.client_request_id == client_request_id
    && r.key_hash == key_hash
    && len r.station_request_id == 64
    && all_hexdigits r.station_request_id

-- The bounds that a final receipt is refused beyond.
unfoldable pub is_out_of_bounds : String → FinalUsage → ℕ → ℕ → ℕ → ℕ → Bool
is_out_of_bounds status u credit_limit expected_limit minimum_expires_at maximum_expires_at =
    status != "finalized"
    || ltb expected_limit u.usage_credits
    || credit_limit != expected_limit
    || ltb u.expires_at minimum_expires_at
    || ltb maximum_expires_at u.expires_at
    || ltb u.expires_at u.closed_at
    || ltb u.finalized_at u.closed_at
    || u.station_id == ""
    || not (is_hex_signature u.station_signature)
    || not (is_hex_signature u.org_signature)

unfoldable pub validate_usage_response :
    OaOrgUsageResponse → String → String → ℕ → ℕ → ℕ → ℕ → Result OaUsage
validate_usage_response r client_request_id key_hash expected_limit minimum_expires_at
      maximum_expires_at pending_retry_after_seconds =
    if not (common_matches r client_request_id key_hash)
    then err (internal "OA org returned mismatched usage evidence")
    else if r.status == "pending"
    then ok (pending (max pending_retry_after_seconds 1))
    else elim (final_fields r) [
      | none ↦ err (internal "OA org returned incomplete final usage evidence")
      | some (u, credit_limit) ↦
          if is_out_of_bounds r.status u credit_limit expected_limit minimum_expires_at
            maximum_expires_at
          then err (internal "OA org returned usage outside the issued lease bounds")
          else ok (final u)
    ]

-- The end of `get_key_usage`, on a parsed answer: the header's delay goes before the body's.
unfoldable pub accept_usage :
    Option ℕ → OaOrgUsageResponse → String → String → UsageExpectation → Result OaUsage
accept_usage retry_after_header r client_request_id key_hash expectation =
    let delay = Option.get_or (Option.or_else retry_after_header r.retry_after_seconds) 1 in
    validate_usage_response r client_request_id key_hash expectation.limit_credits
      expectation.minimum_expires_at expectation.maximum_expires_at (max delay 1)

-- `get_key_usage`, on the answer or the error of the call.
abbrev pub answered :
    Option ℕ → Result OaOrgUsageResponse → String → String → UsageExpectation → Result OaUsage
answered retry_after_header (err e) client_request_id key_hash expectation = err e
answered retry_after_header (ok r) client_request_id key_hash expectation =
    accept_usage retry_after_header r client_request_id key_hash expectation
