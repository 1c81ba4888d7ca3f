-- ===== src/Tests/Receipt.antt =====
-- The theorems on usage receipts, each at one receipt.
use zkapi_ef_collab.Base.{
  ℕ, String, none, some, true, ◌≡◌, ◌≢◌, refl, arith, string_eq, ℕ_discrete, dec_le, saturating_add,
}
use mathlib.Core.Option
use text.Mathlib.TextEquality.{eq_iff}
use zkapi_ef_collab.Server.Error.{ok, err, lease_pending}
use zkapi_ef_collab.Server.Lease.{FinalUsage, LeaseServer, OaProvisioner, final}
use zkapi_ef_collab.Server.Lease.Settle.{oa_usage}
use zkapi_ef_collab.Server.Lease.Receipt.{
  OaOrgUsageResponse, all_hexdigits, is_hex_signature, common_matches, final_fields, accept_usage,
  answered,
}
use zkapi_ef_collab.Server.Lease.ReceiptBounds.{
  IsWithin, validate_usage_response-final, oa_usage-IsWithin,
}
use zkapi_ef_collab.Server.Processor.{oa_lease_expiry_safety_seconds, oa_org}
use zkapi_ef_collab.Tests.Lease.{leases, lease}

abbrev pub signature : String
signature =
    "aaaaaaaaaaaaaaaaaaaaaaaaaaaaaaaaaaaaaaaaaaaaaaaaaaaaaaaaaaaaaaaaaaaaaaaaaaaaaaaaaaaaaaaaaaaaaaaaaaaaaaaaaaaaaaaaaaaaaaaaaaaaaaaa"

abbrev usage : FinalUsage
usage = record {
  usage_credits = 70;
  expires_at = 1105;
  closed_at = 1104;
  finalized_at = 1300;
  station_id = "station";
  station_signature = signature;
  org_signature = signature;
}

abbrev answer : OaOrgUsageResponse
answer = record {
  source = "oa_org";
  version = 1;
  status = "finalized";
  client_request_id = "req-1";
  station_request_id = "aaaaaaaaaaaaaaaaaaaaaaaaaaaaaaaaaaaaaaaaaaaaaaaaaaaaaaaaaaaaaaaa";
  key_hash = "hash";
  retry_after_seconds = none;
  usage_credits = some 70;
  credit_limit_credits = some 100;
  expires_at_unix = some 1105;
  closed_at_unix = some 1104;
  finalized_at_unix = some 1300;
  station_id = some "station";
  station_signature = some signature;
  org_signature = some signature;
}

matches : common_matches answer "req-1" "hash" ≡ true
unfolding common_matches all_hexdigits string_eq ℕ_discrete dec_le
matches = refl

signed : is_hex_signature signature ≡ true
unfolding is_hex_signature all_hexdigits ℕ_discrete dec_le
signed = refl

fields : final_fields answer ≡ some (usage, 100)
unfolding final_fields
fields = refl

named : ◌≢◌ {A = String} "station" ""
named e = ground (arith, eq_iff "station" "")

-- The OA org answers every question with the receipt above.
abbrev oa : OaProvisioner
oa = record {
  create_key = λ id limit credits ttl. err lease_pending;
  get_key_usage = λ id key x. answered none (ok answer) id key x;
}

abbrev server : LeaseServer ℕ
server = record leases {
  oa_org = some oa;
  processor = record leases.processor {
    config = record leases.processor.config {
      openrouter_leases = some (record {
        source = oa_org "https://org.example.org" "secret";
        ttl_seconds = 120;
        settlement_grace_seconds = 60;
        settlement_poll_seconds = 5;
      });
    };
  };
}

usage_found : oa_usage server lease ≡ ok (final usage)
unfolding oa_usage accept_usage ℕ_discrete dec_le Option.or_else
usage_found =
    validate_usage_response-final answer "req-1" "hash" 100 1100 1130 1 usage matches refl fields
      (omega arith, omega arith, omega arith, omega arith, omega arith) named signed signed

oa_usage-IsWithin_example :
    IsWithin usage lease.api_request.public_inputs.solvency_bound 1100
      (saturating_add 1100 oa_lease_expiry_safety_seconds)
oa_usage-IsWithin_example =
    oa_usage-IsWithin server oa (λ id. none) (λ id key. ok answer) lease usage refl
      (λ id key x. refl) usage_found
