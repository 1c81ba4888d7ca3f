-- ===== src/Tests/Keys.antt =====
-- The theorem on keys that the OA org issues, at one key.
use zkapi_ef_collab.Base.{◌+◌, ◌-◌, true}
use zkapi_ef_collab.Server.Lease.KeyCheck.{LimitFloats, OaOrgKeyResponse}
use zkapi_ef_collab.Tests.Lease.{floats}
use zkapi_ef_collab.Tests.Receipt.{signature}

abbrev limits : LimitFloats
limits = record {
  floats = floats;
  epsilon = 0;
  billionth = 0;
  abs = λ x. x;
  larger = λ x y. x + y;
  minus = λ x y. x - y;
}

abbrev key_answer : OaOrgKeyResponse
key_answer = record {
  source = "oa_org";
  key = "sk-1";
  key_hash = "hash";
  credit_limit = 2;
  duration_minutes = 5;
  expires_at_unix = 1310;
  station_id = "station";
  station_recently_attested = true;
  station_signature = signature;
  org_signature = signature;
  verifier_url = "https://verifier.example";
  openrouter_api_base = "http://localhost:8080";
}
