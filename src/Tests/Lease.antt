-- ===== src/Tests/Lease.antt =====
-- The theorems on leases, each at one run.
use zkapi_ef_collab.Base.{
  ℕ, dec_lt, dec_le, [], ◌∷◌, ◌*◌, none, some, true, ◌≡◌, ◌≤◌, refl, string_eq, nat_eq, ℕ_discrete,
  as_i64, ltb, leb,
}
use zkapi_ef_collab.Server.External.{success}
use zkapi_ef_collab.Server.Error.{ok}
use zkapi_ef_collab.Server.Store.{Store, Row, LeaseRecord, row_to_record}
use zkapi_ef_collab.Server.Store.Nullifiers.{api_request_binding, finalize, lookup_by_nullifier}
use zkapi_ef_collab.Server.Store.Leases.{finalize_openrouter_lease}
use zkapi_ef_collab.Server.Store.Rows.{row_at}
use zkapi_ef_collab.Server.Store.Effects.{archived}
use zkapi_ef_collab.Server.Processor.{openrouter_lease}
use zkapi_ef_collab.Server.Processor.Finalize.{
  transcript_of, finalize_request, sign_and_archive, charge_cap,
}
use zkapi_ef_collab.Server.Processor.Admission.{row_of}
use zkapi_ef_collab.Server.Lease.{Floats, LeaseJson, LeaseServer, Provisioner, usd_to_credits}
use zkapi_ef_collab.Server.Lease.Settle.{
  SettleInputs, openrouter_reply, settle_with, settle_openrouter_lease,
}
use zkapi_ef_collab.Server.Lease.Charge.{settle_openrouter_lease_settles, settled_charge_within}
use zkapi_ef_collab.Tests.Demo.{string_discrete, request, draws, server, codec, empty}
use zkapi_ef_collab.Tests.Runs.{binding}

-- One credit is one dollar here, and a float its value.
abbrev pub floats : Floats
floats = record {
  zero = 0;
  one = 1;
  credits_per_usd = 1;
  is_finite = λ x. true;
  less = λ x y. ltb x y;
  less_or_equal = λ x y. leb x y;
  times = λ x y. x * y;
  divided_by = λ x y. x;
  ceil = λ x. x;
  from_u128 = λ x. x;
  to_u128 = λ x. x;
}

abbrev json : LeaseJson
json = record {
  authorization = λ payload. success true;
  same_request_json = λ a b. success true;
  usage_credits_of = λ payload. none;
  usage_usd_of = λ payload. none;
  oa_settlement = λ lease receipt usage. "settled";
  openrouter_settlement = λ lease usage. "settled";
}

-- The key was used for 120, above the solvency bound of 100.
abbrev provisioner : Provisioner
provisioner = record {
  inference_base = "https://example.org";
  delete_keys_named = λ name. ok tt;
  create_key = λ name limit expires. ok (record { key = "key"; hash = "hash" });
  get_key_usage = λ hash. ok 120;
}

abbrev pub leases : LeaseServer ℕ
leases = record {
  processor = server;
  openrouter = some provisioner;
  oa_org = none;
  floats = floats;
  json = json;
}

abbrev pub lease : LeaseRecord
lease = record {
  client_request_id = "req-1";
  request_nullifier = 4;
  api_request = request;
  key_hash = some "hash";
  key_source = "openrouter";
  status = "active";
  issued_at = 1012;
  expires_at = 1100;
  settle_after = 1200;
  spending_limit_usd = 100;
  usage_usd = none;
  charge_applied = none;
  last_error = none;
}

abbrev inputs : SettleInputs
inputs = record { draws = draws; finalized_at = 1201; updated_at = 1202 }

abbrev row : Row
row = row_of server request openrouter_lease binding 1011

abbrev reserved_store : Store
reserved_store = record empty { nullifiers = row ∷ [] }

abbrev settled_store : Store
settled_store =
    archived codec 4
      (transcript_of server request "openrouter_lease" (openrouter_reply leases lease 120)
        (record { x = 101; y = 23 }) draws (1 ∷ 2 ∷ 3 ∷ []) binding 1201)
      1201 reserved_store

settle_openrouter_lease_settles_example :
    settle_openrouter_lease leases lease provisioner inputs reserved_store
    ≡ finalize_openrouter_lease "req-1" 120 100 1202 settled_store
unfolding string_eq ℕ_discrete dec_lt dec_le usd_to_credits api_request_binding string_discrete
settle_openrouter_lease_settles_example =
    settle_openrouter_lease_settles leases lease inputs reserved_store row refl refl provisioner
      "hash" 120 (record { x = 101; y = 23 }) (1 ∷ 2 ∷ 3 ∷ []) binding (refl, tt) refl refl refl
      refl refl refl refl

settled :
    settle_with leases lease (openrouter_reply leases lease 120) 120 inputs reserved_store
    ≡ (ok tt, settled_store)
unfolding settle_with finalize_openrouter_lease finalize_request sign_and_archive charge_cap
    lookup_by_nullifier finalize row_to_record string_eq ℕ_discrete dec_lt dec_le usd_to_credits
    api_request_binding string_discrete openrouter_reply
settled = refl

settled_charge_within_example :
    ((openrouter_reply leases lease 120).charge_applied ≤ 100)
    × (row' : Row) × (row_at (codec.to_hex 4) settled_store.nullifiers ≡ some row')
    × (row'.status ≡ "Finalized")
    × (row'.charge_applied ≡ some (as_i64 (openrouter_reply leases lease 120).charge_applied))
unfolding string_eq
settled_charge_within_example =
    settled_charge_within leases lease inputs reserved_store row refl refl
      (openrouter_reply leases lease 120) 120 settled_store (refl, tt) refl settled
