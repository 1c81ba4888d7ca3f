-- ===== src/Tests/Runs.antt =====
-- The model run on the data of `Tests.Demo`.
use zkapi_ef_collab.Base.{
  ℕ, dec_lt, String, [], ◌∷◌, none, ◌≡◌, refl, string_eq, nat_eq, option_eq, ℕ_discrete,
}
use zkapi_ef_collab.Server.Error.{ok}
use zkapi_ef_collab.Server.Wire.{CurvePoint, RequestResponse}
use zkapi_ef_collab.Server.Store.{Store, Row, clearance_reserved, row_to_record}
use zkapi_ef_collab.Server.Store.Nullifiers.{
  null_row, api_request_binding, lookup_by_nullifier, finalize, reserve_v2, reserve_bound_v2,
  reserve_with_kind, reserve_clearance,
}
use zkapi_ef_collab.Server.Processor.{proxy}
use zkapi_ef_collab.Server.Processor.Validate.{
  bound_to_deployment, is_stale_time, check_new, resume_or_reserve, validate_and_reserve,
}
use zkapi_ef_collab.Server.Processor.Finalize.{
  charge_cap, transcript_of, response_of, sign_and_archive, finalize_request, process_request,
  process_clearance, clearance_response,
}
use zkapi_ef_collab.Server.Store.Effects.{archived}
use zkapi_ef_collab.Server.Processor.Admission.{row_of}
use zkapi_ef_collab.Tests.Demo.{
  string_discrete, request, reply, draws, server, codec, empty, clearance,
}

abbrev pub binding : String
binding = "zkapi:v2:api-request-binding\0request"

abbrev pub row : Row
row = row_of server request proxy binding 1011

-- The request is let through at 1010 and inserted at 1011.
abbrev pub reserved_store : Store
reserved_store = record empty { nullifiers = row ∷ [] }

pub reserves : validate_and_reserve server request proxy 1010 1011 empty ≡ (ok none, reserved_store)
unfolding validate_and_reserve bound_to_deployment resume_or_reserve check_new lookup_by_nullifier
    api_request_binding reserve_v2 reserve_bound_v2 reserve_with_kind is_stale_time string_eq
    ℕ_discrete string_discrete dec_lt
reserves = refl

abbrev pub next : CurvePoint
next = record { x = 4; y = 23 }

abbrev pub response : RequestResponse ℕ
response = response_of server request reply next draws

abbrev pub answered_store : Store
answered_store =
    archived codec 4
      (transcript_of server request "proxy" reply next draws (1 ∷ 2 ∷ 3 ∷ []) binding 1012) 1012
      reserved_store

pub finalizes :
    finalize_request server request reply draws 1012 reserved_store ≡ (ok response, answered_store)
unfolding finalize_request sign_and_archive charge_cap finalize row_to_record validate_and_reserve
    bound_to_deployment resume_or_reserve check_new lookup_by_nullifier api_request_binding
    reserve_v2 reserve_bound_v2 reserve_with_kind is_stale_time string_eq ℕ_discrete string_discrete
    dec_lt
finalizes = refl

pub processes :
    process_request server (λ id payload hash. ok reply) request draws 1010 1011 1012 empty
    ≡ (ok response, answered_store)
unfolding process_request finalize_request sign_and_archive charge_cap finalize row_to_record
    validate_and_reserve bound_to_deployment resume_or_reserve check_new lookup_by_nullifier
    api_request_binding reserve_v2 reserve_bound_v2 reserve_with_kind is_stale_time string_eq
    ℕ_discrete string_discrete dec_lt
processes = refl

abbrev pub cleared_store : Store
cleared_store = record empty { nullifiers = null_row (codec.to_hex 4) clearance_reserved 1010 ∷ [] }

pub clears :
    process_clearance server clearance 1010 empty
    ≡ (ok (clearance_response server 4), cleared_store)
unfolding process_clearance lookup_by_nullifier reserve_clearance string_eq
clears = refl
