-- ===== src/Tests/Processor.antt =====
-- The theorems on the processor, each at one run.
use zkapi_ef_collab.Base.{
  ℕ, dec_lt, String, [], ◌∷◌, none, some, ◌≡◌, subst, ◌≤◌, ◌⊎◌, ◌↔◌, refl, string_eq, nat_eq,
  ℕ_discrete, arith, ◌<◌, i64_sign, u128_mod, ◌-◌,
}
use zkapi_ef_collab.Server.Error.{Result, ok, err, internal, invalid_request, replay}
use zkapi_ef_collab.Server.Store.{TranscriptRecord, row_to_record}
use zkapi_ef_collab.Server.Store.Nullifiers.{
  finalized_row, api_request_binding, lookup_by_nullifier,
}
use zkapi_ef_collab.Server.Store.Columns.{charge-row_to_record}
use zkapi_ef_collab.Server.Store.Rows.{IsUnique}
use zkapi_ef_collab.Server.Store.Effects.{archived}
use zkapi_ef_collab.Server.Processor.{proxy, ProviderResponse}
use zkapi_ef_collab.Server.Processor.Validate.{validate_and_reserve}
use zkapi_ef_collab.Server.Processor.Finalize.{
  charge_cap, transcript_of, response_of, finalize_request, process_request,
}
use zkapi_ef_collab.Server.Processor.Admission.{row_of}
use zkapi_ef_collab.Server.Processor.Checks.{
  IsAddressed, IsAdmissible, validate_new, validate_accepts,
}
use zkapi_ef_collab.Server.Processor.Archive.{IsArchived, finalize_request_ok}
use zkapi_ef_collab.Server.Processor.Answer.{finalize_request_answers}
use zkapi_ef_collab.Server.Processor.Failure.{validate_err, finalize_request_err}
use zkapi_ef_collab.Server.Processor.Readback.{IsInRange}
use zkapi_ef_collab.Server.Processor.Replay.{process_request_idempotent}
use zkapi_ef_collab.Tests.Demo.{
  string_discrete, request, reply, draws, server, codec, codec-IsLawful, empty,
}
use zkapi_ef_collab.Tests.Runs.{
  row, binding, reserved_store, reserves, next, response, answered_store, finalizes, processes,
}

reserved_store-IsUnique : IsUnique reserved_store.nullifiers
reserved_store-IsUnique = (refl, tt)

pub reply-IsInRange : IsInRange reply
reply-IsInRange = record { small_charge = omega arith; u16_status = omega arith; u32_reason = refl }

every_reply-IsInRange :
    (r : ProviderResponse) → ◌≡◌ {A = Result ProviderResponse} (ok reply) (ok r) → IsInRange r
every_reply-IsInRange r e = subst IsInRange (cc e) reply-IsInRange

request-IsAdmissible : IsAdmissible server request 1010
unfolding ℕ_discrete dec_lt
request-IsAdmissible = (refl, refl, refl, omega arith, omega arith, omega arith, refl, refl)

process_request_idempotent_example :
    process_request server
      (λ id payload hash. err replay)
      request
      draws
      5000
      5001
      5002
      answered_store
    ≡ (ok response, answered_store)
process_request_idempotent_example =
    process_request_idempotent server codec-IsLawful request (λ id payload hash. ok reply)
      (λ id payload hash. err replay) draws draws 1010 1011 1012 5000 5001 5002 empty answered_store
      response every_reply-IsInRange tt processes

finalize_request_ok_example :
    IsArchived server request reply draws 1012 reserved_store response answered_store
finalize_request_ok_example =
    finalize_request_ok server request reply draws 1012 reserved_store reserved_store-IsUnique
      finalizes

validate_new_example :
    IsAddressed server request 1010
    × IsAdmissible server request 1010
    × (b : String) × (api_request_binding codec request ≡ ok b)
    × (reserved_store ≡ record empty { nullifiers = row_of server request proxy b 1011 ∷ [] })
validate_new_example =
    validate_new server request 1010 proxy 1011 empty reserved_store refl reserves

validate_accepts_example :
    validate_and_reserve server request proxy 1010 1011 empty ≡ (ok none, reserved_store)
unfolding api_request_binding string_eq ℕ_discrete string_discrete
validate_accepts_example =
    validate_accepts server request 1010 proxy 1011 empty binding refl refl (refl, refl, refl, refl)
      request-IsAdmissible

finalize_request_answers_example :
    finalize_request server request reply draws 1012 reserved_store ≡ (
      ok (response_of server request reply next draws),
      archived codec 4
          (transcript_of server request "proxy" reply next draws (1 ∷ 2 ∷ 3 ∷ []) binding 1012)
          1012
          reserved_store,
    )
unfolding api_request_binding string_eq ℕ_discrete string_discrete charge_cap
finalize_request_answers_example =
    finalize_request_answers server request reply draws 1012 reserved_store row next
      (1 ∷ 2 ∷ 3 ∷ []) binding (refl, tt) refl refl (omega arith) refl refl refl

finalize_request_err_example : (record empty { nullifiers = row ∷ [] }) ≡ reserved_store
unfolding finalize_request charge_cap lookup_by_nullifier row_to_record string_eq ℕ_discrete dec_lt
finalize_request_err_example =
    finalize_request_err server request (record reply { charge_applied = 51 }) draws 1012
      reserved_store reserved_store (internal "provider charge exceeds cap") refl

validate_err_example : answered_store ≡ answered_store
unfolding validate_and_reserve ℕ_discrete
validate_err_example =
    validate_err server (record request { payload_hash = 1 }) proxy 1010 1011 answered_store
      answered_store (invalid_request "payload_hash does not match payload bytes") refl

abbrev large : TranscriptRecord ℕ
large = record (transcript_of server request "proxy" reply next draws [] binding 1012) {
  charge_applied = some i64_sign;
}

charge-row_to_record_example :
    ((row_to_record codec (finalized_row codec large 1012 row)).charge_applied ≡ some i64_sign)
    ↔ ((i64_sign < i64_sign) ⊎ (u128_mod - i64_sign ≤ i64_sign))
charge-row_to_record_example = charge-row_to_record codec large 1012 i64_sign row refl (omega arith)
