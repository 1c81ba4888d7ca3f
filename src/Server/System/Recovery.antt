-- ===== src/Server/System/Recovery.antt =====
-- An answered request can be recovered, whatever has run in the meantime, and what the challenge
-- planner (zkapi-serverd/src/watcher.rs) says of it.
use mathlib.Core.Option
use mathlib.Core.Option.{some-injective}
use text.Mathlib.TextEquality.{eq_iff}
use zkapi_ef_collab.Base.{
  ℕ, String, Bool, false, some, string_eq, arith, ◌≡◌, ◌≢◌, nat_eq, sym, ◌∙◌, ap,
}
use zkapi_ef_collab.Server.Wire.{ApiRequest, PublicInputs, RequestResponse}
use zkapi_ef_collab.Server.External.{Codec, IsLawful, Outcome, failure}
use zkapi_ef_collab.Server.Error.{ok}
use zkapi_ef_collab.Server.Store.{Row, Store, row_to_record}
use zkapi_ef_collab.Server.Store.Nullifiers.{lookup_by_nullifier, finalized_row}
use zkapi_ef_collab.Server.Store.Rows.{row_at, IsUnique, row_at-key}
use zkapi_ef_collab.Server.Processor.{Processor, ProviderResponse}
use zkapi_ef_collab.Server.Processor.Validate.{
  recover_by_nullifier, recovery_from_record, response_from_record,
}
use zkapi_ef_collab.Server.Processor.Finalize.{Draws, finalize_request, transcript_of}
use zkapi_ef_collab.Server.Processor.Archive.{IsArchived, finalize_request_ok}
use zkapi_ef_collab.Server.Processor.Answer.{answered_row}
use zkapi_ef_collab.Server.Processor.Readback.{IsInRange, response-archived}
use zkapi_ef_collab.Server.System.Steps.{Reach}
use zkapi_ef_collab.Server.System.Spending.{Reach-keeps_final}
use zkapi_ef_collab.Server.Watcher.{ArchivedInputs}

-- serde: the JSON of RequestPublicInputsV2 has no field `statement_type`, and the reader of
-- RequestPublicInputs requires it.
pub record ReadsVersion1 {Sig : Type 0} (codec : Codec Sig)
    (read_inputs : String → Outcome ArchivedInputs) (has_field : String → String → Bool)
    : Type 0 where
  pub printed :
      (inputs : PublicInputs) (json : String)
      → codec.inputs_to_json inputs ≡ some json
      → has_field json "statement_type" ≡ false
  pub required :
      (json : String)
      → has_field json "statement_type" ≡ false
      → (e : String) × (read_inputs json ≡ failure e)

module _ {Sig : Type 0} (p : Processor Sig) (request : ApiRequest) (reply : ProviderResponse)
    (draws : Draws) (now : ℕ) (s t u : Store) (response : RequestResponse Sig)
    (unique : IsUnique s.nullifiers)
    (h : finalize_request p request reply draws now s ≡ (ok response, t))
    (reach : Reach p.codec t u) where
  open p use {codec}

  finalized_ne_reserved : ◌≢◌ {A = String} "Finalized" "Reserved"
  finalized_ne_reserved = ground (arith, eq_iff "Finalized" "Reserved")

  done : IsArchived p request reply draws now s response t
  done = finalize_request_ok p request reply draws now s unique h

  abbrev row_after : Row
  row_after =
      finalized_row codec
        (transcript_of p request done.row.reservation_kind reply done.next draws done.proof_bytes
          done.binding now)
        now done.row

  row_later :
      row_at (codec.to_hex request.public_inputs.request_nullifier) u.nullifiers ≡ some row_after
  row_later =
      Reach-keeps_final (codec.to_hex request.public_inputs.request_nullifier) row_after
        (answered_row p request reply draws now s t response done) finalized_ne_reserved reach

  recovered_response :
      (client : String)
      → IsLawful codec
      → IsInRange reply
      → done.row.client_request_id ≡ some request.client_request_id
      → recovery_from_record (row_to_record codec row_after)
        ≡ record { status = "ok"; nullifier_status = "finalized"; request_response = some response }
  unfolding recovery_from_record row_to_record string_eq response_from_record
  recovered_response client lawful r c = simp (
    c,
    response-archived p lawful request reply done.next draws done.proof_bytes done.binding now
        done.row r
        (row_at-key (codec.to_hex request.public_inputs.request_nullifier) s.nullifiers done.row
          done.found),
    sym done.answered,
  )

  -- A client that lost the answer to a request gets the same answer back by its nullifier, at any
  -- later time: for a row that was reserved under the request's client id, and a reply whose numbers
  -- fit their columns, under a codec that reads back what it prints, from a store with one row for
  -- each nullifier.
  pub recover_by_nullifier_later :
      (row : Row)
      → IsLawful codec
      → IsInRange reply
      → row_at (codec.to_hex request.public_inputs.request_nullifier) s.nullifiers ≡ some row
      → row.client_request_id ≡ some request.client_request_id
      → recover_by_nullifier p request.public_inputs.request_nullifier u
        ≡ record { status = "ok"; nullifier_status = "finalized"; request_response = some response }
  unfolding recover_by_nullifier lookup_by_nullifier
  recover_by_nullifier_later row lawful r e c =
      let same = some-injective row done.row (sym e ∙ done.found) in
      rw row_later (recovered_response "" lawful r (ap (λ q. q.client_request_id) (sym same) ∙ c))
