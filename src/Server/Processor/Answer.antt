-- ===== src/Server/Processor/Answer.antt =====
-- When `finalize_request` answers, and that the archived answer can be asked for again.

use zkapi_ef_collab.Base.{ℕ, String, List, some, string_eq, arith, ◌≡◌, ◌≤◌, ◌∙◌, ap}
use zkapi_ef_collab.Server.Wire.{CurvePoint, ApiRequest, RequestResponse}
use zkapi_ef_collab.Server.External.{success}
use zkapi_ef_collab.Server.Error.{ok}
use zkapi_ef_collab.Server.Store.{Row, Store, row_to_record}
use zkapi_ef_collab.Server.Store.Nullifiers.{
  api_request_binding, lookup_by_nullifier, finalized_row,
}
use zkapi_ef_collab.Server.Store.Rows.{row_at, IsUnique}
use zkapi_ef_collab.Server.Store.Effects.{archived, finalize_reserved, row_at-archived_self}
use zkapi_ef_collab.Server.Processor.Defs.{Processor, ProviderResponse}
use zkapi_ef_collab.Server.Processor.Finalize.{
  Draws, charge_cap, anonymous_commitment, transcript_of, response_of, finalize_request, answered,
}
use zkapi_ef_collab.Server.Processor.Archive.{IsArchived, archive_eq}

module _ {Sig : Type 0} (p : Processor Sig) (request : ApiRequest) (reply : ProviderResponse)
    (draws : Draws) (now : ℕ) (s : Store) where
  open p use {codec, crypto}

  -- Every request whose row is Reserved is answered and archived, if its charge is within the cap
  -- of its kind, its commitment takes the charge, its proof decodes and its JSON is written, in a store with
  -- one row for each nullifier.
  pub finalize_request_answers :
      (row : Row) (next : CurvePoint) (proof_bytes : List ℕ) (binding : String)
      → IsUnique s.nullifiers
      → row_at (codec.to_hex request.public_inputs.request_nullifier) s.nullifiers ≡ some row
      → row.status ≡ "Reserved"
      → reply.charge_applied ≤ charge_cap p request row.reservation_kind reply
      → crypto.server_update (anonymous_commitment p request) reply.charge_applied draws.blind_delta
        ≡ success next
      → crypto.base64_decode request.proof.proof ≡ success proof_bytes
      → api_request_binding codec request ≡ ok binding
      → finalize_request p request reply draws now s ≡ (
        ok (response_of p request reply next draws),
        archived codec request.public_inputs.request_nullifier
            (transcript_of p request row.reservation_kind reply next draws proof_bytes binding now)
            now
            s,
      )
  unfolding finalize_request lookup_by_nullifier row_to_record
  finalize_request_answers row next proof_bytes binding unique e was within a b d =
      let done =
        archive_eq p request reply draws now s row next proof_bytes binding a b d
        ∙ ap (answered (response_of p request reply next draws)) (
            finalize_reserved codec request.public_inputs.request_nullifier
              (transcript_of p request row.reservation_kind reply next draws proof_bytes binding
                now)
              now s row unique e was) in
      ground (arith, done)

  -- The row of an answered request.
  pub answered_row :
      (t : Store) (response : RequestResponse Sig)
      → (done : IsArchived p request reply draws now s response t)
      → row_at (codec.to_hex request.public_inputs.request_nullifier) t.nullifiers
        ≡ some (
            finalized_row codec
              (transcript_of p request done.row.reservation_kind reply done.next draws
                done.proof_bytes done.binding now)
              now
              done.row)
  answered_row t response done =
      ap (λ q. row_at (codec.to_hex request.public_inputs.request_nullifier) q.nullifiers)
        done.stored
      ∙ row_at-archived_self codec request.public_inputs.request_nullifier
          (transcript_of p request done.row.reservation_kind reply done.next draws done.proof_bytes
            done.binding now)
          now s done.row done.found done.was_reserved
