-- ===== src/Server/Processor/Readback.antt =====
-- What an archived row reads back as.
use mathlib.Core.Option
use mathlib.Core.Option.{some-injective}
use zkapi_ef_collab.Base.{
  ℕ, String, List, true, Option, none, some, string_eq, nat_eq, option_eq, arith, ◌≡◌, ◌<◌, refl,
  i64_sign, as_i32, i64_as_u128-as_i64_of_lt, i32_as_u16-as_i32,
}
use zkapi_ef_collab.Server.Wire.{Felt252, CurvePoint, ApiRequest}
use zkapi_ef_collab.Server.External.{IsLawful}
use zkapi_ef_collab.Server.Error.{ok}
use zkapi_ef_collab.Server.Store.{Row, TranscriptRecord, row_to_record, parse_opt_felt}
use zkapi_ef_collab.Server.Store.Nullifiers.{finalized_row}
use zkapi_ef_collab.Server.Processor.Defs.{Processor, ProviderResponse, ReservationKind}
use zkapi_ef_collab.Server.Processor.Validate.{same_request, response_from_record}
use zkapi_ef_collab.Server.Processor.Finalize.{Draws, transcript_of, response_of}
use zkapi_ef_collab.Server.Processor.Admission.{row_of}

-- The values of a reply that the INTEGER columns hold without loss: its u16 and u32 fields, and a
-- charge below 2 ^ 63.
pub record IsInRange (reply : ProviderResponse) : Type 0 where
  pub small_charge : reply.charge_applied < i64_sign
  pub u16_status : reply.status_code < 0x1_0000
  pub u32_reason : Option.map as_i32 reply.policy_reason_code ≡ reply.policy_reason_code

module _ {Sig : Type 0} (p : Processor Sig) (lawful : IsLawful p.codec) (request : ApiRequest) where
  open p use {codec, crypto}

  parse_opt_felt-map_to_hex :
      (o : Option Felt252) → parse_opt_felt codec (Option.map codec.to_hex o) ≡ o
  unfolding Option.bind
  parse_opt_felt-map_to_hex none = refl
  parse_opt_felt-map_to_hex (some f) = lawful.from_hex-to_hex f

  -- The archived row reads back as the response.
  pub response-archived :
      (reply : ProviderResponse) (next : CurvePoint) (draws : Draws) (proof_bytes : List ℕ)
      (binding : String) (now : ℕ) (row : Row)
      → IsInRange reply
      → row.nullifier ≡ codec.to_hex request.public_inputs.request_nullifier
      → response_from_record
          (row_to_record codec (
            finalized_row codec
              (transcript_of p request row.reservation_kind reply next draws proof_bytes binding
                now)
              now
              row))
          request.client_request_id
        ≡ ok (response_of p request reply next draws)
  unfolding response_from_record row_to_record transcript_of response_of
  response-archived reply next draws proof_bytes binding now row r e = simp (
    e,
    lawful.from_hex-to_hex,
    lawful.signature_round_trip,
    r.u32_reason,
    parse_opt_felt-map_to_hex,
    i64_as_u128-as_i64_of_lt reply.charge_applied r.small_charge,
    i32_as_u16-as_i32 reply.status_code r.u16_status,
  )

  pub same_request-finalized :
      (kind : ReservationKind) (binding : String) (transcript : TranscriptRecord Sig) (now : ℕ)
      (row : Row)
      → same_request p request kind binding
          (row_to_record codec (finalized_row codec transcript now row))
        ≡ same_request p request kind binding (row_to_record codec row)
  unfolding same_request row_to_record
  same_request-finalized kind binding transcript now row = refl

  pub same_request-row_of :
      (kind : ReservationKind) (binding : String) (created_at : ℕ)
      → same_request p request kind binding
          (row_to_record codec (row_of p request kind binding created_at))
        ≡ true
  unfolding same_request row_to_record
  same_request-row_of kind binding created_at =
      rw (lawful.from_hex-to_hex request.payload_hash) (ground arith)
