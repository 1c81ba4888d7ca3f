-- ===== src/Server/Processor/Archive.antt =====
-- When `finalize_request` answers, what it has checked, signed and archived.

use zkapi_ef_collab.Base.{
  ℕ, String, List, some, string_eq, nat_eq, option_eq, arith, ◌≡◌, ◌≤◌, inl, inr, sym, ◌∙◌,
  Option-cases,
}
use zkapi_ef_collab.Server.Wire.{Felt252, CurvePoint, ApiRequest, RequestResponse}
use zkapi_ef_collab.Server.External.{success, Outcome-cases}
use zkapi_ef_collab.Server.Error.{Result, ok, err, Result-cases}
use zkapi_ef_collab.Server.Store.{Row, Store, TranscriptRecord, row_to_record}
use zkapi_ef_collab.Server.Store.Nullifiers.{api_request_binding, finalize, lookup_by_nullifier}
use zkapi_ef_collab.Server.Store.Rows.{row_at, IsUnique}
use zkapi_ef_collab.Server.Store.Effects.{archived, finalize_ok}
use zkapi_ef_collab.Server.Processor.Defs.{Processor, ProviderResponse}
use zkapi_ef_collab.Server.Processor.Finalize.{
  Draws, charge_cap, anonymous_commitment, transcript_of, response_of, sign_and_archive,
  finalize_request, answered,
}

pub answered_ok :
    {A : Type 0} (a : A) (r : Result (Unit {0}) × Store) {b : A} {t : Store}
    → answered a r ≡ (ok b, t)
    → (r ≡ (ok tt, t)) × (b ≡ a)
answered_ok a (ok u, s) h = (ground arith, ground arith)
answered_ok a (err e, s) h = absurd (cc h)

module _ {Sig : Type 0} (p : Processor Sig) (request : ApiRequest) (reply : ProviderResponse)
    (draws : Draws) (now : ℕ) (s : Store) where
  open p use {codec, crypto}

  abbrev pub nullifier_of : Felt252
  nullifier_of = request.public_inputs.request_nullifier

  -- What stands behind an answer `response` that leaves the store `t`: the next commitment, the
  -- proof bytes and the binding, and the row that was Reserved.
  pub record IsArchived (response : RequestResponse Sig) (t : Store) : Type 0 where
    pub row : Row
    pub next : CurvePoint
    pub proof_bytes : List ℕ
    pub binding : String
    pub found : row_at (codec.to_hex nullifier_of) s.nullifiers ≡ some row
    pub was_reserved : row.status ≡ "Reserved"
    pub updated :
        crypto.server_update (anonymous_commitment p request) reply.charge_applied draws.blind_delta
        ≡ success next
    pub decoded : crypto.base64_decode request.proof.proof ≡ success proof_bytes
    pub bound : api_request_binding codec request ≡ ok binding
    pub within : reply.charge_applied ≤ charge_cap p request row.reservation_kind reply
    pub stored :
        t
        ≡ archived codec nullifier_of
            (transcript_of p request row.reservation_kind reply next draws proof_bytes binding now)
            now
            s
    pub answered : response ≡ response_of p request reply next draws

  abbrev transcript : Row → CurvePoint → List ℕ → String → TranscriptRecord Sig
  transcript row next proof_bytes binding =
      transcript_of p request row.reservation_kind reply next draws proof_bytes binding now

  pub archive_eq :
      (row : Row) (next : CurvePoint) (proof_bytes : List ℕ) (binding : String)
      → crypto.server_update (anonymous_commitment p request) reply.charge_applied draws.blind_delta
        ≡ success next
      → crypto.base64_decode request.proof.proof ≡ success proof_bytes
      → api_request_binding codec request ≡ ok binding
      → sign_and_archive p request row.reservation_kind reply draws now s
        ≡ answered
            (response_of p request reply next draws)
            (finalize codec nullifier_of (transcript row next proof_bytes binding) now s)
  unfolding sign_and_archive
  archive_eq row next proof_bytes binding a b d = rw (a, b, d, sign_and_archive)

  module _ (u : IsUnique s.nullifiers) {response : RequestResponse Sig} {t : Store} where
    archive_stored :
        (row : Row) (next : CurvePoint) (proof_bytes : List ℕ) (binding : String)
        → row_at (codec.to_hex nullifier_of) s.nullifiers ≡ some row
        → reply.charge_applied ≤ charge_cap p request row.reservation_kind reply
        → crypto.server_update
            (anonymous_commitment p request)
            reply.charge_applied
            draws.blind_delta
          ≡ success next
        → crypto.base64_decode request.proof.proof ≡ success proof_bytes
        → api_request_binding codec request ≡ ok binding
        → sign_and_archive p request row.reservation_kind reply draws now s ≡ (ok response, t)
        → IsArchived response t
    archive_stored row next proof_bytes binding e c a b d h =
        let done = answered_ok _ _ (sym (archive_eq row next proof_bytes binding a b d) ∙ h) in
        let (row', e', was, stored) =
          finalize_ok codec nullifier_of (transcript row next proof_bytes binding) now s u done.0 in
        record {
          row = row;
          next = next;
          proof_bytes = proof_bytes;
          binding = binding;
          found = e;
          was_reserved = ground arith;
          updated = a;
          decoded = b;
          bound = d;
          within = c;
          stored = stored;
          answered = done.1;
        }

    archive_ok :
        (row : Row)
        → row_at (codec.to_hex nullifier_of) s.nullifiers ≡ some row
        → reply.charge_applied ≤ charge_cap p request row.reservation_kind reply
        → sign_and_archive p request row.reservation_kind reply draws now s ≡ (ok response, t)
        → IsArchived response t
    unfolding sign_and_archive
    archive_ok row e c h =
        elim (Outcome-cases (
          crypto.server_update (anonymous_commitment p request) reply.charge_applied
            draws.blind_delta)) [
              | inl (x, a) ↦ absurd (ground arith)
              | inr (next, a) ↦ elim (Outcome-cases (crypto.base64_decode request.proof.proof)) [
                | inl (x, b) ↦ absurd (ground arith)
                | inr (proof_bytes, b) ↦ elim (Result-cases (api_request_binding codec request)) [
                  | inl (x, d) ↦ absurd (ground arith)
                  | inr (binding, d) ↦ archive_stored row next proof_bytes binding e c a b d h
                ]
              ]
            ]

    finalize_request_known :
        (row : Row)
        → row_at (codec.to_hex nullifier_of) s.nullifiers ≡ some row
        → finalize_request p request reply draws now s ≡ (ok response, t)
        → (reply.charge_applied ≤ charge_cap p request row.reservation_kind reply)
          × (sign_and_archive p request row.reservation_kind reply draws now s ≡ (ok response, t))
    unfolding finalize_request lookup_by_nullifier row_to_record
    finalize_request_known row e h = ground arith

    -- An answer means: the row was Reserved, the charge is within the cap of its kind, and the row
    -- now holds the transcript of this very response. The store had one row for each nullifier.
    pub finalize_request_ok :
        finalize_request p request reply draws now s ≡ (ok response, t) → IsArchived response t
    unfolding finalize_request lookup_by_nullifier
    finalize_request_ok h = elim (Option-cases (row_at (codec.to_hex nullifier_of) s.nullifiers)) [
      | inl e ↦ absurd (ground arith)
      | inr (row, e) ↦ let (c, a) = finalize_request_known row e h in archive_ok row e c a
    ]
