-- ===== src/Server/Store/Nullifiers.antt =====
-- The operations on the table `nullifiers` (zkapi-serverd/src/nullifier_store.rs).
use mathlib.Core.Option
use zkapi_ef_collab.Base.{
  ℕ, String, List, [], ◌∷◌, ◌++◌, map, Bool, Option, none, some, ◌&&◌, ◌==◌, string_eq, nat_eq,
  option_eq, if◌then◌else◌, as_i64, as_i32, select_first, select_all, update_where, count_where,
  exists_where,
}
use zkapi_ef_collab.Server.Wire.{Felt252, ApiRequest}
use zkapi_ef_collab.Server.External.{Codec, success, failure}
use zkapi_ef_collab.Server.Error.{Result, ok, err, ServerError, internal, replay, nullifier_used}
use zkapi_ef_collab.Server.Store.Defs.{
  NullifierStatus, reserved, finalized, clearance_reserved, status_to_str, Row, Store,
  TranscriptRecord, Action, row_to_record,
}

abbrev pub binding_domain : String
binding_domain = "zkapi:v2:api-request-binding\0"

abbrev pub null_row : String → NullifierStatus → ℕ → Row
null_row key status now = record {
  nullifier = key;
  status = status_to_str status;
  reservation_kind = "proxy";
  client_request_id = none;
  payload_hash = none;
  charge_applied = none;
  response_code = none;
  response_payload = none;
  response_hash = none;
  next_commitment_x = none;
  next_commitment_y = none;
  next_anchor = none;
  blind_delta_srv = none;
  next_state_sig_epoch = none;
  next_state_sig_root = none;
  next_state_sig_json = none;
  policy_reason_code = none;
  policy_evidence_hash = none;
  proof_blob = none;
  request_inputs_json = none;
  api_request_binding = none;
  created_at = as_i64 now;
  finalized_at = none;
}

-- `WHERE nullifier = ?`
abbrev pub has_key : String → Row → Bool
has_key key row = row.nullifier == key

abbrev pub has_key_and_status : String → String → Row → Bool
has_key_and_status key status row = (row.nullifier == key) && (row.status == status)

-- INSERT under the primary key: a constraint violation is the error `taken`.
abbrev pub insert_nullifier : Row → ServerError → Action (Unit {0})
insert_nullifier row taken s =
    if exists_where (has_key row.nullifier) s.nullifiers
    then (err taken, s)
    else (ok tt, record s { nullifiers = s.nullifiers ++ row ∷ [] })

module _ {Sig : Type 0} (codec : Codec Sig) where
  open codec use {to_hex, signature_to_json, request_to_json, keccak_hex}

  unfoldable pub api_request_binding : ApiRequest → Result String
  api_request_binding request = elim (request_to_json request) [
    | success json ↦ ok (keccak_hex (binding_domain ∷ json ∷ []))
    | failure e ↦ err (internal "failed to serialize v2 request binding")
  ]

  abbrev pub reserved_row : Felt252 → String → Felt252 → String → Option String → ℕ → Row
  reserved_row nullifier client_request_id payload_hash kind binding now =
      let row = null_row (to_hex nullifier) reserved now in
      record row {
        reservation_kind = kind;
        client_request_id = some client_request_id;
        payload_hash = some (to_hex payload_hash);
        api_request_binding = binding;
      }

  unfoldable pub reserve_with_kind :
      Felt252 → String → Felt252 → String → Option String → ℕ → Action (Unit {0})
  reserve_with_kind nullifier client_request_id payload_hash kind binding now =
      insert_nullifier (reserved_row nullifier client_request_id payload_hash kind binding now)
        replay

  unfoldable pub reserve : Felt252 → String → Felt252 → ℕ → Action (Unit {0})
  unfolding reserve_with_kind
  reserve nullifier client_request_id payload_hash now =
      reserve_with_kind nullifier client_request_id payload_hash "proxy" none now

  unfoldable pub reserve_bound_v2 : ApiRequest → String → ℕ → Action (Unit {0})
  unfolding reserve_with_kind
  reserve_bound_v2 request kind now s = elim (api_request_binding request) [
    | ok binding ↦
        reserve_with_kind request.public_inputs.request_nullifier request.client_request_id
          request.payload_hash kind (some binding) now s
    | err e ↦ (err e, s)
  ]

  unfoldable pub reserve_v2 : ApiRequest → ℕ → Action (Unit {0})
  unfolding reserve_bound_v2
  reserve_v2 request now = reserve_bound_v2 request "proxy" now

  unfoldable pub reserve_openrouter_lease : ApiRequest → ℕ → Action (Unit {0})
  unfolding reserve_bound_v2
  reserve_openrouter_lease request now = reserve_bound_v2 request "openrouter_lease" now

  -- The SET list of `finalize`.
  abbrev pub finalized_row : TranscriptRecord Sig → ℕ → Row → Row
  finalized_row transcript now row = record row {
    status = status_to_str finalized;
    charge_applied = Option.map as_i64 transcript.charge_applied;
    response_code = Option.map as_i32 transcript.response_code;
    response_payload = transcript.response_payload;
    response_hash = Option.map to_hex transcript.response_hash;
    next_commitment_x = Option.map to_hex transcript.next_commitment_x;
    next_commitment_y = Option.map to_hex transcript.next_commitment_y;
    next_anchor = Option.map to_hex transcript.next_anchor;
    blind_delta_srv = Option.map to_hex transcript.blind_delta_srv;
    next_state_sig_epoch = Option.map as_i32 transcript.next_state_sig_epoch;
    next_state_sig_root = Option.map to_hex transcript.next_state_sig_root;
    next_state_sig_json = Option.map signature_to_json transcript.next_state_sig;
    policy_reason_code = Option.map as_i32 transcript.policy_reason_code;
    policy_evidence_hash = Option.map to_hex transcript.policy_evidence_hash;
    proof_blob = transcript.proof_blob;
    request_inputs_json = transcript.request_inputs_json;
    finalized_at = some (as_i64 now);
  }

  unfoldable pub finalize : Felt252 → TranscriptRecord Sig → ℕ → Action (Unit {0})
  finalize nullifier transcript now s =
      let chosen = has_key_and_status (to_hex nullifier) (status_to_str reserved) in
      if count_where chosen s.nullifiers == 0
      then (err (internal "nullifier not in Reserved state or does not exist"), s)
      else (
        ok tt,
        record s { nullifiers = update_where chosen (finalized_row transcript now) s.nullifiers },
      )

  unfoldable pub lookup_by_nullifier : Felt252 → Store → Option (TranscriptRecord Sig)
  lookup_by_nullifier nullifier s =
      Option.map (row_to_record codec) (select_first (has_key (to_hex nullifier)) s.nullifiers)

  unfoldable pub lookup_by_client_id : String → Store → Option (TranscriptRecord Sig)
  lookup_by_client_id client_request_id s =
      Option.map (row_to_record codec)
        (select_first (λ row. row.client_request_id == some client_request_id) s.nullifiers)

  unfoldable pub reserve_clearance : Felt252 → ℕ → Action (Unit {0})
  reserve_clearance nullifier now =
      insert_nullifier (null_row (to_hex nullifier) clearance_reserved now) nullifier_used

  unfoldable pub get_reserved_entries : Store → List (TranscriptRecord Sig)
  get_reserved_entries s =
      map (row_to_record codec)
        (select_all (λ row. row.status == status_to_str reserved) s.nullifiers)

  unfoldable pub get_all_nullifiers : Store → List (TranscriptRecord Sig)
  get_all_nullifiers s = map (row_to_record codec) s.nullifiers
