-- ===== src/Server/Store/Defs.antt =====
-- The tables and their rows (zkapi-serverd/src/nullifier_store.rs), and reading a row.
use mathlib.Core.Option
use zkapi_ef_collab.Base.{
  ℕ, String, List, Option, none, some, ◌==◌, string_eq, if◌then◌else◌, i64_as_u128, i64_as_u64,
  i32_as_u16,
}
use zkapi_ef_collab.Server.Wire.{Felt252, zero_felt, ApiRequest}
use zkapi_ef_collab.Server.External.{Codec}
use zkapi_ef_collab.Server.Error.{Result, ok, err, ServerError}

pub data NullifierStatus : Type 0 where
  reserved finalized clearance_reserved : NullifierStatus

abbrev pub status_to_str : NullifierStatus → String
status_to_str reserved = "Reserved"
status_to_str finalized = "Finalized"
status_to_str clearance_reserved = "ClearanceReserved"

abbrev pub str_to_status : String → NullifierStatus
str_to_status s =
    if s == "Reserved"
    then reserved
    else if s == "Finalized"
    then finalized
    else if s == "ClearanceReserved"
    then clearance_reserved
    else reserved

-- A row of the table `nullifiers`.
pub record Row : Type 0 where
  pub nullifier : String
  pub status : String
  pub reservation_kind : String
  pub client_request_id : Option String
  pub payload_hash : Option String
  pub charge_applied : Option ℕ
  pub response_code : Option ℕ
  pub response_payload : Option String
  pub response_hash : Option String
  pub next_commitment_x : Option String
  pub next_commitment_y : Option String
  pub next_anchor : Option String
  pub blind_delta_srv : Option String
  pub next_state_sig_epoch : Option ℕ
  pub next_state_sig_root : Option String
  pub next_state_sig_json : Option String
  pub policy_reason_code : Option ℕ
  pub policy_evidence_hash : Option String
  pub proof_blob : Option (List ℕ)
  pub request_inputs_json : Option String
  pub api_request_binding : Option String
  pub created_at : ℕ
  pub finalized_at : Option ℕ

-- A row of the table `openrouter_leases`.
pub record LeaseRow : Type 0 where
  pub client_request_id : String
  pub request_nullifier : String
  pub api_request_json : String
  pub key_hash : Option String
  pub key_source : String
  pub status : String
  pub issued_at : ℕ
  pub expires_at : ℕ
  pub settle_after : ℕ
  pub spending_limit_usd : ℕ
  pub usage_usd : Option ℕ
  pub charge_applied : Option ℕ
  pub last_error : Option String
  pub updated_at : ℕ

-- NullifierStore
pub record Store : Type 0 where
  pub nullifiers : List Row
  pub leases : List LeaseRow

pub record TranscriptRecord (Sig : Type 0) : Type 0 where
  pub nullifier : Felt252
  pub status : NullifierStatus
  pub reservation_kind : String
  pub client_request_id : Option String
  pub payload_hash : Option Felt252
  pub charge_applied : Option ℕ
  pub response_code : Option ℕ
  pub response_payload : Option String
  pub response_hash : Option Felt252
  pub next_commitment_x : Option Felt252
  pub next_commitment_y : Option Felt252
  pub next_anchor : Option Felt252
  pub blind_delta_srv : Option Felt252
  pub next_state_sig_epoch : Option ℕ
  pub next_state_sig_root : Option Felt252
  pub next_state_sig : Option Sig
  pub policy_reason_code : Option ℕ
  pub policy_evidence_hash : Option Felt252
  pub proof_blob : Option (List ℕ)
  pub request_inputs_json : Option String
  pub api_request_binding : Option String
  pub created_at : ℕ
  pub finalized_at : Option ℕ

-- OpenRouterLeaseRecord
pub record LeaseRecord : Type 0 where
  pub client_request_id : String
  pub request_nullifier : Felt252
  pub api_request : ApiRequest
  pub key_hash : Option String
  pub key_source : String
  pub status : String
  pub issued_at : ℕ
  pub expires_at : ℕ
  pub settle_after : ℕ
  pub spending_limit_usd : ℕ
  pub usage_usd : Option ℕ
  pub charge_applied : Option ℕ
  pub last_error : Option String

-- A call on the store: it returns the store with its result, also when it fails.
abbrev pub Action : Type 0 → Type 0
Action A = Store → Result A × Store

module _ {A : Type 0} where
  abbrev pub pure : A → Action A
  pure a s = (ok a, s)

  abbrev pub raise : ServerError → Action A
  raise e s = (err e, s)

  abbrev pub gets : (Store → A) → Action A
  gets f s = (ok (f s), s)

  abbrev pub or_raise : Option A → ServerError → Action A
  or_raise none e = raise e
  or_raise (some a) e = pure a

infixl 5 ◌>>=◌ ◌>>◌
abbrev pub ◌>>=◌ : {A B : Type 0} → Action A → (A → Action B) → Action B
◌>>=◌ m f s = let (r, s') = m s in elim r [ ok a ↦ f a s' | err e ↦ raise e s' ]

abbrev pub ◌>>◌ : {A : Type 0} → Action (Unit {0}) → Action A → Action A
m >> k = m >>= λ _. k

module _ {Sig : Type 0} (codec : Codec Sig) where
  abbrev pub parse_opt_felt : Option String → Option Felt252
  parse_opt_felt s = Option.bind s codec.from_hex

  unfoldable pub row_to_record : Row → TranscriptRecord Sig
  unfolding Option.bind
  row_to_record row = record {
    nullifier = Option.get_or (codec.from_hex row.nullifier) zero_felt;
    status = str_to_status row.status;
    reservation_kind = row.reservation_kind;
    client_request_id = row.client_request_id;
    payload_hash = parse_opt_felt row.payload_hash;
    charge_applied = Option.map i64_as_u128 row.charge_applied;
    response_code = Option.map i32_as_u16 row.response_code;
    response_payload = row.response_payload;
    response_hash = parse_opt_felt row.response_hash;
    next_commitment_x = parse_opt_felt row.next_commitment_x;
    next_commitment_y = parse_opt_felt row.next_commitment_y;
    next_anchor = parse_opt_felt row.next_anchor;
    blind_delta_srv = parse_opt_felt row.blind_delta_srv;
    next_state_sig_epoch = row.next_state_sig_epoch;
    next_state_sig_root = parse_opt_felt row.next_state_sig_root;
    next_state_sig = Option.bind row.next_state_sig_json codec.signature_from_json;
    policy_reason_code = row.policy_reason_code;
    policy_evidence_hash = parse_opt_felt row.policy_evidence_hash;
    proof_blob = row.proof_blob;
    request_inputs_json = row.request_inputs_json;
    api_request_binding = row.api_request_binding;
    created_at = i64_as_u64 row.created_at;
    finalized_at = Option.map i64_as_u64 row.finalized_at;
  }

  -- A row whose request does not parse is an error of the query.
  unfoldable pub row_to_openrouter_lease : LeaseRow → Option LeaseRecord
  row_to_openrouter_lease row =
      Option.map
        (λ api_request. record {
          client_request_id = row.client_request_id;
          request_nullifier = Option.get_or (codec.from_hex row.request_nullifier) zero_felt;
          api_request = api_request;
          key_hash = row.key_hash;
          key_source = row.key_source;
          status = row.status;
          issued_at = i64_as_u64 row.issued_at;
          expires_at = i64_as_u64 row.expires_at;
          settle_after = i64_as_u64 row.settle_after;
          spending_limit_usd = row.spending_limit_usd;
          usage_usd = row.usage_usd;
          charge_applied = Option.map i64_as_u128 row.charge_applied;
          last_error = row.last_error;
        })
        (codec.request_from_json row.api_request_json)
