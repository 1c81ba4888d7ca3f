-- ===== src/Server/Watcher.antt =====
-- The challenge planner (zkapi-serverd/src/watcher.rs). The archived inputs are read by the JSON
-- reader of zkapi-types' RequestPublicInputs, which is an argument.
use mathlib.Core.Option
use zkapi_ef_collab.Base.{ℕ, String, List, Option, none, some, ◌!=◌, nat_eq, if◌then◌else◌}
use zkapi_ef_collab.Server.Wire.{Felt252}
use zkapi_ef_collab.Server.External.{Codec, Outcome, success, failure}
use zkapi_ef_collab.Server.Store.{Store, TranscriptRecord, NullifierStatus, finalized}
use zkapi_ef_collab.Server.Store.Nullifiers.{lookup_by_nullifier}

-- RequestPublicInputs of zkapi-types, with the fields that the tests of watcher.rs list
pub record ArchivedInputs : Type 0 where
  pub statement_type : ℕ
  pub protocol_version : ℕ
  pub chain_id : ℕ
  pub contract_address : Felt252
  pub active_root : Felt252
  pub state_sig_epoch : ℕ
  pub state_sig_root : Felt252
  pub request_nullifier : Felt252
  pub anon_commitment_x : Felt252
  pub anon_commitment_y : Felt252
  pub expiry_ts : ℕ
  pub solvency_bound : ℕ

pub record ChallengeAction : Type 0 where
  pub note_id : ℕ
  pub request_inputs : ArchivedInputs
  pub proof_artifact : List ℕ
  pub siblings : List Felt252

-- ChallengeWatcher: the store is the state of the calls.
module _ {Sig : Type 0} (codec : Codec Sig) (read_inputs : String → Outcome ArchivedInputs) where
  -- `.then_some(record)`
  abbrev pub if_finalized : NullifierStatus → TranscriptRecord Sig → Option (TranscriptRecord Sig)
  if_finalized finalized r = some r
  if_finalized _ r = none

  unfoldable pub finalized_transcript : Felt252 → Store → Option (TranscriptRecord Sig)
  unfolding Option.bind
  finalized_transcript nullifier s =
      Option.bind (lookup_by_nullifier codec nullifier s) (λ r. if_finalized r.status r)

  abbrev pub with_proof :
      ℕ → List Felt252 → ArchivedInputs → Option (List ℕ) → Outcome ChallengeAction
  with_proof note_id siblings inputs none = failure "missing archived proof blob"
  with_proof note_id siblings inputs (some proof) = success (record {
    note_id = note_id;
    request_inputs = inputs;
    proof_artifact = proof;
    siblings = siblings;
  })

  abbrev pub with_inputs :
      ℕ
      → Felt252
      → List Felt252
      → Option (List ℕ)
      → Outcome ArchivedInputs
      → Outcome ChallengeAction
  with_inputs note_id nullifier siblings proof (failure e) =
      failure "invalid archived request inputs"
  with_inputs note_id nullifier siblings proof (success inputs) =
      if inputs.request_nullifier != nullifier
      then failure "archived request nullifier mismatch"
      else with_proof note_id siblings inputs proof

  abbrev pub with_json :
      ℕ → Felt252 → List Felt252 → Option (List ℕ) → Option String → Outcome ChallengeAction
  with_json note_id nullifier siblings proof none = failure "missing archived request inputs"
  with_json note_id nullifier siblings proof (some json) =
      with_inputs note_id nullifier siblings proof (read_inputs json)

  abbrev pub with_record :
      ℕ → Felt252 → List Felt252 → Option (TranscriptRecord Sig) → Outcome ChallengeAction
  with_record note_id nullifier siblings none = failure "no finalized transcript for nullifier"
  with_record note_id nullifier siblings (some r) =
      with_json note_id nullifier siblings r.proof_blob r.request_inputs_json

  unfoldable pub build_challenge_action :
      ℕ → Felt252 → List Felt252 → Store → Outcome ChallengeAction
  unfolding finalized_transcript
  build_challenge_action note_id nullifier siblings s =
      with_record note_id nullifier siblings (finalized_transcript nullifier s)
