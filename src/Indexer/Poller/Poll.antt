-- ===== src/Indexer/Poller/Poll.antt =====
-- zkapi-indexerd/src/poller.rs: JsonRpcLogPoller. The answers of the node, the JSON form of a
-- checkpoint and the file operations are parameters; an error keeps the fixed text of its message.

use zkapi_ef_collab.Base.{
  ℕ, String, ◌+◌, List, [], ◌∷◌, Option, none, some, ◌==◌, ◌!=◌, ltb, leb, nat_eq, if◌then◌else◌,
  saturating_add, saturating_sub,
}
use zkapi_ef_collab.Server.External.{Outcome, success, failure}
use zkapi_ef_collab.Indexer.Mirror.{TreeOps, Snapshot}
use zkapi_ef_collab.Indexer.Service.{IndexerService, mark_ready, snapshot, restore, apply_event}
use zkapi_ef_collab.Indexer.Poller.Text.{Text, and_then, trim, without_0x, u64_from_str_radix}
use zkapi_ef_collab.Indexer.Poller.Decode.{LogCodec, RpcLog, decode_log}

-- CHECKPOINT_VERSION and MAX_BLOCK_RANGE
abbrev pub checkpoint_version : ℕ
checkpoint_version = 1

abbrev pub max_block_range : ℕ
max_block_range = 1000

-- PollerConfig
pub record PollerConfig : Type 0 where
  pub rpc_url : String
  pub contract_address : Text
  pub from_block : ℕ
  pub cursor_path : Option String

-- JsonRpcLogPoller, without its HTTP client
pub record JsonRpcLogPoller : Type 0 where
  pub rpc_url : String
  pub contract_address : Text
  pub next_from_block : ℕ
  pub cursor_path : Option String

pub record IndexerCheckpoint : Type 0 where
  pub version : ℕ
  pub last_processed_block : ℕ
  pub mirror : Snapshot

-- JsonRpcResponse, with the message of its error
pub record JsonRpcResponse (A : Type 0) : Type 0 where
  pub result : Option A
  pub error : Option String

-- serde_json on a checkpoint, `str::from_utf8`, and the file operations: the first is the outcome
-- of reading the cursor file, the second that of writing beside it and renaming.
pub record Disk : Type 0 where
  pub to_vec : IndexerCheckpoint → Outcome (List ℕ)
  pub from_slice : List ℕ → Option IndexerCheckpoint
  pub from_utf8 : List ℕ → Option Text
  pub read : String → List ℕ → Outcome (List ℕ)
  pub replace : String → List ℕ → Outcome Unit

-- The body of an answer: `rpc` after the transport.
abbrev pub rpc_result : {A : Type 0} → Outcome (JsonRpcResponse A) → Outcome A
rpc_result (failure e) = failure e
rpc_result (success body) = elim body.error [
  | some message ↦ failure message
  | none ↦ elim body.result [ none ↦ failure "rpc response missing result" | some a ↦ success a ]
]

unfoldable pub parse_hex_u64 : Text → Outcome ℕ
parse_hex_u64 value = elim (u64_from_str_radix 16 (without_0x (trim value))) [
  | none ↦ failure "invalid hex u64"
  | some block ↦ success block
]

abbrev pub fetch_block_number : Outcome (JsonRpcResponse Text) → Outcome ℕ
fetch_block_number answer = and_then (rpc_result answer) parse_hex_u64

-- The last block that one poll reads.
unfoldable pub last_block_of : ℕ → ℕ → ℕ
last_block_of latest next =
    let bound = saturating_add next (saturating_sub max_block_range 1) in
    if leb latest bound then latest else bound

-- What the poller reads and writes: itself, the service and the cursor file.
pub record Indexer (T : Type 0) : Type 0 where
  pub poller : JsonRpcLogPoller
  pub service : IndexerService T
  pub file : Option (List ℕ)

module _ {T : Type 0} (ops : TreeOps T) (codec : LogCodec) where
  -- The loop over the logs: the number of events applied, and the service. A root that differs
  -- from the event's is a warning.
  unfoldable pub apply_logs : List RpcLog → ℕ → IndexerService T → Outcome ℕ × IndexerService T
  apply_logs [] applied s = (success applied, s)
  apply_logs (log ∷ logs) applied s = elim (decode_log codec log) [
    | failure e ↦ (failure e, s)
    | success none ↦ apply_logs logs applied s
    | success (some decoded) ↦ apply_logs logs (applied + 1) (apply_event ops decoded.0 s)
  ]

module _ (disk : Disk) where
  open disk use {to_vec, from_slice, from_utf8, read, replace}

  -- The content of the cursor file, if there is one.
  unfoldable pub load_checkpoint : String → Option (List ℕ) → Outcome (Option IndexerCheckpoint)
  load_checkpoint path none = success none
  load_checkpoint path (some content) = and_then (read path content) λ raw. elim (from_slice raw) [
    | some checkpoint ↦ success (some checkpoint)
    | none ↦ elim (from_utf8 raw) [
      | none ↦ failure "invalid indexer checkpoint"
      | some text ↦ elim (u64_from_str_radix 10 (trim text)) [
        | none ↦ failure "invalid indexer checkpoint"
        | some block ↦ success none
      ]
    ]
  ]

  module _ {T : Type 0} (ops : TreeOps T) where
    abbrev pub behind : ℕ → Outcome Unit × IndexerService T → Outcome ℕ × IndexerService T
    behind last (failure e, s) = (failure e, s)
    behind last (success _, s) = (success (saturating_add last 1), s)

    -- The first block to read and the service, from the checkpoint that was loaded.
    unfoldable pub resume_from :
        ℕ → Option IndexerCheckpoint → IndexerService T → Outcome ℕ × IndexerService T
    resume_from from_block none s = (success from_block, s)
    resume_from from_block (some c) s =
        if c.version != checkpoint_version
        then (failure "unsupported indexer checkpoint version", s)
        else behind c.last_processed_block (restore ops c.mirror s)

    unfoldable pub load_cursor :
        PollerConfig → Option (List ℕ) → IndexerService T → Outcome ℕ × IndexerService T
    load_cursor config file s = elim config.cursor_path [
      | none ↦ (success config.from_block, s)
      | some path ↦ elim (load_checkpoint path file) [
        | failure e ↦ (failure e, s)
        | success loaded ↦ resume_from config.from_block loaded s
      ]
    ]

    -- `persist_checkpoint`: the file changes by the rename alone.
    unfoldable pub persist_checkpoint :
        Option String → ℕ → IndexerService T → Option (List ℕ) → Outcome Unit × Option (List ℕ)
    persist_checkpoint none last s file = (success tt, file)
    persist_checkpoint (some path) last s file =
        let checkpoint : IndexerCheckpoint = record {
          version = checkpoint_version;
          last_processed_block = last;
          mirror = snapshot ops s;
        } in
        elim (to_vec checkpoint) [
          | failure e ↦ (failure e, file)
          | success encoded ↦ elim (replace path encoded) [
            | failure e ↦ (failure e, file)
            | success _ ↦ (success tt, some encoded)
          ]
        ]

    -- The end of `poll_once`, after the loop.
    unfoldable pub advance :
        ℕ → ℕ → Outcome ℕ × IndexerService T → Indexer T → Outcome ℕ × Indexer T
    advance latest to_block (failure e, s) x = (failure e, record x { service = s })
    advance latest to_block (success applied, s) x =
        let p = record x.poller { next_from_block = saturating_add to_block 1 } in
        let persisted = persist_checkpoint p.cursor_path to_block s x.file in
        elim persisted.0 [
          | failure e ↦ (failure e, record { poller = p; service = s; file = persisted.1 })
          | success _ ↦ (
            success applied,
            record {
              poller = p;
              service = if to_block == latest then mark_ready s else s;
              file = persisted.1;
            },
          )
        ]

    module _ (codec : LogCodec) where
      -- `poll_once`, with the answers to its two calls; the second is to a range of blocks.
      unfoldable pub poll_range :
          ℕ → (ℕ → ℕ → Outcome (JsonRpcResponse (List RpcLog))) → Indexer T → Outcome ℕ × Indexer T
      poll_range latest fetch_logs x =
          let next = x.poller.next_from_block in
          let to_block = last_block_of latest next in
          if ltb latest next
          then (success 0, record x { service = mark_ready x.service })
          else elim (rpc_result (fetch_logs next to_block)) [
            | failure e ↦ (failure e, x)
            | success logs ↦ advance latest to_block (apply_logs ops codec logs 0 x.service) x
          ]

      unfoldable pub poll_once :
          Outcome (JsonRpcResponse Text)
          → (ℕ → ℕ → Outcome (JsonRpcResponse (List RpcLog)))
          → Indexer T
          → Outcome ℕ × Indexer T
      poll_once block_number fetch_logs x = elim (fetch_block_number block_number) [
        | failure e ↦ (failure e, x)
        | success latest ↦ poll_range latest fetch_logs x
      ]
