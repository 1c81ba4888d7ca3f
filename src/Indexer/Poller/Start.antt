-- ===== src/Indexer/Poller/Start.antt =====
-- zkapi-indexerd/src/poller.rs: JsonRpcLogPoller::new, and what a restart from the checkpoint of
-- a poll restores.

use zkapi_ef_collab.Base.{
  ℕ, String, zero, suc, ◌+◌, ◌-◌, List, [], ◌∷◌, ◌++◌, map, Option, none, some, ◌&&◌, ◌||◌, leb,
  ltb, if◌then◌else◌, saturating_add, ◌≡◌, refl, ap, ℕ_discrete, inl, inr,
}
use zkapi_ef_collab.Server.External.{Outcome, success, failure, Outcome-cases}
use zkapi_ef_collab.Indexer.Mirror.{TreeOps, IsTree, length, TreeMirror, from_snapshot}
use zkapi_ef_collab.Indexer.Reach.{Reached, restarted, Reached-restored}
use zkapi_ef_collab.Indexer.Service.{IndexerService, restore, snapshot}
use zkapi_ef_collab.Indexer.Poller.Text.{Text, Hex, and_then, is_empty, trim, without_0x, as_bytes}
use zkapi_ef_collab.Indexer.Poller.Poll.{
  Disk, IndexerCheckpoint, JsonRpcLogPoller, PollerConfig, load_checkpoint, load_cursor,
  persist_checkpoint, behind, resume_from, checkpoint_version,
}

-- `{raw:0>40}`: zeros on the left, up to a width in characters.
abbrev pub zeros : ℕ → Text
zeros zero = []
zeros (suc n) = 48 ∷ zeros n

abbrev pub to_ascii_lowercase : ℕ → ℕ
to_ascii_lowercase c = if leb 65 c && leb c 90 then c + 32 else c

unfoldable pub normalize_address : Hex → Text → Outcome Text
normalize_address hex address =
    let raw = without_0x (trim address) in
    let normalized = map to_ascii_lowercase (zeros (40 - length raw) ++ raw) in
    if is_empty raw || ltb 40 (length (as_bytes raw))
    then failure "contract address must be 20-byte hex"
    else elim (hex.decode (as_bytes normalized)) [
      | none ↦ failure "contract address is not valid hex"
      | some bytes ↦ success (48 ∷ 120 ∷ normalized)
    ]

module _ (disk : Disk) {T : Type 0} (ops : TreeOps T) where
  -- The poller, and the service, which `restore` may have changed.
  abbrev pub started_at :
      Hex
      → PollerConfig
      → Outcome ℕ × IndexerService T
      → Outcome JsonRpcLogPoller × IndexerService T
  started_at hex config (failure e, s) = (failure e, s)
  started_at hex config (success next, s) = (
    and_then (normalize_address hex config.contract_address) (λ address. success (record {
      rpc_url = config.rpc_url;
      contract_address = address;
      next_from_block = next;
      cursor_path = config.cursor_path;
    })),
    s,
  )

  unfoldable pub new_poller :
      Hex
      → PollerConfig
      → Option (List ℕ)
      → IndexerService T
      → Outcome JsonRpcLogPoller × IndexerService T
  new_poller hex config file s = started_at hex config (load_cursor disk ops config file s)

-- serde_json and the file system: a checkpoint is parsed as it was encoded, and reading gives the
-- content of the file.
pub record IsDisk (disk : Disk) : Type 0 where
  pub from_slice-to_vec :
      (c : IndexerCheckpoint) (bytes : List ℕ)
      → disk.to_vec c ≡ success bytes
      → disk.from_slice bytes ≡ some c
  pub read_whole : (path : String) (bytes : List ℕ) → disk.read path bytes ≡ success bytes

module _ {T : Type 0} (ops : TreeOps T) (laws : IsTree ops) (disk : Disk)
    (disk_laws : IsDisk disk) where
  checkpoint_of : ℕ → IndexerService T → IndexerCheckpoint
  checkpoint_of last s = record {
    version = checkpoint_version;
    last_processed_block = last;
    mirror = snapshot ops s;
  }

  load_checkpoint-persisted :
      (path : String) (last : ℕ) (s : IndexerService T) (file : Option (List ℕ))
      → (persist_checkpoint disk ops (some path) last s file).0 ≡ success tt
      → load_checkpoint disk path (persist_checkpoint disk ops (some path) last s file).1
        ≡ success (some (checkpoint_of last s))
  unfolding load_checkpoint persist_checkpoint checkpoint_of
  load_checkpoint-persisted path last s file h =
      elim (Outcome-cases (disk.to_vec (checkpoint_of last s))) [
        | inl (message, e) ↦ let x = rw (e, persist_checkpoint) at h in cc
        | inr (bytes, e) ↦ elim (Outcome-cases (disk.replace path bytes)) [
          | inl (message, e_replace) ↦ let x = rw (e, e_replace, persist_checkpoint) at h in cc
          | inr (_, e_replace) ↦
              rw
                (e, e_replace, persist_checkpoint, load_checkpoint, disk_laws.read_whole path bytes)
                (rw (disk_laws.from_slice-to_vec (checkpoint_of last s) bytes e) refl)
        ]
      ]

  load_cursor-persisted :
      (config : PollerConfig) (path : String) (last : ℕ) (m : TreeMirror T)
      (s fresh : IndexerService T) (file : Option (List ℕ))
      → from_snapshot ops (snapshot ops s) ≡ success m
      → config.cursor_path ≡ some path
      → (persist_checkpoint disk ops (some path) last s file).0 ≡ success tt
      → load_cursor disk ops config (persist_checkpoint disk ops (some path) last s file).1 fresh
        ≡ (success (saturating_add last 1), record fresh { mirror = m })
  unfolding load_cursor resume_from checkpoint_of ℕ_discrete
  load_cursor-persisted config path last m s fresh file accepted cursor written =
      let restored : restore ops (snapshot ops s) fresh
          ≡ (success tt, record fresh { mirror = m }) =
        rw (restore, accepted) refl in
      rw (load_cursor, cursor, load_checkpoint-persisted path last s file written, resume_from)
        (ap (behind disk ops last) restored)

  -- A poller that starts with the file that `persist_checkpoint` wrote, and a valid contract address,
  -- goes on behind the block that the checkpoint names, with a mirror that has the `next_note_id` and the leaves of the
  -- mirror that was written, if that came from the empty mirror by events and restarts, no deposit
  -- having the last u32 as its id; and the new mirror is one that came so.
  pub new_poller-persisted :
      (hex : Hex) (config : PollerConfig) (path : String) (address : Text) (last : ℕ)
      (s fresh : IndexerService T) (file : Option (List ℕ))
      → Reached ops s.mirror
      → config.cursor_path ≡ some path
      → normalize_address hex config.contract_address ≡ success address
      → (persist_checkpoint disk ops (some path) last s file).0 ≡ success tt
      → let written = (persist_checkpoint disk ops (some path) last s file).1 in
        let started = new_poller disk ops hex config written fresh in
        (started.0
          ≡ success (record {
            rpc_url = config.rpc_url;
            contract_address = address;
            next_from_block = saturating_add last 1;
            cursor_path = config.cursor_path;
          }))
        × (started.1.mirror.next_note_id ≡ s.mirror.next_note_id)
        × ((i : ℕ) → ops.get_leaf i started.1.mirror.tree ≡ ops.get_leaf i s.mirror.tree)
        × Reached ops started.1.mirror
  unfolding new_poller
  new_poller-persisted hex config path address last s fresh file reached cursor valid written =
      let taken = Reached-restored ops laws reached in
      let loaded =
        load_cursor-persisted config path last taken.0 s fresh file taken.1 cursor written in
      rw (new_poller, loaded, valid) (refl, taken.2, taken.3, restarted taken.1 reached)
