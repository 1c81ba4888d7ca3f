-- ===== src/Indexer/Service.antt =====
-- zkapi-indexerd/src/service.rs: IndexerService. A lock around the mirror is the mirror, and the
-- flag `ready` is a Boolean.

use zkapi_ef_collab.Base.{ℕ, List, Bool, true, false}
use zkapi_ef_collab.Server.Wire.{Felt252}
use zkapi_ef_collab.Server.External.{Outcome, success, failure}
use zkapi_ef_collab.Indexer.Events.{VaultEvent}
use zkapi_ef_collab.Indexer.Mirror as Mirror
use zkapi_ef_collab.Indexer.Mirror.{TreeOps, TreeMirror, Snapshot}

pub record IndexerService (T : Type 0) : Type 0 where
  pub mirror : TreeMirror T
  pub ready : Bool

-- TreeSnapshotResponse
pub record TreeSnapshotResponse : Type 0 where
  pub root : Felt252
  pub next_note_id : ℕ
  pub leaves : List Felt252

module _ {T : Type 0} where
  abbrev pub new_service : TreeMirror T → IndexerService T
  new_service mirror = record { mirror = mirror; ready = true }

  abbrev pub new_syncing : TreeMirror T → IndexerService T
  new_syncing mirror = record { mirror = mirror; ready = false }

  abbrev pub mark_ready : IndexerService T → IndexerService T
  mark_ready s = record s { ready = true }

  abbrev pub get_next_note_id : IndexerService T → ℕ
  get_next_note_id s = s.mirror.next_note_id

  module _ (ops : TreeOps T) where
    open ops use {get_leaf, get_siblings, root}

    abbrev pub snapshot : IndexerService T → Snapshot
    snapshot s = Mirror.snapshot ops s.mirror

    -- The result, and the service after the call.
    abbrev pub restore : Snapshot → IndexerService T → Outcome Unit × IndexerService T
    restore taken s = elim (Mirror.from_snapshot ops taken) [
      | failure e ↦ (failure e, s)
      | success m ↦ (success tt, record s { mirror = m })
    ]

    abbrev pub get_root : IndexerService T → Felt252
    get_root s = root s.mirror.tree

    abbrev pub get_note_path : ℕ → IndexerService T → List Felt252
    get_note_path note_id s = get_siblings note_id s.mirror.tree

    abbrev pub get_zero_path : ℕ → IndexerService T → List Felt252
    get_zero_path note_id s = get_siblings note_id s.mirror.tree

    abbrev pub get_note_leaf : ℕ → IndexerService T → Felt252
    get_note_leaf note_id s = get_leaf note_id s.mirror.tree

    abbrev pub get_snapshot : IndexerService T → TreeSnapshotResponse
    get_snapshot s = record {
      root = get_root s;
      next_note_id = get_next_note_id s;
      leaves = Mirror.current_leaves ops s.mirror;
    }

    abbrev pub apply_event : VaultEvent → IndexerService T → IndexerService T
    apply_event e s = record s { mirror = Mirror.process_event ops e s.mirror }
