-- ===== src/Indexer/Mirror.antt =====
-- zkapi-indexerd/src/tree_mirror.rs. The MerkleTree and the leaf hash of zkapi-core are parameters.
-- The HashMap of original leaves is a list of pairs with one pair for each key.

use zkapi_ef_collab.Base.{
  ℕ, zero, suc, ◌+◌, List, [], ◌∷◌, Bool, false, ◌||◌, Option, none, some, ◌==◌, ◌!=◌, nat_eq, leb,
  ltb, if◌then◌else◌, u32_max, ◌≡◌,
}
use zkapi_ef_collab.Server.Wire.{Felt252, zero_felt}
use zkapi_ef_collab.Server.External.{Outcome, success, failure}
use zkapi_ef_collab.Indexer.Events.{
  VaultEvent, note_deposited, mutual_close, escape_withdrawal_initiated,
  escape_withdrawal_challenged, escape_withdrawal_finalized, expired_claimed,
}

-- `zkapi_core`: MerkleTree by its methods, and `compute_note_leaf`
pub record TreeOps (T : Type 0) : Type 0 where
  pub empty : T
  pub root : T → Felt252
  pub get_leaf : ℕ → T → Felt252
  pub set_leaf : ℕ → Felt252 → T → T
  pub get_siblings : ℕ → T → List Felt252
  pub compute_note_leaf : ℕ → Felt252 → ℕ → ℕ → Felt252

-- What the mirror relies on: a leaf is zero until it is set, and then what was set last.
pub record IsTree {T : Type 0} (ops : TreeOps T) : Type 0 where
  pub get-empty : (i : ℕ) → ops.get_leaf i ops.empty ≡ zero_felt
  pub get-set :
      (i n : ℕ) (v : Felt252) (t : T)
      → ops.get_leaf i (ops.set_leaf n v t) ≡ (if n == i then v else ops.get_leaf i t)

-- TreeMirrorSnapshot
pub record Snapshot : Type 0 where
  pub next_note_id : ℕ
  pub current_leaves : List Felt252
  pub original_leaves : List (ℕ × Felt252)

-- TreeMirror
pub record TreeMirror (T : Type 0) : Type 0 where
  pub tree : T
  pub next_note_id : ℕ
  pub original_leaves : List (ℕ × Felt252)

-- HashMap::get and HashMap::insert
unfoldable pub find_leaf : ℕ → List (ℕ × Felt252) → Option Felt252
find_leaf n [] = none
find_leaf n ((m, leaf) ∷ rest) = if m == n then some leaf else find_leaf n rest

unfoldable pub insert_leaf : ℕ → Felt252 → List (ℕ × Felt252) → List (ℕ × Felt252)
insert_leaf n leaf [] = (n, leaf) ∷ []
insert_leaf n leaf ((m, old) ∷ rest) =
    if m == n then (n, leaf) ∷ rest else (m, old) ∷ insert_leaf n leaf rest

-- `sort_unstable_by_key`: the keys differ, so the order is the one.
unfoldable pub insert_by_id : ℕ × Felt252 → List (ℕ × Felt252) → List (ℕ × Felt252)
insert_by_id p [] = p ∷ []
insert_by_id p (q ∷ rest) = if leb p.0 q.0 then p ∷ q ∷ rest else q ∷ insert_by_id p rest

unfoldable pub sort_by_id : List (ℕ × Felt252) → List (ℕ × Felt252)
unfolding insert_by_id
sort_by_id [] = []
sort_by_id (p ∷ rest) = insert_by_id p (sort_by_id rest)

-- `note_id.saturating_add(1)` on u32, and `max`
abbrev pub next_id : ℕ → ℕ
next_id n = if ltb n u32_max then n + 1 else u32_max

abbrev pub larger : ℕ → ℕ → ℕ
larger a b = if leb a b then b else a

-- Vec::len
unfoldable pub length : {A : Type 0} → List A → ℕ
length [] = 0
length (a ∷ rest) = suc (length rest)

abbrev pub some_beyond : ℕ → List (ℕ × Felt252) → Bool
some_beyond bound [] = false
some_beyond bound (p ∷ rest) = leb bound p.0 || some_beyond bound rest

-- Collecting the pairs into a map.
abbrev pub collected : List (ℕ × Felt252) → List (ℕ × Felt252) → List (ℕ × Felt252)
collected done [] = done
collected done (p ∷ rest) = collected (insert_leaf p.0 p.1 done) rest

module _ {T : Type 0} (ops : TreeOps T) where
  open ops use {empty, root, get_leaf, set_leaf, get_siblings, compute_note_leaf}

  abbrev pub new : TreeMirror T
  new = record { tree = empty; next_note_id = 0; original_leaves = [] }

  -- The leaves `from .. from + count`.
  unfoldable pub leaves_from : ℕ → ℕ → T → List Felt252
  leaves_from from zero t = []
  leaves_from from (suc count) t = get_leaf from t ∷ leaves_from (from + 1) count t

  unfoldable pub current_leaves : TreeMirror T → List Felt252
  unfolding leaves_from
  current_leaves m = leaves_from 0 m.next_note_id m.tree

  unfoldable pub snapshot : TreeMirror T → Snapshot
  unfolding current_leaves
  snapshot m = record {
    next_note_id = m.next_note_id;
    current_leaves = current_leaves m;
    original_leaves = sort_by_id m.original_leaves;
  }

  -- The loop of `from_snapshot` over the enumerated leaves.
  abbrev pub set_leaves : ℕ → List Felt252 → T → T
  set_leaves n [] t = t
  set_leaves n (leaf ∷ rest) t =
      set_leaves (n + 1) rest (if leaf == zero_felt then t else set_leaf n leaf t)

  unfoldable pub from_snapshot : Snapshot → Outcome (TreeMirror T)
  from_snapshot s =
      if length s.current_leaves != s.next_note_id
      then failure "snapshot has other leaves than next_note_id"
      else if some_beyond s.next_note_id s.original_leaves
      then failure "snapshot contains an original leaf beyond next_note_id"
      else success (record {
        tree = set_leaves 0 s.current_leaves empty;
        next_note_id = s.next_note_id;
        original_leaves = collected [] s.original_leaves;
      })

  abbrev pub zeroed : ℕ → TreeMirror T → TreeMirror T
  zeroed n m = record m { tree = set_leaf n zero_felt m.tree }

  unfoldable pub process_event : VaultEvent → TreeMirror T → TreeMirror T
  process_event (note_deposited n commitment amount expiry_ts new_root) m =
      let leaf = compute_note_leaf n commitment amount expiry_ts in
      record {
        tree = set_leaf n leaf m.tree;
        next_note_id = larger m.next_note_id (next_id n);
        original_leaves = insert_leaf n leaf m.original_leaves;
      }
  process_event (mutual_close n nullifier final_balance) m = zeroed n m
  process_event (escape_withdrawal_initiated n nullifier final_balance challenge_deadline new_root)
        m =
      zeroed n m
  process_event (escape_withdrawal_challenged n nullifier restored_root) m =
      elim (find_leaf n m.original_leaves) [
        | none ↦ m
        | some original ↦ record m { tree = set_leaf n original m.tree }
      ]
  process_event (escape_withdrawal_finalized n nullifier final_balance) m = m
  process_event (expired_claimed n deposit_amount new_root) m = zeroed n m

  -- The events in their order, as the poller applies them.
  abbrev pub run : List VaultEvent → TreeMirror T → TreeMirror T
  run [] m = m
  run (e ∷ events) m = run events (process_event e m)
