-- ===== src/Tests/Indexer.antt =====
-- The theorems on the indexer's mirror, each at one run.
use mathlib.Core.Option
use zkapi_ef_collab.Base.{
  ℕ, List, [], ◌∷◌, ◌==◌, nat_eq, if◌then◌else◌, u32_max, ◌≡◌, ◌≢◌, refl, arith, ap, ◌∙◌,
  Bool-cases, inl, inr,
}
use zkapi_ef_collab.Server.External.{success, failure}
use zkapi_ef_collab.Indexer.Events.{
  VaultEvent, note_deposited, escape_withdrawal_initiated, escape_withdrawal_challenged,
}
use zkapi_ef_collab.Indexer.Mirror.{
  TreeOps, IsTree, TreeMirror, find_leaf, insert_leaf, new, process_event, run, snapshot,
  from_snapshot,
}
use zkapi_ef_collab.Indexer.Restore.{find_leaf-insert_leaf, challenge_restores}
use zkapi_ef_collab.Indexer.Checkpoint.{from_snapshot-snapshot, last_id_unrestorable}

-- A tree that is the list of the leaves that were set.
abbrev pub tree : TreeOps (List (ℕ × ℕ))
tree = record {
  empty = [];
  root = λ t. 0;
  get_leaf = λ i t. Option.get_or (find_leaf i t) 0;
  set_leaf = λ n v t. insert_leaf n v t;
  get_siblings = λ i t. [];
  compute_note_leaf = λ n commitment amount expiry. commitment;
}

get_or-insert :
    (i n v : ℕ) (t : List (ℕ × ℕ))
    → Option.get_or (find_leaf i (insert_leaf n v t)) 0
      ≡ (if n == i then v else Option.get_or (find_leaf i t) 0)
get_or-insert i n v t =
    ap (λ o. Option.get_or o 0) (find_leaf-insert_leaf i n v t)
    ∙ elim (Bool-cases (n == i)) [ inl e ↦ rw e refl | inr e ↦ rw e refl ]

pub tree-IsTree : IsTree tree
unfolding find_leaf
tree-IsTree = record { get-empty = λ i. refl; get-set = get_or-insert }

abbrev pub events : List VaultEvent
events =
    note_deposited 0 11 5 100 0
    ∷ note_deposited 1 12 5 100 0
    ∷ escape_withdrawal_initiated 0 9 4 50 0
    ∷ []

abbrev since : List VaultEvent
since = escape_withdrawal_initiated 0 9 4 50 0 ∷ note_deposited 1 12 5 100 0 ∷ []

one_ne_zero : ◌≢◌ {A = ℕ} 1 0
one_ne_zero = omega arith

challenge_restores_example :
    tree.get_leaf 0
      (process_event tree
        (escape_withdrawal_challenged 0 9 0)
        (run tree since (process_event tree (note_deposited 0 11 5 100 0) (new tree)))).tree
    ≡ 11
challenge_restores_example =
    challenge_restores tree tree-IsTree 0 11 5 100 0 9 0 since (new tree) (tt, (one_ne_zero, tt))

from_snapshot-snapshot_example :
    (m : TreeMirror (List (ℕ × ℕ))) × (from_snapshot tree
        (snapshot tree (run tree events (new tree)))
      ≡ success m)
    × (m.next_note_id ≡ (run tree events (new tree)).next_note_id)
    × ((i : ℕ) → tree.get_leaf i m.tree ≡ tree.get_leaf i (run tree events (new tree)).tree)
from_snapshot-snapshot_example =
    from_snapshot-snapshot tree tree-IsTree events (omega arith, (omega arith, (tt, tt)))

last_id_unrestorable_example :
    from_snapshot tree
      (snapshot tree (process_event tree (note_deposited u32_max 11 5 100 0) (new tree)))
    ≡ failure "snapshot contains an original leaf beyond next_note_id"
last_id_unrestorable_example = last_id_unrestorable tree 11 5 100 0 (new tree) (omega arith)
