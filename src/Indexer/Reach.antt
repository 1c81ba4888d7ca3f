-- ===== src/Indexer/Reach.antt =====
-- The mirrors that the indexer can come to have: it starts empty, processes events, and is restored
-- from its own snapshots (zkapi-indexerd/src/tree_mirror.rs) at restarts.

use zkapi_ef_collab.Base.{
  ℕ, List, [], ◌∷◌, none, false, nat_eq, ◌≡◌, ◌<◌, refl, arith, sym, ◌∙◌, subst, ◌⊎◌, inl,
}
use zkapi_ef_collab.Server.Wire.{Felt252, zero_felt}
use zkapi_ef_collab.Server.External.{success}
use zkapi_ef_collab.Indexer.Events.{VaultEvent}
use zkapi_ef_collab.Indexer.Mirror.{
  TreeOps, IsTree, TreeMirror, find_leaf, insert_leaf, new, process_event, run, snapshot,
  from_snapshot, some_beyond, collected, sort_by_id,
}
use zkapi_ef_collab.Indexer.Restore.{IsSmall, AllSmall, IsCovered, process_event-IsCovered}
use zkapi_ef_collab.Indexer.Checkpoint.{
  some_beyond-sort_by_id, some_beyond-insert_leaf, set_leaves-leaves_from, originals_below,
  snapshot_accepted, restored_from,
}

-- No deposit has the last u32 as its id.
pub data Reached {T : Type 0} (ops : TreeOps T) : TreeMirror T → Type 0 where
  started : Reached ops (new ops)
  processed :
      {m : TreeMirror T} (e : VaultEvent)
      → IsSmall e
      → Reached ops m
      → Reached ops (process_event ops e m)
  restarted :
      {m m_next : TreeMirror T}
      → from_snapshot ops (snapshot ops m) ≡ success m_next
      → Reached ops m
      → Reached ops m_next

some_beyond-collected :
    (bound : ℕ) (done originals : List (ℕ × Felt252))
    → some_beyond bound done ≡ false
    → some_beyond bound originals ≡ false
    → some_beyond bound (collected done originals) ≡ false
some_beyond-collected bound done [] h below = h
some_beyond-collected bound done (p ∷ rest) h below =
    some_beyond-collected bound (insert_leaf p.0 p.1 done) rest
      (some_beyond-insert_leaf bound bound p.0 p.1 done (omega arith) (ground arith) h)
      (ground arith)

find_leaf-below :
    (bound i : ℕ) (originals : List (ℕ × Felt252))
    → some_beyond bound originals ≡ false
    → (find_leaf i originals ≡ none) ⊎ (i < bound)
unfolding find_leaf
find_leaf-below bound i [] h = inl refl
find_leaf-below bound i (p ∷ rest) h = ground (arith, find_leaf-below bound i rest)

module _ {T : Type 0} (ops : TreeOps T) (laws : IsTree ops) where
  -- Whatever is set or kept of a note lies below `next_note_id`.
  abbrev pub IsSettled : TreeMirror T → Type 0
  IsSettled m =
      (some_beyond m.next_note_id m.original_leaves ≡ false) × ((i : ℕ) → IsCovered ops laws i m)

  -- A settled mirror is restored with the leaf that it has at every index.
  pub restored-leaf :
      (m : TreeMirror T) (i : ℕ)
      → IsSettled m
      → ops.get_leaf i (restored_from ops laws m).tree ≡ ops.get_leaf i m.tree
  restored-leaf m i h =
      let covered = (h.1 i).0 in
      set_leaves-leaves_from ops laws i 0 m.next_note_id m.tree ops.empty
      ∙ ground (arith, laws.get-empty i, covered)

  restored-IsSettled : (m : TreeMirror T) → IsSettled m → IsSettled (restored_from ops laws m)
  restored-IsSettled m h =
      let below =
        some_beyond-collected m.next_note_id [] (sort_by_id m.original_leaves) refl
          (some_beyond-sort_by_id m.next_note_id m.original_leaves ∙ h.0) in
      (
        below,
        λ i. (
          subst (λ leaf. (leaf ≡ zero_felt) ⊎ (i < m.next_note_id)) (sym (restored-leaf m i h))
              (h.1 i).0,
          find_leaf-below m.next_note_id i (restored_from ops laws m).original_leaves below,
        ),
      )

  pub Reached-IsSettled : {m : TreeMirror T} → Reached ops m → IsSettled m
  unfolding find_leaf
  Reached-IsSettled started = (refl, λ i. (inl (laws.get-empty i), inl refl))
  Reached-IsSettled (processed {m = m} e small r) =
      let before = Reached-IsSettled r in
      (
        originals_below ops laws e m small before.0,
        λ i. process_event-IsCovered ops laws i e m small (before.1 i),
      )
  Reached-IsSettled (restarted {m = m} accepted r) =
      let before = Reached-IsSettled r in
      let same = sym (snapshot_accepted ops laws m before.0) ∙ accepted in
      subst IsSettled (cc same) (restored-IsSettled m before)

  -- The mirror that a reached mirror's snapshot is restored to.
  pub Reached-restored :
      {m : TreeMirror T}
      → Reached ops m
      → (m_next : TreeMirror T) × (from_snapshot ops (snapshot ops m) ≡ success m_next)
        × (m_next.next_note_id ≡ m.next_note_id)
        × ((i : ℕ) → ops.get_leaf i m_next.tree ≡ ops.get_leaf i m.tree)
  Reached-restored {m = m} r =
      let settled = Reached-IsSettled r in
      (
        restored_from ops laws m,
        snapshot_accepted ops laws m settled.0,
        refl,
        λ i. restored-leaf m i settled,
      )

  pub run-Reached :
      (events : List VaultEvent) (m : TreeMirror T)
      → AllSmall events
      → Reached ops m
      → Reached ops (run ops events m)
  run-Reached [] m small r = r
  run-Reached (e ∷ events) m small r =
      run-Reached events (process_event ops e m) small.1 (processed e small.0 r)
