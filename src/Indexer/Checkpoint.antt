-- ===== src/Indexer/Checkpoint.antt =====
-- A snapshot that the mirror takes restores its leaves.

use zkapi_ef_collab.Base.{
  ℕ, zero, suc, ◌+◌, List, [], ◌∷◌, true, false, ◌&&◌, ◌||◌, ◌==◌, nat_eq, leb, ltb, if◌then◌else◌,
  u32_max, ◌≡◌, ◌≤◌, ◌<◌, refl, arith, Option-cases, Bool-cases, inl, inr, ap, ◌∙◌,
}
use zkapi_ef_collab.Server.Wire.{Felt252, zero_felt}
use zkapi_ef_collab.Server.External.{success, failure}
use zkapi_ef_collab.Indexer.Events.{
  VaultEvent, note_deposited, mutual_close, escape_withdrawal_initiated,
  escape_withdrawal_challenged, escape_withdrawal_finalized, expired_claimed,
}
use zkapi_ef_collab.Indexer.Mirror.{
  TreeOps, IsTree, TreeMirror, find_leaf, insert_leaf, next_id, larger, new, process_event, run,
  length, leaves_from, current_leaves, snapshot, from_snapshot, some_beyond, set_leaves, sort_by_id,
  insert_by_id, collected,
}
use zkapi_ef_collab.Indexer.Restore.{IsSmall, AllSmall, beyond_next_is_zero}

some_beyond-insert_by_id :
    (bound : ℕ) (p : ℕ × Felt252) (rest : List (ℕ × Felt252))
    → some_beyond bound (insert_by_id p rest) ≡ (leb bound p.0 || some_beyond bound rest)
unfolding insert_by_id
some_beyond-insert_by_id bound p [] = refl
some_beyond-insert_by_id bound p (q ∷ rest) = ground (arith, some_beyond-insert_by_id bound p rest)

pub some_beyond-sort_by_id :
    (bound : ℕ) (originals : List (ℕ × Felt252))
    → some_beyond bound (sort_by_id originals) ≡ some_beyond bound originals
unfolding sort_by_id
some_beyond-sort_by_id bound [] = refl
some_beyond-sort_by_id bound (p ∷ rest) =
    some_beyond-insert_by_id bound p (sort_by_id rest)
    ∙ ap (λ b. leb bound p.0 || b) (some_beyond-sort_by_id bound rest)

some_beyond-le :
    (bound higher : ℕ) (originals : List (ℕ × Felt252))
    → bound ≤ higher
    → some_beyond bound originals ≡ false
    → some_beyond higher originals ≡ false
some_beyond-le bound higher [] le h = refl
some_beyond-le bound higher (p ∷ rest) le h = ground (arith, some_beyond-le bound higher rest le)

pub some_beyond-insert_leaf :
    (bound higher n : ℕ) (leaf : Felt252) (originals : List (ℕ × Felt252))
    → bound ≤ higher
    → n < higher
    → some_beyond bound originals ≡ false
    → some_beyond higher (insert_leaf n leaf originals) ≡ false
unfolding insert_leaf
some_beyond-insert_leaf bound higher n leaf [] le lt h = ground arith
some_beyond-insert_leaf bound higher n leaf (p ∷ rest) le lt h = elim (Bool-cases (p.0 == n)) [
  | inl e ↦ rw e (ground (arith, some_beyond-le bound higher rest le))
  | inr e ↦ rw e (ground (arith, some_beyond-insert_leaf bound higher n leaf rest le lt))
]

some_beyond-insert_self :
    (bound : ℕ) (leaf : Felt252) (originals : List (ℕ × Felt252))
    → some_beyond bound (insert_leaf bound leaf originals) ≡ true
unfolding insert_leaf
some_beyond-insert_self bound leaf [] = ground arith
some_beyond-insert_self bound leaf (p ∷ rest) = elim (Bool-cases (p.0 == bound)) [
  | inl e ↦ rw e (ground arith)
  | inr e ↦ rw e (ground (arith, some_beyond-insert_self bound leaf rest))
]

module _ {T : Type 0} (ops : TreeOps T) where
  open ops use {get_leaf, set_leaf, empty}

  length-leaves_from : (n count : ℕ) (t : T) → length (leaves_from ops n count t) ≡ count
  unfolding length leaves_from
  length-leaves_from n zero t = refl
  length-leaves_from n (suc count) t = ap suc (length-leaves_from (n + 1) count t)

  snapshot_refused :
      (m : TreeMirror T)
      → some_beyond m.next_note_id m.original_leaves ≡ true
      → from_snapshot ops (snapshot ops m)
        ≡ failure "snapshot contains an original leaf beyond next_note_id"
  unfolding from_snapshot snapshot current_leaves
  snapshot_refused m h = ground (
    arith,
    length-leaves_from 0 m.next_note_id m.tree,
    some_beyond-sort_by_id m.next_note_id m.original_leaves,
  )

  -- The last u32 is no id that a mirror can be restored with: after a deposit under it,
  -- `next_note_id` stays at that id, and the mirror's own snapshot is refused.
  pub last_id_unrestorable :
      (commitment : Felt252) (amount expiry_ts : ℕ) (new_root : Felt252) (m : TreeMirror T)
      → m.next_note_id ≤ u32_max
      → from_snapshot ops (
          snapshot ops
            (process_event ops (note_deposited u32_max commitment amount expiry_ts new_root) m))
        ≡ failure "snapshot contains an original leaf beyond next_note_id"
  unfolding process_event
  last_id_unrestorable commitment amount expiry_ts new_root m h =
      let leaf = ops.compute_note_leaf u32_max commitment amount expiry_ts in
      let stays : larger m.next_note_id (next_id u32_max) ≡ u32_max = ground arith in
      snapshot_refused
        (process_event ops (note_deposited u32_max commitment amount expiry_ts new_root) m)
        (ap (λ b. some_beyond b (insert_leaf u32_max leaf m.original_leaves)) stays
          ∙ some_beyond-insert_self u32_max leaf m.original_leaves)

  module _ (laws : IsTree ops) where
    get-set_unless_zero :
        (i n : ℕ) (leaf : Felt252) (u : T)
        → get_leaf i (if leaf == zero_felt then u else set_leaf n leaf u)
          ≡ (if leaf == zero_felt then get_leaf i u else if n == i then leaf else get_leaf i u)
    get-set_unless_zero i n leaf u = elim (Bool-cases (leaf == zero_felt)) [
      | inl e ↦ rw e refl
      | inr e ↦ rw e (laws.get-set i n leaf u)
    ]

    pub set_leaves-leaves_from :
        (i n count : ℕ) (t u : T)
        → get_leaf i (set_leaves ops n (leaves_from ops n count t) u) ≡ (
            if leb n i && ltb i (n + count)
            then (if get_leaf i t == zero_felt then get_leaf i u else get_leaf i t)
            else get_leaf i u)
    unfolding leaves_from
    set_leaves-leaves_from i n zero t u = ground arith
    set_leaves-leaves_from i n (suc count) t u =
        set_leaves-leaves_from i (n + 1) count t
          (if get_leaf n t == zero_felt then u else set_leaf n (get_leaf n t) u)
        ∙ rw (get-set_unless_zero i n (get_leaf n t) u) (grind arith)

    pub originals_below :
        (e : VaultEvent) (m : TreeMirror T)
        → IsSmall e
        → some_beyond m.next_note_id m.original_leaves ≡ false
        → some_beyond (process_event ops e m).next_note_id (process_event ops e m).original_leaves
          ≡ false
    unfolding process_event
    originals_below (note_deposited n commitment amount expiry_ts new_root) m s h =
        some_beyond-insert_leaf m.next_note_id (larger m.next_note_id (next_id n)) n
          (ops.compute_note_leaf n commitment amount expiry_ts) m.original_leaves (ground arith)
          (ground arith) h
    originals_below (mutual_close n nullifier final_balance) m s h = h
    originals_below (escape_withdrawal_initiated n nullifier final_balance deadline new_root) m s
          h =
        h
    originals_below (escape_withdrawal_challenged n nullifier restored_root) m s h =
        elim (Option-cases (find_leaf n m.original_leaves)) [
          | inl e ↦ rw (e, process_event) h
          | inr (original, e) ↦ rw (e, process_event) h
        ]
    originals_below (escape_withdrawal_finalized n nullifier final_balance) m s h = h
    originals_below (expired_claimed n deposit_amount new_root) m s h = h

    all_originals_below :
        (events : List VaultEvent) (m : TreeMirror T)
        → AllSmall events
        → some_beyond m.next_note_id m.original_leaves ≡ false
        → some_beyond (run ops events m).next_note_id (run ops events m).original_leaves ≡ false
    all_originals_below [] m s h = h
    all_originals_below (e ∷ events) m s h =
        all_originals_below events (process_event ops e m) s.1 (originals_below e m s.0 h)

    -- The mirror that a snapshot is restored to.
    abbrev pub restored_from : TreeMirror T → TreeMirror T
    restored_from m = record {
      tree = set_leaves ops 0 (leaves_from ops 0 m.next_note_id m.tree) empty;
      next_note_id = m.next_note_id;
      original_leaves = collected [] (sort_by_id m.original_leaves);
    }

    pub snapshot_accepted :
        (m : TreeMirror T)
        → some_beyond m.next_note_id m.original_leaves ≡ false
        → from_snapshot ops (snapshot ops m) ≡ success (restored_from m)
    unfolding from_snapshot snapshot current_leaves
    snapshot_accepted m h = ground (
      arith,
      length-leaves_from 0 m.next_note_id m.tree,
      some_beyond-sort_by_id m.next_note_id m.original_leaves,
    )

    -- After any events whose deposits have ids below the last u32, the mirror's own snapshot is
    -- accepted, and the mirror restored from it has the same `next_note_id` and the same leaf at
    -- every index.
    pub from_snapshot-snapshot :
        (events : List VaultEvent)
        → AllSmall events
        → (m : TreeMirror T) × (from_snapshot ops (snapshot ops (run ops events (new ops)))
            ≡ success m)
          × (m.next_note_id ≡ (run ops events (new ops)).next_note_id)
          × ((i : ℕ) → get_leaf i m.tree ≡ get_leaf i (run ops events (new ops)).tree)
    from_snapshot-snapshot events s = (
      restored_from (run ops events (new ops)),
      snapshot_accepted (run ops events (new ops)) (all_originals_below events (new ops) s refl),
      refl,
      λ i.
          set_leaves-leaves_from i 0 (run ops events (new ops)).next_note_id
            (run ops events (new ops)).tree empty
          ∙ ground (arith, laws.get-empty i, beyond_next_is_zero ops laws events i s),
    )
