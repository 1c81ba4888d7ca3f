-- ===== src/Indexer/Restore.antt =====
-- What the mirror keeps of the notes over any sequence of events.

use zkapi_ef_collab.Base.{
  ℕ, List, [], ◌∷◌, none, some, ◌==◌, nat_eq, if◌then◌else◌, u32_max, ◌≡◌, ◌≢◌, ◌≤◌, ◌<◌, ◌⊎◌, inl,
  inr, refl, arith, Option-cases, ◌∙◌,
}
use zkapi_ef_collab.Server.Wire.{Felt252, zero_felt}
use zkapi_ef_collab.Indexer.Events.{
  VaultEvent, note_deposited, mutual_close, escape_withdrawal_initiated,
  escape_withdrawal_challenged, escape_withdrawal_finalized, expired_claimed,
}
use zkapi_ef_collab.Indexer.Mirror.{
  TreeOps, IsTree, TreeMirror, find_leaf, insert_leaf, new, process_event, run, zeroed,
}

pub find_leaf-insert_leaf :
    (k n : ℕ) (leaf : Felt252) (originals : List (ℕ × Felt252))
    → find_leaf k (insert_leaf n leaf originals)
      ≡ (if n == k then some leaf else find_leaf k originals)
unfolding find_leaf insert_leaf
find_leaf-insert_leaf k n leaf [] = refl
find_leaf-insert_leaf k n leaf ((m, old) ∷ rest) =
    ground (arith, find_leaf-insert_leaf k n leaf rest)

-- The event deposits another note than `n`, or none.
abbrev pub SparesDeposit : ℕ → VaultEvent → Type 0
SparesDeposit n (note_deposited m commitment amount expiry_ts new_root) = m ≢ n
SparesDeposit n _ = Unit

abbrev pub AllSpareDeposit : ℕ → List VaultEvent → Type 0
AllSpareDeposit n [] = Unit
AllSpareDeposit n (e ∷ events) = SparesDeposit n e × AllSpareDeposit n events

-- The ids of deposits are below the last u32, which is where `saturating_add` stops.
abbrev pub IsSmall : VaultEvent → Type 0
IsSmall (note_deposited n commitment amount expiry_ts new_root) = n < u32_max
IsSmall _ = Unit

abbrev pub AllSmall : List VaultEvent → Type 0
AllSmall [] = Unit
AllSmall (e ∷ events) = IsSmall e × AllSmall events

module _ {T : Type 0} (ops : TreeOps T) where
  open ops use {get_leaf, set_leaf, compute_note_leaf}

  keeps_original :
      (n : ℕ) (e : VaultEvent) (m : TreeMirror T)
      → SparesDeposit n e
      → find_leaf n (process_event ops e m).original_leaves ≡ find_leaf n m.original_leaves
  unfolding process_event
  keeps_original n (note_deposited k commitment amount expiry_ts new_root) m h = ground (
    arith,
    find_leaf-insert_leaf n k (compute_note_leaf k commitment amount expiry_ts) m.original_leaves,
  )
  keeps_original n (mutual_close k nullifier final_balance) m h = refl
  keeps_original n
        (escape_withdrawal_initiated k nullifier final_balance challenge_deadline new_root) m h =
      refl
  keeps_original n (escape_withdrawal_challenged k nullifier restored_root) m h =
      elim (Option-cases (find_leaf k m.original_leaves)) [
        | inl e ↦ rw (e, process_event) refl
        | inr (original, e) ↦ rw (e, process_event) refl
      ]
  keeps_original n (escape_withdrawal_finalized k nullifier final_balance) m h = refl
  keeps_original n (expired_claimed k deposit_amount new_root) m h = refl

  keeps_originals :
      (n : ℕ) (events : List VaultEvent) (m : TreeMirror T)
      → AllSpareDeposit n events
      → find_leaf n (run ops events m).original_leaves ≡ find_leaf n m.original_leaves
  keeps_originals n [] m h = refl
  keeps_originals n (e ∷ events) m h =
      keeps_originals n events (process_event ops e m) h.1 ∙ keeps_original n e m h.0

  module _ (laws : IsTree ops) where
    -- A challenge restores the leaf that the note was deposited with, whatever other events came
    -- since, closing and escaping the note included.
    pub challenge_restores :
        (n : ℕ) (commitment : Felt252) (amount expiry_ts : ℕ)
        (new_root nullifier restored_root : Felt252) (events : List VaultEvent) (m : TreeMirror T)
        → AllSpareDeposit n events
        → get_leaf n
            (process_event ops (escape_withdrawal_challenged n nullifier restored_root) (
              run ops events
                (process_event ops (note_deposited n commitment amount expiry_ts new_root) m))).tree
          ≡ compute_note_leaf n commitment amount expiry_ts
    unfolding process_event
    challenge_restores n commitment amount expiry_ts new_root nullifier restored_root events m h =
        let leaf = compute_note_leaf n commitment amount expiry_ts in
        let deposited =
          process_event ops (note_deposited n commitment amount expiry_ts new_root) m in
        let kept : find_leaf n (run ops events deposited).original_leaves ≡ some leaf =
          keeps_originals n events deposited h
          ∙ ground (arith, find_leaf-insert_leaf n n leaf m.original_leaves) in
        rw (kept, process_event)
          (ground (arith, laws.get-set n n leaf (run ops events deposited).tree))

    -- At the index `i`: a leaf that is set and an original leaf lie below `next_note_id`.
    abbrev pub IsCovered : ℕ → TreeMirror T → Type 0
    IsCovered i m =
        ((get_leaf i m.tree ≡ zero_felt) ⊎ (i < m.next_note_id))
        × ((find_leaf i m.original_leaves ≡ none) ⊎ (i < m.next_note_id))

    zeroed-IsCovered : (i n : ℕ) (m : TreeMirror T) → IsCovered i m → IsCovered i (zeroed ops n m)
    zeroed-IsCovered i n m h = ground (arith, laws.get-set i n zero_felt m.tree)

    pub process_event-IsCovered :
        (i : ℕ) (e : VaultEvent) (m : TreeMirror T)
        → IsSmall e
        → IsCovered i m
        → IsCovered i (process_event ops e m)
    unfolding process_event
    process_event-IsCovered i (note_deposited n commitment amount expiry_ts new_root) m s h =
        ground (
          arith,
          laws.get-set i n (compute_note_leaf n commitment amount expiry_ts) m.tree,
          find_leaf-insert_leaf i n (compute_note_leaf n commitment amount expiry_ts)
              m.original_leaves,
        )
    process_event-IsCovered i (mutual_close n nullifier final_balance) m s h =
        zeroed-IsCovered i n m h
    process_event-IsCovered i
          (escape_withdrawal_initiated n nullifier final_balance deadline new_root) m s h =
        zeroed-IsCovered i n m h
    process_event-IsCovered i (escape_withdrawal_challenged n nullifier restored_root) m s h =
        elim (Option-cases (find_leaf n m.original_leaves)) [
          | inl e ↦ rw (e, process_event) h
          | inr (original, e) ↦ rw (e, process_event) (restored-IsCovered n original e)
        ]
      where
        restored-IsCovered :
            (n : ℕ) (original : Felt252)
            → find_leaf n m.original_leaves ≡ some original
            → IsCovered i (record m { tree = set_leaf n original m.tree })
        restored-IsCovered n original e = ground (arith, laws.get-set i n original m.tree)
    process_event-IsCovered i (escape_withdrawal_finalized n nullifier final_balance) m s h = h
    process_event-IsCovered i (expired_claimed n deposit_amount new_root) m s h =
        zeroed-IsCovered i n m h

    run-IsCovered :
        (i : ℕ) (events : List VaultEvent) (m : TreeMirror T)
        → AllSmall events
        → IsCovered i m
        → IsCovered i (run ops events m)
    run-IsCovered i [] m s h = h
    run-IsCovered i (e ∷ events) m s h =
        run-IsCovered i events (process_event ops e m) s.1 (process_event-IsCovered i e m s.0 h)

    -- The leaves that the snapshot lists, those below `next_note_id`, are all that are set, if no
    -- deposit has the last u32 as its id.
    pub beyond_next_is_zero :
        (events : List VaultEvent) (i : ℕ)
        → AllSmall events
        → (run ops events (new ops)).next_note_id ≤ i
        → get_leaf i (run ops events (new ops)).tree ≡ zero_felt
    unfolding find_leaf
    beyond_next_is_zero events i s h =
        let covered = run-IsCovered i events (new ops) s (inl (laws.get-empty i), inl refl) in
        ground (arith, covered)
