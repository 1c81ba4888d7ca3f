-- ===== src/Indexer/Again.antt =====
-- Events that the mirror of zkapi-indexerd/src/tree_mirror.rs applies a second time change nothing.

use zkapi_ef_collab.Base.{
  ℕ, subst, List, [], ◌∷◌, ◌++◌, Option, none, some, true, ◌==◌, nat_eq, if◌then◌else◌, ◌≡◌, refl,
  arith, Option-cases, Bool-cases, inl, inr, ap, sym, ◌∙◌,
}
use zkapi_ef_collab.Server.Wire.{Felt252, zero_felt}
use zkapi_ef_collab.Indexer.Events.{
  VaultEvent, note_deposited, mutual_close, escape_withdrawal_initiated,
  escape_withdrawal_challenged, escape_withdrawal_finalized, expired_claimed,
}
use zkapi_ef_collab.Indexer.Mirror.{
  TreeOps, IsTree, TreeMirror, find_leaf, larger, next_id, process_event, run, zeroed,
}
use zkapi_ef_collab.Indexer.Restore.{find_leaf-insert_leaf}
use zkapi_ef_collab.Indexer.Effect.{
  Slot, Effect, keep, set, restored, pair_eq, apply, then_clear, then_restore, apply-then_clear,
  apply-then_restore, apply_twice,
}

module _ {T : Type 0} (ops : TreeOps T) where
  open ops use {get_leaf, set_leaf, compute_note_leaf}

  abbrev pub slot : ℕ → TreeMirror T → Slot
  slot i m = (get_leaf i m.tree, find_leaf i m.original_leaves)

  -- The effect at the index `i` of an event after those of an effect.
  effect_after : ℕ → Effect → VaultEvent → Effect
  effect_after i f (note_deposited n commitment amount expiry_ts new_root) =
      let leaf = compute_note_leaf n commitment amount expiry_ts in
      if n == i then set leaf leaf else f
  effect_after i f (mutual_close n nullifier final_balance) = if n == i then then_clear f else f
  effect_after i f (escape_withdrawal_initiated n nullifier final_balance deadline new_root) =
      if n == i then then_clear f else f
  effect_after i f (escape_withdrawal_challenged n nullifier restored_root) =
      if n == i then then_restore f else f
  effect_after i f (escape_withdrawal_finalized n nullifier final_balance) = f
  effect_after i f (expired_claimed n deposit_amount new_root) = if n == i then then_clear f else f

  effect_of : ℕ → Effect → List VaultEvent → Effect
  effect_of i f [] = f
  effect_of i f (e ∷ events) = effect_of i (effect_after i f e) events

  -- The bound on `next_note_id` that the deposits among the events set.
  next_after : ℕ → VaultEvent → ℕ
  next_after next (note_deposited n commitment amount expiry_ts new_root) = larger next (next_id n)
  next_after next _ = next

  next_of : ℕ → List VaultEvent → ℕ
  next_of next [] = next
  next_of next (e ∷ events) = next_of (next_after next e) events

  next-process_event :
      (e : VaultEvent) (m : TreeMirror T)
      → (process_event ops e m).next_note_id ≡ next_after m.next_note_id e
  unfolding process_event next_after
  next-process_event (note_deposited n commitment amount expiry_ts new_root) m = refl
  next-process_event (mutual_close n nullifier final_balance) m = refl
  next-process_event (escape_withdrawal_initiated n nullifier final_balance deadline new_root) m =
      refl
  next-process_event (escape_withdrawal_challenged n nullifier restored_root) m =
      elim (Option-cases (find_leaf n m.original_leaves)) [
        | inl e ↦ rw (e, process_event) refl
        | inr (original, e) ↦ rw (e, process_event) refl
      ]
  next-process_event (escape_withdrawal_finalized n nullifier final_balance) m = refl
  next-process_event (expired_claimed n deposit_amount new_root) m = refl

  next-run :
      (events : List VaultEvent) (m : TreeMirror T)
      → (run ops events m).next_note_id ≡ next_of m.next_note_id events
  unfolding next_of
  next-run [] m = refl
  next-run (e ∷ events) m =
      next-run events (process_event ops e m) ∙ ap (λ n. next_of n events) (next-process_event e m)

  next_after-larger : (next : ℕ) (e : VaultEvent) → next_after next e ≡ larger next (next_after 0 e)
  unfolding next_after
  next_after-larger next (note_deposited n commitment amount expiry_ts new_root) = ground arith
  next_after-larger next (mutual_close n nullifier final_balance) = ground arith
  next_after-larger next (escape_withdrawal_initiated n nullifier final_balance deadline new_root) =
      ground arith
  next_after-larger next (escape_withdrawal_challenged n nullifier restored_root) = ground arith
  next_after-larger next (escape_withdrawal_finalized n nullifier final_balance) = ground arith
  next_after-larger next (expired_claimed n deposit_amount new_root) = ground arith

  next_of-larger :
      (next : ℕ) (events : List VaultEvent) → next_of next events ≡ larger next (next_of 0 events)
  unfolding next_of
  next_of-larger next [] = ground arith
  next_of-larger next (e ∷ events) = ground (
    arith,
    next_of-larger (next_after next e) events,
    next_of-larger (next_after 0 e) events,
    next_after-larger next e,
  )

  next-run_again :
      (p q : List VaultEvent) (m : TreeMirror T)
      → (run ops q (run ops p (run ops p m))).next_note_id ≡ (run ops q (run ops p m)).next_note_id
  next-run_again p q m = ground (
    arith,
    next-run q (run ops p (run ops p m)),
    next-run q (run ops p m),
    next-run p (run ops p m),
    next-run p m,
    next_of-larger (run ops p m).next_note_id p,
    next_of-larger m.next_note_id p,
  )

  -- The same `next_note_id`, and the same leaf and original leaf at every index.
  abbrev pub Agrees : TreeMirror T → TreeMirror T → Type 0
  Agrees a b = (a.next_note_id ≡ b.next_note_id) × ((i : ℕ) → slot i a ≡ slot i b)

  pub run-append :
      (p q : List VaultEvent) (m : TreeMirror T) → run ops (p ++ q) m ≡ run ops q (run ops p m)
  run-append [] q m = refl
  run-append (e ∷ p) q m = run-append p q (process_event ops e m)

  module _ (laws : IsTree ops) where
    -- The slot after the leaf at `n` is set.
    slot-set_leaf :
        (i n : ℕ) (v : Felt252) (m : TreeMirror T)
        → slot i (record m { tree = set_leaf n v m.tree })
          ≡ (if n == i then (v, (slot i m).1) else slot i m)
    slot-set_leaf i n v m = elim (Bool-cases (n == i)) [
      | inl e ↦
          rw e
            (ap (λ l. (l, find_leaf i m.original_leaves)) (laws.get-set i n v m.tree ∙ rw e refl))
      | inr e ↦
          rw e
            (ap (λ l. (l, find_leaf i m.original_leaves)) (laws.get-set i n v m.tree ∙ rw e refl))
    ]

    slot-zeroed :
        (i n : ℕ) (m : TreeMirror T) (f : Effect) (s : Slot)
        → slot i m ≡ apply f s
        → slot i (zeroed ops n m) ≡ apply (if n == i then then_clear f else f) s
    slot-zeroed i n m f s h = slot-set_leaf i n zero_felt m ∙ elim (Bool-cases (n == i)) [
      | inl e ↦ rw e (ap (λ p. (zero_felt, p.1)) h ∙ sym (apply-then_clear f s))
      | inr e ↦ rw e h
    ]

    slot-restored :
        (i n : ℕ) (nullifier restored_root : Felt252) (m : TreeMirror T) (f : Effect) (s : Slot)
        → slot i m ≡ apply f s
        → slot i (process_event ops (escape_withdrawal_challenged n nullifier restored_root) m)
          ≡ apply (if n == i then then_restore f else f) s
    unfolding process_event
    slot-restored i n nullifier restored_root m f s h =
        elim (Option-cases (find_leaf n m.original_leaves)) [
          | inl none_kept ↦
              rw (none_kept, process_event)
                (elim (Bool-cases (n == i)) [
                  | inl e ↦ rw e (
                      pair_eq (sym (ap (restored (get_leaf i m.tree)) (kept_at e none none_kept)))
                        refl
                      ∙ known)
                  | inr e ↦ rw e h
                ])
          | inr (original, kept) ↦
              rw (kept, process_event)
                (slot-set_leaf i n original m ∙ elim (Bool-cases (n == i)) [
                  | inl e ↦ rw e (
                      pair_eq
                        (sym (ap (restored (get_leaf i m.tree)) (kept_at e (some original) kept)))
                        refl
                      ∙ known)
                  | inr e ↦ rw e h
                ])
        ]
      where
        known :
            ◌≡◌ {A = Slot}
              (
                restored (get_leaf i m.tree) (find_leaf i m.original_leaves),
                find_leaf i m.original_leaves,
              )
              (apply (then_restore f) s)
        known = ap (λ (p : Slot). (restored p.0 p.1, p.1)) h ∙ sym (apply-then_restore f s)

        kept_at :
            (n == i) ≡ true
            → (o : Option Felt252) → find_leaf n m.original_leaves ≡ o
            → find_leaf i m.original_leaves ≡ o
        kept_at e o kept = ap (λ k. find_leaf k m.original_leaves) (ground arith) ∙ kept

    slot-process_event :
        (i : ℕ) (e : VaultEvent) (m : TreeMirror T) (f : Effect) (s : Slot)
        → slot i m ≡ apply f s
        → slot i (process_event ops e m) ≡ apply (effect_after i f e) s
    unfolding process_event effect_after apply
    slot-process_event i (note_deposited n commitment amount expiry_ts new_root) m f s h =
        let leaf = compute_note_leaf n commitment amount expiry_ts in
        elim (Bool-cases (n == i)) [
          | inl e ↦
              rw (process_event, e)
                (pair_eq (laws.get-set i n leaf m.tree ∙ rw e refl)
                  (find_leaf-insert_leaf i n leaf m.original_leaves ∙ rw e refl))
          | inr e ↦
              rw (process_event, e)
                (pair_eq (laws.get-set i n leaf m.tree ∙ rw e refl)
                    (find_leaf-insert_leaf i n leaf m.original_leaves ∙ rw e refl)
                  ∙ h)
        ]
    slot-process_event i (mutual_close n nullifier final_balance) m f s h = slot-zeroed i n m f s h
    slot-process_event i (escape_withdrawal_initiated n nullifier final_balance deadline new_root) m
          f s h =
        slot-zeroed i n m f s h
    slot-process_event i (escape_withdrawal_challenged n nullifier restored_root) m f s h =
        slot-restored i n nullifier restored_root m f s h
    slot-process_event i (escape_withdrawal_finalized n nullifier final_balance) m f s h = h
    slot-process_event i (expired_claimed n deposit_amount new_root) m f s h =
        slot-zeroed i n m f s h

    slot-run :
        (i : ℕ) (events : List VaultEvent) (m : TreeMirror T) (f : Effect) (s : Slot)
        → slot i m ≡ apply f s
        → slot i (run ops events m) ≡ apply (effect_of i f events) s
    unfolding effect_of
    slot-run i [] m f s h = h
    slot-run i (e ∷ events) m f s h =
        slot-run i events (process_event ops e m) (effect_after i f e) s
          (slot-process_event i e m f s h)

    slot-run_again :
        (p q : List VaultEvent) (m : TreeMirror T) (i : ℕ)
        → slot i (run ops q (run ops p (run ops p m))) ≡ slot i (run ops q (run ops p m))
    unfolding apply effect_of
    slot-run_again p q m i =
        slot-run i q (run ops p (run ops p m)) keep (slot i (run ops p (run ops p m))) refl
        ∙ ap (apply (effect_of i keep q)) (
            slot-run i p (run ops p m) keep (slot i (run ops p m)) refl
            ∙ ap (apply (effect_of i keep p)) (slot-run i p m keep (slot i m) refl)
            ∙ apply_twice (effect_of i keep p) (slot i m)
            ∙ sym (slot-run i p m keep (slot i m) refl))
        ∙ sym (slot-run i q (run ops p m) keep (slot i (run ops p m)) refl)

    -- Events that are applied again, with more after them, leave what they leave when they are
    -- applied once.
    pub run_again :
        (p q : List VaultEvent) (m : TreeMirror T)
        → Agrees (run ops (p ++ q) (run ops p m)) (run ops (p ++ q) m)
    run_again p q m =
        subst (λ a. Agrees a (run ops (p ++ q) m)) (sym (run-append p q (run ops p m)))
          (subst (Agrees (run ops q (run ops p (run ops p m)))) (sym (run-append p q m))
            (next-run_again p q m, slot-run_again p q m))
