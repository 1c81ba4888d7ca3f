-- ===== src/Indexer/Events.antt =====
-- zkapi-indexerd/src/events.rs
use zkapi_ef_collab.Base.{ℕ}
use zkapi_ef_collab.Server.Wire.{Felt252}

-- The fields stand in the source's order: the note's id first.
pub data VaultEvent : Type 0 where
  -- note_id, commitment, amount, expiry_ts, new_root
  note_deposited : ℕ → Felt252 → ℕ → ℕ → Felt252 → VaultEvent
  -- note_id, nullifier, final_balance
  mutual_close : ℕ → Felt252 → ℕ → VaultEvent
  -- note_id, nullifier, final_balance, challenge_deadline, new_root
  escape_withdrawal_initiated : ℕ → Felt252 → ℕ → ℕ → Felt252 → VaultEvent
  -- note_id, nullifier, restored_root
  escape_withdrawal_challenged : ℕ → Felt252 → Felt252 → VaultEvent
  -- note_id, nullifier, final_balance
  escape_withdrawal_finalized : ℕ → Felt252 → ℕ → VaultEvent
  -- note_id, deposit_amount, new_root
  expired_claimed : ℕ → ℕ → Felt252 → VaultEvent
