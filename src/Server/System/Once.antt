-- ===== src/Server/System/Once.antt =====
-- A nullifier is finalized at most once, however the calls overlap.

use text.Mathlib.TextEquality.{eq_iff}
use zkapi_ef_collab.Base.{ℕ, String, some, string_eq, nat_eq, arith, ◌≡◌, ◌≢◌}
use zkapi_ef_collab.Server.Wire.{Felt252}
use zkapi_ef_collab.Server.External.{Codec}
use zkapi_ef_collab.Server.Error.{ok, err, internal}
use zkapi_ef_collab.Server.Store.{Row, Store, TranscriptRecord}
use zkapi_ef_collab.Server.Store.Nullifiers.{finalize, finalized_row}
use zkapi_ef_collab.Server.Store.Rows.{row_at, IsUnique}
use zkapi_ef_collab.Server.Store.Effects.{
  finalize_ok, finalize_settled, row_at-archived_self, archived-IsUnique,
}
use zkapi_ef_collab.Server.System.Steps.{Reach}
use zkapi_ef_collab.Server.System.Spending.{Reach-IsUnique, Reach-keeps_final}

finalized_ne_reserved : ◌≢◌ {A = String} "Finalized" "Reserved"
finalized_ne_reserved = ground (arith, eq_iff "Finalized" "Reserved")

module _ {Sig : Type 0} (codec : Codec Sig) where
  -- Of two transcripts for one nullifier only the first is archived, whatever happens in between;
  -- it stays in the store as it is. The store had one row for each nullifier.
  pub finalize_once :
      (n : Felt252) (first second : TranscriptRecord Sig) (now now' : ℕ) (s t u : Store)
      → IsUnique s.nullifiers
      → finalize codec n first now s ≡ (ok tt, t)
      → Reach codec t u
      → (finalize codec n second now' u
          ≡ (err (internal "nullifier not in Reserved state or does not exist"), u))
        × (row : Row) × (row_at (codec.to_hex n) s.nullifiers ≡ some row)
        × (row_at (codec.to_hex n) u.nullifiers ≡ some (finalized_row codec first now row))
  finalize_once n first second now now' s t u unique h reach =
      let (row, found, was, stored) = finalize_ok codec n first now s unique h in
      let unique_t : IsUnique t.nullifiers =
        rw stored (archived-IsUnique codec n first now s unique) in
      let kept =
        Reach-keeps_final (codec.to_hex n) (finalized_row codec first now row)
          (rw stored (row_at-archived_self codec n first now s row found was)) finalized_ne_reserved
          reach in
      (
        finalize_settled codec n second now' u _ (Reach-IsUnique unique_t reach) kept
            finalized_ne_reserved,
        row,
        found,
        kept,
      )
