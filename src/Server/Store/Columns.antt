-- ===== src/Server/Store/Columns.antt =====
-- What the INTEGER columns keep of a transcript.

use mathlib.Core.Option.{some-injective}
use zkapi_ef_collab.Base.{
  ℕ, some, ◌≡◌, ◌<◌, ◌≤◌, ◌-◌, ◌⊎◌, ◌↔◌, ap, i64_sign, u128_mod, i64_as_u128-as_i64,
}
use zkapi_ef_collab.Server.External.{Codec}
use zkapi_ef_collab.Server.Store.Defs.{Row, TranscriptRecord, row_to_record}
use zkapi_ef_collab.Server.Store.Nullifiers.{finalized_row}

-- The charge of an archived transcript, a u128, reads back exactly when it is below 2 ^ 63 or within
-- 2 ^ 63 of 2 ^ 128: in between, the column holds another number.
pub charge-row_to_record :
    {Sig : Type 0} (codec : Codec Sig) (transcript : TranscriptRecord Sig) (now charge : ℕ)
    (row : Row)
    → transcript.charge_applied ≡ some charge
    → charge < u128_mod
    → ((row_to_record codec (finalized_row codec transcript now row)).charge_applied ≡ some charge)
      ↔ ((charge < i64_sign) ⊎ (u128_mod - i64_sign ≤ charge))
unfolding row_to_record
charge-row_to_record codec transcript now charge row e h = rw e (
  λ kept. (i64_as_u128-as_i64 charge h).0 (some-injective _ charge kept),
  λ small. ap some ((i64_as_u128-as_i64 charge h).1 small),
)
