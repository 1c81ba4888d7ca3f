-- ===== src/Server/Error.antt =====
-- zkapi-serverd/src/error.rs. A message that the source formats keeps its fixed text alone.
use zkapi_ef_collab.Base.{ℕ, String, Bool, true, false, ◌≡◌, refl, ◌⊎◌, inl, inr}

pub data ServerError : Type 0 where
  invalid_proof : String → ServerError
  stale_root : String → ServerError
  replay : ServerError
  note_expired : ServerError
  internal : String → ServerError
  capacity_exhausted : ServerError
  nullifier_used : ServerError
  database : String → ServerError
  invalid_request : String → ServerError
  protocol_mismatch : String → ServerError
  lease_pending : ServerError
  lease_settlement_pending : ℕ → ServerError
  oa_rate_limited : String → ℕ → ServerError

pub error_code : ServerError → String
error_code (invalid_proof _) = "invalid_proof"
error_code (stale_root _) = "stale_root"
error_code replay = "replay"
error_code note_expired = "note_expired"
error_code (internal _) = "internal_error"
error_code capacity_exhausted = "capacity_exhausted"
error_code nullifier_used = "nullifier_used"
error_code (database _) = "database_error"
error_code (invalid_request _) = "invalid_request"
error_code (protocol_mismatch _) = "protocol_mismatch"
error_code lease_pending = "lease_pending"
error_code (lease_settlement_pending _) = "lease_settlement_pending"
error_code (oa_rate_limited reason _) = reason

unfoldable pub is_retriable : ServerError → Bool
is_retriable (stale_root _) = true
is_retriable (internal _) = true
is_retriable (database _) = true
is_retriable (invalid_proof _) = false
is_retriable replay = false
is_retriable note_expired = false
is_retriable capacity_exhausted = false
is_retriable nullifier_used = false
is_retriable (invalid_request _) = false
is_retriable (protocol_mismatch _) = false
is_retriable lease_pending = true
is_retriable (lease_settlement_pending _) = true
is_retriable (oa_rate_limited _ _) = true

-- `Result<T, ServerError>`, and the `?` of a pure computation.
pub data Result {ℓ} (A : Type ℓ) : Type ℓ where
  ok : A → Result A
  err : ServerError → Result A

pub Result-cases {ℓ} :
    {A : Type ℓ} (r : Result A) → ((e : ServerError) × (r ≡ err e)) ⊎ ((a : A) × (r ≡ ok a))
Result-cases (ok a) = inr (a, refl)
Result-cases (err e) = inl (e, refl)
