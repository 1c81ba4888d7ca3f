-- ===== src/Server/Processor/Checks.antt =====
-- What the checks of a new request come to.
use mathlib.Core.Option.{none-ne-some}
use zkapi_ef_collab.Base.{
  ℕ, String, [], ◌∷◌, ◌++◌, none, sym, ◌∙◌, ap, ◌⊎◌, true, nat_eq, arith, ◌≡◌, ◌≤◌, ◌↔◌, inl, inr,
  saturating_add,
}
use zkapi_ef_collab.Server.Wire.{ApiRequest}
use zkapi_ef_collab.Server.External.{success}
use zkapi_ef_collab.Server.Error.{ok, replay}
use zkapi_ef_collab.Server.Processor.Defs.{
  Processor, ReservationKind, state_public_key, max_request_age_seconds, max_future_skew_seconds,
}
use zkapi_ef_collab.Server.Store.{Store}
use zkapi_ef_collab.Server.Store.Nullifiers.{api_request_binding}
use zkapi_ef_collab.Server.Store.Rows.{row_at}
use zkapi_ef_collab.Server.Store.Effects.{insert_free}
use zkapi_ef_collab.Server.Processor.Admission.{
  key_of, row_of, IsResumed, IsInserted, validate_admits, reserve_unknown, reserve_as_eq,
}
use zkapi_ef_collab.Server.Processor.Validate.{
  bound_to_deployment, validate_and_reserve, resume_or_reserve, admitted, check_new, is_stale_time,
  required_solvency,
}

module _ {Sig : Type 0} (p : Processor Sig) (request : ApiRequest) (now : ℕ) where
  open p use {signer, current_root, crypto}

  -- What an admitted request satisfies.
  abbrev pub IsAdmissible : Type 0
  IsAdmissible =
      (request.public_inputs.active_root ≡ current_root)
      × (request.public_inputs.state_signing_key_x ≡ (state_public_key signer).x)
      × (request.public_inputs.state_signing_key_y ≡ (state_public_key signer).y)
      × (now ≤ saturating_add request.public_inputs.request_time max_request_age_seconds)
      × (request.public_inputs.request_time ≤ saturating_add now max_future_skew_seconds)
      × (required_solvency p ≤ request.public_inputs.solvency_bound)
      × (crypto.authorization_tag request.public_inputs.request_nullifier (
            crypto.canonical_request_context request.client_request_id
              (crypto.canonical_payload_hash request.payload))
          ≡ request.public_inputs.authorization_tag)
      × (crypto.verify request.public_inputs request.proof ≡ success true)

  -- A new nullifier passes the checks exactly when the proof is valid for the current root, the
  -- server's key and this request, fresh, and backed by the required solvency.
  pub check_new_iff : (check_new p request now ≡ ok tt) ↔ IsAdmissible
  unfolding check_new is_stale_time
  check_new_iff = (λ h. ground arith, λ h. ground arith)

  -- The checks that come before the lookup.
  abbrev pub IsAddressed : Type 0
  IsAddressed =
      (crypto.canonical_payload_hash request.payload ≡ request.payload_hash)
      × (request.public_inputs.protocol_version ≡ p.config.protocol_version)
      × (request.public_inputs.chain_id ≡ p.config.chain_id)
      × (request.public_inputs.contract_address ≡ p.config.contract_address)

  module _ (kind : ReservationKind) (created_at : ℕ) (s : Store) where
    -- A request under a new nullifier that is let through was meant for this deployment, has passed
    -- every check, and is now the one new row of the store.
    pub validate_new :
        (t : Store)
        → row_at (key_of p request kind) s.nullifiers ≡ none
        → validate_and_reserve p request kind now created_at s ≡ (ok none, t)
        → IsAddressed
          × IsAdmissible
          × (binding : String) × (api_request_binding p.codec request ≡ ok binding)
          × (t ≡ record s {
            nullifiers = s.nullifiers ++ row_of p request kind binding created_at ∷ [];
          })
    unfolding validate_and_reserve bound_to_deployment
    validate_new t e h =
        let (binding, b, how) = validate_admits p request kind now created_at s t h in
        let (free, checked, stored) = inserted binding how in
        (ground arith, check_new_iff.0 checked, binding, b, stored)
      where
        inserted :
            (binding : String)
            → IsResumed p request kind now created_at s t binding
              ⊎ IsInserted p request kind now created_at s t binding
            → IsInserted p request kind now created_at s t binding
        inserted binding (inl (same, row, found, m, r)) = absurd (none-ne-some row (sym e ∙ found))
        inserted binding (inr i) = i

    reserves_new :
        (binding : String)
        → row_at (key_of p request kind) s.nullifiers ≡ none
        → api_request_binding p.codec request ≡ ok binding
        → IsAdmissible
        → resume_or_reserve p request kind now created_at binding s ≡ (
          ok none,
          record s { nullifiers = s.nullifiers ++ row_of p request kind binding created_at ∷ [] },
        )
    reserves_new binding e b admissible =
        reserve_unknown p request kind now created_at s s binding e
        ∙ rw (check_new_iff.1 admissible) (
            ap admitted (
              reserve_as_eq p request kind created_at s binding b
              ∙ insert_free (row_of p request kind binding created_at) replay s e))

    -- A well addressed, admissible request under a new nullifier is always
    -- let through, and reserved.
    pub validate_accepts :
        (binding : String)
        → row_at (key_of p request kind) s.nullifiers ≡ none
        → api_request_binding p.codec request ≡ ok binding
        → IsAddressed
        → IsAdmissible
        → validate_and_reserve p request kind now created_at s ≡ (
          ok none,
          record s { nullifiers = s.nullifiers ++ row_of p request kind binding created_at ∷ [] },
        )
    unfolding validate_and_reserve bound_to_deployment
    validate_accepts binding e b addressed admissible =
        ground (arith, reserves_new binding e b admissible)
