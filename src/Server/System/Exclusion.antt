-- ===== src/Server/System/Exclusion.antt =====
-- A nullifier is spent once or cleared, never both, however the calls overlap.

use mathlib.Core.Option.{some-injective}
use text.Mathlib.TextEquality.{eq_iff}
use zkapi_ef_collab.Base.{
  ℕ, String, none, some, ◌!=◌, string_eq, nat_eq, arith, ◌≡◌, refl, ◌⊎◌, inl, inr, ◌≢◌, sym, ◌∙◌,
  ap, subst, Option-cases, Bool-cases,
}
use zkapi_ef_collab.Server.Wire.{
  Felt252, ApiRequest, RequestResponse, ClearanceRequest, ClearanceResponse,
}
use zkapi_ef_collab.Server.Error.{
  Result, ok, err, ServerError, Result-cases, nullifier_used, replay, invalid_request,
  protocol_mismatch,
}
use zkapi_ef_collab.Server.Store.{
  Row, Store, row_to_record, str_to_status, clearance_reserved, NullifierStatus,
}
use zkapi_ef_collab.Server.Store.Nullifiers.{
  api_request_binding, reserve_clearance, lookup_by_nullifier, null_row,
}
use zkapi_ef_collab.Server.Store.Rows.{row_at, IsUnique}
use zkapi_ef_collab.Server.Store.Effects.{insert_ok, row_at-insert_self}
use zkapi_ef_collab.Server.Store.Advance.{SameReservation}
use zkapi_ef_collab.Server.Processor.{Processor, ProviderResponse, ReservationKind}
use zkapi_ef_collab.Server.Processor.Validate.{
  validate_and_reserve, resume_or_reserve, same_request, bound_to_deployment,
}
use zkapi_ef_collab.Server.Processor.Finalize.{
  Draws, finalize_request, process_clearance, clear_known, clearance_response, answered,
}
use zkapi_ef_collab.Server.Processor.Admission.{key_of, resume_known}
use zkapi_ef_collab.Server.Processor.Archive.{finalize_request_ok, answered_ok}
use zkapi_ef_collab.Server.Processor.Failure.{finalize_request_err}
use zkapi_ef_collab.Server.System.Steps.{Reach, process_clearance-Reach}
use zkapi_ef_collab.Server.System.Spending.{Reach-IsUnique, Reach-keeps_final, Reach-Spent, Spent}

cleared_ne_reserved : ◌≢◌ {A = String} "ClearanceReserved" "Reserved"
cleared_ne_reserved = ground (arith, eq_iff "ClearanceReserved" "Reserved")

module _ {Sig : Type 0} (p : Processor Sig) where
  open p use {codec}

  -- Under the row of a clearance the request endpoints answer Replay.
  resume_cleared :
      (request : ApiRequest) (kind : ReservationKind) (now created_at : ℕ) (s : Store)
      (binding : String) (row : Row)
      → row_at (key_of p request kind) s.nullifiers ≡ some row
      → row.status ≡ "ClearanceReserved"
      → resume_or_reserve p request kind now created_at binding s ≡ (err replay, s)
  unfolding string_eq
  resume_cleared request kind now created_at s binding row e c =
      resume_known p request kind now created_at s s binding row e
      ∙ elim (Bool-cases (same_request p request kind binding (row_to_record codec row))) [
        | inl same ↦ simp (same, c)
        | inr other ↦ rw other
      ]

  validate_cleared :
      (request : ApiRequest) (kind : ReservationKind) (now created_at : ℕ) (s : Store) (row : Row)
      → row_at (key_of p request kind) s.nullifiers ≡ some row
      → row.status ≡ "ClearanceReserved"
      → (e : ServerError) × (validate_and_reserve p request kind now created_at s ≡ (err e, s))
  unfolding validate_and_reserve
  validate_cleared request kind now created_at s row e c =
      elim (Bool-cases (p.crypto.canonical_payload_hash request.payload != request.payload_hash)) [
        | inl a ↦ (invalid_request "payload_hash does not match payload bytes", rw a)
        | inr a ↦ elim (Bool-cases (bound_to_deployment p request)) [
          | inr f ↦ (protocol_mismatch "version, chain, or contract mismatch", rw (a, f))
          | inl f ↦ elim (Result-cases (api_request_binding codec request)) [
            | inl (x, b) ↦ (x, rw (a, f, b))
            | inr (binding, b) ↦ (
              replay,
              rw (a, f, b) (resume_cleared request kind now created_at s binding row e c),
            )
          ]
        ]
      ]

  SameReservation-refl : (r : Row) → SameReservation r r
  SameReservation-refl r = record {
    same_kind = refl;
    same_client = refl;
    same_payload = refl;
    same_binding = refl;
    same_creation = refl;
  }

  str_to_status-clearance :
      (str : String) → str_to_status str ≡ clearance_reserved → str ≡ "ClearanceReserved"
  str_to_status-clearance str h = ground arith

  clear_known_ok :
      (status : NullifierStatus) (n : Felt252) {response : ClearanceResponse Sig}
      → clear_known p status n ≡ ok response
      → status ≡ clearance_reserved
  clear_known_ok clearance_reserved n h = refl
  clear_known_ok _ n h = absurd (cc h)

  spent_status :
      (status : String) (n : Felt252)
      → (status ≡ "Reserved") ⊎ (status ≡ "Finalized")
      → clear_known p (str_to_status status) n ≡ err nullifier_used
  unfolding string_eq
  spent_status status n (inl e) = rw e refl
  spent_status status n (inr e) = rw e refl

  clearance_new :
      (request : ClearanceRequest) (now : ℕ) (s : Store)
      → row_at (codec.to_hex request.withdrawal_nullifier) s.nullifiers ≡ none
      → process_clearance p request now s
        ≡ answered
            (clearance_response p request.withdrawal_nullifier)
            (reserve_clearance codec request.withdrawal_nullifier now s)
  unfolding process_clearance lookup_by_nullifier
  clearance_new request now s e = rw (e, lookup_by_nullifier, process_clearance)

  clearance_known :
      (request : ClearanceRequest) (now : ℕ) (s : Store) (row : Row)
      → row_at (codec.to_hex request.withdrawal_nullifier) s.nullifiers ≡ some row
      → process_clearance p request now s
        ≡ (clear_known p (str_to_status row.status) request.withdrawal_nullifier, s)
  unfolding process_clearance lookup_by_nullifier row_to_record
  clearance_known request now s row e = rw (e, lookup_by_nullifier, process_clearance)

  -- A clearance is signed only under a row of its own.
  cleared_row :
      (request : ClearanceRequest) (now : ℕ) (s t : Store) (response : ClearanceResponse Sig)
      → process_clearance p request now s ≡ (ok response, t)
      → (row : Row) × (row_at (codec.to_hex request.withdrawal_nullifier) t.nullifiers ≡ some row)
        × (row.status ≡ "ClearanceReserved")
  unfolding reserve_clearance
  cleared_row request now s t response h =
      elim (Option-cases (row_at (codec.to_hex request.withdrawal_nullifier) s.nullifiers)) [
        | inl e ↦
            let row = null_row (codec.to_hex request.withdrawal_nullifier) clearance_reserved now in
            let done = answered_ok _ _ (sym (clearance_new request now s e) ∙ h) in
            let (free, stored) = insert_ok row nullifier_used s done.0 in
            (
              row,
              ap (λ q. row_at row.nullifier q.nullifiers) stored
                  ∙ row_at-insert_self s.nullifiers row free,
              refl,
            )
        | inr (row, e) ↦
            let answer = sym (clearance_known request now s row e) ∙ h in
            (
              row,
              ap (λ q. row_at (codec.to_hex request.withdrawal_nullifier) q.nullifiers)
                    (sym (ap (λ q. q.1) answer))
                  ∙ e,
              str_to_status-clearance row.status (
                  clear_known_ok (str_to_status row.status) request.withdrawal_nullifier
                    (ap (λ q. q.0) answer)),
            )
      ]

  cleared_unfinished :
      (request : ApiRequest) (reply : ProviderResponse) (draws : Draws) (now : ℕ) (u : Store)
      (row : Row)
      → IsUnique u.nullifiers
      → row_at (codec.to_hex request.public_inputs.request_nullifier) u.nullifiers ≡ some row
      → row.status ≡ "ClearanceReserved"
      → (e : ServerError) × (finalize_request p request reply draws now u ≡ (err e, u))
  cleared_unfinished request reply draws now u row unique e c =
      go (finalize_request p request reply draws now u) refl
    where
      go :
          (r : Result (RequestResponse Sig) × Store)
          → finalize_request p request reply draws now u ≡ r
          → (x : ServerError) × (finalize_request p request reply draws now u ≡ (err x, u))
      go (ok answer, v) h =
          let done = finalize_request_ok p request reply draws now u unique h in
          let same = some-injective row done.row (sym e ∙ done.found) in
          absurd (cleared_ne_reserved (sym c ∙ ap (λ r. r.status) same ∙ done.was_reserved))
      go (err x, v) h =
          (x, h ∙ ap (λ q. (err x, q)) (finalize_request_err p request reply draws now u v x h))

  -- What a signed clearance leaves in the store, however it came by.
  clearance_stays :
      (cleared : ClearanceRequest) (now : ℕ) (s t u : Store) (response : ClearanceResponse Sig)
      → IsUnique s.nullifiers
      → process_clearance p cleared now s ≡ (ok response, t)
      → Reach codec t u
      → IsUnique u.nullifiers
        × (row : Row) × (row_at (codec.to_hex cleared.withdrawal_nullifier) u.nullifiers ≡ some row)
        × (row.status ≡ "ClearanceReserved")
  clearance_stays cleared now s t u response unique h reach =
      let (row, e, c) = cleared_row cleared now s t response h in
      let started = subst (λ q. Reach codec s q.1) h (process_clearance-Reach p cleared now s) in
      (
        Reach-IsUnique (Reach-IsUnique unique started) reach,
        row,
        Reach-keeps_final (codec.to_hex cleared.withdrawal_nullifier) row e
            (λ r. cleared_ne_reserved (sym c ∙ r)) reach,
        c,
      )

  -- Once a clearance is signed for a nullifier, whatever ran in between, every later request under
  -- it is refused by `validate_and_reserve` and by `finalize_request`, and the store stays as it is. The
  -- store had one row for each nullifier.
  pub clearance_excludes_spending :
      (cleared : ClearanceRequest) (request : ApiRequest) (kind : ReservationKind)
      (reply : ProviderResponse) (draws : Draws) (now now' created_at finalized_at : ℕ)
      (s t u : Store) (response : ClearanceResponse Sig)
      → IsUnique s.nullifiers
      → request.public_inputs.request_nullifier ≡ cleared.withdrawal_nullifier
      → process_clearance p cleared now s ≡ (ok response, t)
      → Reach codec t u
      → ((e : ServerError) × (validate_and_reserve p request kind now' created_at u ≡ (err e, u)))
        × ((e : ServerError) × (finalize_request p request reply draws finalized_at u ≡ (err e, u)))
  clearance_excludes_spending cleared request kind reply draws now now' created_at finalized_at s t
        u response unique same h reach =
      let (unique_u, row, e, c) = clearance_stays cleared now s t u response unique h reach in
      let e' = ap (λ n. row_at (codec.to_hex n) u.nullifiers) same ∙ e in
      (
        validate_cleared request kind now' created_at u row e' c,
        cleared_unfinished request reply draws finalized_at u row unique_u e' c,
      )

  clearance_refused :
      (key : String) (r : Row) (cleared : ClearanceRequest) (now : ℕ) (u : Store)
      → codec.to_hex cleared.withdrawal_nullifier ≡ key
      → Spent r (row_at key u.nullifiers)
      → process_clearance p cleared now u ≡ (err nullifier_used, u)
  clearance_refused key r cleared now u k spent = elim (Option-cases (row_at key u.nullifiers)) [
    | inl e ↦ absurd (subst (Spent r) e spent)
    | inr (row, e) ↦
        clearance_known cleared now u row (ap (λ q. row_at q u.nullifiers) k ∙ e)
        ∙ ap (λ a. (a, u))
            (spent_status row.status cleared.withdrawal_nullifier (subst (Spent r) e spent).1)
  ]

  -- Once a nullifier is reserved for a request, finished or not, no clearance is signed for it,
  -- whatever ran in between, and the refusal changes nothing.
  pub spending_excludes_clearance :
      (cleared : ClearanceRequest) (now : ℕ) (s u : Store) (row : Row)
      → row_at (codec.to_hex cleared.withdrawal_nullifier) s.nullifiers ≡ some row
      → (row.status ≡ "Reserved") ⊎ (row.status ≡ "Finalized")
      → Reach codec s u
      → process_clearance p cleared now u ≡ (err nullifier_used, u)
  spending_excludes_clearance cleared now s u row e c reach =
      clearance_refused (codec.to_hex cleared.withdrawal_nullifier) row cleared now u refl (
        Reach-Spent (codec.to_hex cleared.withdrawal_nullifier) row
          (rw e (SameReservation-refl row, c)) reach)
