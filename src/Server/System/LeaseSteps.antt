-- ===== src/Server/System/LeaseSteps.antt =====
-- The lease endpoints and the background settlement are made of the store's statements.

use zkapi_ef_collab.Base.{
  ℕ, String, List, [], ◌∷◌, ◌==◌, string_eq, nat_eq, ltb, refl, inl, inr, Option-cases, Bool-cases,
}
use zkapi_ef_collab.Server.Error.{Result, ok, err, ServerError, Result-cases}
use zkapi_ef_collab.Server.Store.{Store, LeaseRecord}
use zkapi_ef_collab.Server.Store.Leases.{
  due_openrouter_leases, record_openrouter_lease_error, finalize_openrouter_lease,
}
use zkapi_ef_collab.Server.Processor.{ProviderResponse}
use zkapi_ef_collab.Server.Processor.Finalize.{finalize_request}
use zkapi_ef_collab.Server.Lease.{LeaseServer, Provisioner, OaUsage, pending, final}
use zkapi_ef_collab.Server.Lease.Settle.{
  SettleInputs, settled_transcript, settle_with, settle_openrouter_usage, settle_openrouter_lease,
  settle_receipt, oa_usage, settle_oa_org_lease, settle_lease, settle_due_openrouter_leases,
  settle_each, after_settling,
}
use zkapi_ef_collab.Server.System.Steps.{
  on_leases, Reach, here, then_step, Reach-trans, one, finalize_request-Reach,
}

module _ {Sig : Type 0} (server : LeaseServer Sig) where
  open server use {processor, openrouter, oa_org, floats, json}
  open processor use {config, codec}

  lease_finalized :
      (client : String) (usage charge now : ℕ) (s : Store)
      → Reach codec s (finalize_openrouter_lease client usage charge now s).1
  unfolding finalize_openrouter_lease
  lease_finalized client usage charge now s = one (on_leases s _ refl)

  settle_with-Reach :
      (lease : LeaseRecord) (reply : ProviderResponse) (usage_usd : ℕ) (inputs : SettleInputs)
      (s : Store)
      → Reach codec s (settle_with server lease reply usage_usd inputs s).1
  unfolding settle_with
  settle_with-Reach lease reply usage_usd inputs s =
      let first =
        finalize_request-Reach processor lease.api_request reply inputs.draws inputs.finalized_at
          s in
      elim (Result-cases
        (finalize_request processor lease.api_request reply inputs.draws inputs.finalized_at s).0) [
          | inl (e, h) ↦ rw (h, settle_with) first
          | inr (response, h) ↦
              rw (h, settle_with)
                (Reach-trans first (
                  lease_finalized lease.client_request_id usage_usd reply.charge_applied
                    inputs.updated_at _))
        ]

  openrouter_usage-Reach :
      (lease : LeaseRecord) (provisioner : Provisioner) (inputs : SettleInputs) (s : Store)
      → Reach codec s (settle_openrouter_usage server lease provisioner inputs s).1
  unfolding settle_openrouter_usage
  openrouter_usage-Reach lease provisioner inputs s = elim (Option-cases lease.key_hash) [
    | inl k ↦ rw (k, settle_openrouter_usage) here
    | inr (key, k) ↦ elim (Result-cases (provisioner.get_key_usage key)) [
      | inl (e, h) ↦ rw (k, h, settle_openrouter_usage) here
      | inr (usage, h) ↦
          rw (k, h, settle_openrouter_usage) (settle_with-Reach lease _ usage inputs s)
    ]
  ]

  settle_openrouter_lease-Reach :
      (lease : LeaseRecord) (provisioner : Provisioner) (inputs : SettleInputs) (s : Store)
      → Reach codec s (settle_openrouter_lease server lease provisioner inputs s).1
  unfolding settle_openrouter_lease
  settle_openrouter_lease-Reach lease provisioner inputs s =
      elim (Option-cases (settled_transcript server lease s)) [
        | inl e ↦
            rw (e, settle_openrouter_lease) (openrouter_usage-Reach lease provisioner inputs s)
        | inr (r, e) ↦
            rw (e, settle_openrouter_lease)
              (lease_finalized lease.client_request_id _ _ inputs.updated_at s)
      ]

  settle_receipt-Reach :
      (lease : LeaseRecord) (usage : OaUsage) (inputs : SettleInputs) (s : Store)
      → Reach codec s (settle_receipt server lease usage inputs s).1
  unfolding settle_receipt
  settle_receipt-Reach lease (pending retry) inputs s = here
  settle_receipt-Reach lease (final receipt) inputs s =
      elim (Bool-cases (ltb receipt.closed_at lease.issued_at)) [
        | inl e ↦ rw e here
        | inr e ↦ rw e (settle_with-Reach lease _ _ inputs s)
      ]

  settle_oa_org_lease-Reach :
      (lease : LeaseRecord) (inputs : SettleInputs) (s : Store)
      → Reach codec s (settle_oa_org_lease server lease inputs s).1
  unfolding settle_oa_org_lease
  settle_oa_org_lease-Reach lease inputs s =
      elim (Option-cases (settled_transcript server lease s)) [
        | inr (r, e) ↦
            rw (e, settle_oa_org_lease)
              (lease_finalized lease.client_request_id _ _ inputs.updated_at s)
        | inl e ↦ elim (Result-cases (oa_usage server lease)) [
          | inl (x, h) ↦ rw (e, h, settle_oa_org_lease) here
          | inr (usage, h) ↦
              rw (e, h, settle_oa_org_lease) (settle_receipt-Reach lease usage inputs s)
        ]
      ]

  pub settle_lease-Reach :
      (lease : LeaseRecord) (inputs : SettleInputs) (s : Store)
      → Reach codec s (settle_lease server lease inputs s).1
  unfolding settle_lease
  settle_lease-Reach lease inputs s = elim (Bool-cases (lease.key_source == "openrouter")) [
    | inl a ↦ elim (Option-cases openrouter) [
      | inl e ↦ rw (a, e, settle_lease) here
      | inr (provisioner, e) ↦
          rw (a, e, settle_lease) (settle_openrouter_lease-Reach lease provisioner inputs s)
    ]
    | inr a ↦ elim (Bool-cases (lease.key_source == "oa_org")) [
      | inl b ↦ rw (a, b, settle_lease) (settle_oa_org_lease-Reach lease inputs s)
      | inr b ↦ rw (a, b, settle_lease) here
    ]
  ]

  after-Reach :
      (lease : LeaseRecord) (show : ServerError → String) (now : ℕ) (s : Store)
      (r : Result (Unit {0}) × Store)
      → Reach codec s r.1
      → Reach codec s (after_settling server lease show now r)
  unfolding record_openrouter_lease_error
  after-Reach lease show now s (ok u, t) reach = reach
  after-Reach lease show now s (err e, t) reach = then_step reach (on_leases t _ refl)

  each-Reach :
      (show : ServerError → String) (inputs : LeaseRecord → SettleInputs) (at : LeaseRecord → ℕ)
      (leases : List LeaseRecord) (s : Store)
      → Reach codec s (settle_each server show inputs at leases s)
  unfolding settle_each
  each-Reach show inputs at [] s = here
  each-Reach show inputs at (lease ∷ leases) s =
      Reach-trans
        (after-Reach lease show (at lease) s (settle_lease server lease (inputs lease) s)
          (settle_lease-Reach lease (inputs lease) s))
        (each-Reach show inputs at leases _)

  -- The background settlement is a sequence of the store's statements, whatever the upstreams
  -- answer and however many leases are due.
  pub settle_due-Reach :
      (show : ServerError → String) (inputs : LeaseRecord → SettleInputs) (at : LeaseRecord → ℕ)
      (now : ℕ) (s : Store)
      → Reach codec s (settle_due_openrouter_leases server show inputs at now s)
  unfolding settle_due_openrouter_leases
  settle_due-Reach show inputs at now s =
      each-Reach show inputs at (due_openrouter_leases codec now s) s
