-- ===== src/Server/Lease/Settle.antt =====
-- Settling, retiring and reading leases (zkapi-serverd/src/processor_v2.rs).
use mathlib.Core.Option
use zkapi_ef_collab.Base.{
  ℕ, String, List, [], ◌∷◌, Option, none, some, ◌||◌, ◌==◌, ◌!=◌, not, string_eq, nat_eq, ltb, leb,
  ◌/◌, ◌%◌, if◌then◌else◌, saturating_add,
}
use zkapi_ef_collab.Server.Error.{
  Result, ok, err, ServerError, internal, invalid_request, lease_pending, lease_settlement_pending,
}
use zkapi_ef_collab.Server.Wire.{ApiRequest}
use zkapi_ef_collab.Server.External.{success, failure}
use zkapi_ef_collab.Server.Store.{
  Store, TranscriptRecord, LeaseRecord, NullifierStatus, finalized, Action,
}
use zkapi_ef_collab.Server.Store.Nullifiers.{lookup_by_nullifier}
use zkapi_ef_collab.Server.Store.Leases.{
  lookup_openrouter_lease, due_openrouter_leases, record_openrouter_lease_error,
  finalize_openrouter_lease,
}
use zkapi_ef_collab.Server.Processor.{ProviderResponse, oa_lease_expiry_safety_seconds}
use zkapi_ef_collab.Server.Processor.Finalize.{Draws, finalize_request}
use zkapi_ef_collab.Server.Lease.Defs.{
  LeaseServer, Provisioner, OaUsage, pending, final, FinalUsage, usd_to_credits, credits_to_usd,
}

-- OpenRouterLeaseStatusResponse
pub record LeaseStatus : Type 0 where
  pub status : String
  pub client_request_id : String
  pub issued_at : ℕ
  pub expires_at : ℕ
  pub settle_after : ℕ
  pub spending_limit_usd : ℕ
  pub usage_usd : Option ℕ
  pub charge_applied : Option ℕ
  pub last_error : Option String

-- The clock readings and draws of one settlement.
pub record SettleInputs : Type 0 where
  pub draws : Draws
  pub finalized_at : ℕ
  pub updated_at : ℕ

abbrev pub status_of : LeaseRecord → LeaseStatus
status_of lease = record {
  status = lease.status;
  client_request_id = lease.client_request_id;
  issued_at = lease.issued_at;
  expires_at = lease.expires_at;
  settle_after = lease.settle_after;
  spending_limit_usd = lease.spending_limit_usd;
  usage_usd = lease.usage_usd;
  charge_applied = lease.charge_applied;
  last_error = lease.last_error;
}

-- The smaller of two charges, `u128::min`.
abbrev pub smaller : ℕ → ℕ → ℕ
smaller a b = if leb a b then a else b

abbrev pub settlement_reply : ℕ → String → ℕ → String → String → ProviderResponse
settlement_reply charge payload usage_usd cost_source billing_label = record {
  status_code = 200;
  payload = payload;
  charge_applied = charge;
  policy_reason_code = none;
  policy_evidence_hash = none;
  usage = some (record {
    prompt_tokens = 0;
    completion_tokens = 0;
    total_tokens = 0;
    cost_usd = usage_usd;
    cost_source = cost_source;
  });
  upstream_model = none;
  billing_label = billing_label;
}

module _ {Sig : Type 0} (server : LeaseServer Sig) where
  open server use {processor, openrouter, oa_org, floats, json}
  open processor use {config, codec}

  abbrev pub if_finalized : NullifierStatus → TranscriptRecord Sig → Option (TranscriptRecord Sig)
  if_finalized finalized r = some r
  if_finalized _ r = none

  -- The transcript of a lease whose nullifier is finalized already.
  unfoldable pub settled_transcript : LeaseRecord → Store → Option (TranscriptRecord Sig)
  unfolding Option.bind
  settled_transcript lease s =
      Option.bind (lookup_by_nullifier codec lease.request_nullifier s)
        (λ r. if_finalized r.status r)

  -- The end of both settlements: finalize the request, then the lease.
  unfoldable pub settle_with : LeaseRecord → ProviderResponse → ℕ → SettleInputs → Action (Unit {0})
  settle_with lease reply usage_usd inputs s =
      let (r, s') =
        finalize_request processor lease.api_request reply inputs.draws inputs.finalized_at s in
      elim r [
        | err e ↦ (err e, s')
        | ok response ↦
            finalize_openrouter_lease lease.client_request_id usage_usd reply.charge_applied
              inputs.updated_at s'
      ]

  unfoldable pub openrouter_reply : LeaseRecord → ℕ → ProviderResponse
  openrouter_reply lease usage_usd =
      settlement_reply
        (smaller (usd_to_credits floats usage_usd) lease.api_request.public_inputs.solvency_bound)
        (json.openrouter_settlement lease usage_usd) usage_usd "openrouter_key_aggregate"
        "direct:openrouter-ephemeral"

  -- A settlement from the upstream's usage.
  unfoldable pub settle_openrouter_usage :
      LeaseRecord → Provisioner → SettleInputs → Action (Unit {0})
  settle_openrouter_usage lease provisioner inputs s = elim lease.key_hash [
    | none ↦ (err (internal "active OpenRouter lease has no key hash"), s)
    | some key_hash ↦ elim (provisioner.get_key_usage key_hash) [
      | err e ↦ (err e, s)
      | ok usage_usd ↦ settle_with lease (openrouter_reply lease usage_usd) usage_usd inputs s
    ]
  ]

  unfoldable pub settle_openrouter_lease :
      LeaseRecord → Provisioner → SettleInputs → Action (Unit {0})
  settle_openrouter_lease lease provisioner inputs s = elim (settled_transcript lease s) [
    | some r ↦
        finalize_openrouter_lease lease.client_request_id
          (Option.get_or (Option.bind r.response_payload json.usage_usd_of) floats.zero)
          (Option.get_or r.charge_applied 0) inputs.updated_at s
    | none ↦ settle_openrouter_usage lease provisioner inputs s
  ]

  unfoldable pub oa_reply : LeaseRecord → FinalUsage → ProviderResponse
  oa_reply lease receipt =
      settlement_reply receipt.usage_credits
        (json.oa_settlement lease receipt (credits_to_usd floats receipt.usage_credits))
        (credits_to_usd floats receipt.usage_credits) "oa_org_signed_usage_receipt"
        "direct:oa-org-ephemeral"

  -- A settlement from the station's receipt.
  unfoldable pub settle_receipt : LeaseRecord → OaUsage → SettleInputs → Action (Unit {0})
  settle_receipt lease (pending retry_after_seconds) inputs s =
      (err (lease_settlement_pending retry_after_seconds), s)
  settle_receipt lease (final receipt) inputs s =
      if ltb receipt.closed_at lease.issued_at
      then (err (internal "OA org usage receipt predates the issued lease"), s)
      else settle_with lease (oa_reply lease receipt) (credits_to_usd floats receipt.usage_credits)
          inputs s

  unfoldable pub oa_usage : LeaseRecord → Result OaUsage
  oa_usage lease = elim lease.key_hash [
    | none ↦ err (internal "active OA org lease has no key hash")
    | some key_hash ↦ elim oa_org [
      | none ↦ err (internal "OA org lease provider is unavailable")
      | some provisioner ↦ elim config.openrouter_leases [
        | none ↦ err (internal "OA org lease configuration is unavailable")
        | some lease_config ↦
            if (lease_config.ttl_seconds == 0) || (lease_config.ttl_seconds % 60 != 0)
            then err (internal "OA org lease duration is not a positive whole number of minutes")
            else provisioner.get_key_usage lease.client_request_id key_hash (record {
              credit_limit_usd = lease.spending_limit_usd;
              duration_minutes = lease_config.ttl_seconds / 60;
              limit_credits = lease.api_request.public_inputs.solvency_bound;
              minimum_expires_at = lease.expires_at;
              maximum_expires_at = saturating_add lease.expires_at oa_lease_expiry_safety_seconds;
            })
      ]
    ]
  ]

  unfoldable pub settle_oa_org_lease : LeaseRecord → SettleInputs → Action (Unit {0})
  settle_oa_org_lease lease inputs s = elim (settled_transcript lease s) [
    | some r ↦
        finalize_openrouter_lease lease.client_request_id
          (credits_to_usd floats
            (Option.get_or (Option.bind r.response_payload json.usage_credits_of) 0))
          (Option.get_or r.charge_applied 0) inputs.updated_at s
    | none ↦ elim (oa_usage lease) [
      | err e ↦ (err e, s)
      | ok usage ↦ settle_receipt lease usage inputs s
    ]
  ]

  -- The choice of the key source, in `settle_due_openrouter_leases` and `retire_openrouter_lease`.
  unfoldable pub settle_lease : LeaseRecord → SettleInputs → Action (Unit {0})
  settle_lease lease inputs s =
      if lease.key_source == "openrouter"
      then elim openrouter [
        | some provisioner ↦ settle_openrouter_lease lease provisioner inputs s
        | none ↦ (err (internal "direct OpenRouter settlement credential is unavailable"), s)
      ]
      else if lease.key_source == "oa_org"
      then settle_oa_org_lease lease inputs s
      else (err (internal "unsupported lease key source"), s)

  abbrev pub after_settling :
      LeaseRecord → (ServerError → String) → ℕ → Result (Unit {0}) × Store → Store
  after_settling lease show recorded_at (ok u, s) = s
  after_settling lease show recorded_at (err e, s) =
      (record_openrouter_lease_error lease.client_request_id (show e) recorded_at s).1

  -- The loop over the due leases. `inputs` and `recorded_at` give what each round reads, `show` the
  -- text of an error.
  unfoldable pub settle_each :
      (ServerError → String)
      → (LeaseRecord → SettleInputs)
      → (LeaseRecord → ℕ)
      → List LeaseRecord
      → Store
      → Store
  settle_each show inputs recorded_at [] s = s
  settle_each show inputs recorded_at (lease ∷ leases) s =
      settle_each show inputs recorded_at leases
        (after_settling lease show (recorded_at lease) (settle_lease lease (inputs lease) s))

  unfoldable pub settle_due_openrouter_leases :
      (ServerError → String) → (LeaseRecord → SettleInputs) → (LeaseRecord → ℕ) → ℕ → Store → Store
  unfolding settle_each
  settle_due_openrouter_leases show inputs recorded_at now s =
      settle_each show inputs recorded_at (due_openrouter_leases codec now s) s

  unfoldable pub openrouter_lease_status : String → Store → Option LeaseStatus
  openrouter_lease_status client_request_id s =
      Option.map status_of (lookup_openrouter_lease codec client_request_id s)

  abbrev pub reported : String → Result (Unit {0}) × Store → Result LeaseStatus × Store
  reported client_request_id (err e, s) = (err e, s)
  reported client_request_id (ok u, s) = elim (openrouter_lease_status client_request_id s) [
    | none ↦ (err (internal "retired lease disappeared"), s)
    | some status ↦ (ok status, s)
  ]

  abbrev pub retire_by_status : LeaseRecord → SettleInputs → Action (Unit {0})
  retire_by_status lease inputs s =
      if lease.status == "finalized"
      then (ok tt, s)
      else if lease.status == "active"
      then settle_lease lease inputs s
      else (err lease_pending, s)

  unfoldable pub retire_openrouter_lease : String → ApiRequest → SettleInputs → Action LeaseStatus
  retire_openrouter_lease client_request_id request inputs s =
      elim (lookup_openrouter_lease codec client_request_id s) [
        | none ↦ (err (invalid_request "unknown OpenRouter lease"), s)
        | some lease ↦ elim (json.same_request_json request lease.api_request) [
          | failure e ↦ (err (internal "failed to compare lease retirement proof"), s)
          | success request_matches ↦
              if (request.client_request_id != client_request_id) || not request_matches
              then (
                err (invalid_request "lease retirement proof does not match the issued lease"),
                s,
              )
              else reported client_request_id (retire_by_status lease inputs s)
        ]
      ]
