-- ===== src/Server/Lease/Issue.antt =====
-- `issue_openrouter_lease` (zkapi-serverd/src/processor_v2.rs), in the steps of its source: the
-- authorization, the reservation, what a retry finds, the key, and its activation.
use Prim.Native.String as Text
use zkapi_ef_collab.Base.{
  ℕ, String, Option, none, some, Bool, true, false, ◌||◌, ◌!=◌, not, string_eq, nat_eq, option_eq,
  leb, if◌then◌else◌, saturating_add, saturating_sub,
}
use zkapi_ef_collab.Server.Error.{Result, ok, err, internal, invalid_request, lease_pending, replay}
use zkapi_ef_collab.Server.Wire.{ApiRequest}
use zkapi_ef_collab.Server.External.{success, failure}
use zkapi_ef_collab.Server.Store.{LeaseRecord, Action, ◌>>=◌, ◌>>◌, raise, pure}
use zkapi_ef_collab.Server.Store.Nullifiers.{api_request_binding}
use zkapi_ef_collab.Server.Store.Leases.{
  create_openrouter_lease, lookup_openrouter_lease, remove_failed_openrouter_lease,
  update_openrouter_lease_timing, activate_openrouter_lease,
}
use zkapi_ef_collab.Server.Processor.{
  LeaseSource, openrouter, oa_org, label, LeaseConfig, openrouter_lease,
  oa_lease_expiry_safety_seconds,
}
use zkapi_ef_collab.Server.Processor.Validate.{validate_and_reserve}
use zkapi_ef_collab.Server.Processor.Finalize.{is_some}
use zkapi_ef_collab.Server.Lease.Defs.{LeaseServer, KeyEvidence, credits_to_usd}

-- The clock readings of one call, in their order.
pub record IssueClocks : Type 0 where
  pub checked_at : ℕ
  pub reserved_at : ℕ
  pub issued_at : ℕ
  pub requested_at : ℕ
  pub created_at : ℕ
  pub received_at : ℕ
  pub timed_at : ℕ
  pub activated_at : ℕ

-- OpenRouterLeaseResponse
pub record LeaseResponse : Type 0 where
  pub status : String
  pub client_request_id : String
  pub api_key : String
  pub openrouter_api_base : String
  pub issued_at : ℕ
  pub expires_at : ℕ
  pub valid_for_seconds : ℕ
  pub settle_after : ℕ
  pub spending_limit_usd : ℕ

-- IssuedOpenRouterLease
pub record IssuedLease : Type 0 where
  pub lease : LeaseResponse
  pub key_source : String
  pub verification : Option KeyEvidence

-- `spending_limit_usd`, `resume_provisioning` and `issued_at`
pub record Plan : Type 0 where
  pub limit : ℕ
  pub resumes : Bool
  pub issued_at : ℕ

-- The tuple that the key's source answers.
pub record Provisioned : Type 0 where
  pub api_key : String
  pub key_hash : String
  pub api_base : String
  pub expires_at : ℕ
  pub verification : Option KeyEvidence

abbrev pub key_name_of : ApiRequest → String
key_name_of request = Text.◌++◌ "zkapi-" request.client_request_id

module _ {Sig : Type 0} (server : LeaseServer Sig) where
  open server use {processor, floats, json}
  open processor use {config, codec}

  unfoldable pub authorize : ApiRequest → Result LeaseConfig
  authorize request = elim (json.authorization request.payload) [
    | failure e ↦ err (invalid_request "invalid prompt-free OpenRouter lease authorization")
    | success is_default ↦
        if not is_default
        then err (invalid_request "unsupported OpenRouter lease authorization")
        else elim config.openrouter_leases [
          | none ↦
              err
                (invalid_request "prompt-private OpenRouter leases are not enabled on this server")
          | some lease_config ↦
              if config.policy_enabled
              then err
                  (invalid_request "prompt-private leases cannot enforce server-side prompt policy")
              else ok lease_config
        ]
  ]

  abbrev pub is_spendable : ℕ → Bool
  is_spendable limit = not (not (floats.is_finite limit) || floats.less_or_equal limit floats.zero)

  -- Whether the lease that is there belongs to this request and this source, and has no key yet.
  unfoldable pub check_existing : LeaseConfig → ApiRequest → LeaseRecord → Result (Unit {0})
  check_existing lease_config request existing =
      elim (api_request_binding codec existing.api_request) [
        | err e ↦ err e
        | ok persisted_binding ↦
            if existing.request_nullifier != request.public_inputs.request_nullifier
            then err (internal "pending lease request does not match its nullifier reservation")
            else elim (api_request_binding codec request) [
              | err e ↦ err e
              | ok binding ↦
                  if persisted_binding != binding
                  then err
                      (internal "pending lease request does not match its nullifier reservation")
                  else if existing.key_source != label lease_config.source
                  then err (internal "pending lease source does not match configured source")
                  else if (existing.status != "provisioning") || is_some existing.key_hash
                  then err lease_pending
                  else ok tt
            ]
      ]

  -- A retry at the same source: OpenRouter's keys of the name are deleted and the lease made anew;
  -- the OA org is asked for the same key again, under the persisted limit.
  unfoldable pub retry_at : LeaseSource → ApiRequest → LeaseRecord → Plan → Action Plan
  retry_at (openrouter management_key api_base) request existing fresh s = elim server.openrouter [
    | none ↦ (err (internal "OpenRouter lease provider is unavailable"), s)
    | some provisioner ↦ elim (provisioner.delete_keys_named (key_name_of request)) [
      | err e ↦ (err e, s)
      | ok u ↦ (ok fresh, (remove_failed_openrouter_lease request.client_request_id s).1)
    ]
  ]
  retry_at (oa_org org_base_url shared_secret) request existing fresh s =
      let persisted = credits_to_usd floats existing.api_request.public_inputs.solvency_bound in
      if (existing.spending_limit_usd != persisted) || not (is_spendable persisted)
      then (err (internal "pending lease spending limit does not match its bound request"), s)
      else (
        ok (record {
          limit = existing.spending_limit_usd;
          resumes = true;
          issued_at = existing.issued_at;
        }),
        s,
      )

  unfoldable pub plan : LeaseConfig → ApiRequest → Plan → Action Plan
  plan lease_config request fresh s =
      elim (lookup_openrouter_lease codec request.client_request_id s) [
        | none ↦ (ok fresh, s)
        | some existing ↦ elim (check_existing lease_config request existing) [
          | err e ↦ (err e, s)
          | ok u ↦ retry_at lease_config.source request existing fresh s
        ]
      ]

  abbrev pub create_unless_resumed : LeaseConfig → ApiRequest → Plan → ℕ → ℕ → Action (Unit {0})
  create_unless_resumed lease_config request p expires_at now s =
      if p.resumes
      then (ok tt, s)
      else create_openrouter_lease codec request (label lease_config.source) p.issued_at expires_at
          (saturating_add expires_at lease_config.settlement_grace_seconds) p.limit now s

  unfoldable pub provision :
      LeaseConfig → LeaseSource → ApiRequest → Plan → ℕ → ℕ → Action Provisioned
  provision lease_config (openrouter management_key api_base) request p expires_at now s =
      elim server.openrouter [
        | none ↦ (err (internal "OpenRouter lease provider is unavailable"), s)
        | some provisioner ↦
            elim (provisioner.create_key (key_name_of request) p.limit expires_at) [
              | err e ↦ (err e, (remove_failed_openrouter_lease request.client_request_id s).1)
              | ok created ↦ (
                ok (record {
                  api_key = created.key;
                  key_hash = created.hash;
                  api_base = provisioner.inference_base;
                  expires_at = expires_at;
                  verification = none;
                }),
                s,
              )
            ]
      ]
  provision lease_config (oa_org org_base_url shared_secret) request p expires_at now s =
      elim server.oa_org [
        | none ↦ (err (internal "OA org lease provider is unavailable"), s)
        | some provisioner ↦
            elim (provisioner.create_key request.client_request_id p.limit
              request.public_inputs.solvency_bound lease_config.ttl_seconds) [
                | err e ↦ (err e, s)
                | ok created ↦
                    let usable = saturating_sub created.expires_at oa_lease_expiry_safety_seconds in
                    if leb usable now
                    then (err (internal "OA org key has no safe usable lifetime"), s)
                    else (
                      ok (record {
                        api_key = created.key;
                        key_hash = created.hash;
                        api_base = created.openrouter_api_base;
                        expires_at = usable;
                        verification = some created.verification;
                      }),
                      s,
                    )
              ]
      ]

  abbrev pub issued : LeaseConfig → ApiRequest → Plan → Provisioned → IssuedLease
  issued lease_config request p key = record {
    lease = record {
      status = "active";
      client_request_id = request.client_request_id;
      api_key = key.api_key;
      openrouter_api_base = key.api_base;
      issued_at = p.issued_at;
      expires_at = key.expires_at;
      valid_for_seconds = saturating_sub key.expires_at p.issued_at;
      settle_after = saturating_add key.expires_at lease_config.settlement_grace_seconds;
      spending_limit_usd = p.limit;
    };
    key_source = label lease_config.source;
    verification = key.verification;
  }

  unfoldable pub activate :
      LeaseConfig → ApiRequest → IssueClocks → Plan → Provisioned → Action IssuedLease
  activate lease_config request clocks p key = do
    update_openrouter_lease_timing request.client_request_id key.expires_at
        (saturating_add key.expires_at lease_config.settlement_grace_seconds) clocks.timed_at
    activate_openrouter_lease request.client_request_id key.key_hash clocks.activated_at
    pure (issued lease_config request p key)

  -- The part behind the reservation.
  unfoldable pub issue_reserved : LeaseConfig → ApiRequest → IssueClocks → Action IssuedLease
  issue_reserved lease_config request clocks =
      let limit = credits_to_usd floats request.public_inputs.solvency_bound in
      if not (is_spendable limit)
      then raise (invalid_request "lease spending limit must be positive")
      else do
        p ←
            plan lease_config request
              (record { limit = limit; resumes = false; issued_at = clocks.issued_at })
        create_unless_resumed lease_config request p
            (saturating_add clocks.requested_at lease_config.ttl_seconds) clocks.created_at
        key ←
            provision lease_config lease_config.source request p
              (saturating_add clocks.requested_at lease_config.ttl_seconds) clocks.received_at
        activate lease_config request clocks p key

  unfoldable pub issue_openrouter_lease : ApiRequest → IssueClocks → Action IssuedLease
  issue_openrouter_lease request clocks s = elim (authorize request) [
    | err e ↦ (err e, s)
    | ok lease_config ↦
        let (r, s') =
          validate_and_reserve processor request openrouter_lease clocks.checked_at
            clocks.reserved_at s in
        elim r [
          | err e ↦ (err e, s')
          | ok (some response) ↦ (err replay, s')
          | ok none ↦ issue_reserved lease_config request clocks s'
        ]
  ]
