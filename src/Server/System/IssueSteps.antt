-- ===== src/Server/System/IssueSteps.antt =====
-- Issuing and retiring a lease are made of the store's statements.

use zkapi_ef_collab.Base.{
  ℕ, String, none, some, false, ◌||◌, ◌==◌, ◌!=◌, not, string_eq, nat_eq, option_eq, leb,
  saturating_add, saturating_sub, ◌≡◌, refl, inl, inr, Option-cases, Bool-cases,
}
use zkapi_ef_collab.Server.Wire.{ApiRequest}
use zkapi_ef_collab.Server.External.{Codec, Outcome-cases}
use zkapi_ef_collab.Server.Error.{Result, ok, err, Result-cases}
use zkapi_ef_collab.Server.Store.{Store, LeaseRecord, Action, ◌>>=◌, ◌>>◌, pure}
use zkapi_ef_collab.Server.Store.Leases.{
  lookup_openrouter_lease, update_openrouter_lease_timing, activate_openrouter_lease,
  remove_failed_openrouter_lease,
}
use zkapi_ef_collab.Server.Store.LeaseFrame.{timing_same, activate_same, create_same}
use zkapi_ef_collab.Server.Processor.{
  LeaseConfig, LeaseSource, openrouter, oa_org, openrouter_lease, oa_lease_expiry_safety_seconds,
}
use zkapi_ef_collab.Server.Processor.Validate.{validate_and_reserve}
use zkapi_ef_collab.Server.Lease.{LeaseServer, credits_to_usd}
use zkapi_ef_collab.Server.Lease.Settle.{
  SettleInputs, openrouter_lease_status, retire_openrouter_lease, reported, retire_by_status,
}
use zkapi_ef_collab.Server.Lease.Issue.{
  IssueClocks, Plan, Provisioned, IssuedLease, authorize, check_existing, retry_at, plan,
  create_unless_resumed, provision, activate, issue_reserved, issue_openrouter_lease, is_spendable,
  key_name_of, issued,
}
use zkapi_ef_collab.Server.System.Steps.{on_leases, Reach, here, Reach-trans, one, validate-Reach}
use zkapi_ef_collab.Server.System.LeaseSteps.{settle_lease-Reach}

module _ {Sig : Type 0} {codec : Codec Sig} where
  -- A call that leaves the nullifiers alone, and what follows it.
  bind-Reach :
      {A B : Type 0} (m : Action A) (f : A → Action B) (s : Store)
      → (m s).1.nullifiers ≡ s.nullifiers
      → ((a : A) (t : Store) → Reach codec t (f a t).1)
      → Reach codec s ((m >>= f) s).1
  bind-Reach m f s same rest = elim (Result-cases (m s).0) [
    | inl (e, h) ↦ rw (h, ◌>>=◌) (one (on_leases s (m s).1 same))
    | inr (a, h) ↦ rw (h, ◌>>=◌) (Reach-trans (one (on_leases s (m s).1 same)) (rest a (m s).1))
  ]

module _ {Sig : Type 0} (server : LeaseServer Sig) where
  open server use {processor, floats, json}
  open processor use {config, codec}

  create_unless_resumed_same :
      (lease_config : LeaseConfig) (request : ApiRequest) (p : Plan) (expires_at now : ℕ)
      (s : Store)
      → (create_unless_resumed server lease_config request p expires_at now s).1.nullifiers
        ≡ s.nullifiers
  create_unless_resumed_same lease_config request p expires_at now s = elim (Bool-cases p.resumes) [
    | inl e ↦ rw e refl
    | inr e ↦ rw e (create_same codec request _ p.issued_at expires_at _ p.limit now s)
  ]

  retry_same :
      (source : LeaseSource) (request : ApiRequest) (existing : LeaseRecord) (fresh : Plan)
      (s : Store)
      → (retry_at server source request existing fresh s).1.nullifiers ≡ s.nullifiers
  unfolding retry_at remove_failed_openrouter_lease
  retry_same (openrouter management_key api_base) request existing fresh s =
      elim (Option-cases server.openrouter) [
        | inl e ↦ rw (e, retry_at) refl
        | inr (provisioner, e) ↦
            elim (Result-cases (provisioner.delete_keys_named (key_name_of request))) [
              | inl (x, h) ↦ rw (e, h, retry_at) refl
              | inr (u, h) ↦ rw (e, h, retry_at) refl
            ]
      ]
  retry_same (oa_org org_base_url shared_secret) request existing fresh s =
      elim (Bool-cases (
        (existing.spending_limit_usd
          != credits_to_usd floats existing.api_request.public_inputs.solvency_bound)
        || not (
            is_spendable server
              (credits_to_usd floats existing.api_request.public_inputs.solvency_bound)))) [
                | inl e ↦ rw e refl
                | inr e ↦ rw e refl
              ]

  plan_same :
      (lease_config : LeaseConfig) (request : ApiRequest) (fresh : Plan) (s : Store)
      → (plan server lease_config request fresh s).1.nullifiers ≡ s.nullifiers
  unfolding plan
  plan_same lease_config request fresh s =
      elim (Option-cases (lookup_openrouter_lease codec request.client_request_id s)) [
        | inl e ↦ rw (e, plan) refl
        | inr (existing, e) ↦
            elim (Result-cases (check_existing server lease_config request existing)) [
              | inl (x, h) ↦ rw (e, h, plan) refl
              | inr (u, h) ↦
                  rw (e, h, plan) (retry_same lease_config.source request existing fresh s)
            ]
      ]

  provision_same :
      (lease_config : LeaseConfig) (source : LeaseSource) (request : ApiRequest) (p : Plan)
      (expires_at now : ℕ) (s : Store)
      → (provision server lease_config source request p expires_at now s).1.nullifiers
        ≡ s.nullifiers
  unfolding provision remove_failed_openrouter_lease
  provision_same lease_config (openrouter management_key api_base) request p expires_at now s =
      elim (Option-cases server.openrouter) [
        | inl e ↦ rw (e, provision) refl
        | inr (provisioner, e) ↦
            elim (Result-cases (provisioner.create_key (key_name_of request) p.limit expires_at)) [
              | inl (x, h) ↦ rw (e, h, provision) refl
              | inr (created, h) ↦ rw (e, h, provision) refl
            ]
      ]
  provision_same lease_config (oa_org org_base_url shared_secret) request p expires_at now s =
      elim (Option-cases server.oa_org) [
        | inl e ↦ rw (e, provision) refl
        | inr (provisioner, e) ↦
            elim (Result-cases (
              provisioner.create_key request.client_request_id p.limit
                request.public_inputs.solvency_bound lease_config.ttl_seconds)) [
                  | inl (x, h) ↦ rw (e, h, provision) refl
                  | inr (created, h) ↦
                      elim (Bool-cases (
                        leb (saturating_sub created.expires_at oa_lease_expiry_safety_seconds)
                          now)) [
                            | inl b ↦ rw (e, h, b, provision) refl
                            | inr b ↦ rw (e, h, b, provision) refl
                          ]
                ]
      ]

  activate-Reach :
      (lease_config : LeaseConfig) (request : ApiRequest) (clocks : IssueClocks) (p : Plan)
      (key : Provisioned) (s : Store)
      → Reach codec s (activate server lease_config request clocks p key s).1
  unfolding activate
  activate-Reach lease_config request clocks p key s =
      bind-Reach
        (update_openrouter_lease_timing request.client_request_id key.expires_at
          (saturating_add key.expires_at lease_config.settlement_grace_seconds) clocks.timed_at)
        (λ u. answer) s
        (timing_same request.client_request_id key.expires_at
          (saturating_add key.expires_at lease_config.settlement_grace_seconds) clocks.timed_at s)
        (λ u t.
          bind-Reach
            (activate_openrouter_lease request.client_request_id key.key_hash clocks.activated_at)
            (λ v. pure (issued server lease_config request p key)) t
            (activate_same request.client_request_id key.key_hash clocks.activated_at t)
            (λ v q. here))
    where
      answer : Action IssuedLease
      answer =
          activate_openrouter_lease request.client_request_id key.key_hash clocks.activated_at
          >> pure (issued server lease_config request p key)

  module _ (lease_config : LeaseConfig) (request : ApiRequest) (clocks : IssueClocks) where
    abbrev expiry : ℕ
    expiry = saturating_add clocks.requested_at lease_config.ttl_seconds

    abbrev provisioned : Plan → Action IssuedLease
    provisioned p =
        provision server lease_config lease_config.source request p expiry clocks.received_at
        >>= activate server lease_config request clocks p

    provisioned-Reach : (p : Plan) (s : Store) → Reach codec s (provisioned p s).1
    provisioned-Reach p s =
        bind-Reach
          (provision server lease_config lease_config.source request p expiry clocks.received_at)
          (activate server lease_config request clocks p) s
          (provision_same lease_config lease_config.source request p expiry clocks.received_at s)
          (activate-Reach lease_config request clocks p)

    abbrev created : Plan → Action IssuedLease
    created p =
        create_unless_resumed server lease_config request p expiry clocks.created_at
        >> provisioned p

    created-Reach : (p : Plan) (s : Store) → Reach codec s (created p s).1
    created-Reach p s =
        bind-Reach (create_unless_resumed server lease_config request p expiry clocks.created_at)
          (λ u. provisioned p) s
          (create_unless_resumed_same lease_config request p expiry clocks.created_at s)
          (λ u. provisioned-Reach p)

    abbrev fresh : Plan
    fresh = record {
      limit = credits_to_usd floats request.public_inputs.solvency_bound;
      resumes = false;
      issued_at = clocks.issued_at;
    }

    issue_reserved-Reach :
        (s : Store) → Reach codec s (issue_reserved server lease_config request clocks s).1
    unfolding issue_reserved
    issue_reserved-Reach s =
        elim (Bool-cases
          (is_spendable server (credits_to_usd floats request.public_inputs.solvency_bound))) [
            | inr e ↦ rw e here
            | inl e ↦ rw e (
                bind-Reach (plan server lease_config request fresh) created s
                  (plan_same lease_config request fresh s) created-Reach)
          ]

  -- Issuing a lease is a sequence of the store's statements, on every branch.
  pub issue-Reach :
      (request : ApiRequest) (clocks : IssueClocks) (s : Store)
      → Reach codec s (issue_openrouter_lease server request clocks s).1
  unfolding issue_openrouter_lease
  issue-Reach request clocks s = elim (Result-cases (authorize server request)) [
    | inl (e, a) ↦ rw (a, issue_openrouter_lease) here
    | inr (lease_config, a) ↦
        let first =
          validate-Reach processor request openrouter_lease clocks.checked_at clocks.reserved_at
            s in
        elim (Result-cases
          (validate_and_reserve processor request openrouter_lease clocks.checked_at
            clocks.reserved_at s).0) [
              | inl (e, h) ↦ rw (a, h, issue_openrouter_lease) first
              | inr (some response, h) ↦ rw (a, h, issue_openrouter_lease) first
              | inr (none, h) ↦
                  rw (a, h, issue_openrouter_lease)
                    (Reach-trans first (issue_reserved-Reach lease_config request clocks _))
            ]
  ]

  reported-Reach :
      (client : String) (s : Store) (r : Result (Unit {0}) × Store)
      → Reach codec s r.1
      → Reach codec s (reported server client r).1
  reported-Reach client s (err e, t) reach = reach
  reported-Reach client s (ok u, t) reach =
      elim (Option-cases (openrouter_lease_status server client t)) [
        | inl e ↦ rw (e, reported) reach
        | inr (status, e) ↦ rw (e, reported) reach
      ]

  retire_by_status-Reach :
      (lease : LeaseRecord) (inputs : SettleInputs) (s : Store)
      → Reach codec s (retire_by_status server lease inputs s).1
  retire_by_status-Reach lease inputs s = elim (Bool-cases (lease.status == "finalized")) [
    | inl a ↦ rw a here
    | inr a ↦ elim (Bool-cases (lease.status == "active")) [
      | inl b ↦ rw (a, b) (settle_lease-Reach server lease inputs s)
      | inr b ↦ rw (a, b) here
    ]
  ]

  -- Retiring a lease is a sequence of the store's statements, on every branch.
  pub retire-Reach :
      (client : String) (request : ApiRequest) (inputs : SettleInputs) (s : Store)
      → Reach codec s (retire_openrouter_lease server client request inputs s).1
  unfolding retire_openrouter_lease
  retire-Reach client request inputs s =
      elim (Option-cases (lookup_openrouter_lease codec client s)) [
        | inl e ↦ rw (e, retire_openrouter_lease) here
        | inr (lease, e) ↦ elim (Outcome-cases (json.same_request_json request lease.api_request)) [
          | inl (x, h) ↦ rw (e, h, retire_openrouter_lease) here
          | inr (request_matches, h) ↦
              elim (Bool-cases ((request.client_request_id != client) || not request_matches)) [
                | inl b ↦ rw (e, h, b, retire_openrouter_lease) here
                | inr b ↦
                    rw (e, h, b, retire_openrouter_lease)
                      (reported-Reach client s _ (retire_by_status-Reach lease inputs s))
              ]
        ]
      ]
