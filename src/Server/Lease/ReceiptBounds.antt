-- ===== src/Server/Lease/ReceiptBounds.antt =====
-- What an accepted usage receipt of zkapi-serverd/src/oa_org.rs is, and what the processor takes.

use Prim.Native.Nat.{max}
use mathlib.Core.Option
use zkapi_ef_collab.Base.{
  ℕ, String, ◌%◌, ◌/◌, Bool, true, false, ◌||◌, Option, some, ◌==◌, ◌!=◌, nat_eq, string_eq,
  if◌then◌else◌, ◌≡◌, ◌≤◌, refl, arith, Bool-cases, Option-cases, inl, inr, ◌≢◌, saturating_add, ap,
  sym, subst, ◌∙◌,
}
use text.Mathlib.TextEquality.{eq_iff}
use zkapi_ef_collab.Server.Store.{LeaseRecord}
use zkapi_ef_collab.Server.Processor.{oa_lease_expiry_safety_seconds}
use zkapi_ef_collab.Server.Lease.Settle.{oa_usage}
use zkapi_ef_collab.Server.Error.{ServerError, Result, ok, err}
use zkapi_ef_collab.Server.Lease.{LeaseServer, OaProvisioner, FinalUsage, UsageExpectation, final}
use zkapi_ef_collab.Server.Lease.Receipt.{
  OaOrgUsageResponse, is_hex_signature, final_fields, common_matches, is_out_of_bounds,
  validate_usage_response, accept_usage, answered,
}

-- The receipt keeps to what the lease was issued for.
abbrev pub IsWithin : FinalUsage → ℕ → ℕ → ℕ → Type 0
IsWithin u limit minimum_expires_at maximum_expires_at =
    (u.usage_credits ≤ limit)
    × (minimum_expires_at ≤ u.expires_at)
    × (u.expires_at ≤ maximum_expires_at)
    × (u.closed_at ≤ u.expires_at)
    × (u.closed_at ≤ u.finalized_at)

not_out_of_bounds :
    (status : String) (u : FinalUsage) (credit_limit limit minimum maximum : ℕ)
    → is_out_of_bounds status u credit_limit limit minimum maximum ≡ false
    → IsWithin u limit minimum maximum × (status ≡ "finalized") × (credit_limit ≡ limit)
unfolding is_out_of_bounds
not_out_of_bounds status u credit_limit limit minimum maximum h = ground arith

matching_ids :
    (r : OaOrgUsageResponse) (client_request_id key_hash : String)
    → common_matches r client_request_id key_hash ≡ true
    → (r.client_request_id ≡ client_request_id) × (r.key_hash ≡ key_hash)
unfolding common_matches
matching_ids r client_request_id key_hash h = ground arith

accepted :
    (b : Bool) (e : ServerError) (found u : FinalUsage)
    → (if b then err e else ok (final found)) ≡ ok (final u)
    → (b ≡ false) × (found ≡ u)
accepted true e found u h = cc
accepted false e found u h = (refl, cc)

-- A final usage that is accepted is the one of the answer, of the lease and key that were asked
-- for, and within the bounds of the lease.
pub validate_usage_response-IsWithin :
    (r : OaOrgUsageResponse) (client_request_id key_hash : String) (limit minimum maximum delay : ℕ)
    (u : FinalUsage)
    → validate_usage_response r client_request_id key_hash limit minimum maximum delay
      ≡ ok (final u)
    → IsWithin u limit minimum maximum
      × (final_fields r ≡ some (u, limit))
      × (r.status ≡ "finalized")
      × (r.client_request_id ≡ client_request_id)
      × (r.key_hash ≡ key_hash)
unfolding validate_usage_response
validate_usage_response-IsWithin r client_request_id key_hash limit minimum maximum delay u h =
    elim (Bool-cases (common_matches r client_request_id key_hash)) [
      | inr differs ↦ let x = rw (validate_usage_response, differs) at h in cc
      | inl matches ↦ elim (Bool-cases (r.status == "pending")) [
        | inl waits ↦ let x = rw (validate_usage_response, matches, waits) at h in cc
        | inr ended ↦ elim (Option-cases (final_fields r)) [
          | inl absent ↦ let x = rw (validate_usage_response, matches, ended, absent) at h in cc
          | inr ((found, credit_limit), e) ↦
              let checked = rw (validate_usage_response, matches, ended, e) at h in
              let passed =
                accepted (is_out_of_bounds r.status found credit_limit limit minimum maximum) _
                  found u checked in
              let bounds =
                not_out_of_bounds r.status found credit_limit limit minimum maximum passed.0 in
              let ids = matching_ids r client_request_id key_hash matches in
              (
                subst (λ v. IsWithin v limit minimum maximum) passed.1 bounds.0,
                e ∙ ap (λ v. some (v, credit_limit)) passed.1 ∙ ap (λ n. some (u, n)) bounds.2,
                bounds.1,
                ids.0,
                ids.1,
              )
        ]
      ]
    ]

-- Such an answer is accepted, and with it nothing but the usage that it has.
pub validate_usage_response-final :
    (r : OaOrgUsageResponse) (client_request_id key_hash : String) (limit minimum maximum delay : ℕ)
    (u : FinalUsage)
    → common_matches r client_request_id key_hash ≡ true
    → r.status ≡ "finalized"
    → final_fields r ≡ some (u, limit)
    → IsWithin u limit minimum maximum
    → u.station_id ≢ ""
    → is_hex_signature u.station_signature ≡ true
    → is_hex_signature u.org_signature ≡ true
    → validate_usage_response r client_request_id key_hash limit minimum maximum delay
      ≡ ok (final u)
unfolding validate_usage_response is_out_of_bounds
validate_usage_response-final r client_request_id key_hash limit minimum maximum delay u matches
      status fields within named signed countersigned =
    let ended : (r.status == "pending") ≡ false = ground (arith, eq_iff "finalized" "pending") in
    let inside : is_out_of_bounds r.status u limit limit minimum maximum ≡ false = ground arith in
    rw (validate_usage_response, matches, ended, fields, inside) refl

answered-IsWithin :
    (header : Option ℕ) (r : Result OaOrgUsageResponse) (client_request_id key_hash : String)
    (x : UsageExpectation) (u : FinalUsage)
    → answered header r client_request_id key_hash x ≡ ok (final u)
    → IsWithin u x.limit_credits x.minimum_expires_at x.maximum_expires_at
unfolding accept_usage
answered-IsWithin header (err e) client_request_id key_hash x u h = cc
answered-IsWithin header (ok r) client_request_id key_hash x u h =
    let delay = Option.get_or (Option.or_else header r.retry_after_seconds) 1 in
    (validate_usage_response-IsWithin r client_request_id key_hash x.limit_credits
      x.minimum_expires_at x.maximum_expires_at (max delay 1) u h).0

module _ {Sig : Type 0} (server : LeaseServer Sig) where
  -- What the processor takes from the OA org is within the bounds of the lease: the solvency bound
  -- of its proof, and its expiry with the safety margin.
  pub oa_usage-IsWithin :
      (provisioner : OaProvisioner) (header : String → Option ℕ)
      (answer : String → String → Result OaOrgUsageResponse) (lease : LeaseRecord) (u : FinalUsage)
      → server.oa_org ≡ some provisioner
      → ((id key : String) (x : UsageExpectation)
          → provisioner.get_key_usage id key x ≡ answered (header id) (answer id key) id key x)
      → oa_usage server lease ≡ ok (final u)
      → IsWithin u lease.api_request.public_inputs.solvency_bound lease.expires_at
          (saturating_add lease.expires_at oa_lease_expiry_safety_seconds)
  unfolding oa_usage
  oa_usage-IsWithin provisioner header answer lease u configured asks h =
      elim (Option-cases lease.key_hash) [
        | inl absent ↦ let x = rw (oa_usage, absent) at h in cc
        | inr (key, e_key) ↦ elim (Option-cases server.processor.config.openrouter_leases) [
          | inl absent ↦ let x = rw (oa_usage, e_key, configured, absent) at h in cc
          | inr (lease_config, e_config) ↦
              elim (Bool-cases
                ((lease_config.ttl_seconds == 0) || (lease_config.ttl_seconds % 60 != 0))) [
                  | inl uneven ↦
                      let x = rw (oa_usage, e_key, configured, e_config, uneven) at h in cc
                  | inr whole ↦
                      let x = rw (oa_usage, e_key, configured, e_config, whole) at h in
                      let asked : UsageExpectation = record {
                        credit_limit_usd = lease.spending_limit_usd;
                        duration_minutes = lease_config.ttl_seconds / 60;
                        limit_credits = lease.api_request.public_inputs.solvency_bound;
                        minimum_expires_at = lease.expires_at;
                        maximum_expires_at =
                            saturating_add lease.expires_at oa_lease_expiry_safety_seconds;
                      } in
                      answered-IsWithin (header lease.client_request_id)
                        (answer lease.client_request_id key) lease.client_request_id key asked u
                        (sym (asks lease.client_request_id key asked) ∙ x)
                ]
        ]
      ]
