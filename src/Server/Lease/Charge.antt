-- ===== src/Server/Lease/Charge.antt =====
-- What a settlement charges.
use mathlib.Core.Option
use mathlib.Core.Option.{some-injective}
use zkapi_ef_collab.Base.{
  ℕ, String, List, none, some, string_eq, nat_eq, arith, ◌≡◌, ◌≤◌, refl, sym, ◌∙◌, ap, inl, inr,
  subst, as_i64,
}
use zkapi_ef_collab.Server.Wire.{CurvePoint, RequestResponse}
use zkapi_ef_collab.Server.External.{success}
use zkapi_ef_collab.Server.Error.{Result, ok, err, Result-cases}
use zkapi_ef_collab.Server.Store.{Row, Store, LeaseRecord, row_to_record}
use zkapi_ef_collab.Server.Store.Nullifiers.{
  api_request_binding, lookup_by_nullifier, finalized_row,
}
use zkapi_ef_collab.Server.Store.Leases.{finalize_openrouter_lease}
use zkapi_ef_collab.Server.Store.Rows.{row_at, IsUnique}
use zkapi_ef_collab.Server.Store.Effects.{archived}
use zkapi_ef_collab.Server.Processor.{ProviderResponse}
use zkapi_ef_collab.Server.Processor.Finalize.{
  anonymous_commitment, charge_cap, finalize_request, transcript_of,
}
use zkapi_ef_collab.Server.Processor.Archive.{finalize_request_ok}
use zkapi_ef_collab.Server.Processor.Answer.{finalize_request_answers, answered_row}
use zkapi_ef_collab.Server.Lease.Defs.{LeaseServer, Provisioner, usd_to_credits}
use zkapi_ef_collab.Server.Lease.Settle.{
  SettleInputs, smaller, settled_transcript, settle_with, openrouter_reply, settle_openrouter_usage,
  settle_openrouter_lease,
}

module _ {Sig : Type 0} (server : LeaseServer Sig) (lease : LeaseRecord) (inputs : SettleInputs)
    (s : Store) (row : Row)
    (named : lease.request_nullifier ≡ lease.api_request.public_inputs.request_nullifier)
    (found : row_at (server.processor.codec.to_hex lease.request_nullifier) s.nullifiers
      ≡ some row) where
  open server use {processor, floats}
  open processor use {codec, crypto}

  unsettled : row.status ≡ "Reserved" → settled_transcript server lease s ≡ none
  unfolding settled_transcript lookup_by_nullifier row_to_record string_eq Option.bind
  unsettled was = rw found (rw was refl)

  lease_cap :
      (reply : ProviderResponse)
      → row.reservation_kind ≡ "openrouter_lease"
      → charge_cap processor lease.api_request row.reservation_kind reply
        ≡ lease.api_request.public_inputs.solvency_bound
  unfolding charge_cap string_eq
  lease_cap reply kind = rw kind refl

  abbrev pub charge : ℕ → ℕ
  charge usage_usd =
      smaller (usd_to_credits floats usage_usd) lease.api_request.public_inputs.solvency_bound

  settle_with_answered :
      (reply : ProviderResponse) (usage_usd : ℕ) {response : RequestResponse Sig} {t : Store}
      → finalize_request processor lease.api_request reply inputs.draws inputs.finalized_at s
        ≡ (ok response, t)
      → settle_with server lease reply usage_usd inputs s
        ≡ finalize_openrouter_lease lease.client_request_id usage_usd reply.charge_applied
            inputs.updated_at t
  unfolding settle_with
  settle_with_answered reply usage_usd h =
      ap
        (λ q. elim q.0 as (λ r. Result (Unit {0}) × Store) [
          | err e ↦ (err e, q.1)
          | ok response ↦
              finalize_openrouter_lease lease.client_request_id usage_usd reply.charge_applied
                inputs.updated_at q.1
        ])
        h

  first_settlement :
      (provisioner : Provisioner)
      → row.status ≡ "Reserved"
      → settle_openrouter_lease server lease provisioner inputs s
        ≡ settle_openrouter_usage server lease provisioner inputs s
  unfolding settle_openrouter_lease
  first_settlement provisioner was = rw (unsettled was, settle_openrouter_lease) refl

  usage_reported :
      (provisioner : Provisioner) (key_hash : String) (usage_usd : ℕ)
      → lease.key_hash ≡ some key_hash
      → provisioner.get_key_usage key_hash ≡ ok usage_usd
      → settle_openrouter_usage server lease provisioner inputs s
        ≡ settle_with server lease (openrouter_reply server lease usage_usd) usage_usd inputs s
  unfolding settle_openrouter_usage
  usage_reported provisioner key_hash usage_usd key usage =
      simp (settle_openrouter_usage, key, usage)

  -- A lease reserved as such is settled by its first usage report: the usage in credits is charged
  -- up to the solvency bound of the proof, so that the cap never refuses it, and archived; the
  -- lease ends with the same charge. The update, the proof and the JSON go through, and the store has
  -- one row for each nullifier.
  pub settle_openrouter_lease_settles :
      (provisioner : Provisioner) (key_hash : String) (usage_usd : ℕ) (next : CurvePoint)
      (proof_bytes : List ℕ) (binding : String)
      → IsUnique s.nullifiers
      → row.status ≡ "Reserved"
      → row.reservation_kind ≡ "openrouter_lease"
      → lease.key_hash ≡ some key_hash
      → provisioner.get_key_usage key_hash ≡ ok usage_usd
      → crypto.server_update
          (anonymous_commitment processor lease.api_request)
          (charge usage_usd)
          inputs.draws.blind_delta
        ≡ success next
      → crypto.base64_decode lease.api_request.proof.proof ≡ success proof_bytes
      → api_request_binding codec lease.api_request ≡ ok binding
      → settle_openrouter_lease server lease provisioner inputs s
        ≡ finalize_openrouter_lease lease.client_request_id usage_usd
            (charge usage_usd)
            inputs.updated_at
            (archived codec lease.api_request.public_inputs.request_nullifier
              (transcript_of processor lease.api_request row.reservation_kind
                (openrouter_reply server lease usage_usd)
                next
                inputs.draws
                proof_bytes
                binding
                inputs.finalized_at)
              inputs.finalized_at
              s)
  unfolding openrouter_reply
  settle_openrouter_lease_settles provisioner key_hash usage_usd next proof_bytes binding unique was
        kind key usage a b d =
      let answers =
        finalize_request_answers processor lease.api_request
          (openrouter_reply server lease usage_usd) inputs.draws inputs.finalized_at s row next
          proof_bytes binding unique
          (ap (λ n. row_at (codec.to_hex n) s.nullifiers) (sym named) ∙ found) was
          (rw (lease_cap (openrouter_reply server lease usage_usd) kind) (ground arith)) a b d in
      first_settlement provisioner was
      ∙ usage_reported provisioner key_hash usage_usd key usage
      ∙ settle_with_answered (openrouter_reply server lease usage_usd) usage_usd answers

  -- A settlement that has just finalized the request of a reserved lease charged no more than the
  -- solvency bound of the proof, whichever the key's source and whatever usage it reported. The store had one row for each
  -- nullifier.
  pub settled_charge_within :
      (reply : ProviderResponse) (usage_usd : ℕ) (t : Store)
      → IsUnique s.nullifiers
      → row.reservation_kind ≡ "openrouter_lease"
      → settle_with server lease reply usage_usd inputs s ≡ (ok tt, t)
      → (reply.charge_applied ≤ lease.api_request.public_inputs.solvency_bound)
        × (row' : Row) × (row_at (codec.to_hex lease.request_nullifier) t.nullifiers ≡ some row')
        × (row'.status ≡ "Finalized")
        × (row'.charge_applied ≡ some (as_i64 reply.charge_applied))
  unfolding settle_with finalize_openrouter_lease transcript_of
  settled_charge_within reply usage_usd t unique kind h =
      elim (Result-cases
        (finalize_request processor lease.api_request reply inputs.draws inputs.finalized_at s).0) [
          | inl (e, a) ↦ let failed = rw (a, settle_with) at h in absurd (cc failed)
          | inr (response, a) ↦
              let done =
                finalize_request_ok processor lease.api_request reply inputs.draws
                  inputs.finalized_at s unique
                  (ap
                    (λ r. (
                      r,
                      (finalize_request processor lease.api_request reply inputs.draws
                          inputs.finalized_at s).1,
                    ))
                    a) in
              let ended = rw (a, settle_with) at h in
              let kept = ap (λ q. q.1.nullifiers) ended in
              (
                rw⁻¹ (lease_cap reply kind) (
                    subst
                      (λ r.
                        reply.charge_applied
                        ≤ charge_cap processor lease.api_request r.reservation_kind reply)
                      (some-injective done.row row (sym done.found ∙ found')) done.within),
                finalized_row codec
                    (transcript_of processor lease.api_request done.row.reservation_kind reply
                      done.next inputs.draws done.proof_bytes done.binding inputs.finalized_at)
                    inputs.finalized_at done.row,
                ap (λ n. row_at (codec.to_hex n) t.nullifiers) named
                    ∙ ap
                        (λ rows.
                          row_at (codec.to_hex lease.api_request.public_inputs.request_nullifier)
                            rows)
                        (sym kept)
                    ∙ answered_row processor lease.api_request reply inputs.draws
                        inputs.finalized_at s _ response done,
                refl,
                refl,
              )
        ]
    where
      found' :
          row_at (codec.to_hex lease.api_request.public_inputs.request_nullifier) s.nullifiers
          ≡ some row
      found' = ap (λ n. row_at (codec.to_hex n) s.nullifiers) (sym named) ∙ found
