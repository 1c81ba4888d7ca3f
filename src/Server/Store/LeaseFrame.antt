-- ===== src/Server/Store/LeaseFrame.antt =====
-- The statements on the leases leave the nullifiers alone.

use zkapi_ef_collab.Base.{
  ℕ, String, some, Bool, ◌||◌, ◌&&◌, ◌==◌, ◌!=◌, not, string_eq, nat_eq, option_eq, ◌≡◌, refl, inl,
  inr, Bool-cases, count_where, exists_where,
}
use zkapi_ef_collab.Server.Wire.{ApiRequest}
use zkapi_ef_collab.Server.External.{Codec, Outcome-cases}
use zkapi_ef_collab.Server.Store.{Store, LeaseRow}
use zkapi_ef_collab.Server.Store.Leases.{
  insert_lease, update_one_lease, create_openrouter_lease, update_openrouter_lease_timing,
  activate_openrouter_lease, has_client_and_status,
}

pub insert_lease_same :
    (row : LeaseRow) (s : Store) → (insert_lease row s).1.nullifiers ≡ s.nullifiers
insert_lease_same row s =
    elim (Bool-cases (
      exists_where
        (λ r.
          (r.client_request_id == row.client_request_id)
          || (r.request_nullifier == row.request_nullifier))
        s.leases)) [ inl e ↦ rw e refl | inr e ↦ rw e refl ]

pub update_one_same :
    (test : LeaseRow → Bool) (change : LeaseRow → LeaseRow) (s : Store)
    → (update_one_lease test change s).1.nullifiers ≡ s.nullifiers
update_one_same test change s = elim (Bool-cases (count_where test s.leases != 1)) [
  | inl e ↦ rw e refl
  | inr e ↦ rw e refl
]

pub timing_same :
    (client : String) (expires_at settle_after now : ℕ) (s : Store)
    → (update_openrouter_lease_timing client expires_at settle_after now s).1.nullifiers
      ≡ s.nullifiers
unfolding update_openrouter_lease_timing
timing_same client expires_at settle_after now s = update_one_same _ _ s

pub activate_same :
    (client hash : String) (now : ℕ) (s : Store)
    → (activate_openrouter_lease client hash now s).1.nullifiers ≡ s.nullifiers
unfolding activate_openrouter_lease
activate_same client hash now s =
    elim (Bool-cases (
      exists_where (has_client_and_status client "provisioning") s.leases
      && exists_where
          (λ row.
            not (has_client_and_status client "provisioning" row) && (row.key_hash == some hash))
          s.leases)) [ inl e ↦ rw e refl | inr e ↦ rw e (update_one_same _ _ s) ]

module _ {Sig : Type 0} (codec : Codec Sig) where
  pub create_same :
      (request : ApiRequest) (source : String) (a b c d now : ℕ) (s : Store)
      → (create_openrouter_lease codec request source a b c d now s).1.nullifiers ≡ s.nullifiers
  unfolding create_openrouter_lease
  create_same request source a b c d now s = elim (Outcome-cases (codec.request_to_json request)) [
    | inl (e, h) ↦ rw (h, create_openrouter_lease) refl
    | inr (j, h) ↦ rw (h, create_openrouter_lease) (insert_lease_same _ s)
  ]
