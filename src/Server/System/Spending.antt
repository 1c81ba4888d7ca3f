-- ===== src/Server/System/Spending.antt =====
-- What no overlap of calls can do to a nullifier.

use zkapi_ef_collab.Base.{
  String, Option, none, some, string_eq, nat_eq, arith, ◌≡◌, refl, ◌⊎◌, inl, inr, ◌≢◌, subst,
}
use zkapi_ef_collab.Server.External.{Codec}
use zkapi_ef_collab.Server.Error.{Result-cases}
use zkapi_ef_collab.Server.Store.{Row, Store}
use zkapi_ef_collab.Server.Store.Nullifiers.{
  api_request_binding, reserve, reserve_bound_v2, reserve_with_kind, reserve_clearance,
}
use zkapi_ef_collab.Server.Store.Rows.{row_at, IsUnique}
use zkapi_ef_collab.Server.Store.Advance.{
  Advances, AllAdvance, Advances-refl, SameReservation, insert_nullifier-AllAdvance,
  insert_nullifier-IsUnique, finalize-AllAdvance, finalize-IsUnique,
}
use zkapi_ef_collab.Server.System.Steps.{
  Step, Reach, reserves, reserves_bound, archives, clears, on_leases, here, then_step,
}

-- What a step makes of a row that is there.
Advances-final :
    (r : Row) (o : Option Row) → Advances (some r) o → r.status ≢ "Reserved" → o ≡ some r
Advances-final r none a h = absurd a
Advances-final r (some r') a h = ground arith

-- The reservation that a row was inserted with, and the states that it may be in.
abbrev pub Spent : Row → Option Row → Type 0
Spent r none = ⊥
Spent r (some r') = SameReservation r r' × ((r'.status ≡ "Reserved") ⊎ (r'.status ≡ "Finalized"))

Spent-Advances : (r : Row) (o o' : Option Row) → Spent r o → Advances o o' → Spent r o'
Spent-Advances r none o' h a = absurd h
Spent-Advances r (some q) none h a = absurd a
Spent-Advances r (some q) (some q') h a = ground arith

module _ {Sig : Type 0} {codec : Codec Sig} where
  Step-AllAdvance : {s t : Store} → Step codec s t → AllAdvance s t
  unfolding reserve reserve_bound_v2 reserve_with_kind reserve_clearance
  Step-AllAdvance (reserves s n client hash now) key =
      insert_nullifier-AllAdvance _ _ s (inl refl) key
  Step-AllAdvance (reserves_bound s request kind now) key =
      elim (Result-cases (api_request_binding codec request)) [
        | inl (x, e) ↦ rw (e, reserve_bound_v2) (Advances-refl _)
        | inr (binding, e) ↦
            rw (e, reserve_bound_v2) (insert_nullifier-AllAdvance _ _ s (inl refl) key)
      ]
  Step-AllAdvance (archives s n transcript now) key =
      finalize-AllAdvance codec transcript now n s key
  Step-AllAdvance (clears s n now) key = insert_nullifier-AllAdvance _ _ s (inr refl) key
  Step-AllAdvance (on_leases s t e) key = rw e (Advances-refl _)

  Step-IsUnique : {s t : Store} → Step codec s t → IsUnique s.nullifiers → IsUnique t.nullifiers
  unfolding reserve reserve_bound_v2 reserve_with_kind reserve_clearance
  Step-IsUnique (reserves s n client hash now) u = insert_nullifier-IsUnique _ _ s u
  Step-IsUnique (reserves_bound s request kind now) u =
      elim (Result-cases (api_request_binding codec request)) [
        | inl (x, e) ↦ rw (e, reserve_bound_v2) u
        | inr (binding, e) ↦ rw (e, reserve_bound_v2) (insert_nullifier-IsUnique _ _ s u)
      ]
  Step-IsUnique (archives s n transcript now) u = finalize-IsUnique codec transcript now n s u
  Step-IsUnique (clears s n now) u = insert_nullifier-IsUnique _ _ s u
  Step-IsUnique (on_leases s t e) u = rw e u

  -- No sequence of statements gives a nullifier two rows, if it has none at the start.
  pub Reach-IsUnique :
      {s t : Store} → IsUnique s.nullifiers → Reach codec s t → IsUnique t.nullifiers
  Reach-IsUnique u here = u
  Reach-IsUnique u (then_step r st) = Step-IsUnique st (Reach-IsUnique u r)

  -- No sequence of statements changes a row whose status is not Reserved.
  pub Reach-keeps_final :
      {s t : Store} (key : String) (r : Row)
      → row_at key s.nullifiers ≡ some r
      → r.status ≢ "Reserved"
      → Reach codec s t
      → row_at key t.nullifiers ≡ some r
  Reach-keeps_final key r e h here = e
  Reach-keeps_final {t} key r e h (then_step {t = m} reach st) =
      Advances-final r (row_at key t.nullifiers)
        (subst (λ o. Advances o (row_at key t.nullifiers)) (Reach-keeps_final key r e h reach)
          (Step-AllAdvance st key))
        h

  -- A reservation for a request that is Reserved or Finalized stays so in every sequence of
  -- statements, with its kind, client id, payload hash, binding and creation time.
  pub Reach-Spent :
      {s t : Store} (key : String) (r : Row)
      → Spent r (row_at key s.nullifiers)
      → Reach codec s t
      → Spent r (row_at key t.nullifiers)
  Reach-Spent key r e here = e
  Reach-Spent key r e (then_step {t = m} reach st) =
      Spent-Advances r (row_at key m.nullifiers) _ (Reach-Spent key r e reach)
        (Step-AllAdvance st key)
