-- ===== src/Auth/AnchorChecks.antt =====
-- What the checks of zkapi-auth/src/state_anchor.rs accept.

use zkapi_ef_collab.Base.{
  ℕ, Bool, true, false, nat_eq, Option, none, some, ◌≡◌, refl, Bool-cases, inl, inr,
}
use zkapi_ef_collab.Server.Wire.{Felt252}
use zkapi_ef_collab.Auth.Defs.{AuthResult, AuthError, ok, err, contains}
use zkapi_ef_collab.Auth.Anchor.{
  Protocol, StateAnchorCredential, StateAnchorPresentation, StateAnchorScheme, verify_state_sig,
  state_message, commitment_coords, spend, verify,
}

module _ {K Sig : Type 0} (protocol : Protocol K Sig) where
  -- An opening with a signature, which verifies under the root that it names for the message over
  -- the commitment to the balance. The first opening of a note has none.
  abbrev pub IsSigned : ℕ → ℕ → Felt252 → ℕ → ℕ → Felt252 → Bool → Option Sig → Felt252 → Type 0
  IsSigned version chain contract balance blinding anchor true state_sig root = Unit
  IsSigned version chain contract balance blinding anchor false none root = ⊥
  IsSigned version chain contract balance blinding anchor false (some sig) root =
      let point = protocol.commit balance blinding in
      let message =
        protocol.compute_state_message version chain contract (protocol.field_to_felt point.0)
          (protocol.field_to_felt point.1) anchor in
      protocol.xmss_verify root message sig ≡ true

  abbrev pub IsGenuine : StateAnchorCredential Sig → StateAnchorScheme K → Type 0
  IsGenuine c s =
      IsSigned s.protocol_version s.chain_id s.contract c.balance c.blinding c.anchor c.is_genesis
        c.state_sig c.state_sig_root

  abbrev pub IsAuthentic : StateAnchorPresentation Sig → StateAnchorScheme K → Type 0
  IsAuthentic p s =
      IsSigned s.protocol_version s.chain_id s.contract p.balance p.blinding p.anchor p.is_genesis
        p.state_sig p.state_sig_root

  pub verify_state_sig-ok :
      (s : StateAnchorScheme K) (balance blinding : ℕ) (anchor : Felt252) (genesis : Bool)
      (state_sig : Option Sig) (root : Felt252)
      → IsSigned s.protocol_version s.chain_id s.contract balance blinding anchor genesis state_sig
          root
      → verify_state_sig protocol s balance blinding anchor genesis state_sig root ≡ ok tt
  unfolding verify_state_sig state_message commitment_coords
  verify_state_sig-ok s balance blinding anchor true state_sig root h = refl
  verify_state_sig-ok s balance blinding anchor false none root h = absurd h
  verify_state_sig-ok s balance blinding anchor false (some sig) root h =
      rw (verify_state_sig, h) refl

  verify_state_sig-IsSigned :
      (s : StateAnchorScheme K) (balance blinding : ℕ) (anchor : Felt252) (genesis : Bool)
      (state_sig : Option Sig) (root : Felt252)
      → verify_state_sig protocol s balance blinding anchor genesis state_sig root ≡ ok tt
      → IsSigned s.protocol_version s.chain_id s.contract balance blinding anchor genesis state_sig
          root
  unfolding verify_state_sig state_message commitment_coords
  verify_state_sig-IsSigned s balance blinding anchor true state_sig root h = tt
  verify_state_sig-IsSigned s balance blinding anchor false none root h = cc
  verify_state_sig-IsSigned s balance blinding anchor false (some sig) root h =
      elim (Bool-cases
        (protocol.xmss_verify root (state_message protocol s balance blinding anchor) sig)) [
          | inl accepts ↦ accepts
          | inr refuses ↦ let x = rw refuses at h in cc
        ]

  abbrev pub is_spent : StateAnchorPresentation Sig → StateAnchorScheme K → Bool
  is_spent p s = contains p.nullifier s.spent

  -- What is accepted is signed and unspent, and what is refused changes nothing.
  spend-IsAuthentic :
      (p : StateAnchorPresentation Sig) (t : Felt252) (r : AuthResult Unit)
      (s s_next : StateAnchorScheme K)
      → spend protocol p r s ≡ (ok t, s_next)
      → (r ≡ ok tt) × (is_spent p s ≡ false)
  spend-IsAuthentic p t (err e) s s_next h = cc
  spend-IsAuthentic p t (ok tt) s s_next h = elim (Bool-cases (contains p.nullifier s.spent)) [
    | inl spent ↦ let x = rw spent at h in cc
    | inr fresh ↦ (refl, fresh)
  ]

  spend-err :
      (p : StateAnchorPresentation Sig) (e : AuthError) (r : AuthResult Unit)
      (s s_next : StateAnchorScheme K)
      → spend protocol p r s ≡ (err e, s_next)
      → s_next ≡ s
  spend-err p e (err found) s s_next h = cc
  spend-err p e (ok tt) s s_next h = elim (Bool-cases (contains p.nullifier s.spent)) [
    | inl spent ↦ let x = rw spent at h in cc
    | inr fresh ↦ let x = rw fresh at h in cc
  ]

  pub verify-IsAuthentic :
      (p : StateAnchorPresentation Sig) (t : Felt252) (s s_next : StateAnchorScheme K)
      → verify protocol p s ≡ (ok t, s_next)
      → IsAuthentic p s × (is_spent p s ≡ false)
  unfolding verify
  verify-IsAuthentic p t s s_next h =
      let found =
        spend-IsAuthentic p t
          (verify_state_sig protocol s p.balance p.blinding p.anchor p.is_genesis p.state_sig
            p.state_sig_root)
          s s_next h in
      (
        verify_state_sig-IsSigned s p.balance p.blinding p.anchor p.is_genesis p.state_sig
            p.state_sig_root found.0,
        found.1,
      )

  pub verify-err :
      (p : StateAnchorPresentation Sig) (e : AuthError) (s s_next : StateAnchorScheme K)
      → verify protocol p s ≡ (err e, s_next)
      → s_next ≡ s
  unfolding verify
  verify-err p e s s_next h = spend-err p e _ s s_next h
