-- ===== src/Auth/AnchorLaws.antt =====
-- The state-anchor scheme keeps the contract.

use zkapi_ef_collab.Base.{
  ℕ, ◌+◌, ◌-◌, ◌∷◌, true, false, ltb, ◌!=◌, nat_eq, Option, none, some, ◌≡◌, ◌≤◌, refl, arith, ap,
  sym, ◌∙◌, subst, Bool-cases, inl, inr,
}
use zkapi_ef_collab.Server.Wire.{Felt252, zero_felt}
use zkapi_ef_collab.Auth.Defs.{Draws, ok, err, replay, contains, contains_self, settled, settled-ok}
use zkapi_ef_collab.Auth.Contract.{IsScheme}
use zkapi_ef_collab.Auth.Anchor.{
  Protocol, StateAnchorCredential, StateAnchorPresentation, StateAnchorScheme, state_message,
  commitment_coords, issue, presented, random_scalar, next_credential, signed, authenticate, verify,
  apply_charge, verify_withdrawal, anchor_scheme,
}
use zkapi_ef_collab.Auth.AnchorChecks.{
  IsGenuine, IsAuthentic, is_spent, verify_state_sig-ok, verify-IsAuthentic, verify-err,
}

-- XMSS: a signature verifies under the root of the key that made it, whatever epoch it is marked
-- with.
pub record IsXmss {K Sig : Type 0} (protocol : Protocol K Sig) : Type 0 where
  pub verify-sign :
      (message : Felt252) (k k_next : K) (sig : Sig) (index epoch : ℕ)
      → protocol.sign message k ≡ (some (sig, index), k_next)
      → protocol.xmss_verify (protocol.root_felt k_next) message (protocol.with_epoch epoch sig)
        ≡ true

module _ {K Sig : Type 0} (protocol : Protocol K Sig) where
  abbrev pub amount : StateAnchorPresentation Sig → ℕ
  amount p = p.balance

  -- A first credential is issued under any draws.
  abbrev pub IsIssuable : Draws → Felt252 → ℕ → StateAnchorScheme K → Type 0
  IsIssuable draws secret balance s = Unit

  abbrev first_credential : Draws → Felt252 → ℕ → StateAnchorCredential Sig
  first_credential draws secret balance = record {
    secret = protocol.field_to_felt secret;
    balance = balance;
    blinding = random_scalar protocol (draws 0);
    anchor = protocol.genesis_anchor;
    is_genesis = true;
    state_sig = none;
    state_sig_root = zero_felt;
  }

  abbrev token : StateAnchorCredential Sig → Felt252
  token c = protocol.felt_to_field (protocol.compute_nullifier c.secret c.anchor)

  abbrev pub Presents : StateAnchorCredential Sig → StateAnchorPresentation Sig → Felt252 → Type 0
  Presents c p t = (r : ℕ) × (p ≡ presented protocol c r) × (t ≡ token c)

  abbrev next_message :
      StateAnchorCredential Sig → StateAnchorPresentation Sig → ℕ → StateAnchorScheme K → Felt252
  next_message c p charge s =
      let next = next_credential protocol c p charge s in
      state_message protocol s next.balance next.blinding next.anchor

  -- The signer has a leaf left, and signs under the next one.
  abbrev pub IsProper :
      Draws
      → StateAnchorCredential Sig
      → StateAnchorPresentation Sig
      → ℕ
      → StateAnchorScheme K
      → Type 0
  IsProper draws c p charge s =
      (sig : Sig) × (k : K) × (protocol.sign (next_message c p charge s) s.signer
        ≡ (some (sig, protocol.next_index s.signer), k))

  abbrev charged :
      StateAnchorCredential Sig
      → StateAnchorPresentation Sig
      → ℕ
      → StateAnchorScheme K
      → Sig
      → K
      → StateAnchorCredential Sig
  charged c p charge s sig k = record (next_credential protocol c p charge s) {
    state_sig = some (protocol.with_epoch s.epoch sig);
    state_sig_root = protocol.root_felt k;
  }

  authenticate-ok :
      (draws : Draws) (c : StateAnchorCredential Sig) (cap : ℕ) (s : StateAnchorScheme K)
      → cap ≤ c.balance
      → authenticate protocol draws c cap s
        ≡ ok (presented protocol c (random_scalar protocol (draws 0)), token c)
  unfolding authenticate
  authenticate-ok draws c cap s le =
      let enough : ltb c.balance cap ≡ false = ground arith in rw (authenticate, enough) refl

  verify-ok :
      (c : StateAnchorCredential Sig) (r : ℕ) (s : StateAnchorScheme K)
      → IsGenuine protocol c s
      → contains (protocol.compute_nullifier c.secret c.anchor) s.spent ≡ false
      → verify protocol (presented protocol c r) s ≡ (
        ok (token c),
        record s { spent = protocol.compute_nullifier c.secret c.anchor ∷ s.spent },
      )
  unfolding verify
  verify-ok c r s genuine fresh =
      let passed =
        verify_state_sig-ok protocol s c.balance c.blinding c.anchor c.is_genesis c.state_sig
          c.state_sig_root genuine in
      rw (verify, passed, fresh) refl

  verify-replay :
      (c : StateAnchorCredential Sig) (r : ℕ) (s : StateAnchorScheme K)
      → IsGenuine protocol c s
      → contains (protocol.compute_nullifier c.secret c.anchor) s.spent ≡ true
      → verify protocol (presented protocol c r) s ≡ (err replay, s)
  unfolding verify
  verify-replay c r s genuine spent =
      let passed =
        verify_state_sig-ok protocol s c.balance c.blinding c.anchor c.is_genesis c.state_sig
          c.state_sig_root genuine in
      rw (verify, passed, spent) refl

  charged-ok :
      (draws : Draws) (c : StateAnchorCredential Sig) (p : StateAnchorPresentation Sig) (charge : ℕ)
      (s : StateAnchorScheme K) (sig : Sig) (k : K)
      → charge ≤ c.balance
      → protocol.sign (next_message c p charge s) s.signer
        ≡ (some (sig, protocol.next_index s.signer), k)
      → apply_charge protocol draws c p charge s
        ≡ (ok (charged c p charge s sig k), record s { signer = k })
  unfolding apply_charge
  charged-ok draws c p charge s sig k le e =
      let enough : ltb c.balance charge ≡ false = ground arith in
      let same : (protocol.next_index s.signer != protocol.next_index s.signer) ≡ false =
        ground arith in
      rw (apply_charge, enough, e, same) refl

  -- A signature that the scheme has made passes its check, whatever the credential.
  charged-IsGenuine :
      IsXmss protocol
      → (c : StateAnchorCredential Sig) (p : StateAnchorPresentation Sig) (charge : ℕ)
        (s : StateAnchorScheme K) (sig : Sig) (k : K)
      → protocol.sign (next_message c p charge s) s.signer
        ≡ (some (sig, protocol.next_index s.signer), k)
      → IsGenuine protocol (charged c p charge s sig k) (record s { signer = k })
  unfolding state_message commitment_coords
  charged-IsGenuine laws c p charge s sig k e =
      laws.verify-sign (next_message c p charge s) s.signer k sig (protocol.next_index s.signer)
        s.epoch e

  signed-balance :
      (next c_next : StateAnchorCredential Sig) (s : StateAnchorScheme K) (o : Option (Sig × ℕ) × K)
      → (signed protocol next s o).0 ≡ ok c_next
      → c_next.balance ≡ next.balance
  signed-balance next c_next s (none, k) e = cc
  signed-balance next c_next s (some (sig, index), k) e =
      elim (Bool-cases (index != protocol.next_index s.signer)) [
        | inl moved ↦ let x = rw moved at e in cc
        | inr same ↦
            let x = rw same at e in
            let found : (record next {
              state_sig = some (protocol.with_epoch s.epoch sig);
              state_sig_root = protocol.root_felt k;
            })
                ≡ c_next =
              cc in
            ap (λ (c : StateAnchorCredential Sig). c.balance) (sym found)
      ]

  charged-balance :
      (draws : Draws) (c c_next : StateAnchorCredential Sig) (p : StateAnchorPresentation Sig)
      (charge : ℕ) (s : StateAnchorScheme K)
      → (apply_charge protocol draws c p charge s).0 ≡ ok c_next
      → c_next.balance + charge ≡ c.balance
  unfolding apply_charge
  charged-balance draws c c_next p charge s e = elim (Bool-cases (ltb c.balance charge)) [
    | inl short ↦ let x = rw (apply_charge, short) at e in cc
    | inr enough ↦
        let x = rw (apply_charge, enough) at e in
        let next = next_credential protocol c p charge s in
        let kept : c_next.balance ≡ c.balance - charge =
          signed-balance next c_next s (protocol.sign (next_message c p charge s) s.signer) x in
        let le : charge ≤ c.balance = ground arith in omega arith
  ]

  -- The state-anchor scheme keeps the contract of a credential scheme, for a signer whose
  -- signatures verify, a first opening of a note having no signature: issued credentials are signed,
  -- what verifies or is paid out has a signature on what it shows and an unspent token, pays what it
  -- shows and spends the token, a refusal changes nothing, and charges are taken from the balance.
  pub anchor_scheme-IsScheme :
      IsXmss protocol
      → IsScheme
          (anchor_scheme protocol)
          (IsGenuine protocol)
          (IsAuthentic protocol)
          Presents
          amount
          (is_spent protocol)
          IsIssuable
          IsProper
  unfolding issue authenticate apply_charge verify_withdrawal
  anchor_scheme-IsScheme laws = record {
    issue-ok =
        λ draws secret balance s issuable. (first_credential draws secret balance, refl, refl, tt);
    genuine-IsAuthentic = λ c p t s genuine shown. (
      subst (λ q. IsAuthentic protocol q s) (sym shown.1) genuine,
      ap (λ (q : StateAnchorPresentation Sig). q.balance) shown.1,
    );
    verify-IsAuthentic = λ p t s s_next h. verify-IsAuthentic protocol p t s s_next h;
    verify-err = λ p e s s_next h. verify-err protocol p e s s_next h;
    withdrawal-IsAuthentic = λ p paid t s s_next h.
        let found = settled-ok p.balance paid t s_next (verify protocol p s) h in
        let accepted = verify-IsAuthentic protocol p t s s_next found.0 in
        (accepted.0, accepted.1, found.1);
    authenticate-ok = λ draws c cap s le.
        let r = random_scalar protocol (draws 0) in
        (presented protocol c r, token c, authenticate-ok draws c cap s le, (r, refl, refl));
    authenticate-err = λ draws c cap s lt. ground arith;
    verify-ok = λ c p t s genuine shown fresh.
        let nullifier = protocol.compute_nullifier c.secret c.anchor in
        let next : StateAnchorScheme K = record s { spent = nullifier ∷ s.spent } in
        let unspent =
          ap (λ (q : StateAnchorPresentation Sig). contains q.nullifier s.spent) (sym shown.1)
          ∙ fresh in
        (
          next,
          ap (λ q. verify protocol q s) shown.1
              ∙ verify-ok c shown.0 s genuine unspent
              ∙ ap (λ (x : Felt252). (ok x, next)) (sym shown.2),
          ap (λ (q : StateAnchorPresentation Sig). contains q.nullifier next.spent) shown.1
              ∙ contains_self nullifier s.spent,
          λ d kept. kept,
        );
    verify-replay = λ c p t s genuine shown spent.
        ap (λ q. verify protocol q s) shown.1
        ∙ verify-replay c shown.0 s genuine (
            ap (λ (q : StateAnchorPresentation Sig). contains q.nullifier s.spent) (sym shown.1)
            ∙ spent);
    charge-ok = λ draws c p charge s le proper. (
      charged c p charge s proper.0 proper.1,
      record s { signer = proper.1 },
      charged-ok draws c p charge s proper.0 proper.1 le proper.2,
      charged-IsGenuine laws c p charge s proper.0 proper.1 proper.2,
      λ q spent. spent,
    );
    charge-err = λ draws c p charge s lt. ground arith;
    charge-balance = λ draws c c_next p charge s e. charged-balance draws c c_next p charge s e;
    withdrawal = λ c s. (
      presented protocol c zero_felt,
      token c,
      refl,
      (zero_felt, refl, refl),
      λ s_next e. ap (settled c.balance) e,
    );
  }
