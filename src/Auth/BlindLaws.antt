-- ===== src/Auth/BlindLaws.antt =====
-- The blind-signature scheme keeps the contract.

use zkapi_ef_collab.Base.{
  ℕ, ◌+◌, ◌-◌, ◌∷◌, true, false, ltb, nat_eq, ◌≡◌, ◌≤◌, refl, arith, ap, sym, ◌∙◌, subst,
  Bool-cases, inl, inr,
}
use zkapi_ef_collab.Server.Wire.{Felt252}
use zkapi_ef_collab.Auth.Defs.{
  AuthResult, Draws, ok, err, replay, contains, contains_self, settled, settled-ok,
}
use zkapi_ef_collab.Auth.Contract.{IsScheme}
use zkapi_ef_collab.Auth.Schnorr as Schnorr
use zkapi_ef_collab.Auth.Schnorr.{Primitives, Signature, from_secret}
use zkapi_ef_collab.Auth.Complete.{IsCurve, issuance, verify-issuance}
use zkapi_ef_collab.Auth.Blind.{
  BlindCredential, BlindPresentation, BlindSignatureScheme, credential_message, first_serial,
  next_serial, issue, blind_issue, presented, authenticate, verify, apply_charge, verify_withdrawal,
  blind_scheme,
}
use zkapi_ef_collab.Auth.BlindChecks.{
  IsGenuine, IsAuthentic, amount, is_spent, signature-ok, signature-IsSignature, verify-IsAuthentic,
  verify-err,
}

module _ {P : Type 0} (prims : Primitives P) where
  abbrev pub Presents : BlindCredential → BlindPresentation → Felt252 → Type 0
  Presents c p t = (p ≡ presented c) × (t ≡ c.serial)

  -- The key comes from a secret, and the blinded commitment of the draws is not the identity.
  abbrev CanSign : Draws → ℕ → Felt252 → BlindSignatureScheme P → Type 0
  CanSign draws balance serial s =
      (secret : Felt252) × (s.key ≡ from_secret prims secret)
      × (prims.curve.is_identity
            (issuance prims secret (credential_message prims balance serial) (draws 0) (draws 1)
              (draws 2)).0.r_prime
          ≡ false)

  abbrev pub IsIssuable : Draws → Felt252 → ℕ → BlindSignatureScheme P → Type 0
  IsIssuable draws secret balance s = CanSign draws balance (first_serial prims secret) s

  abbrev pub IsProper :
      Draws → BlindCredential → BlindPresentation → ℕ → BlindSignatureScheme P → Type 0
  IsProper draws c p charge s = CanSign draws (c.balance - charge) (next_serial prims c.serial) s

  abbrev signed_credential : Draws → ℕ → Felt252 → BlindSignatureScheme P → BlindCredential
  signed_credential draws balance serial s = record {
    balance = balance;
    serial = serial;
    signature = blind_issue prims s.key (credential_message prims balance serial) draws;
  }

  abbrev charged : Draws → BlindCredential → ℕ → BlindSignatureScheme P → BlindCredential
  charged draws c charge s =
      signed_credential draws (c.balance - charge) (next_serial prims c.serial) s

  authenticate-ok :
      (draws : Draws) (c : BlindCredential) (cap : ℕ) (s : BlindSignatureScheme P)
      → cap ≤ c.balance
      → authenticate prims draws c cap s ≡ ok (presented c, c.serial)
  unfolding authenticate
  authenticate-ok draws c cap s le =
      let enough : ltb c.balance cap ≡ false = ground arith in rw (authenticate, enough) refl

  verify-ok :
      (c : BlindCredential) (s : BlindSignatureScheme P)
      → IsGenuine prims c s
      → contains c.serial s.spent ≡ false
      → verify prims (presented c) s ≡ (ok c.serial, record s { spent = c.serial ∷ s.spent })
  unfolding verify credential_message
  verify-ok c s genuine fresh =
      rw (verify, signature-ok prims s.key.public _ c.signature genuine, fresh) refl

  verify-replay :
      (c : BlindCredential) (s : BlindSignatureScheme P)
      → IsGenuine prims c s
      → contains c.serial s.spent ≡ true
      → verify prims (presented c) s ≡ (err replay, s)
  unfolding verify credential_message
  verify-replay c s genuine spent =
      rw (verify, signature-ok prims s.key.public _ c.signature genuine, spent) refl

  charged-ok :
      (draws : Draws) (c : BlindCredential) (p : BlindPresentation) (charge : ℕ)
      (s : BlindSignatureScheme P)
      → charge ≤ c.balance
      → apply_charge prims draws c p charge s ≡ (ok (charged draws c charge s), s)
  unfolding apply_charge
  charged-ok draws c p charge s le =
      let enough : ltb c.balance charge ≡ false = ground arith in rw (apply_charge, enough) refl

  signed_credential-IsGenuine :
      IsCurve prims
      → (draws : Draws) (balance : ℕ) (serial : Felt252) (s : BlindSignatureScheme P)
      → CanSign draws balance serial s
      → IsGenuine prims (signed_credential draws balance serial s) s
  unfolding blind_issue credential_message
  signed_credential-IsGenuine laws draws balance serial s proper =
      let message = credential_message prims balance serial in
      signature-IsSignature prims s.key.public message (blind_issue prims s.key message draws) (
        subst
          (λ key.
            Schnorr.verify prims key.public message (blind_issue prims key message draws) ≡ true)
          (sym proper.1)
          (verify-issuance prims laws proper.0 message (draws 0) (draws 1) (draws 2) proper.2))

  charged-balance :
      (draws : Draws) (c c_next : BlindCredential) (p : BlindPresentation) (charge : ℕ)
      (s : BlindSignatureScheme P)
      → (apply_charge prims draws c p charge s).0 ≡ ok c_next
      → c_next.balance + charge ≡ c.balance
  unfolding apply_charge
  charged-balance draws c c_next p charge s e = elim (Bool-cases (ltb c.balance charge)) [
    | inl short ↦ let x = rw (apply_charge, short) at e in cc
    | inr enough ↦
        let le : charge ≤ c.balance = ground arith in
        let same : ok (charged draws c charge s) ≡ ok c_next =
          ap (λ (r : AuthResult BlindCredential × BlindSignatureScheme P). r.0)
            (sym (charged-ok draws c p charge s le))
          ∙ e in
        let next : charged draws c charge s ≡ c_next = cc in
        ap (λ (d : BlindCredential). d.balance + charge) (sym next) ∙ omega arith
  ]

  -- The blind-signature scheme keeps the contract of a credential scheme, over a curve that is a
  -- group of the given order: issued credentials are signed, what verifies or is paid out has a
  -- signature on what it shows and an unspent token, pays what it shows and spends the token, a
  -- refusal changes nothing, and charges are taken from the balance.
  pub blind_scheme-IsScheme :
      IsCurve prims
      → IsScheme
          (blind_scheme prims)
          (IsGenuine prims)
          (IsAuthentic prims)
          Presents
          (amount prims)
          (is_spent prims)
          IsIssuable
          IsProper
  unfolding issue authenticate apply_charge verify_withdrawal
  blind_scheme-IsScheme laws = record {
    issue-ok = λ draws secret balance s issuable.
        let serial = first_serial prims secret in
        (
          signed_credential draws balance serial s,
          refl,
          refl,
          signed_credential-IsGenuine laws draws balance serial s issuable,
        );
    genuine-IsAuthentic = λ c p t s genuine shown. (
      subst (λ q. IsAuthentic prims q s) (sym shown.0) genuine,
      ap (λ (q : BlindPresentation). q.balance) shown.0,
    );
    verify-IsAuthentic = λ p t s s_next h. verify-IsAuthentic prims p t s s_next h;
    verify-err = λ p e s s_next h. verify-err prims p e s s_next h;
    withdrawal-IsAuthentic = λ p paid t s s_next h.
        let found = settled-ok p.balance paid t s_next (verify prims p s) h in
        let accepted = verify-IsAuthentic prims p t s s_next found.0 in
        (accepted.0, accepted.1, found.1);
    authenticate-ok =
        λ draws c cap s le. (presented c, c.serial, authenticate-ok draws c cap s le, (refl, refl));
    authenticate-err = λ draws c cap s lt. ground arith;
    verify-ok = λ c p t s genuine shown fresh.
        let next : BlindSignatureScheme P = record s { spent = c.serial ∷ s.spent } in
        let unspent =
          ap (λ (q : BlindPresentation). contains q.serial s.spent) (sym shown.0) ∙ fresh in
        (
          next,
          ap (λ q. verify prims q s) shown.0
              ∙ verify-ok c s genuine unspent
              ∙ ap (λ (x : Felt252). (ok x, next)) (sym shown.1),
          ap (λ (q : BlindPresentation). contains q.serial next.spent) shown.0
              ∙ contains_self c.serial s.spent,
          λ d kept. kept,
        );
    verify-replay = λ c p t s genuine shown spent.
        ap (λ q. verify prims q s) shown.0
        ∙ verify-replay c s genuine
            (ap (λ (q : BlindPresentation). contains q.serial s.spent) (sym shown.0) ∙ spent);
    charge-ok = λ draws c p charge s le proper. (
      charged draws c charge s,
      s,
      charged-ok draws c p charge s le,
      signed_credential-IsGenuine laws draws (c.balance - charge) (next_serial prims c.serial) s
          proper,
      λ q spent. spent,
    );
    charge-err = λ draws c p charge s lt. ground arith;
    charge-balance = λ draws c c_next p charge s e. charged-balance draws c c_next p charge s e;
    withdrawal =
        λ c s. (presented c, c.serial, refl, (refl, refl), λ s_next e. ap (settled c.balance) e);
  }
