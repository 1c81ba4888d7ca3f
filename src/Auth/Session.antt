-- ===== src/Auth/Session.antt =====
-- A client's requests under any scheme that keeps the contract: authenticate, verify, charge, and
-- in the end the withdrawal.

use zkapi_ef_collab.Base.{ℕ, Bool, ◌+◌, List, [], ◌∷◌, true, false, ◌≡◌, ◌≤◌, refl, arith, ap}
use zkapi_ef_collab.Server.Wire.{Felt252}
use zkapi_ef_collab.Auth.Defs.{AuthResult, CredentialScheme, Draws, ok, err, replay}
use zkapi_ef_collab.Auth.Contract.{IsScheme}

module _ {S C P : Type 0} (scheme : CredentialScheme S C P) where
  -- The end of one request: what was charged, the credential and the state. A request that is
  -- refused charges nothing and leaves the client its credential.
  abbrev after_charge : ℕ → C → AuthResult C × S → ℕ × C × S
  after_charge charge c (err e, s) = (0, c, s)
  after_charge charge c (ok c_next, s) = (charge, c_next, s)

  abbrev after_verify : Draws → ℕ → C → P → AuthResult Felt252 × S → ℕ × C × S
  after_verify draws charge c p (err e, s) = (0, c, s)
  after_verify draws charge c p (ok t, s) =
      after_charge charge c (scheme.apply_charge draws c p charge s)

  abbrev after_authenticate : Draws → ℕ → C → S → AuthResult (P × Felt252) → ℕ × C × S
  after_authenticate draws charge c s (err e) = (0, c, s)
  after_authenticate draws charge c s (ok (p, t)) =
      after_verify draws charge c p (scheme.verify p s)

  -- Requests with their draws, caps and charges: the sum of what was charged, and the end.
  abbrev pub session : List (Draws × ℕ × ℕ) → C → S → ℕ × C × S
  session [] c s = (0, c, s)
  session ((draws, cap, charge) ∷ requests) c s =
      let first = after_authenticate draws charge c s (scheme.authenticate draws c cap s) in
      let rest = session requests first.1 first.2 in (first.0 + rest.0, rest.1, rest.2)

module _ {S C P : Type 0} (scheme : CredentialScheme S C P) {IsGenuine : C → S → Type 0}
    {IsAuthentic : P → S → Type 0} {Presents : C → P → Felt252 → Type 0} {amount : P → ℕ}
    {is_spent : P → S → Bool} {IsIssuable : Draws → Felt252 → ℕ → S → Type 0}
    {IsProper : Draws → C → P → ℕ → S → Type 0}
    (laws : IsScheme scheme IsGenuine IsAuthentic Presents amount is_spent IsIssuable
      IsProper) where
  -- A request of a genuine credential whose token is unspent, charged at most its cap, is
  -- authenticated and verified under the same token, and refused as a replay from then on. If the
  -- next credential can be signed after that, it is genuine and its balance is less by the charge.
  pub request_settles :
      (draws : Draws) (c : C) (cap charge : ℕ) (s : S)
      → IsGenuine c s
      → charge ≤ cap
      → cap ≤ scheme.balance c
      → ((p : P) (t : Felt252) → Presents c p t → is_spent p s ≡ false)
      → ((p : P) (t : Felt252) (s_now : S)
          → Presents c p t
          → scheme.verify p s ≡ (ok t, s_now)
          → IsProper draws c p charge s_now)
      → (p : P) × (t : Felt252) × (s_verified : S) × (c_next : C) × (s_next : S)
        × (scheme.authenticate draws c cap s ≡ ok (p, t))
        × (scheme.verify p s ≡ (ok t, s_verified))
        × (scheme.verify p s_verified ≡ (err replay, s_verified))
        × (scheme.apply_charge draws c p charge s_verified ≡ (ok c_next, s_next))
        × (scheme.balance c_next + charge ≡ scheme.balance c)
        × IsGenuine c_next s_next
        × (is_spent p s_next ≡ true)
  request_settles draws c cap charge s genuine within le fresh proper =
      let shown = laws.authenticate-ok draws c cap s le in
      let p = shown.0 in
      let t = shown.1 in
      let verified = laws.verify-ok c p t s genuine shown.3 (fresh p t shown.3) in
      let charged =
        laws.charge-ok draws c p charge verified.0 (omega arith)
          (proper p t verified.0 shown.3 verified.1) in
      (
        p,
        t,
        verified.0,
        charged.0,
        charged.1,
        shown.2,
        verified.1,
        laws.verify-replay c p t verified.0 (verified.3 c genuine) shown.3 verified.2,
        charged.2,
        laws.charge-balance draws c charged.0 p charge verified.0
            (ap (λ (r : AuthResult C × S). r.0) charged.2),
        charged.3,
        charged.4 p verified.2,
      )

  after_charge-balance :
      (draws : Draws) (charge : ℕ) (c : C) (p : P) (s : S) (r : AuthResult C × S)
      → scheme.apply_charge draws c p charge s ≡ r
      → scheme.balance (after_charge scheme charge c r).1 + (after_charge scheme charge c r).0
        ≡ scheme.balance c
  after_charge-balance draws charge c p s (err e, s_next) h = omega arith
  after_charge-balance draws charge c p s (ok c_next, s_next) h =
      laws.charge-balance draws c c_next p charge s (ap (λ (r : AuthResult C × S). r.0) h)

  after_verify-balance :
      (draws : Draws) (charge : ℕ) (c : C) (p : P) (r : AuthResult Felt252 × S)
      → scheme.balance (after_verify scheme draws charge c p r).1
          + (after_verify scheme draws charge c p r).0
        ≡ scheme.balance c
  after_verify-balance draws charge c p (err e, s) = omega arith
  after_verify-balance draws charge c p (ok t, s) =
      after_charge-balance draws charge c p s (scheme.apply_charge draws c p charge s) refl

  after_authenticate-balance :
      (draws : Draws) (charge : ℕ) (c : C) (s : S) (r : AuthResult (P × Felt252))
      → scheme.balance (after_authenticate scheme draws charge c s r).1
          + (after_authenticate scheme draws charge c s r).0
        ≡ scheme.balance c
  after_authenticate-balance draws charge c s (err e) = omega arith
  after_authenticate-balance draws charge c s (ok (p, t)) =
      after_verify-balance draws charge c p (scheme.verify p s)

  session-balance :
      (requests : List (Draws × ℕ × ℕ)) (c : C) (s : S)
      → scheme.balance (session scheme requests c s).1 + (session scheme requests c s).0
        ≡ scheme.balance c
  session-balance [] c s = omega arith
  session-balance ((draws, cap, charge) ∷ requests) c s =
      let r = scheme.authenticate draws c cap s in
      let first = after_authenticate scheme draws charge c s r in
      let head = after_authenticate-balance draws charge c s r in
      let tail = session-balance requests first.1 first.2 in omega arith

  -- After any requests, accepted or refused, the withdrawal of a genuine credential whose token is
  -- unspent is settled, and what it pays and what was charged make up the balance at the start.
  pub session_settles :
      (requests : List (Draws × ℕ × ℕ)) (c : C) (s : S)
      → let last = session scheme requests c s in
        IsGenuine last.1 last.2
        → ((p : P) (t : Felt252) → Presents last.1 p t → is_spent p last.2 ≡ false)
        → (w : P) × (paid : ℕ) × (t : Felt252) × (s_next : S) × (scheme.build_withdrawal last.1
              last.2
            ≡ ok w)
          × (scheme.verify_withdrawal w last.2 ≡ (ok (paid, t), s_next))
          × (paid + last.0 ≡ scheme.balance c)
  session_settles requests c s genuine fresh =
      let last = session scheme requests c s in
      let shown = laws.withdrawal last.1 last.2 in
      let verified =
        laws.verify-ok last.1 shown.0 shown.1 last.2 genuine shown.3
          (fresh shown.0 shown.1 shown.3) in
      (
        shown.0,
        scheme.balance last.1,
        shown.1,
        verified.0,
        shown.2,
        shown.4 verified.0 verified.1,
        session-balance requests c s,
      )
