-- ===== src/Auth/AnchorSession.antt =====
-- A client of the state-anchor scheme (zkapi-auth/src/state_anchor.rs).

use zkapi_ef_collab.Base.{ℕ, ◌+◌, List, true, false, ◌≡◌, ◌≤◌}
use zkapi_ef_collab.Server.Wire.{Felt252}
use zkapi_ef_collab.Auth.Defs.{Draws, ok, err, replay}
use zkapi_ef_collab.Auth.Anchor.{
  Protocol, StateAnchorCredential, StateAnchorPresentation, StateAnchorScheme, authenticate, verify,
  apply_charge, verify_withdrawal, anchor_scheme,
}
use zkapi_ef_collab.Auth.AnchorChecks.{IsGenuine, is_spent}
use zkapi_ef_collab.Auth.AnchorLaws.{IsXmss, IsProper, Presents, anchor_scheme-IsScheme}
use zkapi_ef_collab.Auth.Session.{session, request_settles, session_settles}

module _ {K Sig : Type 0} (protocol : Protocol K Sig) (laws : IsXmss protocol) where
  -- A request of a genuine credential whose nullifier is unspent, with a cap of at most its balance
  -- and a charge of at most the cap, at a signer that has a leaf left: it is authenticated and
  -- verified under the same token and refused as a replay from then on; the next credential is
  -- genuine, its balance is less by the charge, and the nullifier stays spent.
  pub anchor_request_settles :
      (draws : Draws) (c : StateAnchorCredential Sig) (cap charge : ℕ) (s : StateAnchorScheme K)
      → IsGenuine protocol c s
      → charge ≤ cap
      → cap ≤ c.balance
      → ((p : StateAnchorPresentation Sig) (t : Felt252)
          → Presents protocol c p t
          → is_spent protocol p s ≡ false)
      → ((p : StateAnchorPresentation Sig) (t : Felt252) (s_now : StateAnchorScheme K)
          → Presents protocol c p t
          → verify protocol p s ≡ (ok t, s_now)
          → IsProper protocol draws c p charge s_now)
      → (p : StateAnchorPresentation Sig) × (t : Felt252) × (s_verified : StateAnchorScheme K)
        × (c_next : StateAnchorCredential Sig) × (s_next : StateAnchorScheme K) × (authenticate
              protocol draws c cap s
            ≡ ok (p, t))
        × (verify protocol p s ≡ (ok t, s_verified))
        × (verify protocol p s_verified ≡ (err replay, s_verified))
        × (apply_charge protocol draws c p charge s_verified ≡ (ok c_next, s_next))
        × (c_next.balance + charge ≡ c.balance)
        × IsGenuine protocol c_next s_next
        × (is_spent protocol p s_next ≡ true)
  anchor_request_settles =
      request_settles (anchor_scheme protocol) (anchor_scheme-IsScheme protocol laws)

  -- After any requests, accepted or refused, the withdrawal of a genuine credential whose nullifier
  -- is unspent is settled, and what it pays and what was charged make up the balance at the start.
  pub anchor_session_settles :
      (requests : List (Draws × ℕ × ℕ)) (c : StateAnchorCredential Sig) (s : StateAnchorScheme K)
      → let last = session (anchor_scheme protocol) requests c s in
        IsGenuine protocol last.1 last.2
        → ((p : StateAnchorPresentation Sig) (t : Felt252)
            → Presents protocol last.1 p t
            → is_spent protocol p last.2 ≡ false)
        → (w : StateAnchorPresentation Sig) × (paid : ℕ) × (t : Felt252)
          × (s_next : StateAnchorScheme K) × ((anchor_scheme protocol).build_withdrawal last.1
                last.2
              ≡ ok w)
          × (verify_withdrawal protocol w last.2 ≡ (ok (paid, t), s_next))
          × (paid + last.0 ≡ c.balance)
  anchor_session_settles =
      session_settles (anchor_scheme protocol) (anchor_scheme-IsScheme protocol laws)
