-- ===== src/Tests/Auth.antt =====
-- The theorems on the credential schemes, each at one run: a curve of two points, and an XMSS
-- signer whose signature is the message.
use zkapi_ef_collab.Base.{
  ℕ, suc, ◌+◌, List, [], ◌∷◌, Bool, true, false, not, none, some, ◌==◌, nat_eq, string_eq,
  ℕ_discrete, dec_lt, if◌then◌else◌, ◌≡◌, refl, arith, ap, ◌∙◌,
}
use zkapi_ef_collab.Server.Wire.{Felt252}
use zkapi_ef_collab.Indexer.Poller.Text.{be_value}
use zkapi_ef_collab.Auth.Defs.{CredentialScheme, Draws, ok, err, replay, contains}
use zkapi_ef_collab.Auth.Contract.{IsScheme}
use zkapi_ef_collab.Auth.Scalar.{from_bytes_reduced}
use zkapi_ef_collab.Auth.Multiply.{Curve, IsGroup, scalar_mul, scalar_mul-times}
use zkapi_ef_collab.Auth.Schnorr.{Primitives, from_secret, server_commit, client_blind, verify}
use zkapi_ef_collab.Auth.Complete.{IsCurve, issuance, verify-issuance}
use zkapi_ef_collab.Auth.Blind as Blind
use zkapi_ef_collab.Auth.BlindChecks as BlindChecks
use zkapi_ef_collab.Auth.BlindLaws as BlindLaws
use zkapi_ef_collab.Auth.Anchor as Anchor
use zkapi_ef_collab.Auth.Anchor.{
  Protocol, StateAnchorCredential, StateAnchorPresentation, StateAnchorScheme,
}
use zkapi_ef_collab.Auth.AnchorChecks as AnchorChecks
use zkapi_ef_collab.Auth.AnchorLaws as AnchorLaws
use zkapi_ef_collab.Auth.AnchorLaws.{IsXmss}
use zkapi_ef_collab.Auth.Session.{session}
use zkapi_ef_collab.Auth.AnchorSession.{anchor_request_settles, anchor_session_settles}

abbrev xor : Bool → Bool → Bool
xor true b = not b
xor false b = b

abbrev curve : Curve Bool
curve = record {
  generator = true;
  identity = false;
  add = xor;
  neg = λ p. p;
  x = λ p. if p then 1 else 0;
  is_identity = not;
}

xor_assoc : (p q r : Bool) → xor (xor p q) r ≡ xor p (xor q r)
xor_assoc true true true = refl
xor_assoc true true false = refl
xor_assoc true false r = refl
xor_assoc false q r = refl

xor_comm : (p q : Bool) → xor p q ≡ xor q p
xor_comm true true = refl
xor_comm true false = refl
xor_comm false true = refl
xor_comm false false = refl

xor-identity : (p : Bool) → xor p false ≡ p
xor-identity true = refl
xor-identity false = refl

xor_self : (p : Bool) → xor p p ≡ false
xor_self true = refl
xor_self false = refl

curve-IsGroup : IsGroup curve
curve-IsGroup = record {
  add_assoc = xor_assoc;
  add_comm = xor_comm;
  add-identity = xor-identity;
  add-neg = xor_self;
}

abbrev total : List (List ℕ) → ℕ
total [] = 0
total (part ∷ parts) = be_value 0 part + total parts

-- A digest that adds its pieces, and one more for a serial.
abbrev prims : Primitives Bool
prims = record {
  curve = curve;
  order = 2;
  keccak256 = λ domain parts.
      (if domain == "zkapi.bs.serial.v1" then total parts + 1 else total parts) ∷ [];
  felt_bytes = λ f. f ∷ [];
  u128_bytes = λ n. n ∷ [];
}

prims-IsCurve : IsCurve prims
prims-IsCurve = record {
  group = curve-IsGroup;
  order_positive = omega arith;
  order-le = omega arith;
  order-times = refl;
}

scalar_mul-times_example : scalar_mul curve 2 true 5 ≡ true
scalar_mul-times_example = scalar_mul-times curve curve-IsGroup 2 true 5 (omega arith) (omega arith)

issued_proper : not (issuance prims 1 0 (1 ∷ []) (0 ∷ []) (0 ∷ [])).0.r_prime ≡ false
unfolding from_secret server_commit client_blind scalar_mul from_bytes_reduced be_value ℕ_discrete
issued_proper = refl

verify-issuance_example :
    verify prims (from_secret prims 1).public 0 (issuance prims 1 0 (1 ∷ []) (0 ∷ []) (0 ∷ [])).1
    ≡ true
verify-issuance_example =
    verify-issuance prims prims-IsCurve 1 0 (1 ∷ []) (0 ∷ []) (0 ∷ []) issued_proper

blind_scheme-IsScheme_example :
    IsScheme
      (Blind.blind_scheme prims)
      (BlindChecks.IsGenuine prims)
      (BlindChecks.IsAuthentic prims)
      (BlindLaws.Presents prims)
      (BlindChecks.amount prims)
      (BlindChecks.is_spent prims)
      (BlindLaws.IsIssuable prims)
      (BlindLaws.IsProper prims)
blind_scheme-IsScheme_example = BlindLaws.blind_scheme-IsScheme prims prims-IsCurve

abbrev protocol : Protocol ℕ ℕ
protocol = record {
  order = 2;
  genesis_anchor = 0;
  keccak256 = λ domain parts. total parts ∷ [];
  felt_bytes = λ f. f ∷ [];
  field_to_felt = λ f. f;
  felt_to_field = λ f. f;
  commit = λ balance blinding. (balance, blinding);
  add_blinding = λ a b. a + b;
  compute_nullifier = λ secret anchor. secret + anchor;
  compute_blind_delta = λ rng nullifier index. rng;
  compute_next_anchor = λ rng nullifier x y index. index + 1;
  compute_state_message = λ version chain contract x y anchor. x + y + anchor;
  next_index = λ k. k;
  sign = λ message k. (some (message, k), suc k);
  root_felt = λ k. 0;
  with_epoch = λ epoch sig. sig;
  xmss_verify = λ root message sig. message == sig;
}

protocol-IsXmss : IsXmss protocol
protocol-IsXmss = record {
  verify-sign = λ message k k_next sig index epoch h. let same : message ≡ sig = cc in ground arith;
}

abbrev scheme :
    CredentialScheme (StateAnchorScheme ℕ) (StateAnchorCredential ℕ) (StateAnchorPresentation ℕ)
scheme = Anchor.anchor_scheme protocol

anchor_scheme-IsScheme_example :
    IsScheme
      (Anchor.anchor_scheme protocol)
      (AnchorChecks.IsGenuine protocol)
      (AnchorChecks.IsAuthentic protocol)
      (AnchorLaws.Presents protocol)
      (AnchorLaws.amount protocol)
      (AnchorChecks.is_spent protocol)
      (AnchorLaws.IsIssuable protocol)
      (AnchorLaws.IsProper protocol)
anchor_scheme-IsScheme_example = AnchorLaws.anchor_scheme-IsScheme protocol protocol-IsXmss

-- A deposit of 100 under the secret 3, at a server that has signed nothing.
abbrev deposit : StateAnchorCredential ℕ
deposit = record {
  secret = 3;
  balance = 100;
  blinding = 1;
  anchor = 0;
  is_genesis = true;
  state_sig = none;
  state_sig_root = 0;
}

abbrev server : StateAnchorScheme ℕ
server = Anchor.new_scheme protocol 0 1 1 31337 7

abbrev draws : Draws
draws n = 1 ∷ []

deposit-IsGenuine : AnchorChecks.IsGenuine protocol deposit server
deposit-IsGenuine = tt

always_signs :
    (p : StateAnchorPresentation ℕ) (t : Felt252) (s : StateAnchorScheme ℕ)
    → AnchorLaws.Presents protocol deposit p t
    → scheme.verify p server ≡ (ok t, s)
    → AnchorLaws.IsProper protocol draws deposit p 3 s
always_signs p t s shown verified = (_, _, refl)

none_spent :
    (p : StateAnchorPresentation ℕ) (t : Felt252)
    → AnchorLaws.Presents protocol deposit p t
    → AnchorChecks.is_spent protocol p server ≡ false
unfolding contains
none_spent p t shown = refl

anchor_request_settles_example :
    (p : StateAnchorPresentation ℕ) × (t : Felt252) × (s_verified : StateAnchorScheme ℕ)
    × (c_next : StateAnchorCredential ℕ) × (s_next : StateAnchorScheme ℕ) × (scheme.authenticate
          draws deposit 10 server
        ≡ ok (p, t))
    × (scheme.verify p server ≡ (ok t, s_verified))
    × (scheme.verify p s_verified ≡ (err replay, s_verified))
    × (scheme.apply_charge draws deposit p 3 s_verified ≡ (ok c_next, s_next))
    × (c_next.balance + 3 ≡ 100)
    × AnchorChecks.IsGenuine protocol c_next s_next
    × (AnchorChecks.is_spent protocol p s_next ≡ true)
anchor_request_settles_example =
    anchor_request_settles protocol protocol-IsXmss draws deposit 10 3 server deposit-IsGenuine
      (omega arith) (omega arith) none_spent always_signs

-- The end of one request of 3.
abbrev last : ℕ × StateAnchorCredential ℕ × StateAnchorScheme ℕ
last = session scheme ((draws, 10, 3) ∷ []) deposit server

last-IsGenuine : AnchorChecks.IsGenuine protocol last.1 last.2
unfolding Anchor.verify_state_sig Anchor.authenticate Anchor.verify Anchor.apply_charge
    Anchor.state_message Anchor.commitment_coords Anchor.server_rng from_bytes_reduced be_value
    contains ℕ_discrete dec_lt
last-IsGenuine = refl

last-spent : last.2.spent ≡ 3 ∷ []
unfolding Anchor.verify_state_sig Anchor.authenticate Anchor.verify Anchor.apply_charge
    Anchor.state_message Anchor.commitment_coords Anchor.server_rng from_bytes_reduced be_value
    contains ℕ_discrete dec_lt
last-spent = refl

last-nullifier : protocol.compute_nullifier last.1.secret last.1.anchor ≡ 4
unfolding Anchor.verify_state_sig Anchor.authenticate Anchor.verify Anchor.apply_charge
    Anchor.state_message Anchor.commitment_coords Anchor.server_rng from_bytes_reduced be_value
    contains ℕ_discrete dec_lt
last-nullifier = refl

last_unspent :
    (p : StateAnchorPresentation ℕ) (t : Felt252)
    → AnchorLaws.Presents protocol last.1 p t
    → AnchorChecks.is_spent protocol p last.2 ≡ false
unfolding contains ℕ_discrete
last_unspent p t shown =
    ap (λ (q : StateAnchorPresentation ℕ). contains q.nullifier last.2.spent) shown.1
    ∙ ap (λ n. contains n last.2.spent) last-nullifier
    ∙ ap (contains 4) last-spent

anchor_session_settles_example :
    (w : StateAnchorPresentation ℕ) × (paid : ℕ) × (t : Felt252) × (s_next : StateAnchorScheme ℕ)
    × (scheme.build_withdrawal last.1 last.2 ≡ ok w)
    × (scheme.verify_withdrawal w last.2 ≡ (ok (paid, t), s_next))
    × (paid + last.0 ≡ 100)
anchor_session_settles_example =
    anchor_session_settles protocol protocol-IsXmss ((draws, 10, 3) ∷ []) deposit server
      last-IsGenuine last_unspent

-- An opening of a million that nobody signed.
abbrev forged : StateAnchorPresentation ℕ
forged = record {
  balance = 1_000_000;
  blinding = 0;
  user_rerand = 0;
  anchor = 5;
  nullifier = 9;
  is_genesis = true;
  state_sig = none;
  state_sig_root = 0;
}
