-- ===== src/Auth/Anchor.antt =====
-- zkapi-auth/src/state_anchor.rs: StateAnchorScheme. The commitments, the hashes, and the XMSS
-- signer of the protocol crates are parameters; the set of spent nullifiers is a list.

use zkapi_ef_collab.Base.{
  ℕ, String, ◌-◌, List, [], ◌∷◌, Bool, true, false, not, ltb, ◌!=◌, nat_eq, Option, none, some,
  if◌then◌else◌,
}
use zkapi_ef_collab.Server.Wire.{Felt252, zero_felt}
use zkapi_ef_collab.Auth.Defs.{
  AuthResult, CredentialScheme, Draws, ok, err, verification_failed, insufficient_balance, replay,
  crypto, state_anchor, contains, settled,
}
use zkapi_ef_collab.Auth.Scalar as Scalar

-- What the scheme takes from the protocol crates. `K` is the state of an XMSS key pair.
pub record Protocol (K Sig : Type 0) : Type 0 where
  pub order : ℕ
  pub genesis_anchor : Felt252
  pub keccak256 : String → List (List ℕ) → List ℕ
  pub felt_bytes : Felt252 → List ℕ
  pub field_to_felt : Felt252 → Felt252
  pub felt_to_field : Felt252 → Felt252
  -- The affine coordinates of `PedersenCommitment::commit`, and `add_blinding`.
  pub commit : ℕ → ℕ → Felt252 × Felt252
  pub add_blinding : ℕ → ℕ → ℕ
  pub compute_nullifier : Felt252 → Felt252 → Felt252
  pub compute_blind_delta : Felt252 → Felt252 → ℕ → Felt252
  pub compute_next_anchor : Felt252 → Felt252 → Felt252 → Felt252 → ℕ → Felt252
  pub compute_state_message : ℕ → ℕ → Felt252 → Felt252 → Felt252 → Felt252 → Felt252
  pub next_index : K → ℕ
  pub sign : Felt252 → K → Option (Sig × ℕ) × K
  pub root_felt : K → Felt252
  pub with_epoch : ℕ → Sig → Sig
  pub xmss_verify : Felt252 → Felt252 → Sig → Bool

pub record StateAnchorCredential (Sig : Type 0) : Type 0 where
  pub secret : Felt252
  pub balance : ℕ
  pub blinding : ℕ
  pub anchor : Felt252
  pub is_genesis : Bool
  pub state_sig : Option Sig
  pub state_sig_root : Felt252

pub record StateAnchorPresentation (Sig : Type 0) : Type 0 where
  pub balance : ℕ
  pub blinding : ℕ
  pub user_rerand : ℕ
  pub anchor : Felt252
  pub nullifier : Felt252
  pub is_genesis : Bool
  pub state_sig : Option Sig
  pub state_sig_root : Felt252

pub record StateAnchorScheme (K : Type 0) : Type 0 where
  pub signer : K
  pub epoch : ℕ
  pub protocol_version : ℕ
  pub chain_id : ℕ
  pub contract : Felt252
  pub spent : List Felt252

module _ {K Sig : Type 0} (protocol : Protocol K Sig) where
  open protocol use {
    order, keccak256, felt_bytes, field_to_felt, felt_to_field, commit, add_blinding,
    compute_nullifier, compute_next_anchor, compute_blind_delta, compute_state_message, next_index,
    sign, root_felt, with_epoch, xmss_verify, genesis_anchor,
  }

  abbrev pub new_scheme : K → ℕ → ℕ → ℕ → Felt252 → StateAnchorScheme K
  new_scheme signer epoch protocol_version chain_id contract = record {
    signer = signer;
    epoch = epoch;
    protocol_version = protocol_version;
    chain_id = chain_id;
    contract = contract;
    spent = [];
  }

  unfoldable pub commitment_coords : ℕ → ℕ → Felt252 × Felt252
  commitment_coords balance blinding =
      let point = commit balance blinding in (field_to_felt point.0, field_to_felt point.1)

  unfoldable pub server_rng : Felt252 → ℕ → Felt252
  server_rng nullifier tag = field_to_felt (
      Scalar.from_bytes_reduced order
        (keccak256 "zkapi.sa.srv-rng.v1" ((tag ∷ []) ∷ felt_bytes nullifier ∷ [])))

  -- The message of `compute_state_message` over the commitment that an opening gives.
  unfoldable pub state_message : StateAnchorScheme K → ℕ → ℕ → Felt252 → Felt252
  state_message s balance blinding anchor =
      let coords = commitment_coords balance blinding in
      compute_state_message s.protocol_version s.chain_id s.contract coords.0 coords.1 anchor

  unfoldable pub verify_state_sig :
      StateAnchorScheme K → ℕ → ℕ → Felt252 → Bool → Option Sig → Felt252 → AuthResult Unit
  verify_state_sig s balance blinding anchor true state_sig root = ok tt
  verify_state_sig s balance blinding anchor false none root =
      err (verification_failed "missing non-genesis state signature")
  verify_state_sig s balance blinding anchor false (some sig) root =
      if not (xmss_verify root (state_message s balance blinding anchor) sig)
      then err (verification_failed "XMSS state signature verification failed")
      else ok tt

  abbrev pub random_scalar : List ℕ → ℕ
  random_scalar bytes = Scalar.from_bytes_reduced order bytes

  unfoldable pub issue :
      Draws
      → Felt252
      → ℕ
      → StateAnchorScheme K
      → AuthResult (StateAnchorCredential Sig) × StateAnchorScheme K
  issue draws secret balance s = (
    ok (record {
      secret = field_to_felt secret;
      balance = balance;
      blinding = random_scalar (draws 0);
      anchor = genesis_anchor;
      is_genesis = true;
      state_sig = none;
      state_sig_root = zero_felt;
    }),
    s,
  )

  -- The opening of the credential's commitment under a blinding of the user's.
  abbrev pub presented : StateAnchorCredential Sig → ℕ → StateAnchorPresentation Sig
  presented c user_rerand = record {
    balance = c.balance;
    blinding = c.blinding;
    user_rerand = user_rerand;
    anchor = c.anchor;
    nullifier = compute_nullifier c.secret c.anchor;
    is_genesis = c.is_genesis;
    state_sig = c.state_sig;
    state_sig_root = c.state_sig_root;
  }

  unfoldable pub authenticate :
      Draws
      → StateAnchorCredential Sig
      → ℕ
      → StateAnchorScheme K
      → AuthResult (StateAnchorPresentation Sig × Felt252)
  authenticate draws c cap s =
      if ltb c.balance cap
      then err (insufficient_balance c.balance cap)
      else ok (
        presented c (random_scalar (draws 0)),
        felt_to_field (compute_nullifier c.secret c.anchor),
      )

  -- `verify` after the check of the signature.
  abbrev pub spend :
      StateAnchorPresentation Sig
      → AuthResult Unit
      → StateAnchorScheme K
      → AuthResult Felt252 × StateAnchorScheme K
  spend p (err e) s = (err e, s)
  spend p (ok _) s =
      if contains p.nullifier s.spent
      then (err replay, s)
      else (ok (felt_to_field p.nullifier), record s { spent = p.nullifier ∷ s.spent })

  unfoldable pub verify :
      StateAnchorPresentation Sig → StateAnchorScheme K → AuthResult Felt252 × StateAnchorScheme K
  verify p s =
      spend p
        (verify_state_sig s p.balance p.blinding p.anchor p.is_genesis p.state_sig p.state_sig_root)
        s

  -- What `apply_charge` computes before it signs: the next credential but for its signature.
  abbrev pub next_blinding :
      StateAnchorCredential Sig → StateAnchorPresentation Sig → StateAnchorScheme K → ℕ
  next_blinding c p s =
      let blind_delta =
        felt_to_field
          (compute_blind_delta (server_rng p.nullifier 2) p.nullifier (next_index s.signer)) in
      add_blinding (add_blinding c.blinding p.user_rerand) blind_delta

  abbrev pub next_credential :
      StateAnchorCredential Sig
      → StateAnchorPresentation Sig
      → ℕ
      → StateAnchorScheme K
      → StateAnchorCredential Sig
  next_credential c p charge s =
      let next_balance = c.balance - charge in
      let blinding = next_blinding c p s in
      let coords = commitment_coords next_balance blinding in
      record {
        secret = c.secret;
        balance = next_balance;
        blinding = blinding;
        anchor =
            compute_next_anchor (server_rng p.nullifier 1) p.nullifier coords.0 coords.1
              (next_index s.signer);
        is_genesis = false;
        state_sig = none;
        state_sig_root = zero_felt;
      }

  -- The check of the index that was signed under, and the signature that goes into the credential.
  abbrev pub signed :
      StateAnchorCredential Sig
      → StateAnchorScheme K
      → Option (Sig × ℕ) × K
      → AuthResult (StateAnchorCredential Sig) × StateAnchorScheme K
  signed next s (none, k) =
      (err (crypto "XMSS signing capacity exhausted"), record s { signer = k })
  signed next s (some (sig, signed_index), k) =
      if signed_index != next_index s.signer
      then (err (crypto "XMSS leaf index moved unexpectedly"), record s { signer = k })
      else (
        ok (record next {
          state_sig = some (with_epoch s.epoch sig);
          state_sig_root = root_felt k;
        }),
        record s { signer = k },
      )

  unfoldable pub apply_charge :
      Draws
      → StateAnchorCredential Sig
      → StateAnchorPresentation Sig
      → ℕ
      → StateAnchorScheme K
      → AuthResult (StateAnchorCredential Sig) × StateAnchorScheme K
  apply_charge draws c p charge s =
      let next = next_credential c p charge s in
      if ltb c.balance charge
      then (err (insufficient_balance c.balance charge), s)
      else signed next s (sign (state_message s next.balance next.blinding next.anchor) s.signer)

  unfoldable pub verify_withdrawal :
      StateAnchorPresentation Sig
      → StateAnchorScheme K
      → AuthResult (ℕ × Felt252) × StateAnchorScheme K
  verify_withdrawal w s = settled w.balance (verify w s)

  abbrev pub anchor_scheme :
      CredentialScheme
        (StateAnchorScheme K)
        (StateAnchorCredential Sig)
        (StateAnchorPresentation Sig)
  anchor_scheme = record {
    kind = state_anchor;
    issue = issue;
    authenticate = authenticate;
    verify = verify;
    apply_charge = apply_charge;
    build_withdrawal = λ c s. ok (presented c zero_felt);
    verify_withdrawal = verify_withdrawal;
    balance = λ c. c.balance;
  }
