-- ===== src/Server/External.antt =====
-- What the server calls and this repository does not contain: the zkapi-types, zkapi-core and
-- zkapi-proof crates of the protocol submodule, serde_json, Keccak, base64 and the float
-- conversions. Every one is an argument of the definitions that use it. An f64 is its bit pattern.
use zkapi_ef_collab.Base.{ℕ, String, List, Option, some, Bool, ◌≡◌, refl, ◌⊎◌, inl, inr}
use zkapi_ef_collab.Server.Wire.{Felt252, CurvePoint, Proof, PublicInputs, ApiRequest}

-- `Result<T, E>` where the server only formats the error.
pub data Outcome (A : Type 0) : Type 0 where
  success : A → Outcome A
  failure : String → Outcome A

pub Outcome-cases :
    {A : Type 0} (o : Outcome A) → ((e : String) × (o ≡ failure e)) ⊎ ((a : A) × (o ≡ success a))
Outcome-cases (success a) = inr (a, refl)
Outcome-cases (failure e) = inl (e, refl)

-- The text encodings of the columns and of the wire.
pub record Codec (Sig : Type 0) : Type 0 where
  pub to_hex : Felt252 → String
  pub from_hex : String → Option Felt252
  pub signature_to_json : Sig → String
  pub signature_from_json : String → Option Sig
  pub request_to_json : ApiRequest → Outcome String
  pub request_from_json : String → Option ApiRequest
  pub inputs_to_json : PublicInputs → Option String
  pub inputs_from_json : String → Outcome PublicInputs
  -- `hex::encode` of the Keccak-256 digest of the pieces in turn
  pub keccak_hex : List String → String

-- What the encodings promise: parsing gives back what was printed.
pub record IsLawful {Sig : Type 0} (c : Codec Sig) : Type 0 where
  pub from_hex-to_hex : (f : Felt252) → c.from_hex (c.to_hex f) ≡ some f
  pub signature_round_trip : (s : Sig) → c.signature_from_json (c.signature_to_json s) ≡ some s
  pub request_round_trip :
      (r : ApiRequest) (j : String)
      → c.request_to_json r ≡ success j
      → c.request_from_json j ≡ some r
  pub inputs_round_trip :
      (p : PublicInputs) (j : String)
      → c.inputs_to_json p ≡ some j
      → c.inputs_from_json j ≡ success p

-- The protocol's hashes, proofs and commitments.
pub record Crypto : Type 0 where
  pub canonical_payload_hash : String → Felt252
  pub canonical_response_hash : String → Felt252
  pub canonical_request_context : String → Felt252 → Felt252
  pub authorization_tag : Felt252 → Felt252 → Felt252
  pub verify : PublicInputs → Proof → Outcome Bool
  pub server_update : CurvePoint → ℕ → Felt252 → Outcome CurvePoint
  pub next_anchor : Felt252 → Felt252 → Felt252 → Felt252 → Felt252
  pub state_message : ℕ → ℕ → Felt252 → Felt252 → Felt252 → Felt252 → Felt252
  pub clearance_message : ℕ → ℕ → Felt252 → Felt252 → Felt252
  pub base64_decode : String → Outcome (List ℕ)

-- CompactSigner of zkapi-proof
pub record CompactSigner (Sig : Type 0) : Type 0 where
  pub public_key : CurvePoint
  pub sign : Felt252 → Sig
