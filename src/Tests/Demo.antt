-- ===== src/Tests/Demo.antt =====
-- A deployment, a request and a reply to run the model on. Numbers are written in unary, and a
-- request's JSON is one word for the request below.

use Prim.Native.String.{◌++◌}
use zkapi_ef_collab.Base.{
  ℕ, zero, suc, ◌+◌, String, List, [], ◌∷◌, true, false, Option, none, some, ◌≡◌, refl, ap,
  ℕ_discrete, string_eq,
}
use zkapi_ef_collab.Server.Wire.{
  Proof, ProofBackend, groth16_bn254, PublicInputs, ApiRequest, ClearanceRequest,
}
use zkapi_ef_collab.Server.External.{
  Codec, IsLawful, Crypto, CompactSigner, Outcome, success, failure,
}
use zkapi_ef_collab.Server.Store.{Store}
use zkapi_ef_collab.Server.Processor.{Processor, ProviderResponse}
use zkapi_ef_collab.Server.Processor.Finalize.{Draws}

abbrev pub unary : ℕ → String
unary zero = String.[]
unary (suc n) = String.◌∷◌ "a" (unary n)

abbrev pub read_unary : String → ℕ
read_unary String.[] = 0
read_unary (String.◌∷◌ c s) = suc (read_unary s)

pub read_unary-unary : (n : ℕ) → read_unary (unary n) ≡ n
read_unary-unary zero = refl
read_unary-unary (suc n) = ap suc (read_unary-unary n)

abbrev pub joined : List String → String
joined [] = ""
joined (s ∷ rest) = s ++ joined rest

abbrev pub inputs : PublicInputs
inputs = record {
  protocol_version = 2;
  chain_id = 1;
  contract_address = 13;
  active_root = 11;
  state_signing_key_x = 5;
  state_signing_key_y = 6;
  request_time = 1000;
  solvency_bound = 100;
  request_nullifier = 4;
  authorization_tag = 9;
  anonymous_commitment_x = 1;
  anonymous_commitment_y = 2;
}

abbrev pub request : ApiRequest
request = record {
  client_request_id = "req-1";
  payload_hash = 7;
  payload = "{}";
  public_inputs = inputs;
  proof = record { backend = groth16_bn254; proof = "AQID" };
}

unfoldable pub string_discrete : Discrete String
unfolding string_eq
string_discrete = string_eq.dec

abbrev pub inputs_discrete : Discrete PublicInputs
inputs_discrete = hlevel ℕ_discrete

abbrev pub backend_discrete : Discrete ProofBackend
backend_discrete = hlevel

abbrev pub proof_discrete : Discrete Proof
proof_discrete = hlevel (string_discrete, backend_discrete)

abbrev pub api_request_discrete : Discrete ApiRequest
api_request_discrete = hlevel (ℕ_discrete, string_discrete, inputs_discrete, proof_discrete)

-- Decided by equality, so that the request alone prints as the word.
abbrev pub word_of : {A : Type 0} {a b : A} → Dec (a ≡ b) → Outcome String
word_of (yes e) = success "request"
word_of (no n) = failure "another request"

abbrev pub text_of : {A : Type 0} {a b : A} → Dec (a ≡ b) → Option String
text_of (yes e) = some "inputs"
text_of (no n) = none

abbrev pub codec : Codec ℕ
codec = record {
  to_hex = unary;
  from_hex = λ s. some (read_unary s);
  signature_to_json = unary;
  signature_from_json = λ s. some (read_unary s);
  request_to_json = λ r. word_of (api_request_discrete request r);
  request_from_json = λ s. some request;
  inputs_to_json = λ i. text_of (inputs_discrete inputs i);
  inputs_from_json = λ s. success inputs;
  keccak_hex = joined;
}

read_word :
    (r : ApiRequest) (d : Dec (request ≡ r)) (j : String)
    → word_of d ≡ success j
    → some request ≡ some r
read_word r (yes e) j h = ap some e
read_word r (no n) j h = absurd (cc h)

read_text :
    (i : PublicInputs) (d : Dec (inputs ≡ i)) (j : String)
    → text_of d ≡ some j
    → success inputs ≡ success i
read_text i (yes e) j h = ap success e
read_text i (no n) j h = absurd (cc h)

pub codec-IsLawful : IsLawful codec
codec-IsLawful = record {
  from_hex-to_hex = λ f. ap some (read_unary-unary f);
  signature_round_trip = λ s. ap some (read_unary-unary s);
  request_round_trip = λ r j. read_word r (api_request_discrete request r) j;
  inputs_round_trip = λ i j. read_text i (inputs_discrete inputs i) j;
}

abbrev pub crypto : Crypto
crypto = record {
  canonical_payload_hash = λ payload. 7;
  canonical_response_hash = λ payload. 8;
  canonical_request_context = λ id hash. hash + 1;
  authorization_tag = λ n context. context + 1;
  verify = λ i proof. success true;
  server_update = λ c charge delta. success (record { x = c.x + charge; y = c.y + delta });
  next_anchor = λ seed n x y. seed + n;
  state_message = λ v c a x y anchor. anchor + x;
  clearance_message = λ v c a n. n;
  base64_decode = λ s. success (1 ∷ 2 ∷ 3 ∷ []);
}

abbrev pub signer : CompactSigner ℕ
signer = record { public_key = record { x = 5; y = 6 }; sign = λ m. m }

abbrev pub server : Processor ℕ
server = record {
  config = record {
    protocol_version = 2;
    chain_id = 1;
    contract_address = 13;
    request_charge_cap = 50;
    policy_enabled = false;
    policy_charge_cap = 5;
    openrouter_leases = none;
  };
  signer = record { state = signer; clearance = signer };
  current_root = 11;
  codec = codec;
  crypto = crypto;
}

abbrev pub reply : ProviderResponse
reply = record {
  status_code = 200;
  payload = "pong";
  charge_applied = 3;
  policy_reason_code = none;
  policy_evidence_hash = none;
  usage = none;
  upstream_model = none;
  billing_label = "echo";
}

abbrev pub draws : Draws
draws = record { blind_delta = 21; anchor_seed = 22 }

abbrev pub empty : Store
empty = record { nullifiers = []; leases = [] }

abbrev pub clearance : ClearanceRequest
clearance = record { withdrawal_nullifier = 4 }
