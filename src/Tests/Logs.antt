-- ===== src/Tests/Logs.antt =====
-- The theorem on the logs of the contract, at one deposit.

use zkapi_ef_collab.Base.{
  ℕ, [], ◌∷◌, Option, none, some, ◌==◌, nat_eq, string_eq, ℕ_discrete, dec_le, if◌then◌else◌, ◌≡◌,
  refl, arith, ap, sym, ◌∙◌,
}
use zkapi_ef_collab.Server.External.{success}
use zkapi_ef_collab.Server.Wire.{Felt252}
use zkapi_ef_collab.Indexer.Events.{VaultEvent, note_deposited}
use zkapi_ef_collab.Indexer.Poller.Text.{Text}
use zkapi_ef_collab.Indexer.Poller.Decode.{LogCodec, event_topic, decode_log}
use zkapi_ef_collab.Indexer.Poller.Encode.{
  EventKind, deposited, closed, initiated, challenged, withdrawn, claimed, signature_of, log_of,
  IsLogCodec, u256_word,
}
use zkapi_ef_collab.Indexer.Poller.Words.{u256_word-IsWord}
use zkapi_ef_collab.Indexer.Poller.Roundtrip.{decode_log-log_of}
use zkapi_ef_collab.Tests.Hex.{encode_hex, hex, hex-IsHex}

-- A number is printed as the character of its code.
abbrev print_felt : Felt252 → Text
print_felt felt = felt ∷ []

abbrev read_felt : Text → Option Felt252
read_felt [] = none
read_felt (c ∷ text) = some c

-- The hash of a signature is one byte.
abbrev codec : LogCodec
codec = record {
  hex = hex;
  keccak256 = λ signature.
      if signature == signature_of deposited
      then 1 ∷ []
      else if signature == signature_of closed
      then 2 ∷ []
      else if signature == signature_of initiated
      then 3 ∷ []
      else if signature == signature_of challenged
      then 4 ∷ []
      else if signature == signature_of withdrawn
      then 5 ∷ []
      else 6 ∷ [];
  felt_from_hex = read_felt;
  felt_to_u64 = λ felt. some felt;
}

abbrev rank : EventKind → ℕ
rank deposited = 49
rank closed = 50
rank initiated = 51
rank challenged = 52
rank withdrawn = 53
rank claimed = 54

abbrev of_rank : ℕ → EventKind
of_rank n =
    if n == 49
    then deposited
    else if n == 50
    then closed
    else if n == 51
    then initiated
    else if n == 52
    then challenged
    else if n == 53
    then withdrawn
    else claimed

of_rank-rank : (kind : EventKind) → of_rank (rank kind) ≡ kind
unfolding ℕ_discrete
of_rank-rank deposited = refl
of_rank-rank closed = refl
of_rank-rank initiated = refl
of_rank-rank challenged = refl
of_rank-rank withdrawn = refl
of_rank-rank claimed = refl

abbrev last_digit : Text → ℕ
last_digit (a ∷ b ∷ c ∷ d ∷ rest) = d
last_digit _ = 0

topic_digit : (kind : EventKind) → last_digit (event_topic codec (signature_of kind)) ≡ rank kind
unfolding event_topic string_eq encode_hex dec_le ℕ_discrete
topic_digit deposited = refl
topic_digit closed = refl
topic_digit initiated = refl
topic_digit challenged = refl
topic_digit withdrawn = refl
topic_digit claimed = refl

distinct :
    (a b : EventKind)
    → event_topic codec (signature_of a) ≡ event_topic codec (signature_of b)
    → a ≡ b
distinct a b e =
    sym (of_rank-rank a)
    ∙ ap of_rank (sym (topic_digit a) ∙ ap last_digit e ∙ topic_digit b)
    ∙ of_rank-rank b

codec-IsLogCodec : IsLogCodec codec print_felt
codec-IsLogCodec = record {
  hex = hex-IsHex;
  felt_from_hex-print = λ felt lt. refl;
  felt_to_u64-small = λ felt le. refl;
  distinct_topics = distinct;
}

abbrev deposit : VaultEvent
deposit = note_deposited 3 11 100 5000 77

decode_log-log_of_example :
    decode_log codec (log_of codec print_felt [] (u256_word 1) deposit)
    ≡ success (some (deposit, some 77))
decode_log-log_of_example =
    decode_log-log_of codec print_felt codec-IsLogCodec [] (u256_word 1) deposit
      (u256_word-IsWord 1) (omega arith, omega arith, omega arith, omega arith, omega arith)
