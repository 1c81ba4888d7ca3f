-- ===== src/Tests/Poller.antt =====
-- The theorems on the indexer's poller, each at one run, with a log codec and a form
-- of checkpoints that compute.

use zkapi_ef_collab.Base.{
  ℕ, zero, suc, String, ◌+◌, ◌-◌, List, [], ◌∷◌, ◌++◌, Option, none, some, ◌==◌, nat_eq, string_eq,
  list_eq, ℕ_discrete, dec_le, dec_lt, true, if◌then◌else◌, ◌≡◌, refl, subst, arith, ap,
}
use zkapi_ef_collab.Server.External.{Outcome, success, failure}
use zkapi_ef_collab.Indexer.Events.{VaultEvent, expired_claimed}
use zkapi_ef_collab.Indexer.Mirror.{length, new, run}
use zkapi_ef_collab.Indexer.Poller.Text.{
  Text, u64_from_str_radix, trim, is_whitespace, as_bytes, chunks_loop, take_bytes, drop_bytes,
  u64_digits, be_value,
}
use zkapi_ef_collab.Indexer.Poller.Decode.{
  LogCodec, RpcLog, decode_log, decode_topics, decode_topic, event_topic, decode_expired,
  topic_to_u32, word_to_u128, word_to_felt, decode_words, split_words,
}
use zkapi_ef_collab.Indexer.Poller.Poll.{
  Disk, Indexer, IndexerCheckpoint, JsonRpcResponse, PollerConfig, poll_range, persist_checkpoint,
}
use zkapi_ef_collab.Indexer.Poller.Start.{
  IsDisk, normalize_address, new_poller, new_poller-persisted,
}
use zkapi_ef_collab.Indexer.Poller.Loop.{Decodes, done, decoded}
use zkapi_ef_collab.Indexer.Poller.Retry.{retry-Agrees}
use zkapi_ef_collab.Indexer.Poller.Sync.{in_blocks, poll_times, polls-catch_up}
use zkapi_ef_collab.Indexer.Service.{IndexerService, new_syncing}
use zkapi_ef_collab.Indexer.Again.{Agrees}
use zkapi_ef_collab.Indexer.Reach.{Reached, started, run-Reached}
use zkapi_ef_collab.Tests.Hex.{hex, encode_hex, decode_hex}
use zkapi_ef_collab.Tests.Indexer.{tree, tree-IsTree, events}

-- The topics of two events, each a byte of its own; the others share one.
abbrev codec : LogCodec
codec = record {
  hex = hex;
  keccak256 = λ signature.
      if signature == "NoteDeposited(uint32,bytes32,uint128,uint64,uint256)"
      then 1 ∷ []
      else if signature == "ExpiredClaimed(uint32,uint128,uint256)"
      then 2 ∷ []
      else 3 ∷ [];
  felt_from_hex = u64_from_str_radix 16;
  felt_to_u64 = λ felt. some felt;
}

zeros : ℕ → Text
zeros zero = []
zeros (suc n) = 48 ∷ zeros n

-- The claim of note 1, whose words are zero but for the amount 7.
abbrev claim : RpcLog
claim = record {
  block_number = [];
  «data» = zeros 63 ++ 55 ∷ zeros 64;
  topics = (48 ∷ 120 ∷ 48 ∷ 50 ∷ []) ∷ (49 ∷ []) ∷ [];
}

abbrev claimed : VaultEvent
claimed = expired_claimed 1 7 0

abbrev word : ℕ → List ℕ
word zero = []
word (suc n) = 0 ∷ word n

claim_trimmed : trim claim.«data» ≡ claim.«data»
unfolding trim is_whitespace zeros ℕ_discrete dec_le
claim_trimmed = refl

claim_bytes : as_bytes claim.«data» ≡ claim.«data»
unfolding as_bytes zeros dec_lt
claim_bytes = refl

claim_chunks : chunks_loop 64 128 claim.«data» ≡ (zeros 63 ++ 55 ∷ []) ∷ zeros 64 ∷ []
unfolding chunks_loop take_bytes drop_bytes zeros
claim_chunks = refl

claim_words :
    decode_words codec ((zeros 63 ++ 55 ∷ []) ∷ zeros 64 ∷ [])
    ≡ success ((word 31 ++ 7 ∷ []) ∷ word 32 ∷ [])
unfolding zeros decode_hex dec_le dec_lt
claim_words = refl

claim_split : split_words codec claim.«data» ≡ success ((word 31 ++ 7 ∷ []) ∷ word 32 ∷ [])
unfolding split_words zeros ℕ_discrete length
claim_split = rw (split_words, claim_trimmed, claim_bytes, claim_chunks) claim_words

claim_run :
    decode_topic codec
      (48 ∷ 120 ∷ 48 ∷ 50 ∷ [])
      ((49 ∷ []) ∷ [])
      ((word 31 ++ 7 ∷ []) ∷ word 32 ∷ [])
    ≡ success (some (claimed, some 0))
unfolding decode_topic event_topic decode_expired topic_to_u32 word_to_u128 word_to_felt be_value
    drop_bytes u64_digits encode_hex string_eq list_eq ℕ_discrete dec_le dec_lt
claim_run = refl

claim_decodes : decode_log codec claim ≡ success (some (claimed, some 0))
unfolding decode_log decode_topics
claim_decodes = rw claim_split claim_run

-- A checkpoint as numbers: the leaves are marked, and the pairs come after them.
encode_leaves : List ℕ → List ℕ → List ℕ
encode_leaves [] after = 0 ∷ after
encode_leaves (leaf ∷ leaves) after = 1 ∷ leaf ∷ encode_leaves leaves after

decode_leaves : List ℕ → List ℕ × List ℕ
decode_leaves (suc mark ∷ leaf ∷ rest) = let more = decode_leaves rest in (leaf ∷ more.0, more.1)
decode_leaves (zero ∷ rest) = ([], rest)
decode_leaves _ = ([], [])

encode_pairs : List (ℕ × ℕ) → List ℕ
encode_pairs [] = []
encode_pairs ((a, b) ∷ pairs) = a ∷ b ∷ encode_pairs pairs

decode_pairs : List ℕ → List (ℕ × ℕ)
decode_pairs (a ∷ b ∷ rest) = (a, b) ∷ decode_pairs rest
decode_pairs _ = []

decode_leaves-encode_leaves :
    (leaves after : List ℕ) → decode_leaves (encode_leaves leaves after) ≡ (leaves, after)
unfolding encode_leaves decode_leaves
decode_leaves-encode_leaves [] after = refl
decode_leaves-encode_leaves (leaf ∷ leaves) after =
    ap (λ (p : List ℕ × List ℕ). (leaf ∷ p.0, p.1)) (decode_leaves-encode_leaves leaves after)

decode_pairs-encode_pairs : (pairs : List (ℕ × ℕ)) → decode_pairs (encode_pairs pairs) ≡ pairs
unfolding encode_pairs decode_pairs
decode_pairs-encode_pairs [] = refl
decode_pairs-encode_pairs ((a, b) ∷ pairs) = ap (λ l. (a, b) ∷ l) (decode_pairs-encode_pairs pairs)

to_numbers : IndexerCheckpoint → List ℕ
to_numbers c =
    c.version
    ∷ c.last_processed_block
    ∷ c.mirror.next_note_id
    ∷ encode_leaves c.mirror.current_leaves (encode_pairs c.mirror.original_leaves)

from_numbers : List ℕ → Option IndexerCheckpoint
from_numbers (version ∷ last ∷ next ∷ rest) =
    let parts = decode_leaves rest in
    some (record {
      version = version;
      last_processed_block = last;
      mirror = record {
        next_note_id = next;
        current_leaves = parts.0;
        original_leaves = decode_pairs parts.1;
      };
    })
from_numbers _ = none

from_numbers-to_numbers : (c : IndexerCheckpoint) → from_numbers (to_numbers c) ≡ some c
unfolding from_numbers to_numbers
from_numbers-to_numbers c =
    rw
      (
        decode_leaves-encode_leaves c.mirror.current_leaves (encode_pairs c.mirror.original_leaves),
        decode_pairs-encode_pairs c.mirror.original_leaves,
      )
      refl

abbrev disk : Disk
disk = record {
  to_vec = λ c. success (to_numbers c);
  from_slice = from_numbers;
  from_utf8 = λ bytes. none;
  read = λ path content. success content;
  replace = λ path content. success tt;
}

disk-IsDisk : IsDisk disk
disk-IsDisk = record {
  from_slice-to_vec = λ c bytes h.
      let same : to_numbers c ≡ bytes = cc in
      subst (λ b. from_numbers b ≡ some c) same (from_numbers-to_numbers c);
  read_whole = λ path bytes. refl;
}

-- An indexer that has read no block, with a cursor file that is not there yet.
abbrev start : Indexer (List (ℕ × ℕ))
start = record {
  poller = record {
    rpc_url = "http://127.0.0.1:8545";
    contract_address = [];
    next_from_block = 0;
    cursor_path = some "zkapi-indexer.cursor";
  };
  service = new_syncing (new tree);
  file = none;
}

abbrev answer : List RpcLog → Outcome (JsonRpcResponse (List RpcLog))
answer logs = success (record { result = some logs; error = none })

-- A log of the claim whose data has one digit.
abbrev broken : RpcLog
broken = record { block_number = []; «data» = 49 ∷ []; topics = (48 ∷ []) ∷ [] }

broken_fails : decode_log codec broken ≡ failure "log data is not a whole number of 32-byte words"
unfolding decode_log decode_topics split_words trim is_whitespace as_bytes length ℕ_discrete dec_le
    dec_lt
broken_fails = refl

abbrev once : Decodes codec (claim ∷ []) (claimed ∷ [])
once = decoded claim_decodes done

-- The chain: the claim stands in block 1.
abbrev block_logs : ℕ → List RpcLog
block_logs (suc zero) = claim ∷ []
block_logs _ = []

abbrev block_events : ℕ → List VaultEvent
block_events (suc zero) = claimed ∷ []
block_events _ = []

block_Decodes : (n : ℕ) → Decodes codec (block_logs n) (block_events n)
block_Decodes zero = done
block_Decodes (suc zero) = once
block_Decodes (suc (suc n)) = done

abbrev node : ℕ → ℕ → Outcome (JsonRpcResponse (List RpcLog))
node from to = answer (in_blocks block_logs from (to + 1 - from))

always_written :
    (path : Option String) (last : ℕ) (s : IndexerService (List (ℕ × ℕ))) (file : Option (List ℕ))
    → (persist_checkpoint disk tree path last s file).0 ≡ success tt
unfolding persist_checkpoint
always_written none last s file = refl
always_written (some path) last s file = refl

retry-Agrees_example :
    ((poll_range disk tree codec 5 (λ from to. answer (claim ∷ broken ∷ [])) start).0
      ≡ failure "log data is not a whole number of 32-byte words")
    × ((poll_range disk tree codec 7
          (λ from to. answer (claim ∷ []))
          (poll_range disk tree codec 5 (λ from to. answer (claim ∷ broken ∷ [])) start).1).1.poller
        ≡ (poll_range disk tree codec 7 (λ from to. answer (claim ∷ [])) start).1.poller)
    × Agrees tree
        (poll_range disk tree codec 7
          (λ from to. answer (claim ∷ []))
          (poll_range disk tree codec 5
            (λ from to. answer (claim ∷ broken ∷ []))
            start).1).1.service.mirror
        (poll_range disk tree codec 7 (λ from to. answer (claim ∷ [])) start).1.service.mirror
retry-Agrees_example =
    retry-Agrees tree tree-IsTree codec disk [] [] broken []
      "log data is not a whole number of 32-byte words" 5 7
      (λ from to. answer (claim ∷ broken ∷ [])) (λ from to. answer (claim ∷ [])) start once once
      broken_fails (omega arith) (omega arith) refl refl

polls-catch_up_example :
    ((poll_times tree codec disk 2 node 1 start).poller.next_from_block ≡ 3)
    × ((poll_times tree codec disk 2 node 1 start).service.mirror
        ≡ run tree (claimed ∷ []) (new tree))
    × ((poll_times tree codec disk 2 node 1 start).service.ready ≡ true)
polls-catch_up_example =
    polls-catch_up tree codec disk 2 node (omega arith) block_logs block_events (λ from to. refl)
      block_Decodes always_written 0 start (omega arith) (omega arith)

abbrev config : PollerConfig
config = record {
  rpc_url = "http://127.0.0.1:8545";
  contract_address = 48 ∷ 120 ∷ 65 ∷ [];
  from_block = 0;
  cursor_path = some "zkapi-indexer.cursor";
}

abbrev address : Text
address = 48 ∷ 120 ∷ zeros 39 ++ 97 ∷ []

address_valid : normalize_address hex config.contract_address ≡ success address
unfolding normalize_address zeros trim is_whitespace as_bytes length decode_hex ℕ_discrete dec_le
    dec_lt
address_valid = refl

-- The service after two deposits and an escape, and the poller that starts from its checkpoint.
abbrev replayed : IndexerService (List (ℕ × ℕ))
replayed = new_syncing (run tree events (new tree))

abbrev written : Option (List ℕ)
written = (persist_checkpoint disk tree (some "zkapi-indexer.cursor") 9 replayed none).1

new_poller-persisted_example :
    ((new_poller disk tree hex config written (new_syncing (new tree))).0
      ≡ success (record {
        rpc_url = "http://127.0.0.1:8545";
        contract_address = address;
        next_from_block = 10;
        cursor_path = some "zkapi-indexer.cursor";
      }))
    × ((new_poller disk tree hex config written (new_syncing (new tree))).1.mirror.next_note_id
        ≡ replayed.mirror.next_note_id)
    × ((i : ℕ)
        → tree.get_leaf i
            (new_poller disk tree hex config written (new_syncing (new tree))).1.mirror.tree
          ≡ tree.get_leaf i replayed.mirror.tree)
    × Reached tree (new_poller disk tree hex config written (new_syncing (new tree))).1.mirror
unfolding dec_le
new_poller-persisted_example =
    new_poller-persisted tree tree-IsTree disk disk-IsDisk hex config "zkapi-indexer.cursor" address
      9 replayed (new_syncing (new tree)) none
      (run-Reached tree tree-IsTree events (new tree) (omega arith, (omega arith, (tt, tt)))
        started)
      refl address_valid (always_written (some "zkapi-indexer.cursor") 9 replayed none)
