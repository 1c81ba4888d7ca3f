-- ===== src/Indexer/Poller/Encode.antt =====
-- The logs that the contract emits, as zkapi-indexerd/src/poller.rs reads them: the topics are the
-- hash of the event's signature and the indexed arguments, the data the other arguments in their
-- order, each in the 32 bytes of an ABI word, as hex digits behind 0x.

use zkapi_ef_collab.Base.{
  ℕ, String, false, zero, suc, ◌*◌, ◌/◌, ◌%◌, List, [], ◌∷◌, ◌++◌, Option, none, some, u32_max,
  u64_max, u64_mod, u128_mod, ◌≡◌, ◌≤◌, ◌<◌,
}
use zkapi_ef_collab.Server.Wire.{Felt252}
use zkapi_ef_collab.Indexer.Mirror.{length}
use zkapi_ef_collab.Indexer.Events.{
  VaultEvent, note_deposited, mutual_close, escape_withdrawal_initiated,
  escape_withdrawal_challenged, escape_withdrawal_finalized, expired_claimed,
}
use zkapi_ef_collab.Indexer.Poller.Text.{Text, Hex, is_whitespace}
use zkapi_ef_collab.Indexer.Poller.Decode.{LogCodec, RpcLog, event_topic}

abbrev pub AreBytes : List ℕ → Type 0
AreBytes [] = Unit
AreBytes (b ∷ bytes) = (b < 256) × AreBytes bytes

-- The digits that the hex crate prints: ASCII, and no blanks.
abbrev pub AreGraphic : Text → Type 0
AreGraphic [] = Unit
AreGraphic (c ∷ text) = (c < 0x80) × (is_whitespace c ≡ false) × AreGraphic text

-- The hex crate: two digits make a byte, and what is printed reads back.
pub record IsHex (hex : Hex) : Type 0 where
  pub length-encode : (bytes : List ℕ) → length (hex.encode bytes) ≡ 2 * length bytes
  pub encode-AreGraphic : (bytes : List ℕ) → AreBytes bytes → AreGraphic (hex.encode bytes)
  pub decode-encode : (bytes : List ℕ) → AreBytes bytes → hex.decode (hex.encode bytes) ≡ some bytes

-- The big-endian bytes of a number, and the numbers below 256 ^ n.
unfoldable pub be_bytes : ℕ → ℕ → List ℕ
be_bytes zero value = []
be_bytes (suc n) value = be_bytes n (value / 256) ++ value % 256 ∷ []

abbrev pub bytes_bound : ℕ → ℕ
bytes_bound zero = 1
bytes_bound (suc n) = bytes_bound n * 256

abbrev pub padding : ℕ → List ℕ → List ℕ
padding zero bytes = bytes
padding (suc n) bytes = 0 ∷ padding n bytes

-- The words of a uint128, a uint64 and a uint256.
abbrev pub u128_word : ℕ → List ℕ
u128_word value = padding 16 (be_bytes 16 value)

abbrev pub u64_word : ℕ → List ℕ
u64_word value = padding 24 (be_bytes 8 value)

abbrev pub u256_word : ℕ → List ℕ
u256_word value = be_bytes 32 value

pub data EventKind : Type 0 where
  deposited : EventKind
  closed : EventKind
  initiated : EventKind
  challenged : EventKind
  withdrawn : EventKind
  claimed : EventKind

abbrev pub signature_of : EventKind → String
signature_of deposited = "NoteDeposited(uint32,bytes32,uint128,uint64,uint256)"
signature_of closed = "MutualClose(uint32,uint256,uint128,address)"
signature_of initiated = "EscapeWithdrawalInitiated(uint32,uint256,uint128,address,uint64,uint256)"
signature_of challenged = "EscapeWithdrawalChallenged(uint32,uint256,uint256)"
signature_of withdrawn = "EscapeWithdrawalFinalized(uint32,uint256,uint128,address)"
signature_of claimed = "ExpiredClaimed(uint32,uint128,uint256)"

abbrev pub kind_of : VaultEvent → EventKind
kind_of (note_deposited note_id commitment amount expiry_ts new_root) = deposited
kind_of (mutual_close note_id nullifier final_balance) = closed
kind_of (escape_withdrawal_initiated note_id nullifier final_balance deadline new_root) = initiated
kind_of (escape_withdrawal_challenged note_id nullifier restored_root) = challenged
kind_of (escape_withdrawal_finalized note_id nullifier final_balance) = withdrawn
kind_of (expired_claimed note_id deposit_amount new_root) = claimed

-- The indexed arguments.
abbrev pub indexed : VaultEvent → List Felt252
indexed (note_deposited note_id commitment amount expiry_ts new_root) = note_id ∷ commitment ∷ []
indexed (mutual_close note_id nullifier final_balance) = note_id ∷ []
indexed (escape_withdrawal_initiated note_id nullifier final_balance deadline new_root) =
    note_id ∷ []
indexed (escape_withdrawal_challenged note_id nullifier restored_root) = note_id ∷ []
indexed (escape_withdrawal_finalized note_id nullifier final_balance) = note_id ∷ []
indexed (expired_claimed note_id deposit_amount new_root) = note_id ∷ []

-- The other arguments, with the word of an address that the event does not keep.
abbrev pub words_of : List ℕ → VaultEvent → List (List ℕ)
words_of address (note_deposited note_id commitment amount expiry_ts new_root) =
    u128_word amount ∷ u64_word expiry_ts ∷ u256_word new_root ∷ []
words_of address (mutual_close note_id nullifier final_balance) =
    u256_word nullifier ∷ u128_word final_balance ∷ address ∷ []
words_of address (escape_withdrawal_initiated note_id nullifier final_balance deadline new_root) =
    u256_word nullifier
    ∷ u128_word final_balance
    ∷ address
    ∷ u64_word deadline
    ∷ u256_word new_root
    ∷ []
words_of address (escape_withdrawal_challenged note_id nullifier restored_root) =
    u256_word nullifier ∷ u256_word restored_root ∷ []
words_of address (escape_withdrawal_finalized note_id nullifier final_balance) =
    u256_word nullifier ∷ u128_word final_balance ∷ address ∷ []
words_of address (expired_claimed note_id deposit_amount new_root) =
    u128_word deposit_amount ∷ u256_word new_root ∷ []

-- The arguments are in the range of their types.
abbrev pub IsInRange : VaultEvent → Type 0
IsInRange (note_deposited note_id commitment amount expiry_ts new_root) =
    (note_id ≤ u32_max)
    × (commitment < bytes_bound 32)
    × (amount < u128_mod)
    × (expiry_ts < u64_mod)
    × (new_root < bytes_bound 32)
IsInRange (mutual_close note_id nullifier final_balance) =
    (note_id ≤ u32_max) × (nullifier < bytes_bound 32) × (final_balance < u128_mod)
IsInRange (escape_withdrawal_initiated note_id nullifier final_balance deadline new_root) =
    (note_id ≤ u32_max)
    × (nullifier < bytes_bound 32)
    × (final_balance < u128_mod)
    × (deadline < u64_mod)
    × (new_root < bytes_bound 32)
IsInRange (escape_withdrawal_challenged note_id nullifier restored_root) =
    (note_id ≤ u32_max) × (nullifier < bytes_bound 32) × (restored_root < bytes_bound 32)
IsInRange (escape_withdrawal_finalized note_id nullifier final_balance) =
    (note_id ≤ u32_max) × (nullifier < bytes_bound 32) × (final_balance < u128_mod)
IsInRange (expired_claimed note_id deposit_amount new_root) =
    (note_id ≤ u32_max) × (deposit_amount < u128_mod) × (new_root < bytes_bound 32)

-- The root of the contract after the event, where the event carries it.
abbrev pub root_after : VaultEvent → Option Felt252
root_after (note_deposited note_id commitment amount expiry_ts new_root) = some new_root
root_after (mutual_close note_id nullifier final_balance) = none
root_after (escape_withdrawal_initiated note_id nullifier final_balance deadline new_root) =
    some new_root
root_after (escape_withdrawal_challenged note_id nullifier restored_root) = some restored_root
root_after (escape_withdrawal_finalized note_id nullifier final_balance) = none
root_after (expired_claimed note_id deposit_amount new_root) = some new_root

abbrev pub hex_text : LogCodec → List (List ℕ) → Text
hex_text codec [] = []
hex_text codec (word ∷ words) = codec.hex.encode word ++ hex_text codec words

module _ (codec : LogCodec) (print_felt : Felt252 → Text) where
  abbrev pub topics_of : List Felt252 → List Text
  topics_of [] = []
  topics_of (felt ∷ felts) = print_felt felt ∷ topics_of felts

  abbrev pub log_of : Text → List ℕ → VaultEvent → RpcLog
  log_of block_number address e = record {
    block_number = block_number;
    «data» = 48 ∷ 120 ∷ hex_text codec (words_of address e);
    topics = event_topic codec (signature_of (kind_of e)) ∷ topics_of (indexed e);
  }

  -- A number that the node prints reads back, and fits a u64 if it is below its bound; and the
  -- hashes of the six signatures differ.
  pub record IsLogCodec : Type 0 where
    pub hex : IsHex codec.hex
    pub felt_from_hex-print :
        (felt : Felt252) → felt < bytes_bound 32 → codec.felt_from_hex (print_felt felt) ≡ some felt
    pub felt_to_u64-small : (felt : Felt252) → felt ≤ u64_max → codec.felt_to_u64 felt ≡ some felt
    pub distinct_topics :
        (a b : EventKind)
        → event_topic codec (signature_of a) ≡ event_topic codec (signature_of b)
        → a ≡ b
