-- ===== src/Lib.antt =====
-- The zkAPI server, its credential schemes and its indexer. The server is a pay-per-request API
-- gateway whose clients prove a private balance, and spend it under one-time nullifiers; the indexer
-- mirrors the contract's tree of the notes that hold the balances. A request carries a proof and
-- a nullifier; the server checks it, reserves the nullifier in its database, asks the upstream
-- provider, signs the client's next state and archives the whole transcript. A client that leaves
-- asks for a clearance of its nullifier.
--
-- Files, with their paths in the repository:
--   Base                shared names; equality tests, machine words, SQL statements on lists of rows
--   Server/Error        crates/zkapi-serverd/src/error.rs
--   Server/Wire         the wire types of zkapi-types, by the fields that the server reads
--   Server/External     what the server calls and the repository does not contain, as parameters:
--                       hex and JSON codecs, hashes, the proof verifier, the curve update, signers
--   Server/Store        crates/zkapi-serverd/src/nullifier_store.rs. Defs has the rows and records,
--                       Nullifiers and Leases the operations on the two tables, Rows, Advance,
--                       Effects, Columns and LeaseFrame what they do to a row
--   Server/Processor    crates/zkapi-serverd/src/processor_v2.rs, with the types that it takes from
--                       config.rs, signer_v2.rs and provider.rs. Validate and Finalize have the
--                       operations; Admission, Checks, Archive, Answer, Failure, Readback,
--                       Resumption and Replay their properties
--   Server/Lease        the lease endpoints of processor_v2.rs, with pricing.rs and the types of
--                       oa_org.rs and openrouter.rs: Issue and Settle have the operations, Charge
--                       what a settlement charges, Receipt and KeyCheck the checks of the OA org's
--                       usage receipts and keys, ReceiptBounds and KeyBounds what they accept
--   Server/Pricing      crates/zkapi-serverd/src/pricing.rs: the price table and its lookup, with
--                       PriceLaws its property
--   Server/Watcher      crates/zkapi-serverd/src/watcher.rs
--   Server/System       overlapping calls: the statements of the store as a step relation
--   Indexer             crates/zkapi-indexerd/src: Events is events.rs, Mirror tree_mirror.rs, over
--                       the Merkle tree of zkapi-core as a parameter, and Service service.rs;
--                       Restore, Checkpoint and Reach have what the mirror keeps of the notes, its
--                       snapshots and its restarts, Effect and Again what events do to one index
--   Indexer/Poller      crates/zkapi-indexerd/src/poller.rs: Text has what it uses of `str`, Decode
--                       decodes a log, Poll and Start are JsonRpcLogPoller; Encode is the logs
--                       that the contract emits, and Words, Split and Roundtrip show that they
--                       are read back; Loop, Retry, Sync and Chunks have the other properties
--   Auth                crates/zkapi-auth/src: Defs has the interface CredentialScheme and Contract
--                       what it promises, Scalar, Multiply and Schnorr the blind Schnorr signature
--                       of scalar.rs and blind_schnorr.rs, Blind blind_signature.rs and Anchor
--                       state_anchor.rs. BlindChecks and AnchorChecks say what the checks accept, and
--                       Complete, BlindLaws and AnchorLaws show the promises kept; Genesis is the
--                       first opening of a note, which has no signature;
--                       Session follows a client under any scheme that keeps the contract, and
--                       AnchorSession under the state-anchor scheme
--   Tests               the model run on concrete data
--
-- The store is a value that every call takes and returns. A database column holds what SQLite would:
-- texts in hex or JSON, integers as the bit pattern of the i64 or i32 that is bound. A call that
-- reads the clock, draws random numbers or asks the upstream takes these as arguments. The handlers
-- of the server run concurrently and every statement holds the connection's lock, so `Step` is one
-- statement, and `Reach` any number of them, by any callers, in any order; the table of leases may
-- change freely in a step. The key providers of the leases answer as functions; the JSON of a
-- settlement and the operations on floats are parameters. The theorems on what a call finds
-- in the store ask that it has one row for each nullifier (`IsUnique`), as a table under its primary
-- key does. Every definition is total; the one fuel is that of `chunks_loop`, the number of bytes, of
-- which each round takes at least one (Indexer/Poller/Chunks).
--
-- Not modelled: failures of the database and poisoned locks, the schema migrations, the dashboard
-- feed, the variable part of an error's text, HTTP. A Felt252 is the number of its bytes, a Felt
-- the number that it represents, an f64 its bit pattern. The theorems on reading back take an
-- `IsLawful` codec, whose parsers give back what was printed; those on the mirror an `IsTree` tree,
-- whose leaves are what was set last; those on the schemes `IsCurve` and `IsXmss`, a commutative
-- group whose generator has the order given and a signer whose signatures verify; and those on the
-- poller `IsLogCodec` and `IsDisk`, a codec that reads back what it prints, under which the events
-- have different topics, and a disk that keeps what is written. `ReadsVersion1` is the JSON reader of
-- the challenge planner, and the JSON that the server archives for it.
pub mod Auth
pub mod Base
pub mod Indexer
pub mod Server
pub mod Tests
