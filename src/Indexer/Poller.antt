-- ===== src/Indexer/Poller.antt =====
-- zkapi-indexerd/src/poller.rs: the reader of the contract's logs.
pub mod Chunks
pub mod Decode
pub mod Encode
pub mod Loop
pub mod Poll
pub mod Retry
pub mod Roundtrip
pub mod Split
pub mod Start
pub mod Sync
pub mod Text
pub mod Words
