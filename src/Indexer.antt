-- ===== src/Indexer.antt =====
-- crates/zkapi-indexerd: the mirror of the contract's Merkle tree.
pub mod Again
pub mod Checkpoint
pub mod Effect
pub mod Events
pub mod Mirror
pub mod Reach
pub mod Restore
pub mod Poller
pub mod Service
