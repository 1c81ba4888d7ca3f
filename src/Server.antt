-- ===== src/Server.antt =====
-- crates/zkapi-serverd: the nullifier store, the request processor and the challenge watcher.
pub mod Error
pub mod Wire
pub mod External
pub mod Store
pub mod Pricing
pub mod PriceLaws
pub mod Processor
pub mod Lease
pub mod Watcher
pub mod System
