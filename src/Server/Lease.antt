-- ===== src/Server/Lease.antt =====
-- The lease endpoints of zkapi-serverd/src/processor_v2.rs: the short-lived upstream keys of
-- prompt-private clients. The two key providers (openrouter.rs, oa_org.rs) are HTTP clients; what
-- they answer is an argument. Deleting a key upstream, whose result the code ignores, is left out.
mod Defs
pub mod Charge
pub mod Issue
pub mod KeyBounds
pub mod KeyCheck
pub mod Receipt
pub mod ReceiptBounds
pub mod Settle
unfoldable pub use Defs.*
