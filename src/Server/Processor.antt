-- ===== src/Server/Processor.antt =====
-- zkapi-serverd/src/processor_v2.rs: the request processor without the lease endpoints, which are
-- in `Server.Lease`. Every reading of the clock, every random draw and the upstream's answer is an
-- argument. The dashboard feed, which nothing reads back, is left out.
mod Defs
pub mod Validate
pub mod Finalize
pub mod Admission
pub mod Answer
pub mod Archive
pub mod Checks
pub mod Failure
pub mod Readback
pub mod Replay
pub mod Resumption
unfoldable pub use Defs.*
