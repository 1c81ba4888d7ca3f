-- ===== src/Auth.antt =====
-- crates/zkapi-auth: the two interchangeable credential schemes.
pub mod Defs
pub mod Genesis
pub mod Multiply
pub mod Scalar
pub mod Anchor
pub mod AnchorChecks
pub mod AnchorLaws
pub mod AnchorSession
pub mod Blind
pub mod BlindChecks
pub mod BlindLaws
pub mod Complete
pub mod Contract
pub mod Schnorr
pub mod Session
