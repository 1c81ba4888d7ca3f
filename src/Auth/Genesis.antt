-- ===== src/Auth/Genesis.antt =====
-- The first opening of a note in zkapi-auth/src/state_anchor.rs, which has no signature.

