-- ===== src/Mpc.antt =====
-- crates/ullm-mpc/src: the two-party evaluation of the model on additive shares.
pub mod Share
pub mod Session
pub mod Tests
