-- ===== src/Tee.antt =====
-- crates/ullm-tee/src: what the trusted side keeps.
pub mod NonceRegistry
pub mod Tenant
pub mod Tests
