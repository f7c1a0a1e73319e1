-- ===== src/Federation.antt =====
-- crates/ullm-federation/src: several providers of different vendors, and what is asked of them.
pub mod Attestation
pub mod MultiVendor
pub mod Pool
pub mod Build
pub mod Tests
