-- ===== src/Kvcloak.antt =====
-- crates/ullm-kvcloak/src: the cloaking of KV-cache rows and their sealing at rest.
pub mod Cloak
pub mod Seal
pub mod Tests
