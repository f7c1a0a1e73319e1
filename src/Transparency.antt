-- ===== src/Transparency.antt =====
-- crates/ullm-transparency/src: the append-only log of attested keys and what is signed of it.
pub mod Entry
pub mod Merkle
pub mod Log
pub mod Reopen
pub mod Inclusion
pub mod Path
pub mod Sth
pub mod Witness
pub mod Auditor
pub mod Tests
