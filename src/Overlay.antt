-- ===== src/Overlay.antt =====
-- crates/ullm-overlay/src: onion routing through relays.
pub mod Layer
pub mod Relay
pub mod Tests
