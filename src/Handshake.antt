-- ===== src/Handshake.antt =====
-- crates/ullm-handshake/src: the messages, the transcript and the two state machines of the
-- handshake.
pub mod Messages
pub mod State
pub mod Tests
