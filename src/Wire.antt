-- ===== src/Wire.antt =====
-- crates/ullm-wire/src: the record layer's frames, their codec, control bodies and the anti-replay
-- window.
pub mod Frame
pub mod Codec
pub mod Control
pub mod Replay
pub mod Tests
