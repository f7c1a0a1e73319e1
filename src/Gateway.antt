-- ===== src/Gateway.antt =====
-- crates/ullm-gateway/src: the gateway between clients and the TEE.
pub mod RateLimiter
pub mod SessionToken
pub mod Tests
