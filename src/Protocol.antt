-- ===== src/Protocol.antt =====
-- crates/sshe-protocol: the messages, the limits and the framing.
pub mod Message
pub mod Limits
pub mod Codec
