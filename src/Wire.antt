-- ===== src/Wire.antt =====
-- crates/asp-protocol/src/lib.rs: the protocol versions and the stream-frame envelope.
pub mod Version
pub mod Sampling
pub mod Frame
pub mod Tests
