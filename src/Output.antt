-- ===== src/Output.antt =====
-- The output of processes: the ranges of a log that the server streams and the client receives, the
-- chunks that are replayed after a reconnection, and the summary with its tails.
pub mod Range
pub mod Seen
pub mod Summary
mod Tests
