-- ===== src/Files.antt =====
-- Replacing a file of the workspace as one transaction with its event, and what a start after a crash
-- makes of a transaction that was under way.
pub mod Transaction
pub mod Recover
pub mod Atomic
pub mod Blind
mod Tests
