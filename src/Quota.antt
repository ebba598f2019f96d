-- ===== src/Quota.antt =====
-- What the server grants each principal and each address: byte budgets, authentication attempts,
-- connections, request streams and slots.
pub mod Window
pub mod Attempts
pub mod Lease
pub mod Slots
mod Tests
