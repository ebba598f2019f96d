-- ===== src/Pty.antt =====
-- Replaceable terminal state: the datagrams of crates/asp-protocol/src/lib.rs, the server that sends
-- them and the client that keeps a screen by them.
pub mod Datagram
pub mod Server
pub mod Client
pub mod Delta
pub mod Converge
pub mod Input
mod Tests
