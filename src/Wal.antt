-- ===== src/Wal.antt =====
-- The event log on disk: `load_event_log` and `SessionDisk::append` of crates/asp-server/src/main.rs,
-- on the bytes of the files. Postcard is the parameter `Codec` and CRC-32 the parameter `crc32`.
pub mod Scan
pub mod Disk
pub mod Tests
