-- ===== src/Wal.antt =====
-- wal/src/lib.rs: the write-ahead log.
pub mod Record
pub mod Compact
pub mod Iterate
pub mod Header
pub mod Writer
pub mod Open
