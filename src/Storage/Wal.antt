-- ===== src/Storage/Wal.antt =====
-- The write-ahead log, src/storage_engine/wal.c.
pub mod Crc
pub mod Entry
pub mod Files
pub mod Log
pub mod Recover
