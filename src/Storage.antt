-- ===== src/Storage.antt =====
-- The storage engine, src/storage_engine/*.c.
pub mod Bytes
pub mod Ordering
pub mod Page
pub mod Wal
pub mod Cache
pub mod Table
pub mod Tree
