-- ===== src/Storage/Page.antt =====
-- Slotted pages, src/storage_engine/page.c.
pub mod Data
pub mod Search
pub mod Insert
pub mod Delete
pub mod Update
pub mod Split
pub mod Valid
pub mod Found
pub mod Empty
