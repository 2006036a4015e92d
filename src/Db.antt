-- ===== src/Db.antt =====
-- crates/oxgraph-db: the storage layer of the embedded database.
pub mod Superblock
pub mod Errors
pub mod Wire
pub mod Wal
pub mod Map
pub mod State
pub mod Catalog
pub mod Overlay
pub mod Store
pub mod Index
