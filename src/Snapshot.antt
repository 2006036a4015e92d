-- ===== src/Snapshot.antt =====
-- crates/oxgraph-snapshot: the topology-agnostic byte container, its reader and its writers.
pub mod Errors
pub mod Format
pub mod Reader
pub mod Search
pub mod Sections
pub mod Lookup
pub mod Words
pub mod Writer
