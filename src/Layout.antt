-- ===== src/Layout.antt =====
-- crates/oxgraph-layout-util: index widths, the read-time checks of offset arrays, the build-time
-- helpers, composite keys and the CRC. `usize_max` is the host's `usize::MAX` throughout.
pub mod Width
pub mod Integrity
pub mod Build
pub mod Keys
pub mod Crc
