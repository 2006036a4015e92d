-- ===== src/Snapshot/Writer/Checksum.antt =====
-- crates/oxgraph-layout-util/src/lib.rs: `crc32c_append` as a `Checksum32`.
use oxgraph.Prelude.{refl}
use oxgraph.Layout.Crc.{crc32c_append, crc_loop}
use oxgraph.Layout.Crc.Streaming.{crc32c_append-lt, crc32c_append-append}
use oxgraph.Snapshot.Writer.Contents.{IsChecksum}

-- `crc32c_append` is 32 bits wide, zero on no bytes, and continues.
pub crc32c_append-IsChecksum : IsChecksum crc32c_append
unfolding crc32c_append crc_loop
crc32c_append-IsChecksum = record {
  word = crc32c_append-lt;
  empty = refl;
  continued = crc32c_append-append 0;
}
