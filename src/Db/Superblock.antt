-- ===== src/Db/Superblock.antt =====
-- crates/oxgraph-db/src/wal.rs: the bytes of the superblock, as `write_superblock` makes them and
-- `read_superblock` checks them.
use oxgraph.Prelude.{
  ℕ, ◌+◌, ◌==◌, Bool, true, false, ◌&&◌, not, List, take, length, Result, ok, ◌>>=◌, ◌>>◌, guard,
}
use oxgraph.Snapshot.Reader.{bytes_eq}
use oxgraph.Db.Errors.{StorageError, invalid_store}
use oxgraph.Db.Wire.{
  SuperblockRecord, superblock_magic, superblock_len, superblock_crc_prefix_len,
  oxgdb_format_version, superblock_bytes, superblock_of,
}
use oxgraph.Db.Wal.{Crc32c}
pub mod Contract

-- `write_superblock` up to the file: the CRC is stamped over the bytes before it.
unfoldable pub stamp_superblock : Crc32c → SuperblockRecord → SuperblockRecord
stamp_superblock crc sb =
    let record_ = record sb { crc32c = 0 } in
    record record_ {
      crc32c = crc.checksum (take superblock_crc_prefix_len (superblock_bytes record_));
    }

-- The bytes that `write_superblock` publishes.
unfoldable pub superblock_image : Crc32c → SuperblockRecord → List ℕ
superblock_image crc sb = superblock_bytes (stamp_superblock crc sb)

-- `read_superblock` on the file's bytes.
unfoldable pub read_superblock : Crc32c → List ℕ → Result StorageError SuperblockRecord
read_superblock crc bytes = do
  guard (length bytes == superblock_len) (invalid_store "superblock size mismatch")
  let sb = superblock_of bytes
  guard (bytes_eq sb.magic superblock_magic) (invalid_store "superblock magic mismatch")
  guard (sb.crc32c == crc.checksum (take superblock_crc_prefix_len bytes))
      (invalid_store "superblock checksum mismatch")
  guard (sb.format_version == oxgdb_format_version)
      (invalid_store "superblock format version unsupported")
  guard (sb.flags == 0 && sb.pad == 0) (invalid_store "superblock reserved word not zero")
  ok sb
