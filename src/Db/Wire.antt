-- ===== src/Db/Wire.antt =====
-- crates/oxgraph-db/src/wire.rs: the `repr(C)` records of the delta log and the superblock, and
-- their bytes. The fields follow one another without padding, words little-endian.
pub mod Codec
pub mod Tags
pub mod Defs
pub mod Bodies
use mathlib.Core.List.{flat_map}
use oxgraph.Prelude.{ℕ, ◌+◌, ◌*◌, ◌-◌, List, [], ◌∷◌, ◌++◌, take, drop, le_bytes, le_value}
use oxgraph.Snapshot.Format.{word}
use oxgraph.Snapshot.Sections.{words_of}

-- `OXGLOGR`
abbrev pub log_magic : ℕ
log_magic = 0x4f58_4c47

abbrev pub mutation_op_payload_words : ℕ
mutation_op_payload_words = 9

pub record LogRecordHeader : Type 0 where
  pub base_generation : ℕ
  pub lsn : ℕ
  pub txn_id : ℕ
  pub magic : ℕ
  pub len : ℕ
  pub op_count : ℕ
  pub crc32c : ℕ

pub record MutationOp : Type 0 where
  pub op_kind : ℕ
  pub flags : ℕ
  pub payload : List ℕ

-- b"OXGSUPER"
abbrev pub superblock_magic : List ℕ
superblock_magic = b'O' ∷ b'X' ∷ b'G' ∷ b'S' ∷ b'U' ∷ b'P' ∷ b'E' ∷ b'R' ∷ []

abbrev pub oxgdb_format_version : ℕ
oxgdb_format_version = 1

pub record SuperblockRecord : Type 0 where
  pub magic : List ℕ
  pub base_generation : ℕ
  pub checkpoint_lsn : ℕ
  pub log_byte_offset : ℕ
  pub commit_seq : ℕ
  pub transaction_id : ℕ
  pub format_version : ℕ
  pub flags : ℕ
  pub crc32c : ℕ
  pub pad : ℕ

-- `size_of` of the three records.
abbrev pub header_len : ℕ
header_len = 40

abbrev pub op_len : ℕ
op_len = 80

abbrev pub superblock_len : ℕ
superblock_len = 64

abbrev pub superblock_crc_prefix_len : ℕ
superblock_crc_prefix_len = superblock_len - 4 - 4

-- The fields before the CRC, and all of them: `as_bytes`.
unfoldable pub log_header_prefix : LogRecordHeader → List ℕ
log_header_prefix h =
    le_bytes 8 h.base_generation
    ++ (le_bytes 8 h.lsn
        ++ (le_bytes 8 h.txn_id
            ++ (le_bytes 4 h.magic ++ (le_bytes 4 h.len ++ le_bytes 4 h.op_count))))

abbrev pub log_header_bytes : LogRecordHeader → List ℕ
log_header_bytes h = log_header_prefix h ++ le_bytes 4 h.crc32c

unfoldable pub op_bytes : MutationOp → List ℕ
op_bytes op = le_bytes 4 op.op_kind ++ (le_bytes 4 op.flags ++ flat_map (le_bytes 8) op.payload)

unfoldable pub superblock_prefix : SuperblockRecord → List ℕ
superblock_prefix s =
    s.magic
    ++ (le_bytes 8 s.base_generation
        ++ (le_bytes 8 s.checkpoint_lsn
            ++ (le_bytes 8 s.log_byte_offset
                ++ (le_bytes 8 s.commit_seq
                    ++ (le_bytes 8 s.transaction_id
                        ++ (le_bytes 4 s.format_version ++ le_bytes 4 s.flags))))))

abbrev pub superblock_bytes : SuperblockRecord → List ℕ
superblock_bytes s = superblock_prefix s ++ (le_bytes 4 s.crc32c ++ le_bytes 4 s.pad)

-- `read_from_bytes` on enough bytes, field after field.
unfoldable pub log_header_of : List ℕ → LogRecordHeader
log_header_of bytes =
    let from_lsn = drop 8 bytes in
    let from_txn = drop 8 from_lsn in
    let from_magic = drop 8 from_txn in
    let from_len = drop 4 from_magic in
    let from_count = drop 4 from_len in
    record {
      base_generation = word 8 bytes;
      lsn = word 8 from_lsn;
      txn_id = word 8 from_txn;
      magic = word 4 from_magic;
      len = word 4 from_len;
      op_count = word 4 from_count;
      crc32c = word 4 (drop 4 from_count);
    }

unfoldable pub op_of : List ℕ → MutationOp
op_of bytes =
    let from_flags = drop 4 bytes in
    record {
      op_kind = word 4 bytes;
      flags = word 4 from_flags;
      payload = words_of 8 mutation_op_payload_words (drop 4 from_flags);
    }

unfoldable pub superblock_of : List ℕ → SuperblockRecord
superblock_of bytes =
    let from_generation = drop 8 bytes in
    let from_lsn = drop 8 from_generation in
    let from_offset = drop 8 from_lsn in
    let from_seq = drop 8 from_offset in
    let from_transaction = drop 8 from_seq in
    let from_version = drop 8 from_transaction in
    let from_flags = drop 4 from_version in
    let from_crc = drop 4 from_flags in
    record {
      magic = take 8 bytes;
      base_generation = word 8 from_generation;
      checkpoint_lsn = word 8 from_lsn;
      log_byte_offset = word 8 from_offset;
      commit_seq = word 8 from_seq;
      transaction_id = word 8 from_transaction;
      format_version = word 4 from_version;
      flags = word 4 from_flags;
      crc32c = word 4 from_crc;
      pad = word 4 (drop 4 from_crc);
    }
