-- ===== src/Db/Wire/Codec.antt =====
-- crates/oxgraph-db/src/wire.rs: the records of the delta log and the superblock, read back.
use mathlib.Core.List.{flat_map}
use oxgraph.Prelude.{
  ℕ, ◌^◌, ◌<◌, ◌≡◌, subst, le_bytes, List, ◌++◌, length, length-le_bytes, le_value-le_bytes,
  le_take, le_drop, take-append, drop-append, length-append, arith, append_assoc,
}
use oxgraph.Snapshot.Words.{AllBelow, length-flat_map, words_of-flat_map_append}
use oxgraph.Snapshot.Sections.{words_of}
use oxgraph.Db.Wire.{
  LogRecordHeader, MutationOp, SuperblockRecord, log_header_prefix, op_bytes, superblock_prefix,
  superblock_bytes, log_header_bytes, log_header_of, op_of, superblock_of,
}

-- The fields are values of their Rust types.
pub record IsLogHeader (h : LogRecordHeader) : Type 0 where
  pub generation_word : h.base_generation < 2 ^ 64
  pub lsn_word : h.lsn < 2 ^ 64
  pub txn_word : h.txn_id < 2 ^ 64
  pub magic_word : h.magic < 2 ^ 32
  pub len_word : h.len < 2 ^ 32
  pub count_word : h.op_count < 2 ^ 32
  pub crc_word : h.crc32c < 2 ^ 32

pub record IsOp (op : MutationOp) : Type 0 where
  pub kind_word : op.op_kind < 2 ^ 32
  pub flags_word : op.flags < 2 ^ 32
  pub payload_len : length op.payload ≡ 9
  pub payload_words : AllBelow (256 ^ 8) op.payload

pub record IsSuperblock (s : SuperblockRecord) : Type 0 where
  pub magic_len : length s.magic ≡ 8
  pub generation_word : s.base_generation < 2 ^ 64
  pub lsn_word : s.checkpoint_lsn < 2 ^ 64
  pub offset_word : s.log_byte_offset < 2 ^ 64
  pub seq_word : s.commit_seq < 2 ^ 64
  pub transaction_word : s.transaction_id < 2 ^ 64
  pub version_word : s.format_version < 2 ^ 32
  pub flags_word : s.flags < 2 ^ 32
  pub crc_word : s.crc32c < 2 ^ 32
  pub pad_word : s.pad < 2 ^ 32

pub log_header_of-log_header_bytes :
    (h : LogRecordHeader) (rest : List ℕ)
    → IsLogHeader h
    → log_header_of (log_header_bytes h ++ rest) ≡ h
unfolding log_header_of log_header_prefix
log_header_of-log_header_bytes h rest w =
    simp (append_assoc, le_take, le_drop)
      (rw (
        le_value-le_bytes 8 h.base_generation w.generation_word,
        le_value-le_bytes 8 h.lsn w.lsn_word,
        le_value-le_bytes 8 h.txn_id w.txn_word,
        le_value-le_bytes 4 h.magic w.magic_word,
        le_value-le_bytes 4 h.len w.len_word,
        le_value-le_bytes 4 h.op_count w.count_word,
        le_value-le_bytes 4 h.crc32c w.crc_word,
      ))

pub length-log_header_prefix : (h : LogRecordHeader) → length (log_header_prefix h) ≡ 36
unfolding log_header_prefix
length-log_header_prefix h = simp (length-append, length-le_bytes) (omega arith)

pub superblock_of-superblock_bytes :
    (s : SuperblockRecord) (rest : List ℕ)
    → IsSuperblock s
    → superblock_of (superblock_bytes s ++ rest) ≡ s
unfolding superblock_of superblock_prefix
superblock_of-superblock_bytes s rest w =
    simp
      (
        append_assoc,
        take-append 8 s.magic _ w.magic_len,
        drop-append 8 s.magic _ w.magic_len,
        le_take,
        le_drop,
      )
      (rw (
        le_value-le_bytes 8 s.base_generation w.generation_word,
        le_value-le_bytes 8 s.checkpoint_lsn w.lsn_word,
        le_value-le_bytes 8 s.log_byte_offset w.offset_word,
        le_value-le_bytes 8 s.commit_seq w.seq_word,
        le_value-le_bytes 8 s.transaction_id w.transaction_word,
        le_value-le_bytes 4 s.format_version w.version_word,
        le_value-le_bytes 4 s.flags w.flags_word,
        le_value-le_bytes 4 s.crc32c w.crc_word,
        le_value-le_bytes 4 s.pad w.pad_word,
      ))

pub length-superblock_prefix :
    (s : SuperblockRecord) → IsSuperblock s → length (superblock_prefix s) ≡ 56
unfolding superblock_prefix
length-superblock_prefix s w = simp (length-append, length-le_bytes) (omega arith)

pub length-op_bytes : (op : MutationOp) → IsOp op → length (op_bytes op) ≡ 80
unfolding op_bytes
length-op_bytes op w =
    simp (length-append, length-le_bytes)
      (omega (arith, length-flat_map 8 op.payload, w.payload_len))

pub op_of-op_bytes : (op : MutationOp) (rest : List ℕ) → IsOp op → op_of (op_bytes op ++ rest) ≡ op
unfolding op_of op_bytes
op_of-op_bytes op rest w =
    simp (append_assoc, le_take, le_drop)
      (rw (
        le_value-le_bytes 4 op.op_kind w.kind_word,
        le_value-le_bytes 4 op.flags w.flags_word,
        payload_read,
      ))
  where
    payload_read : words_of 8 9 (flat_map (le_bytes 8) op.payload ++ rest) ≡ op.payload
    payload_read =
        subst (λ n. words_of 8 n (flat_map (le_bytes 8) op.payload ++ rest) ≡ op.payload)
          w.payload_len (words_of-flat_map_append 8 op.payload rest w.payload_words)
