-- ===== src/Snapshot/Format/Codec.antt =====
-- crates/oxgraph-snapshot/src/container.rs: the two records and their bytes.
use oxgraph.Prelude.{
  ℕ, ◌^◌, ◌<◌, ◌≡◌, List, ◌++◌, length, length-le_bytes, le_value-le_bytes, le_take, le_drop,
  take-append, drop-append, length-append, arith, append_assoc,
}
use oxgraph.Snapshot.Format.{
  RawHeader, RawSectionEntry, header_bytes, entry_bytes, header_of, entry_of,
}

-- The fields are values of their Rust types.
pub record IsHeader (h : RawHeader) : Type 0 where
  pub magic_len : length h.magic ≡ 8
  pub major_word : h.major < 2 ^ 32
  pub minor_word : h.minor < 2 ^ 32
  pub size_word : h.size < 2 ^ 32
  pub count_word : h.section_count < 2 ^ 32
  pub crc_word : h.table_crc32c < 2 ^ 32
  pub reserved_len : length h.reserved ≡ 4

pub record IsEntry (e : RawSectionEntry) : Type 0 where
  pub offset_word : e.offset < 2 ^ 64
  pub len_word : e.len < 2 ^ 64
  pub kind_word : e.kind < 2 ^ 32
  pub version_word : e.version < 2 ^ 32
  pub crc_word : e.crc32c < 2 ^ 32
  pub alignment_byte : e.alignment_log2 < 256
  pub flags_byte : e.flags < 256
  pub reserved_len : length e.reserved ≡ 2

-- The records read back, whatever bytes follow.
pub entry_of-entry_bytes :
    (e : RawSectionEntry) (rest : List ℕ) → IsEntry e → entry_of (entry_bytes e ++ rest) ≡ e
unfolding entry_of entry_bytes
entry_of-entry_bytes e rest h =
    simp (append_assoc, le_take, le_drop)
      (rw (
        le_value-le_bytes 8 e.offset h.offset_word,
        le_value-le_bytes 8 e.len h.len_word,
        le_value-le_bytes 4 e.kind h.kind_word,
        le_value-le_bytes 4 e.version h.version_word,
        le_value-le_bytes 4 e.crc32c h.crc_word,
        le_value-le_bytes 1 e.alignment_log2 h.alignment_byte,
        le_value-le_bytes 1 e.flags h.flags_byte,
        take-append 2 e.reserved rest h.reserved_len,
      ))

pub header_of-header_bytes :
    (h : RawHeader) (rest : List ℕ) → IsHeader h → header_of (header_bytes h ++ rest) ≡ h
unfolding header_of header_bytes
header_of-header_bytes h rest w =
    simp
      (
        append_assoc,
        take-append 8 h.magic _ w.magic_len,
        drop-append 8 h.magic _ w.magic_len,
        le_take,
        le_drop,
      )
      (rw (
        le_value-le_bytes 4 h.major w.major_word,
        le_value-le_bytes 4 h.minor w.minor_word,
        le_value-le_bytes 4 h.size w.size_word,
        le_value-le_bytes 4 h.section_count w.count_word,
        le_value-le_bytes 4 h.table_crc32c w.crc_word,
        take-append 4 h.reserved rest w.reserved_len,
      ))

pub length-entry_bytes : (e : RawSectionEntry) → IsEntry e → length (entry_bytes e) ≡ 32
unfolding entry_bytes
length-entry_bytes e h = simp (length-append, length-le_bytes) (omega arith)

pub length-header_bytes : (h : RawHeader) → IsHeader h → length (header_bytes h) ≡ 32
unfolding header_bytes
length-header_bytes h w = simp (length-append, length-le_bytes) (omega arith)
