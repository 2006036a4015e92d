-- ===== src/Snapshot/Format.antt =====
-- crates/oxgraph-snapshot/src/container.rs: the constants of the format, and its two `repr(C)`
-- records with their bytes. The fields follow one another without padding, words little-endian.
pub mod Codec
use oxgraph.Prelude.{ℕ, ◌+◌, ◌*◌, List, [], ◌∷◌, ◌++◌, replicate, take, drop, le_bytes, le_value}

-- b"OXGTOPO\0"
abbrev pub format_magic : List ℕ
format_magic = b'O' ∷ b'X' ∷ b'G' ∷ b'T' ∷ b'O' ∷ b'P' ∷ b'O' ∷ 0 ∷ []

abbrev pub format_major : ℕ
format_major = 1

abbrev pub format_minor : ℕ
format_minor = 0

abbrev pub max_supported_minor : ℕ
max_supported_minor = 0

abbrev pub header_size : ℕ
header_size = 32

abbrev pub section_entry_size : ℕ
section_entry_size = 32

abbrev pub max_alignment_log2 : ℕ
max_alignment_log2 = 12

abbrev pub max_section_count : ℕ
max_section_count = 1024

pub record RawHeader : Type 0 where
  pub magic : List ℕ
  pub major : ℕ
  pub minor : ℕ
  pub size : ℕ
  pub section_count : ℕ
  pub table_crc32c : ℕ
  pub reserved : List ℕ

pub record RawSectionEntry : Type 0 where
  pub offset : ℕ
  pub len : ℕ
  pub kind : ℕ
  pub version : ℕ
  pub crc32c : ℕ
  pub alignment_log2 : ℕ
  pub flags : ℕ
  pub reserved : List ℕ

-- `as_bytes` of the two records.
unfoldable pub header_bytes : RawHeader → List ℕ
header_bytes h =
    h.magic
    ++ (le_bytes 4 h.major
        ++ (le_bytes 4 h.minor
            ++ (le_bytes 4 h.size
                ++ (le_bytes 4 h.section_count ++ (le_bytes 4 h.table_crc32c ++ h.reserved)))))

unfoldable pub entry_bytes : RawSectionEntry → List ℕ
entry_bytes e =
    le_bytes 8 e.offset
    ++ (le_bytes 8 e.len
        ++ (le_bytes 4 e.kind
            ++ (le_bytes 4 e.version
                ++ (le_bytes 4 e.crc32c
                    ++ (le_bytes 1 e.alignment_log2 ++ (le_bytes 1 e.flags ++ e.reserved))))))

-- The word in the first `n` bytes.
abbrev pub word : ℕ → List ℕ → ℕ
word n bytes = le_value (take n bytes)

-- The record that lies at the start of enough bytes, field after field.
unfoldable pub header_of : List ℕ → RawHeader
header_of bytes =
    let from_major = drop 8 bytes in
    let from_minor = drop 4 from_major in
    let from_size = drop 4 from_minor in
    let from_count = drop 4 from_size in
    let from_crc = drop 4 from_count in
    record {
      magic = take 8 bytes;
      major = word 4 from_major;
      minor = word 4 from_minor;
      size = word 4 from_size;
      section_count = word 4 from_count;
      table_crc32c = word 4 from_crc;
      reserved = take 4 (drop 4 from_crc);
    }

unfoldable pub entry_of : List ℕ → RawSectionEntry
entry_of bytes =
    let from_len = drop 8 bytes in
    let from_kind = drop 8 from_len in
    let from_version = drop 4 from_kind in
    let from_crc = drop 4 from_version in
    let from_alignment = drop 4 from_crc in
    let from_flags = drop 1 from_alignment in
    record {
      offset = word 8 bytes;
      len = word 8 from_len;
      kind = word 4 from_kind;
      version = word 4 from_version;
      crc32c = word 4 from_crc;
      alignment_log2 = word 1 from_alignment;
      flags = word 1 from_flags;
      reserved = take 2 (drop 1 from_flags);
    }
