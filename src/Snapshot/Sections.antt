-- ===== src/Snapshot/Sections.antt =====
-- crates/oxgraph-snapshot/src/container.rs: the sections of an opened snapshot, by kind, as bytes,
-- as words, and under their checksums.
use oxgraph.Prelude.{
  ℕ, zero, suc, ◌*◌, ◌/◌, ◌%◌, Option, List, [], ◌∷◌, length, map, take, drop, get_elem?, ◌==◌,
  if◌then◌else◌, Result, ok, ◌>>=◌, ◌>>◌, true, false, guard, ok_or, map_err, slice, le_value,
}
use mathlib.Core.Option
use oxgraph.Layout.Width.{Width, u16, u32, u64, usize}
use oxgraph.Snapshot.Errors.{
  SnapshotError, table_checksum_mismatch, section_checksum_mismatch, SectionViewError,
  zero_sized_type, length_not_multiple_of_size, alignment_mismatch, checksum_mismatch,
  SectionBindError, missing, version_mismatch, view,
}
use oxgraph.Snapshot.Format.{RawSectionEntry, header_size, section_entry_size}
use oxgraph.Snapshot.Reader.{Snapshot, Checksum32, layout, open_with}
use oxgraph.Snapshot.Search.{binary_search}

pub record Section : Type 0 where
  pub payload : List ℕ
  pub kind : ℕ
  pub version : ℕ
  pub crc32c : ℕ
  pub alignment_log2 : ℕ

-- The slice is in range after `validate_section_table`.
unfoldable pub from_entry : List ℕ → RawSectionEntry → Section
from_entry bytes entry = record {
  payload = slice bytes entry.offset entry.len;
  kind = entry.kind;
  version = entry.version;
  crc32c = entry.crc32c;
  alignment_log2 = entry.alignment_log2;
}

abbrev pub kinds : List RawSectionEntry → List ℕ
kinds entries = map (λ e. e.kind) entries

unfoldable pub section : Snapshot → ℕ → Option Section
section s kind =
    Option.bind (binary_search (kinds s.entries) kind)
      (λ index. Option.map (from_entry s.bytes) (get_elem? s.entries index))

-- `Snapshot::sections`, run to its end.
abbrev pub sections : Snapshot → List Section
sections s = map (from_entry s.bytes) s.entries

unfoldable pub verify : Checksum32 → Section → Result SectionViewError (Unit {0})
verify checksum s =
    guard (checksum 0 s.payload == s.crc32c)
      (checksum_mismatch s.kind s.crc32c (checksum 0 s.payload))

unfoldable pub verify_loop : Checksum32 → List Section → Result SnapshotError (Unit {0})
verify_loop checksum [] = ok tt
verify_loop checksum (s ∷ rest) = do
  guard (checksum 0 s.payload == s.crc32c)
      (section_checksum_mismatch s.kind s.crc32c (checksum 0 s.payload))
  verify_loop checksum rest

unfoldable pub verify_all : Checksum32 → Snapshot → Result SnapshotError (Unit {0})
verify_all checksum s = verify_loop checksum (sections s)

-- `snapshot.entries.as_bytes()`: the table as it lies in the file.
abbrev pub table_bytes : Snapshot → List ℕ
table_bytes s = slice s.bytes header_size (length s.entries * section_entry_size)

-- `usize_max` is the host's `usize::MAX`.
unfoldable pub open_checked : (usize_max : ℕ) → Checksum32 → List ℕ → Result SnapshotError Snapshot
open_checked usize_max checksum bytes = do
  s ← open_with usize_max bytes layout
  let actual = checksum 0 (table_bytes s)
  guard (actual == s.table_crc32c) (table_checksum_mismatch s.table_crc32c actual)
  ok s

-- The words that a payload of `count` little-endian words of `elem_size` bytes holds.
unfoldable pub words_of : ℕ → ℕ → List ℕ → List ℕ
words_of elem_size zero payload = []
words_of elem_size (suc count) payload =
    le_value (take elem_size payload) ∷ words_of elem_size count (drop elem_size payload)

-- `ptr_addr` is the address of the payload, `required` the alignment of the element type.
unfoldable pub try_as_slice :
    (ptr_addr elem_size required : ℕ) → Section → Result SectionViewError (List ℕ)
try_as_slice ptr_addr elem_size required s = do
  guard (if elem_size == 0 then false else true) zero_sized_type
  guard (length s.payload % elem_size == 0)
      (length_not_multiple_of_size (length s.payload) elem_size)
  guard (ptr_addr % required == 0) (alignment_mismatch ptr_addr required)
  ok (words_of elem_size (length s.payload / elem_size) s.payload)

-- `size_of` a little-endian word of the width, and the width's code in a section kind.
abbrev pub word_size : Width → ℕ
word_size u16 = 2
word_size u32 = 4
word_size u64 = 8
word_size usize = 8

-- The little-endian words are unaligned: their required alignment is one.
unfoldable pub typed_section :
    (ptr_addr : ℕ) → Snapshot → Width → ℕ → ℕ → Result SectionBindError (List ℕ)
typed_section ptr_addr s width kind expected_version = do
  found ← ok_or (section s kind) (missing kind)
  guard (found.version == expected_version) (version_mismatch kind expected_version found.version)
  map_err (view kind) (try_as_slice ptr_addr (word_size width) 1 found)
