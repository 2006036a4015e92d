-- ===== src/Snapshot/Reader.antt =====
-- crates/oxgraph-snapshot/src/container.rs: opening a snapshot and reading its sections.
-- `usize_max` is the host's `usize::MAX`, `checksum` the caller's `Checksum32`.
pub mod Table
use oxgraph.Prelude.{
  ℕ, zero, suc, ◌+◌, ◌-◌, ◌*◌, ◌/◌, ◌%◌, Bool, true, false, Option, none, some, List, [], ◌∷◌,
  length, take, drop, get_elem?, get_or, ltb, leb, ◌==◌, if◌then◌else◌, Result, ok, err, ◌>>=◌,
  ◌>>◌, guard, ok_or, map_err, slice, not, ◌&&◌,
}
use oxgraph.Layout.Width.{checked_add, to_usize}
use oxgraph.Snapshot.Errors.{
  SnapshotError, truncated_header, bad_magic, format_major_mismatch, format_minor_too_new,
  header_size_mismatch, non_zero_header_reserved, section_count_too_large, truncated_section_table,
  non_zero_entry_reserved, unsupported_flags, alignment_log2_too_large, section_range_overflow,
  section_out_of_bounds, unsorted_section_table, usize_overflow,
}
use oxgraph.Snapshot.Format.{
  format_magic, format_major, max_supported_minor, header_size, section_entry_size,
  max_alignment_log2, max_section_count, RawHeader, RawSectionEntry, header_of, entry_of,
}

abbrev pub Checksum32 : Type 0
Checksum32 = ℕ → List ℕ → ℕ

abbrev pub bytes_eq : List ℕ → List ℕ → Bool
bytes_eq [] [] = true
bytes_eq [] (y ∷ ys) = false
bytes_eq (x ∷ xs) [] = false
bytes_eq (x ∷ xs) (y ∷ ys) = x == y && bytes_eq xs ys

-- The header and what follows it.
unfoldable pub parse_header : List ℕ → Result SnapshotError (RawHeader × List ℕ)
parse_header bytes =
    if ltb (length bytes) header_size
    then err (truncated_header header_size (length bytes))
    else ok (header_of bytes, drop header_size bytes)

unfoldable pub validate_magic_versions_reserved : RawHeader → Result SnapshotError (Unit {0})
validate_magic_versions_reserved header = do
  guard (bytes_eq header.magic format_magic) (bad_magic header.magic)
  guard (header.major == format_major) (format_major_mismatch header.major format_major)
  guard (leb header.minor max_supported_minor)
      (format_minor_too_new header.minor max_supported_minor)
  guard (header.size == header_size) (header_size_mismatch header.size header_size)
  guard (bytes_eq header.reserved (0 ∷ 0 ∷ 0 ∷ 0 ∷ [])) non_zero_header_reserved

pub data ValidationLevel : Type 0 where
  section_table layout : ValidationLevel

abbrev pub u64_max : ℕ
u64_max = 0xffff_ffff_ffff_ffff

-- `if let Some(prev) = prev_kind && kind <= prev { return Err(..) }`
abbrev pub check_ascending : Option ℕ → ℕ → Result SnapshotError (Unit {0})
check_ascending none kind = ok tt
check_ascending (some prev) kind =
    guard (ltb prev kind) (SnapshotError.non_ascending_kind kind prev)

-- One round of the always-run walk of `validate_section_table`.
unfoldable pub check_entry : ℕ → Option ℕ → RawSectionEntry → Result SnapshotError (Unit {0})
check_entry snapshot_len prev_kind entry = do
  check_ascending prev_kind entry.kind
  guard (entry.flags == 0) (unsupported_flags entry.kind entry.flags)
  guard (bytes_eq entry.reserved (0 ∷ 0 ∷ [])) (non_zero_entry_reserved entry.kind)
  guard (leb entry.alignment_log2 max_alignment_log2)
      (alignment_log2_too_large entry.kind entry.alignment_log2)
  end ← ok_or (checked_add u64_max entry.offset entry.len) (section_range_overflow entry.kind)
  guard (leb end snapshot_len)
      (section_out_of_bounds entry.kind entry.offset entry.len snapshot_len)

unfoldable pub entries_loop : ℕ → Option ℕ → List RawSectionEntry → Result SnapshotError (Unit {0})
entries_loop snapshot_len prev_kind [] = ok tt
entries_loop snapshot_len prev_kind (entry ∷ entries) = do
  check_entry snapshot_len prev_kind entry
  entries_loop snapshot_len (some entry.kind) entries

abbrev pub saturating_add64 : ℕ → ℕ → ℕ
saturating_add64 a b = if leb (a + b) u64_max then a + b else u64_max

-- The walk of the `Layout` level.
unfoldable pub layout_loop : ℕ → ℕ → List RawSectionEntry → Result SnapshotError (Unit {0})
layout_loop index prev_end [] = ok tt
layout_loop index prev_end (entry ∷ entries) = do
  guard (leb prev_end entry.offset) (unsorted_section_table index)
  layout_loop (suc index) (saturating_add64 entry.offset entry.len) entries

abbrev pub saturating_mul64 : ℕ → ℕ → ℕ
saturating_mul64 a b = if leb (a * b) u64_max then a * b else u64_max

unfoldable pub validate_layout : List RawSectionEntry → Result SnapshotError (Unit {0})
validate_layout entries = do
  header_plus_table ←
      ok_or (checked_add u64_max header_size (saturating_mul64 (length entries) section_entry_size))
        (section_range_overflow 0)
  layout_loop 0 header_plus_table entries

unfoldable pub validate_section_table :
    List ℕ → List RawSectionEntry → ValidationLevel → Result SnapshotError (Unit {0})
validate_section_table bytes entries level = do
  entries_loop (length bytes) none entries
  elim level [ section_table ↦ ok tt | layout ↦ validate_layout entries ]

pub record Snapshot : Type 0 where
  pub bytes : List ℕ
  pub major : ℕ
  pub minor : ℕ
  pub table_crc32c : ℕ
  pub entries : List RawSectionEntry

-- `<[RawSectionEntry]>::ref_from_bytes_with_elems` on a table of `count` whole entries.
unfoldable pub entries_of : ℕ → List ℕ → List RawSectionEntry
entries_of zero table = []
entries_of (suc count) table = entry_of table ∷ entries_of count (drop section_entry_size table)

module _ (usize_max : ℕ) where
  unfoldable pub open_with : List ℕ → ValidationLevel → Result SnapshotError Snapshot
  open_with bytes level = do
    (header, after_header) ← parse_header bytes
    validate_magic_versions_reserved header
    guard (leb header.section_count max_section_count)
        (section_count_too_large header.section_count max_section_count)
    count ← ok_or (to_usize usize_max header.section_count) (usize_overflow header.section_count)
    guard (leb (count * section_entry_size) usize_max)
        (section_count_too_large header.section_count max_section_count)
    let table_len = count * section_entry_size
    guard (leb table_len (length after_header))
        (truncated_section_table table_len (length after_header))
    let entries = entries_of count (take table_len after_header)
    validate_section_table bytes entries level
    ok (record {
      bytes = bytes;
      major = header.major;
      minor = header.minor;
      table_crc32c = header.table_crc32c;
      entries = entries;
    })
