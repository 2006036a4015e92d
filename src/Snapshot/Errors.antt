-- ===== src/Snapshot/Errors.antt =====
-- crates/oxgraph-snapshot/src/container_error.rs: the errors of reading, viewing and writing.
use oxgraph.Prelude.{ℕ, List}

pub data SnapshotError : Type 0 where
  truncated_header : (needed actual : ℕ) → SnapshotError
  malformed_header : SnapshotError
  bad_magic : (actual : List ℕ) → SnapshotError
  format_major_mismatch : (actual supported : ℕ) → SnapshotError
  format_minor_too_new : (actual max_supported : ℕ) → SnapshotError
  header_size_mismatch : (actual expected : ℕ) → SnapshotError
  non_zero_header_reserved : SnapshotError
  section_count_too_large : (count max : ℕ) → SnapshotError
  truncated_section_table : (needed actual : ℕ) → SnapshotError
  malformed_section_table : SnapshotError
  non_zero_entry_reserved : (kind : ℕ) → SnapshotError
  unsupported_flags : (kind flags : ℕ) → SnapshotError
  alignment_log2_too_large : (kind alignment_log2 : ℕ) → SnapshotError
  section_range_overflow : (kind : ℕ) → SnapshotError
  section_out_of_bounds : (kind offset length snapshot_len : ℕ) → SnapshotError
  unsorted_section_table : (index : ℕ) → SnapshotError
  non_ascending_kind : (kind prev : ℕ) → SnapshotError
  table_checksum_mismatch : (expected actual : ℕ) → SnapshotError
  section_checksum_mismatch : (kind expected actual : ℕ) → SnapshotError
  section_missing : (kind : ℕ) → SnapshotError
  usize_overflow : (value : ℕ) → SnapshotError

pub data SectionViewError : Type 0 where
  zero_sized_type : SectionViewError
  length_not_multiple_of_size : (length elem_size : ℕ) → SectionViewError
  alignment_mismatch : (ptr_addr required : ℕ) → SectionViewError
  checksum_mismatch : (kind expected actual : ℕ) → SectionViewError

pub data SectionBindError : Type 0 where
  missing : (kind : ℕ) → SectionBindError
  version_mismatch : (kind expected actual : ℕ) → SectionBindError
  view : (kind : ℕ) → (error : SectionViewError) → SectionBindError

pub data PlanError : Type 0 where
  buffer_too_small : (needed actual : ℕ) → PlanError
  alignment_too_large : (alignment_log2 : ℕ) → PlanError
  payload_overflow : PlanError
  too_many_sections : (count : ℕ) → PlanError
  non_ascending_kind : (kind prev : ℕ) → PlanError
