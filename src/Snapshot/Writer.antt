-- ===== src/Snapshot/Writer.antt =====
-- crates/oxgraph-snapshot/src/container.rs: the write-through encoder. `usize_max` is the host's
-- `usize::MAX`. The writer's `&mut self` is passed and returned; a sink holds its writer.
pub mod Contents
pub mod Concat
pub mod Sinks
pub mod Steps
pub mod Added
pub mod Layout
pub mod RoundTrip
pub mod Checksum
use oxgraph.Prelude.{
  ℕ, zero, suc, ◌+◌, ◌-◌, ◌*◌, ◌/◌, ◌^◌, Option, none, some, List, [], ◌∷◌, ◌++◌, length, map, take,
  drop, replicate, ltb, leb, if◌then◌else◌, Result, ok, err, ◌>>=◌, ◌>>◌, guard, ok_or, slice,
  splice, le_bytes,
}
use mathlib.Core.List.{flat_map}
use oxgraph.Layout.Width.{Width, checked_add}
use oxgraph.Snapshot.Errors.{PlanError, alignment_too_large, payload_overflow, too_many_sections}
use oxgraph.Snapshot.Errors
use oxgraph.Snapshot.Format.{
  RawHeader, RawSectionEntry, header_bytes, entry_bytes, format_magic, format_major, format_minor,
  header_size, section_entry_size, max_alignment_log2, max_section_count,
}
use oxgraph.Snapshot.Reader.{Checksum32, u64_max}
use oxgraph.Snapshot.Sections.{word_size}

pub record SnapshotWriter : Type 0 where
  pub buf : List ℕ
  pub entries : List RawSectionEntry
  pub max_sections : ℕ
  pub checksum : Checksum32

pub record SectionSink : Type 0 where
  pub writer : SnapshotWriter
  pub start : ℕ
  pub kind : ℕ
  pub version : ℕ
  pub crc : ℕ
  pub alignment_log2 : ℕ

-- `Vec::resize(n, 0)`
abbrev pub resize : ℕ → List ℕ → List ℕ
resize n buf = take n buf ++ replicate (n - length buf) 0

-- `self.entries.last()`
abbrev pub last_kind : List RawSectionEntry → Option ℕ
last_kind [] = none
last_kind (e ∷ []) = some e.kind
last_kind (e ∷ f ∷ es) = last_kind (f ∷ es)

abbrev pub check_last : Option ℕ → ℕ → Result PlanError (Unit {0})
check_last none kind = ok tt
check_last (some prev) kind = guard (ltb prev kind) (PlanError.non_ascending_kind kind prev)

-- `u64::try_from` of a `usize`
abbrev pub to_u64 : ℕ → Result PlanError ℕ
to_u64 value = if leb value u64_max then ok value else err payload_overflow

module _ (usize_max : ℕ) where
  -- `added & !mask` clears the low bits of `added`.
  unfoldable pub align_up_checked : ℕ → ℕ → Result PlanError ℕ
  align_up_checked value alignment_log2 = do
    let alignment = 2 ^ alignment_log2
    added ← ok_or (checked_add usize_max value (alignment - 1)) payload_overflow
    ok (added / alignment * alignment)

  -- `with_payload_capacity`, whose capacity is a hint to the allocator, and `new`.
  unfoldable pub new_writer : ℕ → Checksum32 → Result PlanError SnapshotWriter
  new_writer max_sections checksum = do
    guard (leb max_sections max_section_count) (too_many_sections max_sections)
    guard (leb (max_sections * section_entry_size) usize_max) payload_overflow
    reserved ←
        ok_or (checked_add usize_max header_size (max_sections * section_entry_size))
          payload_overflow
    ok (record {
      buf = replicate reserved 0;
      entries = [];
      max_sections = max_sections;
      checksum = checksum;
    })

  unfoldable pub begin_section : SnapshotWriter → ℕ → ℕ → ℕ → Result PlanError SectionSink
  begin_section w kind version alignment_log2 = do
    guard (leb alignment_log2 max_alignment_log2) (alignment_too_large alignment_log2)
    guard (ltb (length w.entries) w.max_sections) (too_many_sections (length w.entries + 1))
    check_last (last_kind w.entries) kind
    aligned ← align_up_checked (length w.buf) alignment_log2
    ok (record {
      writer = record w { buf = resize aligned w.buf };
      start = aligned;
      kind = kind;
      version = version;
      crc = 0;
      alignment_log2 = alignment_log2;
    })

-- `SectionSink::write`; `write_typed` writes the records' bytes.
unfoldable pub write : SectionSink → List ℕ → SectionSink
write sink bytes = record sink {
  crc = sink.writer.checksum sink.crc bytes;
  writer = record (sink.writer) { buf = sink.writer.buf ++ bytes };
}

-- `SectionSink::end`
unfoldable pub end_section : SectionSink → Result PlanError SnapshotWriter
end_section sink = do
  offset ← to_u64 sink.start
  len ← to_u64 (length sink.writer.buf - sink.start)
  let entry : RawSectionEntry = record {
    offset = offset;
    len = len;
    kind = sink.kind;
    version = sink.version;
    crc32c = sink.crc;
    alignment_log2 = sink.alignment_log2;
    flags = 0;
    reserved = 0 ∷ 0 ∷ [];
  }
  ok (record (sink.writer) { entries = sink.writer.entries ++ entry ∷ [] })

-- The loop of `finish` that fills the reserved table.
unfoldable pub table_loop : ℕ → List RawSectionEntry → List ℕ → List ℕ
table_loop index [] buf = buf
table_loop index (entry ∷ entries) buf =
    table_loop (suc index) entries
      (splice buf (header_size + index * section_entry_size) (entry_bytes entry))

abbrev pub u32_max : ℕ
u32_max = 0xffff_ffff

unfoldable pub finish : SnapshotWriter → Result PlanError (List ℕ)
finish w = do
  guard (leb (length w.buf) u64_max) payload_overflow
  guard (leb (length w.entries) u32_max) (too_many_sections (length w.entries))
  let buf = table_loop 0 w.entries w.buf
  let header : RawHeader = record {
    magic = format_magic;
    major = format_major;
    minor = format_minor;
    size = header_size;
    section_count = length w.entries;
    table_crc32c = w.checksum 0 (slice buf header_size (length w.entries * section_entry_size));
    reserved = 0 ∷ 0 ∷ 0 ∷ 0 ∷ [];
  }
  ok (splice buf 0 (header_bytes header))

module _ (usize_max : ℕ) where
  unfoldable pub section_bytes :
      SnapshotWriter → ℕ → ℕ → ℕ → List ℕ → Result PlanError SnapshotWriter
  section_bytes w kind version alignment_log2 bytes = do
    sink ← begin_section usize_max w kind version alignment_log2
    end_section (write sink bytes)

  -- The little-endian words are unaligned, so `section_typed` begins the section at log2 0.
  unfoldable pub section_widths :
      SnapshotWriter → Width → ℕ → ℕ → List ℕ → Result PlanError SnapshotWriter
  section_widths w width kind version values =
      section_bytes w kind version 0 (flat_map (le_bytes (word_size width)) values)
