-- ===== src/Examples/Snapshot.antt =====
-- crates/oxgraph-snapshot on a file of one section.
use oxgraph.Prelude.{
  ℕ, ◌+◌, ◌*◌, ◌%◌, ◌^◌, ◌≤◌, ◌<◌, ◌≡◌, ◌↔◌, refl, none, some, List, [], ◌∷◌, ◌++◌, length, map,
  replicate, ok, arith, le_bytes,
}
use oxgraph.Layout.Crc.{crc32c_append}
use oxgraph.Snapshot.Format.{RawSectionEntry, header_bytes, entry_bytes}
use oxgraph.Snapshot.Reader.{Snapshot, open_with, layout, section_table, validate_section_table}
use oxgraph.Snapshot.Reader.Table.{AreClean, AreLaidOut, entry_kinds, validate_section_table_iff}
use oxgraph.Snapshot.Search.{IsAscendingFrom}
use oxgraph.Snapshot.Sections.{from_entry, section, sections, open_checked, verify_all}
use oxgraph.Snapshot.Lookup.{IsOpen, open_with-IsOpen, section_found}
use oxgraph.Snapshot.Writer.{
  SnapshotWriter, new_writer, section_bytes, begin_section, align_up_checked, write, end_section,
  finish,
}
use oxgraph.Snapshot.Writer.Contents.{Written, Stores, IsWriter}
use oxgraph.Snapshot.Writer.Checksum.{crc32c_append-IsChecksum}
use oxgraph.Snapshot.Writer.Steps.{
  new_writer-IsWriter, section_bytes-IsWriter, align_up_checked_lem,
}
use oxgraph.Snapshot.Writer.RoundTrip.{as_section, finish_roundtrip, reopened, opened}

abbrev host : ℕ
host = 0xffff_ffff_ffff_ffff

abbrev payload : List ℕ
payload = 1 ∷ 2 ∷ 3 ∷ []

-- A writer for two sections, and the same after one section.
abbrev made : SnapshotWriter
made = record { buf = replicate 96 0; entries = []; max_sections = 2; checksum = crc32c_append }

abbrev entry : RawSectionEntry
entry = record {
  offset = 96;
  len = 3;
  kind = 5;
  version = 1;
  crc32c = crc32c_append 0 payload;
  alignment_log2 = 2;
  flags = 0;
  reserved = 0 ∷ 0 ∷ [];
}

abbrev one : SnapshotWriter
one = record made { buf = replicate 96 0 ++ payload; entries = entry ∷ [] }

abbrev stored : Written
stored = record { kind = 5; version = 1; alignment_log2 = 2; payload = payload }

made_new : new_writer host 2 crc32c_append ≡ ok made
unfolding new_writer
made_new = refl

section_added : section_bytes host made 5 1 2 payload ≡ ok one
unfolding section_bytes begin_section align_up_checked write end_section
section_added = refl

section_bytes-IsWriter_example : IsWriter one ([] ++ stored ∷ [])
section_bytes-IsWriter_example =
    section_bytes-IsWriter host made [] 5 1 2 payload one crc32c_append-IsChecksum
      (new_writer-IsWriter host 2 crc32c_append made made_new) (omega arith) (omega arith)
      section_added

finish_roundtrip_example :
    (bytes : List ℕ) × (s : Snapshot) × (finish one ≡ ok bytes)
    × (length bytes ≡ length one.buf)
    × (open_checked host crc32c_append bytes ≡ ok s)
    × (verify_all crc32c_append s ≡ ok tt)
    × (sections s ≡ map (as_section crc32c_append) (stored ∷ []))
    × Stores crc32c_append bytes s.entries (stored ∷ [])
finish_roundtrip_example =
    finish_roundtrip one (stored ∷ []) section_bytes-IsWriter_example crc32c_append-IsChecksum host
      (omega arith) (omega arith)

align_up_checked_lem_example : (13 ≤ 16) × (16 < 13 + 2 ^ 3) × (16 % 2 ^ 3 ≡ 0)
unfolding align_up_checked
align_up_checked_lem_example = align_up_checked_lem host 13 3 16 refl

abbrev file : Snapshot
file = reopened one

file_opened : open_with host file.bytes layout ≡ ok file
file_opened =
    opened one (stored ∷ []) section_bytes-IsWriter_example crc32c_append-IsChecksum host
      (omega arith) (omega arith)

file_fits : length file.bytes ≤ 0xffff_ffff_ffff_ffff
unfolding header_bytes entry_bytes le_bytes
file_fits = omega arith

open_with-IsOpen_example :
    IsOpen file.bytes file × AreLaidOut (32 + length file.entries * 32) file.entries
open_with-IsOpen_example = open_with-IsOpen host file.bytes file file_fits file_opened

section_found_example :
    (section file 5 ≡ some (from_entry file.bytes entry))
    × (length (from_entry file.bytes entry).payload ≡ 3)
section_found_example = section_found file.bytes file open_with-IsOpen_example.0 0 entry refl

validate_section_table_iff_example :
    (validate_section_table file.bytes file.entries section_table ≡ ok tt)
    ↔ (IsAscendingFrom none (entry_kinds file.entries) × AreClean (length file.bytes) file.entries)
validate_section_table_iff_example =
    validate_section_table_iff (length file.bytes) file_fits file.bytes file.entries refl

abbrev three : List ℕ
three = 4 ∷ 5 ∷ 9 ∷ []
