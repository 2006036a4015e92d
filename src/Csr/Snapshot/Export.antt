-- ===== src/Csr/Snapshot/Export.antt =====
-- crates/oxgraph-csr: `export_topology_snapshot`, then `from_snapshot`.
use oxgraph.Prelude.{
  ℕ, suc, ◌+◌, ◌-◌, ◌*◌, ◌^◌, ◌≤◌, ◌<◌, ◌≡◌, ◌==◌, false, refl, ap, ◌∙◌, some, List, [], ◌∷◌,
  length, get_or, ok, arith, length-append, le→leb, lt→ltb, replicate,
}
use oxgraph.Layout.Width.{Width, u16, u32, u64, usize, max_value}
use oxgraph.Layout.Integrity.{◌!◌}
use oxgraph.Layout.Integrity.Offsets.{offsets-le-len}
use oxgraph.Layout.Crc.{crc32c_append}
use oxgraph.Snapshot.Reader.{Snapshot, u64_max, layout, open_with}
use oxgraph.Snapshot.Sections.{word_size, section, sections, open_checked}
use oxgraph.Snapshot.Lookup.{IsOpen, open_with-IsOpen, section_found}
use oxgraph.Snapshot.Words.{AllBelow, word_bytes, length-word_bytes, typed_section_words}
use oxgraph.Snapshot.Writer.{SnapshotWriter, new_writer, section_bytes, section_widths}
use oxgraph.Snapshot.Writer.Added.{added, entry_for, section_bytes_ok}
use oxgraph.Snapshot.Writer.Contents.{Written, IsWriter}
use oxgraph.Snapshot.Writer.Checksum.{crc32c_append-IsChecksum}
use oxgraph.Snapshot.Writer.Steps.{new_writer-IsWriter, section_bytes-IsWriter}
use oxgraph.Snapshot.Writer.Layout.{final_bytes, finish-eq}
use oxgraph.Snapshot.Writer.RoundTrip.{
  as_section, reopened, opened, checked, sections_read, crc_word, same_length,
}
use oxgraph.Csr.Validate.{IsCsr, view_of, validate_iff}
use oxgraph.Csr.Build.{FrozenTopology}
use oxgraph.Csr.Snapshot.{
  offsets_kind, targets_kind, section_version, from_snapshot_with_kinds, from_snapshot,
  plan_topology, export_topology_snapshot,
}

all_below : (n : ℕ) (xs : List ℕ) → ((i : ℕ) → i < length xs → xs ! i < n) → AllBelow n xs
all_below n [] h = tt
all_below n (x ∷ xs) h = (h 0 (omega arith), all_below n xs (λ i lt. h (suc i) (omega arith)))

width_room :
    (usize_max : ℕ) (width : Width)
    → usize_max ≤ u64_max
    → max_value usize_max width < 256 ^ word_size width
width_room m u16 h = omega arith
width_room m u32 h = omega arith
width_room m u64 h = omega arith
width_room m usize h = omega arith

kinds_apart : (edge_index node_index : Width) → offsets_kind edge_index < targets_kind node_index
kinds_apart u16 w = omega arith
kinds_apart u32 w = omega arith
kinds_apart u64 w = omega arith
kinds_apart usize w = omega arith

kind_small : (width : Width) → targets_kind width < 16
kind_small u16 = omega arith
kind_small u32 = omega arith
kind_small u64 = omega arith
kind_small usize = omega arith

abbrev blank : SnapshotWriter
blank = record { buf = replicate 96 0; entries = []; max_sections = 2; checksum = crc32c_append }

blank_made : (usize_max : ℕ) → 96 ≤ usize_max → new_writer usize_max 2 crc32c_append ≡ ok blank
unfolding new_writer
blank_made usize_max h = rw (le→leb 64 usize_max (omega arith), le→leb 96 usize_max h) refl

module _ (usize_max : ℕ) (node_index edge_index : Width) (t : FrozenTopology)
    (wide : usize_max ≤ u64_max)
    (fits : 96 + length t.offsets * word_size edge_index + length t.targets * word_size node_index
      ≤ usize_max) where
  abbrev offsets_bytes : List ℕ
  offsets_bytes = word_bytes edge_index t.offsets

  abbrev targets_bytes : List ℕ
  targets_bytes = word_bytes node_index t.targets

  -- The writer after the offsets, and after the targets.
  abbrev first : SnapshotWriter
  first = added blank (offsets_kind edge_index) section_version offsets_bytes

  abbrev second : SnapshotWriter
  second = added first (targets_kind node_index) section_version targets_bytes

  abbrev offsets_written : Written
  offsets_written = record {
    kind = offsets_kind edge_index;
    version = section_version;
    alignment_log2 = 0;
    payload = offsets_bytes;
  }

  abbrev targets_written : Written
  targets_written = record {
    kind = targets_kind node_index;
    version = section_version;
    alignment_log2 = 0;
    payload = targets_bytes;
  }

  first_len : length first.buf ≡ 96 + length t.offsets * word_size edge_index
  first_len =
      omega (
        arith,
        length-append (replicate 96 0) offsets_bytes,
        length-word_bytes edge_index t.offsets,
      )

  second_len :
      length second.buf
      ≡ 96 + length t.offsets * word_size edge_index + length t.targets * word_size node_index
  second_len = omega (
    arith,
    first_len,
    length-append first.buf targets_bytes,
    length-word_bytes node_index t.targets,
  )

  first_added :
      section_bytes usize_max blank (offsets_kind edge_index) section_version 0 offsets_bytes
      ≡ ok first
  first_added =
      section_bytes_ok usize_max blank (offsets_kind edge_index) section_version offsets_bytes
        (omega arith) refl (omega (arith, length-word_bytes edge_index t.offsets)) wide

  second_added :
      section_bytes usize_max first (targets_kind node_index) section_version 0 targets_bytes
      ≡ ok second
  second_added =
      section_bytes_ok usize_max first (targets_kind node_index) section_version targets_bytes
        (omega arith)
        (rw
          (lt→ltb (offsets_kind edge_index) (targets_kind node_index)
            (kinds_apart edge_index node_index))
          refl)
        (omega (arith, first_len, length-word_bytes node_index t.targets)) wide

  second-IsWriter : IsWriter second (offsets_written ∷ targets_written ∷ [])
  second-IsWriter =
      let start =
        new_writer-IsWriter usize_max 2 crc32c_append blank (blank_made usize_max (omega arith)) in
      let one =
        section_bytes-IsWriter usize_max blank [] (offsets_kind edge_index) section_version 0
          offsets_bytes first crc32c_append-IsChecksum start
          (omega (arith, kinds_apart edge_index node_index, kind_small node_index)) (omega arith)
          first_added in
      section_bytes-IsWriter usize_max first (offsets_written ∷ []) (targets_kind node_index)
        section_version 0 targets_bytes second crc32c_append-IsChecksum one
        (omega (arith, kind_small node_index)) (omega arith) second_added

  abbrev file : Snapshot
  file = reopened second

  reopens : open_with usize_max (final_bytes second) layout ≡ ok file
  reopens =
      opened second (offsets_written ∷ targets_written ∷ []) second-IsWriter
        crc32c_append-IsChecksum usize_max (omega (arith, second_len)) wide

  read_back :
      sections file
      ≡ as_section crc32c_append offsets_written ∷ as_section crc32c_append targets_written ∷ []
  read_back =
      sections_read second (offsets_written ∷ targets_written ∷ []) second-IsWriter
        crc32c_append-IsChecksum

  file-IsOpen : IsOpen (final_bytes second) file
  file-IsOpen =
      let size =
        same_length second (offsets_written ∷ targets_written ∷ []) second-IsWriter
          crc32c_append-IsChecksum in
      (open_with-IsOpen usize_max (final_bytes second) file (omega (arith, second_len)) reopens).0

  offsets_found :
      section file (offsets_kind edge_index) ≡ some (as_section crc32c_append offsets_written)
  offsets_found =
      (section_found (final_bytes second) file file-IsOpen 0
        (entry_for blank (offsets_kind edge_index) section_version offsets_bytes) refl).0
      ∙ ap (λ xs. some (get_or xs 0 (as_section crc32c_append offsets_written))) read_back

  targets_found :
      section file (targets_kind node_index) ≡ some (as_section crc32c_append targets_written)
  targets_found =
      (section_found (final_bytes second) file file-IsOpen 1
        (entry_for first (targets_kind node_index) section_version targets_bytes) refl).0
      ∙ ap (λ xs. some (get_or xs 1 (as_section crc32c_append targets_written))) read_back

  exported : plan_topology usize_max node_index edge_index t ≡ ok (final_bytes second)
  unfolding plan_topology section_widths
  exported =
      rw (blank_made usize_max (omega arith), first_added, second_added)
        (finish-eq second (offsets_written ∷ targets_written ∷ []) second-IsWriter
          (omega (arith, second_len))
          (crc_word second (offsets_written ∷ targets_written ∷ []) second-IsWriter
            crc32c_append-IsChecksum))

  -- A topology whose view is valid is exported, opens under its checksum, and `from_snapshot` then
  -- borrows the same offsets and targets, wherever the payloads lie in memory. The counts fit the
  -- chosen widths, and the file fits the host's `usize`, which is at most 64 bits wide.
  pub export_roundtrip :
      IsCsr usize_max (view_of t.node_count t.offsets t.targets)
      → t.node_count ≤ max_value usize_max node_index
      → length t.targets ≤ max_value usize_max edge_index
      → (bytes : List ℕ) × (s : Snapshot) × (export_topology_snapshot usize_max node_index
            edge_index t
          ≡ ok bytes)
        × (open_checked usize_max crc32c_append bytes ≡ ok s)
        × ((offsets_addr targets_addr : ℕ)
            → from_snapshot usize_max node_index edge_index offsets_addr targets_addr s
              ≡ ok (view_of t.node_count t.offsets t.targets))
  unfolding export_topology_snapshot from_snapshot from_snapshot_with_kinds
  export_roundtrip valid nodes_fit edges_fit =
      let size = valid.rows.size in
      let offsets_below = all_below (256 ^ word_size edge_index) t.offsets (λ i lt.
        omega (
          arith,
          offsets-le-len valid.rows i (omega arith),
          width_room usize_max edge_index wide,
        )) in
      let targets_below =
        all_below (256 ^ word_size node_index) t.targets
          (λ i lt. omega (arith, valid.nodes i lt, width_room usize_max node_index wide)) in
      let passed =
        (validate_iff usize_max t.node_count t.offsets t.targets
            (view_of t.node_count t.offsets t.targets) valid.offsets_fit valid.edges_fit).1
          (refl, valid) in
      let count : length t.offsets - 1 ≡ t.node_count = omega arith in
      let some_offsets : (length t.offsets == 0) ≡ false = ground arith in
      (
        final_bytes second,
        file,
        rw exported refl,
        checked second (offsets_written ∷ targets_written ∷ []) second-IsWriter
            crc32c_append-IsChecksum usize_max (omega (arith, second_len)) wide,
        λ a b.
            rw
              (
                typed_section_words a file edge_index (offsets_kind edge_index) section_version
                    t.offsets (as_section crc32c_append offsets_written) offsets_found refl refl
                    offsets_below,
                typed_section_words b file node_index (targets_kind node_index) section_version
                    t.targets (as_section crc32c_append targets_written) targets_found refl refl
                    targets_below,
                some_offsets,
                count,
                le→leb t.node_count (max_value usize_max node_index) nodes_fit,
                passed,
              )
              refl,
      )
