-- ===== src/Snapshot/Writer/Added.antt =====
-- crates/oxgraph-snapshot/src/container.rs: `section_bytes` at alignment one.
use oxgraph.Prelude.{
  ℕ, ◌+◌, ◌-◌, ◌≤◌, ◌<◌, ◌≡◌, refl, List, [], ◌∷◌, ◌++◌, length, ok, arith, append-nil, take_all,
  length-append, le→leb, lt→ltb,
}
use oxgraph.Snapshot.Format.{RawSectionEntry}
use oxgraph.Snapshot.Reader.{u64_max}
use oxgraph.Snapshot.Writer.{
  SnapshotWriter, last_kind, check_last, align_up_checked, begin_section, write, end_section,
  section_bytes, resize,
}

abbrev pub entry_for : SnapshotWriter → ℕ → ℕ → List ℕ → RawSectionEntry
entry_for w kind version payload = record {
  offset = length w.buf;
  len = length payload;
  kind = kind;
  version = version;
  crc32c = w.checksum 0 payload;
  alignment_log2 = 0;
  flags = 0;
  reserved = 0 ∷ 0 ∷ [];
}

-- The writer after the section.
abbrev pub added : SnapshotWriter → ℕ → ℕ → List ℕ → SnapshotWriter
added w kind version payload = record w {
  buf = w.buf ++ payload;
  entries = w.entries ++ entry_for w kind version payload ∷ [];
}

module _ (usize_max : ℕ) where
  unaligned : (n : ℕ) → n ≤ usize_max → align_up_checked usize_max n 0 ≡ ok n
  unfolding align_up_checked
  unaligned n h = ground arith

  resize_same : (buf : List ℕ) → resize (length buf) buf ≡ buf
  resize_same buf =
      let e : length buf - length buf ≡ 0 = omega arith in
      rw (take_all (length buf) buf (omega arith), e) (append-nil buf)

  pub section_bytes_ok :
      (w : SnapshotWriter) (kind version : ℕ) (payload : List ℕ)
      → length w.entries < w.max_sections
      → check_last (last_kind w.entries) kind ≡ ok tt
      → length w.buf + length payload ≤ usize_max
      → usize_max ≤ u64_max
      → section_bytes usize_max w kind version 0 payload ≡ ok (added w kind version payload)
  unfolding section_bytes begin_section write end_section
  section_bytes_ok w kind version payload more next fits wide =
      let size = length-append w.buf payload in
      let e : length (w.buf ++ payload) - length w.buf ≡ length payload = omega arith in
      rw
        (
          lt→ltb (length w.entries) w.max_sections more,
          next,
          unaligned (length w.buf) (omega arith),
          resize_same w.buf,
          le→leb (length w.buf) u64_max (omega arith),
          e,
          le→leb (length payload) u64_max (omega arith),
        )
        refl
