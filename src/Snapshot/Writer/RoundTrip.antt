-- ===== src/Snapshot/Writer/RoundTrip.antt =====
-- crates/oxgraph-snapshot/src/container.rs: `finish`, then the reader.
use oxgraph.Prelude.{
  ℕ, ◌+◌, ◌-◌, ◌*◌, ◌^◌, ◌≤◌, ◌<◌, ◌≡◌, refl, ap, sym, ◌∙◌, subst, List, [], ◌∷◌, ◌++◌,
  append_assoc, append-nil, length, map, take, drop, slice, ok, arith, length-append, drop-append,
  take-append, drop-drop, drop-append_past, le→leb, ==_refl, le→ltb_false,
}
use oxgraph.Snapshot.Format.{RawSectionEntry, header_bytes, header_of}
use oxgraph.Snapshot.Format.Codec.{header_of-header_bytes, length-header_bytes}
use oxgraph.Snapshot.Reader.{
  Snapshot, Checksum32, u64_max, layout, open_with, parse_header, validate_magic_versions_reserved,
  validate_section_table, entries_of,
}
use oxgraph.Snapshot.Reader.Table.{AreLaidOut, validate_section_table_layout_iff}
use oxgraph.Snapshot.Sections.{Section, from_entry, sections, open_checked, verify_all, verify_loop}
use oxgraph.Snapshot.Writer.{SnapshotWriter, finish}
use oxgraph.Snapshot.Writer.Contents.{Written, IsChecksum, Stores, IsWriter}
use oxgraph.Snapshot.Writer.Layout.{
  table, length-table, final_header, final_bytes, payload_area, entries_of-table,
  final_header-IsHeader, finish-eq, length-final_bytes,
}

-- A written section as the reader sees it.
abbrev pub as_section : Checksum32 → Written → Section
as_section f x = record {
  payload = x.payload;
  kind = x.kind;
  version = x.version;
  crc32c = f 0 x.payload;
  alignment_log2 = x.alignment_log2;
}

AreLaidOut-weaken :
    (m n : ℕ) (es : List RawSectionEntry) → m ≤ n → AreLaidOut n es → AreLaidOut m es
AreLaidOut-weaken m n [] h l = tt
AreLaidOut-weaken m n (e ∷ es) h l = (omega (arith, l.0), l.1)

-- A range behind a replaced front of the buffer is the range that it was.
slice-behind :
    (front buf : List ℕ) (m off len : ℕ)
    → length front ≡ m
    → m ≤ off
    → slice (front ++ drop m buf) off len ≡ slice buf off len
slice-behind front buf m off len e h = ap (take len) (
    drop-append_past off front (drop m buf) (omega arith)
    ∙ (drop-drop (off - length front) m buf
        ∙ ap (λ (k : ℕ). drop k buf) (let g : m + (off - length front) ≡ off = omega arith in g)))

Stores-behind :
    (f : Checksum32) (front buf : List ℕ) (m : ℕ) (es : List RawSectionEntry) (xs : List Written)
    → length front ≡ m
    → AreLaidOut m es
    → Stores f buf es xs
    → Stores f (front ++ drop m buf) es xs
Stores-behind f front buf m [] [] e l s = tt
Stores-behind f front buf m [] (x ∷ xs) e l s = s
Stores-behind f front buf m (y ∷ es) [] e l s = s
Stores-behind f front buf m (y ∷ es) (x ∷ xs) e l s = (
  record {
    kind = s.0.kind;
    version = s.0.version;
    alignment = s.0.alignment;
    on_boundary = s.0.on_boundary;
    crc = s.0.crc;
    payload = slice-behind front buf m y.offset y.len e l.0 ∙ s.0.payload;
  },
  Stores-behind f front buf m es xs e
      (AreLaidOut-weaken m (y.offset + y.len) es (omega (arith, l.0)) l.1) s.1,
)

Stores-sections :
    (f : Checksum32) (bytes : List ℕ) (es : List RawSectionEntry) (xs : List Written)
    → Stores f bytes es xs
    → map (from_entry bytes) es ≡ map (as_section f) xs
unfolding from_entry
Stores-sections f bytes [] [] s = refl
Stores-sections f bytes [] (x ∷ xs) s = absurd s
Stores-sections f bytes (e ∷ es) [] s = absurd s
Stores-sections f bytes (e ∷ es) (x ∷ xs) s =
    let head : from_entry bytes e ≡ as_section f x = λ i. record {
      payload = s.0.payload i;
      kind = s.0.kind i;
      version = s.0.version i;
      crc32c = s.0.crc i;
      alignment_log2 = s.0.alignment i;
    } in
    let tail = Stores-sections f bytes es xs s.1 in λ i. head i ∷ tail i

verify_loop-ok :
    (f : Checksum32) (xs : List Written) → verify_loop f (map (as_section f) xs) ≡ ok tt
unfolding verify_loop
verify_loop-ok f [] = refl
verify_loop-ok f (x ∷ xs) = rw (==_refl (f 0 x.payload)) (verify_loop-ok f xs)

-- The snapshot that opens.
abbrev pub reopened : SnapshotWriter → Snapshot
reopened w = record {
  bytes = final_bytes w;
  major = 1;
  minor = 0;
  table_crc32c = w.checksum 0 (table w.entries);
  entries = w.entries;
}

module _ (w : SnapshotWriter) (xs : List Written) (h : IsWriter w xs)
    (law : IsChecksum w.checksum) where
  pub crc_word : w.checksum 0 (table w.entries) < 2 ^ 32
  crc_word = law.word 0 (table w.entries)

  header_read : header_of (final_bytes w) ≡ final_header w
  header_read =
      header_of-header_bytes (final_header w) (table w.entries ++ payload_area w)
        (final_header-IsHeader w xs h crc_word)

  behind_header : drop 32 (final_bytes w) ≡ table w.entries ++ payload_area w
  behind_header =
      drop-append 32 (header_bytes (final_header w)) (table w.entries ++ payload_area w)
        (length-header_bytes (final_header w) (final_header-IsHeader w xs h crc_word))

  table_read : slice (final_bytes w) 32 (length w.entries * 32) ≡ table w.entries
  table_read =
      ap (take (length w.entries * 32)) behind_header
      ∙ take-append (length w.entries * 32) (table w.entries) (payload_area w)
          (length-table w.entries h.words)

  pub same_length : length (final_bytes w) ≡ length w.buf
  same_length = length-final_bytes w xs h crc_word

  validated :
      length w.buf ≤ u64_max → validate_section_table (final_bytes w) w.entries layout ≡ ok tt
  validated fits =
      (validate_section_table_layout_iff (length w.buf) fits (final_bytes w) w.entries same_length
          (omega (arith, h.few, h.limit))).1
        (
          h.ascending,
          h.clean,
          AreLaidOut-weaken (32 + length w.entries * 32) (32 + w.max_sections * 32) w.entries
              (omega (arith, h.few)) h.laid_out,
        )

  parsed : parse_header (final_bytes w) ≡ ok (final_header w, table w.entries ++ payload_area w)
  unfolding parse_header
  parsed =
      rw
        (
          le→ltb_false (length (final_bytes w)) 32 (omega (arith, same_length, h.room)),
          header_read,
          behind_header,
        )
        refl

  entries_read : entries_of (length w.entries) (table w.entries) ≡ w.entries
  entries_read =
      ap (entries_of (length w.entries)) (sym (append-nil (table w.entries)))
      ∙ entries_of-table w.entries [] h.words

  stored_final : Stores w.checksum (final_bytes w) w.entries xs
  stored_final =
      let front = header_bytes (final_header w) ++ table w.entries in
      let front_size : length front ≡ 32 + length w.entries * 32 = omega (
        arith,
        length-append (header_bytes (final_header w)) (table w.entries),
        length-header_bytes (final_header w) (final_header-IsHeader w xs h crc_word),
        length-table w.entries h.words,
      ) in
      let stored =
        Stores-behind w.checksum front w.buf (32 + length w.entries * 32) w.entries xs front_size
          (AreLaidOut-weaken (32 + length w.entries * 32) (32 + w.max_sections * 32) w.entries
            (omega (arith, h.few)) h.laid_out)
          h.stores in
      subst (λ zs. Stores w.checksum zs w.entries xs)
        (append_assoc (header_bytes (final_header w)) (table w.entries) (payload_area w)) stored

  pub sections_read : sections (reopened w) ≡ map (as_section w.checksum) xs
  sections_read = Stores-sections w.checksum (final_bytes w) w.entries xs stored_final

  verified : verify_all w.checksum (reopened w) ≡ ok tt
  unfolding verify_all
  verified = rw sections_read (verify_loop-ok w.checksum xs)

  module _ (usize_max : ℕ) (fits : length w.buf ≤ usize_max) (wide : usize_max ≤ u64_max) where
    pub opened : open_with usize_max (final_bytes w) layout ≡ ok (reopened w)
    unfolding open_with validate_magic_versions_reserved
    opened =
        rw
          (
            parsed,
            le→leb (length w.entries) 1024 (omega (arith, h.few, h.limit)),
            le→leb (length w.entries) usize_max (omega (arith, h.few, h.room)),
            le→leb (length w.entries * 32) usize_max (omega (arith, h.few, h.room)),
            le→leb (length w.entries * 32) (length (table w.entries ++ payload_area w)) (
                omega (
                  arith,
                  length-append (table w.entries) (payload_area w),
                  length-table w.entries h.words,
                )),
            take-append (length w.entries * 32) (table w.entries) (payload_area w)
                (length-table w.entries h.words),
            entries_read,
            validated (omega arith),
          )
          refl

    pub checked : open_checked usize_max w.checksum (final_bytes w) ≡ ok (reopened w)
    unfolding open_checked
    checked = rw (opened, table_read, ==_refl (w.checksum 0 (table w.entries))) refl

    -- With a lawful checksum, a valid writer's file opens under its table checksum, every section
    -- passes its own checksum, and the sections are those that were written, in order, with their
    -- kinds, versions, alignments and payloads; the entries place each of them in the file at a
    -- multiple of its alignment. The buffer fits the host's `usize`, which is at most 64 bits wide.
    pub finish_roundtrip :
        (bytes : List ℕ) × (s : Snapshot) × (finish w ≡ ok bytes)
        × (length bytes ≡ length w.buf)
        × (open_checked usize_max w.checksum bytes ≡ ok s)
        × (verify_all w.checksum s ≡ ok tt)
        × (sections s ≡ map (as_section w.checksum) xs)
        × Stores w.checksum bytes s.entries xs
    finish_roundtrip = (
      final_bytes w,
      reopened w,
      finish-eq w xs h (omega arith) crc_word,
      same_length,
      checked,
      verified,
      sections_read,
      stored_final,
    )
