-- ===== src/Snapshot/Writer/Layout.antt =====
-- crates/oxgraph-snapshot/src/container.rs: the bytes that `finish` returns.
use oxgraph.Prelude.{
  ℕ, suc, ◌+◌, ◌-◌, ◌*◌, ◌^◌, ◌≤◌, ◌<◌, ◌≡◌, refl, ap, sym, ◌∙◌, List, [], ◌∷◌, ◌++◌, append_assoc,
  length, take, drop, slice, splice, ok, arith, length-append, length-drop, length-take,
  take-append, drop-append, take-append-drop, drop-drop, drop-append_past, le→leb,
}
use oxgraph.Snapshot.Format.{
  RawHeader, RawSectionEntry, header_bytes, entry_bytes, format_magic, header_size,
  section_entry_size,
}
use oxgraph.Snapshot.Format.Codec.{
  IsHeader, length-entry_bytes, length-header_bytes, entry_of-entry_bytes,
}
use oxgraph.Snapshot.Reader.{u64_max, entries_of}
use oxgraph.Snapshot.Writer.{SnapshotWriter, table_loop, finish, u32_max}
use oxgraph.Snapshot.Writer.Contents.{Written, AreEntries, IsWriter}

-- The table, entry after entry.
abbrev pub table : List RawSectionEntry → List ℕ
table [] = []
table (e ∷ es) = entry_bytes e ++ table es

pub length-table : (es : List RawSectionEntry) → AreEntries es → length (table es) ≡ length es * 32
length-table [] h = omega arith
length-table (e ∷ es) h =
    omega (
      arith,
      length-append (entry_bytes e) (table es),
      length-entry_bytes e h.0,
      length-table es h.1,
    )

-- A copy into a buffer, right behind `pre`.
pub splice-behind :
    (pre rest piece : List ℕ) (at n : ℕ)
    → length pre ≡ at
    → length piece ≡ n
    → splice (pre ++ rest) at piece ≡ pre ++ (piece ++ drop n rest)
unfolding splice
splice-behind pre rest piece at n e f =
    rw (take-append at pre rest e, f)
      (ap (λ zs. pre ++ (piece ++ zs))
        (drop-append_past (at + n) pre rest (omega arith)
          ∙ ap (λ (k : ℕ). drop k rest) (let g : at + n - length pre ≡ n = omega arith in g)))

table_loop_lem :
    (index : ℕ) (es : List RawSectionEntry) (pre rest : List ℕ)
    → AreEntries es
    → length pre ≡ 32 + index * 32
    → table_loop index es (pre ++ rest) ≡ pre ++ (table es ++ drop (length es * 32) rest)
unfolding table_loop
table_loop_lem index [] pre rest h e = refl
table_loop_lem index (x ∷ es) pre rest h e =
    let one = length-entry_bytes x h.0 in
    let step =
      splice-behind pre rest (entry_bytes x) (32 + index * 32) 32 e one
      ∙ sym (append_assoc pre (entry_bytes x) (drop 32 rest)) in
    let rest_table =
      table_loop_lem (suc index) es (pre ++ entry_bytes x) (drop 32 rest) h.1
        (omega (arith, length-append pre (entry_bytes x))) in
    let skip =
      drop-drop (length es * 32) 32 rest
      ∙ ap (λ (k : ℕ). drop k rest)
          (let g : 32 + length es * 32 ≡ suc (length es) * 32 = omega arith in g) in
    ap (table_loop (suc index) es) step
    ∙ (rest_table
        ∙ (append_assoc pre (entry_bytes x) _
            ∙ ap (λ zs. pre ++ zs)
                (sym (append_assoc (entry_bytes x) (table es) _)
                  ∙ ap (λ zs. (entry_bytes x ++ table es) ++ zs) skip)))

-- The header that `finish` writes.
abbrev pub final_header : SnapshotWriter → RawHeader
final_header w = record {
  magic = format_magic;
  major = 1;
  minor = 0;
  size = 32;
  section_count = length w.entries;
  table_crc32c = w.checksum 0 (table w.entries);
  reserved = 0 ∷ 0 ∷ 0 ∷ 0 ∷ [];
}

abbrev pub payload_area : SnapshotWriter → List ℕ
payload_area w = drop (32 + length w.entries * 32) w.buf

abbrev pub final_bytes : SnapshotWriter → List ℕ
final_bytes w = header_bytes (final_header w) ++ (table w.entries ++ payload_area w)

-- The entries read back from the table.
pub entries_of-table :
    (es : List RawSectionEntry) (rest : List ℕ)
    → AreEntries es
    → entries_of (length es) (table es ++ rest) ≡ es
unfolding entries_of
entries_of-table [] rest h = refl
entries_of-table (e ∷ es) rest h =
    rw
      (
        append_assoc (entry_bytes e) (table es) rest,
        entry_of-entry_bytes e (table es ++ rest) h.0,
        drop-append 32 (entry_bytes e) (table es ++ rest) (length-entry_bytes e h.0),
      )
      (ap (λ xs. e ∷ xs) (entries_of-table es rest h.1))

module _ (w : SnapshotWriter) (xs : List Written) (h : IsWriter w xs) where
  -- The buffer once the table is filled in.
  filled : table_loop 0 w.entries w.buf ≡ take 32 w.buf ++ (table w.entries ++ payload_area w)
  filled =
      ap (table_loop 0 w.entries) (sym (take-append-drop 32 w.buf))
      ∙ (table_loop_lem 0 w.entries (take 32 w.buf) (drop 32 w.buf) h.words
            (omega (arith, length-take 32 w.buf, h.room))
          ∙ ap (λ zs. take 32 w.buf ++ (table w.entries ++ zs))
              (drop-drop (length w.entries * 32) 32 w.buf))

  filled_table :
      slice (table_loop 0 w.entries w.buf) header_size (length w.entries * section_entry_size)
      ≡ table w.entries
  filled_table =
      rw
        (
          filled,
          drop-append 32 (take 32 w.buf) (table w.entries ++ payload_area w)
              (omega (arith, length-take 32 w.buf, h.room)),
        )
        (take-append (length w.entries * 32) (table w.entries) (payload_area w)
          (length-table w.entries h.words))

  pub final_header-IsHeader : (w.checksum 0 (table w.entries) < 2 ^ 32) → IsHeader (final_header w)
  final_header-IsHeader crc = record {
    magic_len = refl;
    major_word = omega arith;
    minor_word = omega arith;
    size_word = omega arith;
    count_word = omega (arith, h.few, h.limit);
    crc_word = crc;
    reserved_len = refl;
  }

  header_over :
      length (header_bytes (final_header w)) ≡ 32
      → splice (table_loop 0 w.entries w.buf) 0 (header_bytes (final_header w)) ≡ final_bytes w
  unfolding splice
  header_over size =
      rw (filled, size)
        (ap (λ zs. header_bytes (final_header w) ++ zs)
          (drop-append 32 (take 32 w.buf) (table w.entries ++ payload_area w)
            (omega (arith, length-take 32 w.buf, h.room))))

  -- `finish` succeeds, and lays the file out.
  pub finish-eq :
      length w.buf ≤ u64_max
      → w.checksum 0 (table w.entries) < 2 ^ 32
      → finish w ≡ ok (final_bytes w)
  unfolding finish
  finish-eq fits crc =
      rw
        (
          le→leb (length w.buf) u64_max fits,
          le→leb (length w.entries) u32_max (omega (arith, h.few, h.limit)),
          filled_table,
        )
        (ap ok (header_over (length-header_bytes (final_header w) (final_header-IsHeader crc))))

  pub length-final_bytes :
      w.checksum 0 (table w.entries) < 2 ^ 32 → length (final_bytes w) ≡ length w.buf
  length-final_bytes crc = omega (
    arith,
    length-append (header_bytes (final_header w)) (table w.entries ++ payload_area w),
    length-header_bytes (final_header w) (final_header-IsHeader crc),
    length-append (table w.entries) (payload_area w),
    length-table w.entries h.words,
    length-drop (32 + length w.entries * 32) w.buf,
    h.room,
    h.few,
  )
