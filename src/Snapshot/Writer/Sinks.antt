-- ===== src/Snapshot/Writer/Sinks.antt =====
-- crates/oxgraph-snapshot/src/container.rs: `SectionSink::write` and `end`.
use oxgraph.Prelude.{
  ℕ, ◌+◌, ◌-◌, ◌*◌, ◌≤◌, ◌≡◌, refl, ap, ◌∙◌, none, List, [], ◌∷◌, ◌++◌, length, drop, ok, arith,
  length-append, length-drop, take_all, drop-append_le,
}
use oxgraph.Snapshot.Format.{RawSectionEntry}
use oxgraph.Snapshot.Reader.{u64_max}
use oxgraph.Snapshot.Writer.{SnapshotWriter, SectionSink, write, end_section}
use oxgraph.Snapshot.Writer.Contents.{Written, IsChecksum, IsWriter, IsSink, IsWriter-append}
use oxgraph.Snapshot.Writer.Concat.{
  last_kind-ascending, AreLaidOut-concat, AreClean-concat, AreEntries-concat, Stores-concat,
}

pub write-IsSink :
    (sink : SectionSink) (xs : List Written) (sofar bytes : List ℕ)
    → IsChecksum sink.writer.checksum
    → IsSink sink xs sofar
    → IsSink (write sink bytes) xs (sofar ++ bytes)
unfolding write
write-IsSink sink xs sofar bytes law h = record {
  writer = IsWriter-append sink.writer xs bytes h.writer;
  more = h.more;
  behind = h.behind;
  inside = omega (arith, h.inside, length-append sink.writer.buf bytes);
  before = h.before;
  next = h.next;
  aligned = h.aligned;
  on_boundary = h.on_boundary;
  kind_word = h.kind_word;
  version_word = h.version_word;
  held = drop-append_le sink.start sink.writer.buf bytes h.inside ∙ ap (λ zs. zs ++ bytes) h.held;
  crc = ap (λ c. sink.writer.checksum c bytes) h.crc ∙ law.continued sofar bytes;
}

-- The section that a sink is for.
abbrev pub sink_section : SectionSink → List ℕ → Written
sink_section sink sofar = record {
  kind = sink.kind;
  version = sink.version;
  alignment_log2 = sink.alignment_log2;
  payload = sofar;
}

abbrev sink_entry : SectionSink → RawSectionEntry
sink_entry sink = record {
  offset = sink.start;
  len = length sink.writer.buf - sink.start;
  kind = sink.kind;
  version = sink.version;
  crc32c = sink.crc;
  alignment_log2 = sink.alignment_log2;
  flags = 0;
  reserved = 0 ∷ 0 ∷ [];
}

end_section-eq :
    (sink : SectionSink) (w : SnapshotWriter)
    → end_section sink ≡ ok w
    → (sink.start ≤ u64_max)
      × (length sink.writer.buf - sink.start ≤ u64_max)
      × (w ≡ record (sink.writer) { entries = sink.writer.entries ++ sink_entry sink ∷ [] })
unfolding end_section
end_section-eq sink w h = ground arith

-- Ending a sink adds its section, whole, to the writer's contents.
pub end_section-IsWriter :
    (sink : SectionSink) (xs : List Written) (sofar : List ℕ) (w : SnapshotWriter)
    → IsChecksum sink.writer.checksum
    → IsSink sink xs sofar
    → end_section sink ≡ ok w
    → IsWriter w (xs ++ sink_section sink sofar ∷ [])
end_section-IsWriter sink xs sofar w law h done =
    let (start_fits, len_fits, e) = end_section-eq sink w done in
    let entry = sink_entry sink in
    let es = sink.writer.entries in
    let buf = sink.writer.buf in
    rw e (record {
      limit = h.writer.limit;
      few = omega (arith, h.more, length-append es (entry ∷ []));
      room = h.writer.room;
      ascending = last_kind-ascending none es entry h.writer.ascending h.next (λ _. tt);
      clean = AreClean-concat (length buf) es entry h.writer.clean (record {
        no_flags = refl;
        zero_reserved = refl;
        aligned = h.aligned;
        inside = omega (arith, h.inside);
      });
      laid_out =
          AreLaidOut-concat (32 + sink.writer.max_sections * 32) sink.start es entry
            h.writer.laid_out h.before h.behind (omega arith);
      words = AreEntries-concat es entry h.writer.words (record {
        offset_word = omega arith;
        len_word = omega arith;
        kind_word = h.kind_word;
        version_word = h.version_word;
        crc_word = rw h.crc (law.word 0 sofar);
        alignment_byte = omega (arith, h.aligned);
        flags_byte = omega arith;
        reserved_len = refl;
      });
      stores =
          Stores-concat sink.writer.checksum buf es xs entry (sink_section sink sofar)
            h.writer.stores
            (record {
              kind = refl;
              version = refl;
              alignment = refl;
              on_boundary = h.on_boundary;
              crc = h.crc;
              payload =
                  take_all (length buf - sink.start) (drop sink.start buf)
                    (omega (arith, length-drop sink.start buf))
                  ∙ h.held;
            });
    })
