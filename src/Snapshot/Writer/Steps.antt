-- ===== src/Snapshot/Writer/Steps.antt =====
-- crates/oxgraph-snapshot/src/container.rs: `SnapshotWriter::new`, `begin_section` and
-- `section_bytes`.
use native.Mathlib.Nat.{mod-lt, div-add-mod, mul-mod_left, one-le-pow}
use oxgraph.Prelude.{
  ℕ, ◌+◌, ◌-◌, ◌*◌, ◌/◌, ◌%◌, ◌^◌, ◌≤◌, ◌<◌, ◌≡◌, ap, sym, subst, List, [], ◌∷◌, ◌++◌, length, ok,
  arith, length-append, take_all, drop_all, ◌>>=◌, Result-cases, replicate, length-replicate, inl,
  inr,
}
use oxgraph.Snapshot.Reader.{Checksum32}
use oxgraph.Snapshot.Writer.{
  SnapshotWriter, SectionSink, last_kind, check_last, align_up_checked, new_writer, begin_section,
  write, section_bytes, resize,
}
use oxgraph.Snapshot.Writer.Contents.{
  Written, IsChecksum, IsWriter, IsSink, IsWriter-append, AreClean-mono,
}
use oxgraph.Snapshot.Writer.Sinks.{write-IsSink, end_section-IsWriter, sink_section}

-- The writer that `new_writer` returns.
abbrev blank : ℕ → Checksum32 → SnapshotWriter
blank max_sections checksum = record {
  buf = replicate (32 + max_sections * 32) 0;
  entries = [];
  max_sections = max_sections;
  checksum = checksum;
}

pow_pos : (k : ℕ) → 0 < 2 ^ k
pow_pos k = one-le-pow k 2 (omega arith)

round_up :
    (value d : ℕ)
    → 0 < d
    → (value ≤ (value + (d - 1)) / d * d) × ((value + (d - 1)) / d * d < value + d)
round_up value d p = let n = value + (d - 1) in omega (arith, div-add-mod n d, mod-lt n p)

module _ (usize_max : ℕ) where
  -- Where aligning succeeds it rounds up to a multiple of the alignment, by less than the
  -- alignment.
  pub align_up_checked_lem :
      (value alignment_log2 aligned : ℕ)
      → align_up_checked usize_max value alignment_log2 ≡ ok aligned
      → (value ≤ aligned)
        × (aligned < value + 2 ^ alignment_log2)
        × (aligned % 2 ^ alignment_log2 ≡ 0)
  unfolding align_up_checked
  align_up_checked_lem value a aligned h = ground (
    arith,
    round_up value (2 ^ a) (pow_pos a),
    mul-mod_left ((value + (2 ^ a - 1)) / 2 ^ a) (2 ^ a),
  )

  new_writer-eq :
      (max_sections : ℕ) (checksum : Checksum32) (w : SnapshotWriter)
      → new_writer usize_max max_sections checksum ≡ ok w
      → (max_sections ≤ 1024) × (w ≡ blank max_sections checksum)
  unfolding new_writer
  new_writer-eq max_sections checksum w h = ground arith

  -- A new writer holds nothing.
  pub new_writer-IsWriter :
      (max_sections : ℕ) (checksum : Checksum32) (w : SnapshotWriter)
      → new_writer usize_max max_sections checksum ≡ ok w
      → IsWriter w []
  new_writer-IsWriter max_sections checksum w h =
      let (limit, e) = new_writer-eq max_sections checksum w h in
      rw e (record {
        limit = limit;
        few = omega arith;
        room = omega (arith, length-replicate {A = ℕ} (32 + max_sections * 32) 0);
        ascending = tt;
        clean = tt;
        laid_out = tt;
        words = tt;
        stores = tt;
      })

module _ (usize_max : ℕ) where
  begin_section-eq :
      (w : SnapshotWriter) (kind version alignment_log2 : ℕ) (sink : SectionSink)
      → begin_section usize_max w kind version alignment_log2 ≡ ok sink
      → (alignment_log2 ≤ 12)
        × (length w.entries < w.max_sections)
        × (check_last (last_kind w.entries) kind ≡ ok tt)
        × (align_up_checked usize_max (length w.buf) alignment_log2 ≡ ok sink.start)
        × (sink ≡ record {
          writer = record w { buf = resize sink.start w.buf };
          start = sink.start;
          kind = kind;
          version = version;
          crc = 0;
          alignment_log2 = alignment_log2;
        })
  unfolding begin_section
  begin_section-eq w kind version alignment_log2 sink h = ground arith

  -- A fresh sink has written nothing, behind everything that its writer holds.
  pub begin_section-IsSink :
      (w : SnapshotWriter) (xs : List Written) (kind version alignment_log2 : ℕ)
      (sink : SectionSink)
      → IsChecksum w.checksum
      → IsWriter w xs
      → kind < 2 ^ 32
      → version < 2 ^ 32
      → begin_section usize_max w kind version alignment_log2 ≡ ok sink
      → IsSink sink xs []
  begin_section-IsSink w xs kind version alignment_log2 sink law h k v done =
      let (aligned, more, next, up, e) = begin_section-eq w kind version alignment_log2 sink done in
      let above = align_up_checked_lem usize_max (length w.buf) alignment_log2 sink.start up in
      let pad = replicate (sink.start - length w.buf) 0 in
      let grown : resize sink.start w.buf ≡ w.buf ++ pad =
        ap (λ zs. zs ++ pad) (take_all sink.start w.buf above.0) in
      let size = length-append w.buf pad in
      let pad_size = length-replicate {A = ℕ} (sink.start - length w.buf) 0 in
      rw (e, grown)
        (record {
          writer = IsWriter-append w xs pad h;
          more = more;
          behind = omega (arith, h.room);
          inside = omega arith;
          before = AreClean-mono (length w.buf) sink.start w.entries above.0 h.clean;
          next = next;
          aligned = aligned;
          on_boundary = above.2;
          kind_word = k;
          version_word = v;
          held = drop_all sink.start (w.buf ++ pad) (omega arith);
          crc = sym law.empty;
        })

  -- Where `section_bytes` succeeds, on a 32-bit kind and version and a lawful checksum, it keeps
  -- the writer's invariant and adds one section with the given kind, version, alignment and
  -- payload, whose entry starts at a multiple of `2 ^ alignment_log2`.
  pub section_bytes-IsWriter :
      (w : SnapshotWriter) (xs : List Written) (kind version alignment_log2 : ℕ) (payload : List ℕ)
      (w' : SnapshotWriter)
      → IsChecksum w.checksum
      → IsWriter w xs
      → kind < 2 ^ 32
      → version < 2 ^ 32
      → section_bytes usize_max w kind version alignment_log2 payload ≡ ok w'
      → IsWriter w' (
          xs
          ++ record {
            kind = kind;
            version = version;
            alignment_log2 = alignment_log2;
            payload = payload;
          }
            ∷ [])
  unfolding section_bytes write
  section_bytes-IsWriter w xs kind version a payload w' law h k v done =
      elim (Result-cases (begin_section usize_max w kind version a)) [
        | inr (issue, e) ↦ absurd (cc (rw e at done))
        | inl (sink, e) ↦
            let fresh = begin_section-IsSink w xs kind version a sink law h k v e in
            let (_, _, _, _, form) = begin_section-eq w kind version a sink e in
            let law' : IsChecksum sink.writer.checksum =
              subst (λ (t : SectionSink). IsChecksum t.writer.checksum) (sym form) law in
            let ended =
              end_section-IsWriter (write sink payload) xs payload w' law'
                (write-IsSink sink xs [] payload law' fresh) (rw (e, ◌>>=◌) at done) in
            let named =
              ap (λ (t : SectionSink). xs ++ sink_section (write t payload) payload ∷ []) form in
            subst (IsWriter w') named ended
      ]
