-- ===== src/Db/Wal/Verdict.antt =====
-- crates/oxgraph-db/src/wal.rs: what each verdict of `parse_one_record` tells of the bytes.
use mathlib.Core.Option
use oxgraph.Prelude.{
  ℕ, ◌+◌, ◌*◌, ◌≤◌, ◌<◌, ◌≡◌, ◌≢◌, ◌⊎◌, inl, inr, refl, sym, subst, true, false, ◌&&◌, Bool-cases,
  Option, none, some, List, length, take, arith, leb, ltb, leb→le, ltb→lt, le→ltb_false, ◌==◌,
  ==_iff,
}
use oxgraph.Db.Errors.{StorageError, log_corrupt, base_generation_mismatch}
use oxgraph.Db.Wire.{LogRecordHeader, log_magic, log_header_of}
use oxgraph.Db.Wal.{
  Crc32c, LsnCursor, RecordParse, stop, loud, frame, parse_one_record, parse_headed, parse_sized,
  parse_framed, frame_well_framed, body_len, checked_mul, record_crc, is_last, tail_or_loud,
}
use oxgraph.Layout.Width.{checked_add}
use oxgraph.Db.Wal.Damage.{IsTail, sized_stop}

==_false-ne : (a b : ℕ) → (a == b) ≡ false → a ≢ b
==_false-ne a b e same = ground (arith)

module _ (usize_max : ℕ) (crc : Crc32c) (base_generation : ℕ) (remaining : List ℕ)
    (cursor : LsnCursor) where
  abbrev header : LogRecordHeader
  header = log_header_of remaining

  -- The header frames a record that lies in the bytes.
  pub record IsFramed : Type 0 where
    pub body_fits : header.op_count * 80 + 40 ≤ header.len
    pub inside : header.len ≤ length remaining
    pub counted : body_len usize_max header ≡ some (header.op_count * 80 + 40)

  -- The checks (b), (c) and (e).
  pub record IsIntact : Type 0 where
    pub magic_right : header.magic ≡ log_magic
    pub generation_right : header.base_generation ≡ base_generation
    pub crc_right : record_crc crc (take header.len remaining) ≡ header.crc32c

  -- The first of these checks that fails, with its error.
  pub data Fault : StorageError → Type 0 where
    bad_magic :
        header.magic ≢ log_magic → Fault (log_corrupt header.lsn "delta-log record magic mismatch")
    bad_generation :
        header.magic ≡ log_magic
        → header.base_generation ≢ base_generation
        → Fault (base_generation_mismatch base_generation header.base_generation)
    bad_crc :
        header.magic ≡ log_magic
        → header.base_generation ≡ base_generation
        → record_crc crc (take header.len remaining) ≢ header.crc32c
        → Fault (log_corrupt header.lsn "delta-log record checksum mismatch")

  abbrev pub Verdict : RecordParse → Type 0
  Verdict stop =
      IsTail usize_max remaining
      ⊎ (IsFramed × (length remaining ≡ header.len) × ((error : StorageError) × Fault error))
  Verdict (loud error) =
      IsFramed
      × ((header.len < length remaining × Fault error)
          ⊎ (IsIntact
              × (cursor.seen ≡ true)
              × header.lsn ≤ cursor.last_lsn
              × (error ≡ log_corrupt header.lsn "delta-log record LSN not strictly ascending")))
  Verdict (frame c len) =
      IsFramed
      × IsIntact
      × ((cursor.seen && leb header.lsn cursor.last_lsn) ≡ false)
      × (len ≡ header.len)
      × (c.lsn ≡ header.lsn)
      × (c.txn_id ≡ header.txn_id)
      × (c.base_generation ≡ header.base_generation)

  framed-IsFramed : frame_well_framed usize_max header (length remaining) ≡ true → IsFramed
  unfolding frame_well_framed body_len Option.bind checked_add
  framed-IsFramed e = record {
    body_fits = ground arith;
    inside = ground arith;
    counted = ground arith;
  }

  Fault-Verdict :
      (error : StorageError)
      → Fault error
      → Verdict (tail_or_loud (is_last usize_max header (length remaining)) error)
  unfolding tail_or_loud is_last
  Fault-Verdict error fault =
      elim (Bool-cases (frame_well_framed usize_max header (length remaining))) [
        | inl e ↦
            let framed = framed-IsFramed e in
            let inside = framed.inside in
            elim (Bool-cases (leb (length remaining) header.len)) [
              | inl past ↦
                  rw (e, past)
                    (inr (
                      framed,
                      omega (arith, leb→le (length remaining) header.len past),
                      (error, fault),
                    ))
              | inr past ↦ rw (e, past) (framed, inl (ground arith, fault))
            ]
        | inr e ↦ rw e (inl (inr e))
      ]

  -- Where the header frames a record, the length is checked against the right minimum.
  parse_framed-Verdict :
      (framed_min : ℕ)
      → frame_well_framed usize_max header (length remaining) ≡ true
      → header.magic ≡ log_magic
      → header.base_generation ≡ base_generation
      → Verdict (parse_framed usize_max crc header framed_min remaining cursor)
  unfolding parse_framed
  parse_framed-Verdict framed_min framed magic_right generation_right =
      let whole = framed-IsFramed framed in
      let whole_crc = record_crc crc (take header.len remaining) in
      elim (Bool-cases (whole_crc == header.crc32c)) [
        | inl e ↦
            let intact : IsIntact = record {
              magic_right = magic_right;
              generation_right = generation_right;
              crc_right = (==_iff whole_crc header.crc32c).0 e;
            } in
            elim (Bool-cases (cursor.seen && leb header.lsn cursor.last_lsn)) [
              | inl late ↦ rw (e, late) (whole, inr (intact, ground arith, ground arith, refl))
              | inr next ↦ rw (e, next) (whole, intact, next, refl, refl, refl, refl)
            ]
        | inr e ↦ rw e (
            Fault-Verdict (log_corrupt header.lsn "delta-log record checksum mismatch")
              (bad_crc magic_right generation_right (==_false-ne whole_crc header.crc32c e)))
      ]

  framed_min_of :
      (framed_min : Option ℕ)
      → body_len usize_max header ≡ framed_min
      → frame_well_framed usize_max header (length remaining) ≡ true
      → Verdict (parse_framed usize_max crc header (header.op_count * 80 + 40) remaining cursor)
      → Verdict (parse_sized usize_max crc header framed_min remaining cursor)
  unfolding parse_sized frame_well_framed body_len Option.bind checked_add checked_mul
  framed_min_of none e framed v = inl (inr (rw e refl))
  framed_min_of (some framed_min) e framed v =
      let same : framed_min ≡ header.op_count * 80 + 40 = ground arith in
      let whole = framed-IsFramed framed in
      let body_fits = whole.body_fits in
      let inside = whole.inside in
      rw
        (
          le→ltb_false header.len framed_min (omega arith),
          le→ltb_false header.len 40 (omega arith),
          le→ltb_false (length remaining) header.len inside,
          same,
        )
        v

  parse_sized-Verdict :
      header.magic ≡ log_magic
      → header.base_generation ≡ base_generation
      → Verdict (parse_sized usize_max crc header (body_len usize_max header) remaining cursor)
  parse_sized-Verdict magic_right generation_right =
      elim (Bool-cases (frame_well_framed usize_max header (length remaining))) [
        | inl framed ↦
            framed_min_of (body_len usize_max header) refl framed
              (parse_framed-Verdict (header.op_count * 80 + 40) framed magic_right generation_right)
        | inr bad ↦
            subst Verdict
              (sym (
                sized_stop usize_max crc header remaining cursor bad (body_len usize_max header)
                  refl))
              (inl (inr bad))
      ]

  parse_headed-Verdict :
      Verdict (parse_headed usize_max crc base_generation header remaining cursor)
  unfolding parse_headed
  parse_headed-Verdict = elim (Bool-cases (header.magic == log_magic)) [
    | inl m ↦ elim (Bool-cases (header.base_generation == base_generation)) [
      | inl g ↦
          rw (m, g)
            (parse_sized-Verdict ((==_iff header.magic log_magic).0 m)
              ((==_iff header.base_generation base_generation).0 g))
      | inr g ↦
          rw (m, g)
            (Fault-Verdict (base_generation_mismatch base_generation header.base_generation) (
              bad_generation ((==_iff header.magic log_magic).0 m)
                (==_false-ne header.base_generation base_generation g)))
    ]
    | inr m ↦ rw m (
        Fault-Verdict (log_corrupt header.lsn "delta-log record magic mismatch")
          (bad_magic (==_false-ne header.magic log_magic m)))
  ]

  -- `parse_one_record`, on any bytes and cursor. It stops only at bytes that hold no header, frame no
  -- record, or end with a record that fails a check. It is loud only about a framed record that
  -- fails a check with bytes behind it, with the error of the first check that fails, or about an
  -- intact one whose LSN does not ascend. A frame it returns passed every check, and has the
  -- header's length, LSN, transaction and generation.
  pub parse_one_record-Verdict :
      Verdict (parse_one_record usize_max crc base_generation remaining cursor)
  unfolding parse_one_record
  parse_one_record-Verdict = elim (Bool-cases (ltb (length remaining) 40)) [
    | inl e ↦ rw e (inl (inl (ltb→lt (length remaining) 40 e)))
    | inr e ↦ rw e parse_headed-Verdict
  ]
