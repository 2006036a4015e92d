-- ===== src/Db/Wal/Damage.antt =====
-- crates/oxgraph-db/src/wal.rs: what `parse_one_record` says of bytes that are no record.
use oxgraph.Prelude.{
  ℕ, ◌<◌, ◌≡◌, ◌⊎◌, inl, inr, refl, sym, ◌∙◌, true, false, ◌&&◌, Bool-cases, Option, none, some,
  List, length, arith, leb, ltb, lt→ltb,
}
use oxgraph.Db.Wire.{LogRecordHeader, log_header_of}
use oxgraph.Db.Wal.{
  Crc32c, LsnCursor, stop, body_len, body_within, parse_sized, parse_headed, parse_one_record,
  frame_well_framed, is_last, tail_or_loud,
}

-- The header's length does not frame a record that lies in the bytes.
abbrev pub IsMisframed : ℕ → List ℕ → Type 0
IsMisframed usize_max remaining =
    frame_well_framed usize_max (log_header_of remaining) (length remaining) ≡ false

-- Too short for a header, or misframed.
abbrev pub IsTail : ℕ → List ℕ → Type 0
IsTail usize_max remaining = (length remaining < 40) ⊎ IsMisframed usize_max remaining

module _ (usize_max : ℕ) (crc : Crc32c) (header : LogRecordHeader) (remaining : List ℕ)
    (cursor : LsnCursor) (bad : frame_well_framed usize_max header (length remaining) ≡ false) where
  last_of_bad : is_last usize_max header (length remaining) ≡ true
  unfolding is_last
  last_of_bad = rw bad refl

  well_framed-eq :
      {framed_min : Option ℕ}
      → body_len usize_max header ≡ framed_min
      → frame_well_framed usize_max header (length remaining) ≡ (
          body_within usize_max framed_min header.len
          && (leb header.len (length remaining) && leb 40 header.len))
  unfolding frame_well_framed
  well_framed-eq e = rw e refl

  pub sized_stop :
      (framed_min : Option ℕ)
      → body_len usize_max header ≡ framed_min
      → parse_sized usize_max crc header framed_min remaining cursor ≡ stop
  unfolding parse_sized tail_or_loud
  sized_stop none e = refl
  sized_stop (some framed_min) e =
      let short : (leb framed_min header.len
            && (leb header.len (length remaining) && leb 40 header.len))
          ≡ false =
        sym (well_framed-eq e) ∙ bad in
      rw last_of_bad (ground arith)

  header_stop :
      (base_generation : ℕ)
      → parse_headed usize_max crc base_generation header remaining cursor ≡ stop
  unfolding parse_headed tail_or_loud
  header_stop base_generation =
      let sized = sized_stop (body_len usize_max header) refl in
      rw (last_of_bad, sized) (ground arith)

module _ (usize_max : ℕ) (crc : Crc32c) (base_generation : ℕ) (remaining : List ℕ)
    (cursor : LsnCursor) where
  -- Bytes that frame no record end the replay in silence, whatever they hold further on.
  pub parse_one_record-tail :
      IsTail usize_max remaining
      → parse_one_record usize_max crc base_generation remaining cursor ≡ stop
  unfolding parse_one_record
  parse_one_record-tail (inl short) = rw (lt→ltb (length remaining) 40 short) refl
  parse_one_record-tail (inr bad) =
      let stopped =
        header_stop usize_max crc (log_header_of remaining) remaining cursor bad base_generation in
      elim (Bool-cases (ltb (length remaining) 40)) [
        | inl e ↦ rw e refl
        | inr e ↦ rw (e, stopped) refl
      ]
