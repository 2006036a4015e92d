-- ===== src/Db/Wal/Parse.antt =====
-- crates/oxgraph-db/src/wal.rs: `parse_one_record` on whole records and on cut ones.
use mathlib.Core.List.{flat_map}
use mathlib.Core.Option
use oxgraph.Prelude.{
  ℕ, ◌+◌, ◌-◌, ◌*◌, ◌/◌, ◌≤◌, ◌≡◌, refl, ap, sym, ◌∙◌, false, ◌&&◌, some, List, [], ◌++◌, length,
  drop, arith, append_assoc, append-nil, length-append, take-append, drop-append, length-le_bytes,
  slice, le_bytes, leb, le→leb, ==_refl, le→ltb_false,
}
use oxgraph.Db.Wire.{log_header_prefix, log_header_bytes, log_header_of, op_bytes}
use oxgraph.Db.Wire.Codec.{IsLogHeader, length-log_header_prefix, log_header_of-log_header_bytes}
use oxgraph.Db.Wal.{
  Crc32c, CommitFrame, LsnCursor, record_crc, chunks, decode_ops, frame, body_len, parse_framed,
  parse_sized, parse_headed, parse_one_record,
}
use oxgraph.Db.Wal.Encode.{
  IsCrc, IsCommit, record_len, blank_header, body, crc_of, header_of_commit, record_bytes,
  length-ops, chunks-flat_map, length-log_header, length-record_bytes, record_crc-parts,
  prefix_same,
}

-- The cursor lets a commit of this LSN follow.
abbrev pub Accepts : LsnCursor → ℕ → Type 0
Accepts cursor lsn = (cursor.seen && leb lsn cursor.last_lsn) ≡ false

module _ (crc : Crc32c) (law : IsCrc crc) (c : CommitFrame) (valid : IsCommit c) where
  pub header-IsLogHeader : IsLogHeader (header_of_commit crc c)
  header-IsLogHeader =
      let fits = valid.fits in
      record {
        generation_word = valid.generation_word;
        lsn_word = valid.lsn_word;
        txn_word = valid.txn_word;
        magic_word = omega arith;
        len_word = fits;
        count_word = omega arith;
        crc_word = law.word (crc.checksum (log_header_prefix (blank_header c))) (body c);
      }

  pub header_read :
      (rest : List ℕ) → log_header_of (record_bytes crc c ++ rest) ≡ header_of_commit crc c
  header_read rest =
      ap log_header_of (append_assoc (log_header_bytes (header_of_commit crc c)) (body c) rest)
      ∙ log_header_of-log_header_bytes (header_of_commit crc c) (body c ++ rest) header-IsLogHeader

  crc_matches : record_crc crc (record_bytes crc c) ≡ crc_of crc c
  crc_matches =
      record_crc-parts (log_header_prefix (header_of_commit crc c)) (le_bytes 4 (crc_of crc c))
        (body c) (length-log_header_prefix (header_of_commit crc c))
        (length-le_bytes 4 (crc_of crc c)) crc
      ∙ ap (λ front. crc.checksum_append (crc.checksum front) (body c)) (prefix_same crc c)

  abbrev framed_min : ℕ
  framed_min = length c.ops * 80 + 40

  ops_slice : slice (record_bytes crc c) 40 (framed_min - 40) ≡ flat_map op_bytes c.ops
  ops_slice =
      let e : framed_min - 40 ≡ length c.ops * 80 = omega arith in
      rw
        (
          e,
          drop-append 40 (log_header_bytes (header_of_commit crc c)) (body c)
              (length-log_header crc c valid (header_of_commit crc c)),
          take-append (length c.ops * 80) (flat_map op_bytes c.ops) c.blob
              (length-ops c.ops valid.ops_valid),
        )
        refl

  blob_left : drop framed_min (record_bytes crc c) ≡ c.blob
  blob_left =
      ap (drop framed_min) (
        sym (
          append_assoc (log_header_bytes (header_of_commit crc c)) (flat_map op_bytes c.ops)
            c.blob))
      ∙ drop-append framed_min
          (log_header_bytes (header_of_commit crc c) ++ flat_map op_bytes c.ops) c.blob
          (omega (
            arith,
            length-append (log_header_bytes (header_of_commit crc c)) (flat_map op_bytes c.ops),
            length-log_header crc c valid (header_of_commit crc c),
            length-ops c.ops valid.ops_valid,
          ))

  decoded : decode_ops (record_bytes crc c) framed_min ≡ (c.ops, c.blob)
  unfolding decode_ops
  decoded =
      let count : length (flat_map op_bytes c.ops) / 80 ≡ length c.ops =
        omega (arith, length-ops c.ops valid.ops_valid) in
      let read : chunks (length c.ops) (flat_map op_bytes c.ops) ≡ c.ops =
        ap (chunks (length c.ops)) (sym (append-nil (flat_map op_bytes c.ops)))
        ∙ chunks-flat_map c.ops [] valid.ops_valid in
      rw (ops_slice, count, read, blob_left) refl

  module _ (usize_max : ℕ) (wide : 0xffff_ffff ≤ usize_max) (rest : List ℕ)
      (cursor : LsnCursor) where
    body_len-eq : body_len usize_max (header_of_commit crc c) ≡ some framed_min
    unfolding body_len Option.bind
    body_len-eq =
        let fits = valid.fits in
        rw
          (
            le→leb (length c.ops * 80) usize_max (omega arith),
            le→leb (length c.ops * 80 + 40) usize_max (omega arith),
          )
          refl

    -- The record of a commit, whatever follows it, is read back as the commit.
    pub parse_one_record-record_bytes :
        Accepts cursor c.lsn
        → parse_one_record usize_max crc c.base_generation (record_bytes crc c ++ rest) cursor
          ≡ frame c (record_len c)
    unfolding parse_one_record parse_headed parse_sized parse_framed
    parse_one_record-record_bytes next =
        let size = length-record_bytes crc c valid in
        let whole = length-append (record_bytes crc c) rest in
        let fits = valid.fits in
        rw
          (
            le→ltb_false (length (record_bytes crc c ++ rest)) 40 (omega arith),
            header_read rest,
            ==_refl c.base_generation,
            body_len-eq,
            le→ltb_false (record_len c) framed_min (omega arith),
            le→ltb_false (record_len c) 40 (omega arith),
            le→ltb_false (length (record_bytes crc c ++ rest)) (record_len c) (omega arith),
            take-append (record_len c) (record_bytes crc c) rest size,
            crc_matches,
            ==_refl (crc_of crc c),
            next,
            decoded,
          )
          refl
