-- ===== src/Db/Wal/Prefix.antt =====
-- crates/oxgraph-db/src/wal.rs: a record is parsed from its own bytes, whatever follows them.
use oxgraph.Prelude.{
  ℕ, ◌+◌, ◌*◌, ◌≤◌, ◌≡◌, refl, ap, sym, ◌∙◌, subst, false, ◌&&◌, List, ◌++◌, length, take, drop,
  arith, length-append, length-drop, length-take, take-append, take-append-drop, drop-append_le,
  take-append_le, leb, le→ltb_false, ==_iff,
}
use oxgraph.Db.Wire.{log_magic, log_header_of}
use oxgraph.Db.Wal.{
  Crc32c, CommitFrame, LsnCursor, frame, parse_one_record, parse_headed, parse_sized, parse_framed,
  record_crc, decode_ops,
}
use oxgraph.Db.Wal.Verdict.{Verdict, IsFramed, IsIntact, parse_one_record-Verdict}

-- The header's bytes decide the header.
log_header_of-append :
    (bytes more : List ℕ) → 40 ≤ length bytes → log_header_of (bytes ++ more) ≡ log_header_of bytes
unfolding log_header_of
log_header_of-append bytes more long =
    let from_lsn = drop 8 bytes in
    let from_txn = drop 8 from_lsn in
    let from_magic = drop 8 from_txn in
    let from_len = drop 4 from_magic in
    let from_count = drop 4 from_len in
    let l1 = length-drop 8 bytes in
    let l2 = length-drop 8 from_lsn in
    let l3 = length-drop 8 from_txn in
    let l4 = length-drop 4 from_magic in
    let l5 = length-drop 4 from_len in
    let l6 = length-drop 4 from_count in
    rw
      (
        take-append_le 8 bytes more (omega arith),
        drop-append_le 8 bytes more (omega arith),
        take-append_le 8 from_lsn more (omega arith),
        drop-append_le 8 from_lsn more (omega arith),
        take-append_le 8 from_txn more (omega arith),
        drop-append_le 8 from_txn more (omega arith),
        take-append_le 4 from_magic more (omega arith),
        drop-append_le 4 from_magic more (omega arith),
        take-append_le 4 from_len more (omega arith),
        drop-append_le 4 from_len more (omega arith),
        take-append_le 4 from_count more (omega arith),
        drop-append_le 4 from_count more (omega arith),
        take-append_le 4 (drop 4 from_count) more (omega arith),
      )
      refl

-- The commit that the head of the bytes holds.
abbrev commit_of : List ℕ → CommitFrame
commit_of remaining =
    let header = log_header_of remaining in
    let decoded = decode_ops (take header.len remaining) (header.op_count * 80 + 40) in
    record {
      lsn = header.lsn;
      txn_id = header.txn_id;
      base_generation = header.base_generation;
      ops = decoded.0;
      blob = decoded.1;
    }

module _ (usize_max : ℕ) (crc : Crc32c) (base_generation : ℕ) (cursor : LsnCursor) where
  parse_one_record-commit_of :
      (remaining : List ℕ)
      → IsFramed usize_max crc base_generation remaining cursor
      → IsIntact usize_max crc base_generation remaining cursor
      → (cursor.seen && leb (log_header_of remaining).lsn cursor.last_lsn) ≡ false
      → parse_one_record usize_max crc base_generation remaining cursor
        ≡ frame (commit_of remaining) (log_header_of remaining).len
  unfolding parse_one_record parse_headed parse_sized parse_framed
  parse_one_record-commit_of remaining framed intact next =
      let header = log_header_of remaining in
      let body_fits = framed.body_fits in
      let inside = framed.inside in
      rw
        (
          le→ltb_false (length remaining) 40 (omega arith),
          (==_iff header.magic log_magic).1 intact.magic_right,
          (==_iff header.base_generation base_generation).1 intact.generation_right,
          framed.counted,
          le→ltb_false header.len (header.op_count * 80 + 40) body_fits,
          le→ltb_false header.len 40 (omega arith),
          le→ltb_false (length remaining) header.len inside,
          (==_iff (record_crc crc (take header.len remaining)) header.crc32c).1 intact.crc_right,
          next,
        )
        refl

  -- Two buffers with one header, and one record behind it, are read alike.
  read_alike :
      (remaining bytes : List ℕ)
      → log_header_of bytes ≡ log_header_of remaining
      → take (log_header_of remaining).len bytes ≡ take (log_header_of remaining).len remaining
      → (log_header_of remaining).len ≤ length bytes
      → IsFramed usize_max crc base_generation remaining cursor
      → IsIntact usize_max crc base_generation remaining cursor
      → (cursor.seen && leb (log_header_of remaining).lsn cursor.last_lsn) ≡ false
      → parse_one_record usize_max crc base_generation bytes cursor
        ≡ frame (commit_of remaining) (log_header_of remaining).len
  read_alike remaining bytes same own long framed intact next =
      let framed_too : IsFramed usize_max crc base_generation bytes cursor = record {
        body_fits = rw same framed.body_fits;
        inside = rw same long;
        counted = rw same framed.counted;
      } in
      let intact_too : IsIntact usize_max crc base_generation bytes cursor = record {
        magic_right = rw same intact.magic_right;
        generation_right = rw same intact.generation_right;
        crc_right = rw (same, own) intact.crc_right;
      } in
      parse_one_record-commit_of bytes framed_too intact_too (rw same next) ∙ rw (same, own) refl

  -- A record that was read is read again where its own bytes stand, whatever follows.
  pub parse_one_record-prefix :
      (remaining more : List ℕ) (c : CommitFrame) (len : ℕ)
      → parse_one_record usize_max crc base_generation remaining cursor ≡ frame c len
      → parse_one_record usize_max crc base_generation (take len remaining ++ more) cursor
        ≡ frame c len
  parse_one_record-prefix remaining more c len read =
      let (framed, intact, next, size, same_lsn, same_txn, same_generation) =
        subst (Verdict usize_max crc base_generation remaining cursor) read
          (parse_one_record-Verdict usize_max crc base_generation remaining cursor) in
      let header = log_header_of remaining in
      let body_fits = framed.body_fits in
      let inside = framed.inside in
      let first = take len remaining in
      let wide : length first ≡ len = omega (arith, length-take len remaining) in
      let same : log_header_of (first ++ more) ≡ header =
        log_header_of-append first more (omega arith)
        ∙ sym (log_header_of-append first (drop len remaining) (omega arith))
        ∙ ap log_header_of (take-append-drop len remaining) in
      let own : take header.len (first ++ more) ≡ take header.len remaining =
        ap (λ n. take n (first ++ more)) (sym size)
        ∙ take-append len first more wide
        ∙ ap (λ n. take n remaining) size in
      read_alike remaining (first ++ more) same own (omega (arith, length-append first more)) framed
        intact next
      ∙ sym (parse_one_record-commit_of remaining framed intact next)
      ∙ read
