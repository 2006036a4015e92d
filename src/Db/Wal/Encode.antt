-- ===== src/Db/Wal/Encode.antt =====
-- crates/oxgraph-db/src/wal.rs: the bytes that `encode_commit` returns.
use mathlib.Core.List.{flat_map}
use oxgraph.Prelude.{
  ℕ, ◌+◌, ◌*◌, ◌^◌, ◌<◌, ◌≡◌, refl, ap, sym, ◌∙◌, List, [], ◌∷◌, ◌++◌, length, take, drop, ok,
  arith, le→leb, append_assoc, length-append, take-append, drop-append, length-le_bytes, splice,
  le_bytes,
}
use native.Mathlib.Nat.{suc-mul}
use oxgraph.Db.Wire.{
  LogRecordHeader, MutationOp, log_magic, header_len, op_len, log_header_prefix, log_header_bytes,
  op_bytes,
}
use oxgraph.Db.Wire.Codec.{IsOp, length-log_header_prefix, length-op_bytes, op_of-op_bytes}
use oxgraph.Db.Wal.{Crc32c, CommitFrame, record_crc, encode_commit, chunks}

abbrev pub AreOps : List MutationOp → Type 0
AreOps [] = Unit
AreOps (op ∷ ops) = IsOp op × AreOps ops

-- The crate's results are `u32`.
pub record IsCrc (crc : Crc32c) : Type 0 where
  pub checksum_word : (bytes : List ℕ) → crc.checksum bytes < 2 ^ 32
  pub word : (seed : ℕ) (bytes : List ℕ) → crc.checksum_append seed bytes < 2 ^ 32

-- A commit whose fields are values of their Rust types, and whose record the framing can hold.
pub record IsCommit (c : CommitFrame) : Type 0 where
  pub lsn_word : c.lsn < 2 ^ 64
  pub txn_word : c.txn_id < 2 ^ 64
  pub generation_word : c.base_generation < 2 ^ 64
  pub ops_valid : AreOps c.ops
  pub fits : header_len + length c.ops * op_len + length c.blob < 2 ^ 32

abbrev pub record_len : CommitFrame → ℕ
record_len c = header_len + length c.ops * op_len + length c.blob

-- The header before its CRC is known, and what follows it.
abbrev pub blank_header : CommitFrame → LogRecordHeader
blank_header c = record {
  base_generation = c.base_generation;
  lsn = c.lsn;
  txn_id = c.txn_id;
  magic = log_magic;
  len = record_len c;
  op_count = length c.ops;
  crc32c = 0;
}

abbrev pub body : CommitFrame → List ℕ
body c = flat_map op_bytes c.ops ++ c.blob

abbrev pub crc_of : Crc32c → CommitFrame → ℕ
crc_of crc c = crc.checksum_append (crc.checksum (log_header_prefix (blank_header c))) (body c)

abbrev pub header_of_commit : Crc32c → CommitFrame → LogRecordHeader
header_of_commit crc c = record (blank_header c) { crc32c = crc_of crc c }

-- The record of a commit.
abbrev pub record_bytes : Crc32c → CommitFrame → List ℕ
record_bytes crc c = log_header_bytes (header_of_commit crc c) ++ body c

pub length-ops :
    (ops : List MutationOp) → AreOps ops → length (flat_map op_bytes ops) ≡ length ops * 80
unfolding flat_map
length-ops [] h = omega arith
length-ops (op ∷ ops) (h, hs) = omega (
  arith,
  length-append (op_bytes op) (flat_map op_bytes ops),
  length-op_bytes op h,
  length-ops ops hs,
  suc-mul (length ops) 80,
)

pub chunks-flat_map :
    (ops : List MutationOp) (rest : List ℕ)
    → AreOps ops
    → chunks (length ops) (flat_map op_bytes ops ++ rest) ≡ ops
unfolding chunks flat_map
chunks-flat_map [] rest h = refl
chunks-flat_map (op ∷ ops) rest (h, hs) =
    let more = flat_map op_bytes ops ++ rest in
    rw
      (
        append_assoc (op_bytes op) (flat_map op_bytes ops) rest,
        op_of-op_bytes op more h,
        drop-append 80 (op_bytes op) more (length-op_bytes op h),
        chunks-flat_map ops rest hs,
      )
      refl

module _ (crc : Crc32c) (c : CommitFrame) (valid : IsCommit c) where
  pub length-body : length (body c) ≡ length c.ops * 80 + length c.blob
  length-body =
      omega
        (arith, length-append (flat_map op_bytes c.ops) c.blob, length-ops c.ops valid.ops_valid)

  pub length-log_header : (h : LogRecordHeader) → length (log_header_bytes h) ≡ 40
  length-log_header h = omega (
    arith,
    length-append (log_header_prefix h) (le_bytes 4 h.crc32c),
    length-log_header_prefix h,
    length-le_bytes 4 h.crc32c,
  )

  pub length-record_bytes : length (record_bytes crc c) ≡ record_len c
  length-record_bytes = omega (
    arith,
    length-append (log_header_bytes (header_of_commit crc c)) (body c),
    length-body,
    length-log_header (header_of_commit crc c),
  )

pub prefix_same :
    (crc : Crc32c) (c : CommitFrame)
    → log_header_prefix (header_of_commit crc c) ≡ log_header_prefix (blank_header c)
unfolding log_header_prefix
prefix_same crc c = refl

module _ (front four rest : List ℕ) (long : length front ≡ 36) (wide : length four ≡ 4) where
  take_front : take 36 ((front ++ four) ++ rest) ≡ front
  take_front =
      ap (take 36) (append_assoc front four rest) ∙ take-append 36 front (four ++ rest) long

  drop_both : drop 40 ((front ++ four) ++ rest) ≡ rest
  drop_both = drop-append 40 (front ++ four) rest (omega (arith, length-append front four))

  -- The CRC covers all but its own field.
  pub record_crc-parts :
      (crc : Crc32c)
      → record_crc crc ((front ++ four) ++ rest) ≡ crc.checksum_append (crc.checksum front) rest
  unfolding record_crc
  record_crc-parts crc = λ i. crc.checksum_append (crc.checksum (take_front i)) (drop_both i)

  -- A CRC is stored over the field, and moves nothing else.
  splice-parts :
      (new : List ℕ)
      → length new ≡ 4
      → splice ((front ++ four) ++ rest) 36 new ≡ (front ++ new) ++ rest
  unfolding splice
  splice-parts new n =
      let e : 36 + length new ≡ 40 = omega arith in
      rw (e, take_front, drop_both) (sym (append_assoc front new rest))

module _ (crc : Crc32c) (c : CommitFrame) (valid : IsCommit c) where
  -- A valid commit is encoded as its header, with the CRC in place, its ops and its blob.
  pub encode_commit-eq :
      encode_commit crc c.lsn c.txn_id c.base_generation c.ops c.blob ≡ ok (record_bytes crc c)
  unfolding encode_commit
  encode_commit-eq =
      let front = log_header_prefix (blank_header c) in
      let fits = valid.fits in
      let long = length-log_header_prefix (blank_header c) in
      rw
        (
          le→leb (record_len c) 0xffff_ffff (omega arith),
          le→leb (length c.ops) 0xffff_ffff (omega arith),
          record_crc-parts front (le_bytes 4 0) (body c) long (length-le_bytes 4 0) crc,
          splice-parts front (le_bytes 4 0) (body c) long (length-le_bytes 4 0)
              (le_bytes 4 (crc_of crc c)) (length-le_bytes 4 (crc_of crc c)),
          prefix_same crc c,
        )
        refl
