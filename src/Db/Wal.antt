-- ===== src/Db/Wal.antt =====
-- crates/oxgraph-db/src/wal.rs: the delta log. The CRC-32C of the `crc32c` crate is the parameter
-- `crc`; `usize_max` is the host's `usize::MAX`, and `usize` has at least 32 bits.
pub mod Encode
pub mod Parse
pub mod Damage
pub mod Replay
pub mod Recover
pub mod Rounds
pub mod Prefix
pub mod Sound
pub mod Verdict
pub mod Truncate
use Prim.Native.String.{String}
use mathlib.Core.List.{flat_map}
use mathlib.Core.Option
use oxgraph.Prelude.{
  ℕ, zero, suc, ◌+◌, ◌-◌, ◌*◌, ◌/◌, Bool, true, false, not, ◌&&◌, ◌||◌, Option, none, some, List,
  [], ◌∷◌, ◌++◌, length, take, drop, ltb, leb, ◌==◌, if◌then◌else◌, Result, ok, err, ◌>>=◌, ◌>>◌,
  guard, slice, splice, le_bytes,
}
use oxgraph.Layout.Width.{checked_add}
use oxgraph.Db.Errors.{StorageError, invalid_store, log_corrupt, base_generation_mismatch}
use oxgraph.Db.Wire.{
  LogRecordHeader, MutationOp, log_magic, header_len, op_len, log_header_bytes, log_header_prefix,
  log_header_of, op_bytes, op_of,
}

pub record CommitFrame : Type 0 where
  pub lsn : ℕ
  pub txn_id : ℕ
  pub base_generation : ℕ
  pub ops : List MutationOp
  pub blob : List ℕ

pub record ReplayOutcome : Type 0 where
  pub frames : List CommitFrame
  pub valid_len : ℕ
  pub last_lsn : ℕ
  pub last_txn : ℕ

-- `checksum` and `checksum_append`, which call the `crc32c` crate.
pub record Crc32c : Type 0 where
  pub checksum : List ℕ → ℕ
  pub checksum_append : ℕ → List ℕ → ℕ

abbrev pub u32_max : ℕ
u32_max = 0xffff_ffff

-- `HEADER_CRC_OFFSET`
abbrev pub header_crc_offset : ℕ
header_crc_offset = header_len - 4

unfoldable pub record_crc : Crc32c → List ℕ → ℕ
record_crc crc bytes =
    crc.checksum_append (crc.checksum (take header_crc_offset bytes))
      (drop (header_crc_offset + 4) bytes)

-- The lengths fit `usize`, since the slices are in memory.
unfoldable pub encode_commit :
    Crc32c
    → (lsn txn_id base_generation : ℕ) → List MutationOp
    → List ℕ
    → Result StorageError (List ℕ)
encode_commit crc lsn txn_id base_generation ops blob = do
  let len = header_len + length ops * op_len + length blob
  guard (leb len u32_max) (invalid_store "delta-log record too large")
  guard (leb (length ops) u32_max) (invalid_store "delta-log op count too large")
  let header : LogRecordHeader = record {
    base_generation = base_generation;
    lsn = lsn;
    txn_id = txn_id;
    magic = log_magic;
    len = len;
    op_count = length ops;
    crc32c = 0;
  }
  let bytes = log_header_bytes header ++ (flat_map op_bytes ops ++ blob)
  ok (splice bytes header_crc_offset (le_bytes 4 (record_crc crc bytes)))

pub data RecordParse : Type 0 where
  stop : RecordParse
  loud : (error : StorageError) → RecordParse
  frame : (commit : CommitFrame) (len : ℕ) → RecordParse

pub record LsnCursor : Type 0 where
  pub last_lsn : ℕ
  pub seen : Bool

-- The variables of `replay`'s loop: the outcome so far, `offset` and `seen_lsn`.
pub record ReplayState : Type 0 where
  pub outcome : ReplayOutcome
  pub offset : ℕ
  pub seen_lsn : Bool

abbrev pub replay_start : ReplayState
replay_start = record {
  outcome = record { frames = []; valid_len = 0; last_lsn = 0; last_txn = 0 };
  offset = 0;
  seen_lsn = false;
}

-- The round of a valid record.
abbrev pub accept : ReplayState → CommitFrame → ℕ → ReplayState
accept s commit len = record {
  outcome = record {
    frames = s.outcome.frames ++ commit ∷ [];
    valid_len = s.offset + len;
    last_lsn = commit.lsn;
    last_txn = commit.txn_id;
  };
  offset = s.offset + len;
  seen_lsn = true;
}

abbrev pub cursor_of : ReplayState → LsnCursor
cursor_of s = record { last_lsn = s.outcome.last_lsn; seen = s.seen_lsn }

-- The ops of `count` whole chunks.
unfoldable pub chunks : ℕ → List ℕ → List MutationOp
chunks zero bytes = []
chunks (suc count) bytes = op_of bytes ∷ chunks count (drop op_len bytes)

-- `framed_min` is at least the header, and the record at least that long.
unfoldable pub decode_ops : List ℕ → ℕ → List MutationOp × List ℕ
decode_ops bytes framed_min =
    let ops_bytes = slice bytes header_len (framed_min - header_len) in
    (chunks (length ops_bytes / op_len) ops_bytes, drop framed_min bytes)

unfoldable pub tail_or_loud : Bool → StorageError → RecordParse
tail_or_loud is_last error = if is_last then stop else loud error

module _ (usize_max : ℕ) where
  abbrev pub checked_mul : ℕ → ℕ → Option ℕ
  checked_mul a b = if leb (a * b) usize_max then some (a * b) else none

  unfoldable pub body_len : LogRecordHeader → Option ℕ
  body_len header =
      Option.bind (checked_mul header.op_count op_len)
        (λ ops_bytes. checked_add usize_max ops_bytes header_len)

  -- `matches!(body_len, Some(body_bytes) if body_bytes <= len)`
  abbrev pub body_within : Option ℕ → ℕ → Bool
  body_within none len = false
  body_within (some body_bytes) len = leb body_bytes len

  unfoldable pub frame_well_framed : LogRecordHeader → ℕ → Bool
  frame_well_framed header remaining_len =
      body_within (body_len header) header.len
      && (leb header.len remaining_len && leb header_len header.len)

  unfoldable pub is_last : LogRecordHeader → ℕ → Bool
  is_last header remaining_len =
      not (frame_well_framed header remaining_len) || leb remaining_len header.len

  -- The checks (e) and (f) and the decoding, on the record's own bytes.
  unfoldable pub parse_framed :
      Crc32c → LogRecordHeader → (framed_min : ℕ) → List ℕ → LsnCursor → RecordParse
  parse_framed crc header framed_min remaining cursor =
      let bytes = take header.len remaining in
      let (ops, blob) = decode_ops bytes framed_min in
      if not (record_crc crc bytes == header.crc32c)
      then tail_or_loud (is_last header (length remaining))
          (log_corrupt header.lsn "delta-log record checksum mismatch")
      else if cursor.seen && leb header.lsn cursor.last_lsn
      then loud (log_corrupt header.lsn "delta-log record LSN not strictly ascending")
      else frame
          (record {
            lsn = header.lsn;
            txn_id = header.txn_id;
            base_generation = header.base_generation;
            ops = ops;
            blob = blob;
          })
          header.len

  -- The check (d).
  unfoldable pub parse_sized :
      Crc32c → LogRecordHeader → Option ℕ → List ℕ → LsnCursor → RecordParse
  parse_sized crc header none remaining cursor = stop
  parse_sized crc header (some framed_min) remaining cursor =
      if ltb header.len framed_min || ltb header.len header_len
      then tail_or_loud (is_last header (length remaining))
          (log_corrupt header.lsn "delta-log record length undershoots its framing")
      else if ltb (length remaining) header.len
      then stop
      else parse_framed crc header framed_min remaining cursor

  -- The checks (b) and (c), on the header that was read.
  unfoldable pub parse_headed :
      Crc32c → (base_generation : ℕ) → LogRecordHeader → List ℕ → LsnCursor → RecordParse
  parse_headed crc base_generation header remaining cursor =
      if not (header.magic == log_magic)
      then tail_or_loud (is_last header (length remaining))
          (log_corrupt header.lsn "delta-log record magic mismatch")
      else if not (header.base_generation == base_generation)
      then tail_or_loud (is_last header (length remaining))
          (base_generation_mismatch base_generation header.base_generation)
      else parse_sized crc header (body_len header) remaining cursor

  unfoldable pub parse_one_record :
      Crc32c → (base_generation : ℕ) → List ℕ → LsnCursor → RecordParse
  parse_one_record crc base_generation remaining cursor =
      if ltb (length remaining) header_len
      then stop
      else parse_headed crc base_generation (log_header_of remaining) remaining cursor

  -- `none` is the end of the fuel.
  unfoldable pub replay_loop :
      Crc32c
      → (fuel base_generation : ℕ) → List ℕ
      → ReplayState
      → Option (Result StorageError ReplayOutcome)
  replay_loop crc zero base_generation log s = none
  replay_loop crc (suc fuel) base_generation log s = elim (ltb s.offset (length log)) [
    | false ↦ some (ok s.outcome)
    | true ↦ elim (parse_one_record crc base_generation (drop s.offset log) (cursor_of s)) [
      | stop ↦ some (ok s.outcome)
      | loud error ↦ some (err error)
      | frame commit len ↦ replay_loop crc fuel base_generation log (accept s commit len)
    ]
  ]

  -- Every round moves `offset` by a record, so a round for each byte is enough.
  unfoldable pub replay :
      Crc32c → (base_generation : ℕ) → List ℕ → Option (Result StorageError ReplayOutcome)
  replay crc base_generation log =
      replay_loop crc (suc (length log)) base_generation log replay_start
