-- ===== src/Examples/Db.antt =====
-- crates/oxgraph-db on two small commits, with the CRC-32C of crates/oxgraph-layout-util.
use oxgraph.Prelude.{ℕ, ◌≡◌, ◌↔◌, inl, refl, false, some, List, [], ◌∷◌, ◌++◌, take, ok, arith}
use oxgraph.Layout.Crc.{crc32c_append}
use oxgraph.Layout.Crc.Streaming.{crc32c_append-lt}
use oxgraph.Db.Wire.{superblock_of, SuperblockRecord, MutationOp, superblock_magic}
use oxgraph.Db.Wire.Codec.{IsSuperblock, IsOp}
use oxgraph.Db.Wal.{Crc32c, CommitFrame, LsnCursor, replay, parse_one_record}
use oxgraph.Db.Wal.Encode.{IsCrc, IsCommit}
use oxgraph.Db.Wal.Replay.{log_bytes, encode_log, recovered, replay-encode_log}
use oxgraph.Db.Wal.Truncate.{fitting, replay-take}
use oxgraph.Db.Wal.Verdict.{Verdict, parse_one_record-Verdict}
use oxgraph.Db.Wal.Sound.{Settled, replay-Settled}
use oxgraph.Db.Wal.Recover.{extended, replay-append}
use oxgraph.Db.Superblock.{read_superblock, superblock_image, stamp_superblock}
use oxgraph.Db.Superblock.Contract.{
  IsPublished, read_superblock_iff, read_superblock-superblock_image,
}

abbrev host : ℕ
host = 0xffff_ffff_ffff_ffff

abbrev crc : Crc32c
crc = record { checksum = λ bytes. crc32c_append 0 bytes; checksum_append = crc32c_append }

crc-IsCrc : IsCrc crc
crc-IsCrc = record { checksum_word = λ bytes. crc32c_append-lt 0 bytes; word = crc32c_append-lt }

abbrev op : MutationOp
op = record { op_kind = 1; flags = 0; payload = 7 ∷ 0 ∷ 0 ∷ 0 ∷ 0 ∷ 0 ∷ 0 ∷ 0 ∷ 9 ∷ [] }

op-IsOp : IsOp op
op-IsOp = record {
  kind_word = omega arith;
  flags_word = omega arith;
  payload_len = refl;
  payload_words = omega arith;
}

abbrev first : CommitFrame
first = record { lsn = 4; txn_id = 1; base_generation = 2; ops = op ∷ []; blob = b'a' ∷ [] }

abbrev second : CommitFrame
second = record { lsn = 5; txn_id = 3; base_generation = 2; ops = []; blob = [] }

first-IsCommit : IsCommit first
first-IsCommit = record {
  lsn_word = omega arith;
  txn_word = omega arith;
  generation_word = omega arith;
  ops_valid = (op-IsOp, tt);
  fits = omega arith;
}

second-IsCommit : IsCommit second
second-IsCommit = record {
  lsn_word = omega arith;
  txn_word = omega arith;
  generation_word = omega arith;
  ops_valid = tt;
  fits = omega arith;
}

abbrev commits : List CommitFrame
commits = first ∷ second ∷ []

replay-encode_log_example :
    (encode_log crc commits ≡ ok (log_bytes crc commits))
    × (replay host crc 2 (log_bytes crc commits ++ (1 ∷ 2 ∷ [])) ≡ some (ok (recovered commits)))
replay-encode_log_example =
    replay-encode_log crc crc-IsCrc host (omega arith) 2 commits (1 ∷ 2 ∷ [])
      (first-IsCommit, refl, tt, (second-IsCommit, refl, omega arith, tt)) (inl (omega arith))

replay-take_example :
    replay host crc 2 (take 130 (log_bytes crc commits))
    ≡ some (ok (recovered (fitting 130 commits)))
replay-take_example =
    replay-take crc crc-IsCrc host (omega arith) 2 130 commits
      (first-IsCommit, refl, tt, (second-IsCommit, refl, omega arith, tt))

fitting_one : fitting 130 commits ≡ first ∷ []
fitting_one = refl

abbrev at_start : LsnCursor
at_start = record { last_lsn = 0; seen = false }

parse_one_record-Verdict_example :
    Verdict host crc 2
      (log_bytes crc commits)
      at_start
      (parse_one_record host crc 2 (log_bytes crc commits) at_start)
parse_one_record-Verdict_example =
    parse_one_record-Verdict host crc 2 (log_bytes crc commits) at_start

replay-Settled_example :
    Settled 2 (log_bytes crc commits) (replay host crc 2 (log_bytes crc commits))
replay-Settled_example = replay-Settled host crc 2 (log_bytes crc commits)

recovered_first :
    replay host crc 2 (log_bytes crc (first ∷ []) ++ (1 ∷ 2 ∷ []))
    ≡ some (ok (recovered (first ∷ [])))
recovered_first =
    (replay-encode_log crc crc-IsCrc host (omega arith) 2 (first ∷ []) (1 ∷ 2 ∷ [])
      (first-IsCommit, refl, tt, tt) (inl (omega arith))).1

replay-append_example :
    replay host crc 2
      (take 121 (log_bytes crc (first ∷ []) ++ (1 ∷ 2 ∷ [])) ++ (log_bytes crc (second ∷ []) ++ []))
    ≡ some (ok (extended (recovered (first ∷ [])) (second ∷ [])))
replay-append_example =
    replay-append crc crc-IsCrc host (omega arith) 2 (log_bytes crc (first ∷ []) ++ (1 ∷ 2 ∷ []))
      (recovered (first ∷ [])) (second ∷ []) [] recovered_first
      (second-IsCommit, refl, omega arith, tt) (inl (omega arith))

abbrev superblock : SuperblockRecord
superblock = record {
  magic = superblock_magic;
  base_generation = 2;
  checkpoint_lsn = 5;
  log_byte_offset = 0;
  commit_seq = 2;
  transaction_id = 3;
  format_version = 1;
  flags = 0;
  crc32c = 0;
  pad = 0;
}

superblock-IsSuperblock : IsSuperblock superblock
superblock-IsSuperblock = record {
  magic_len = refl;
  generation_word = omega arith;
  lsn_word = omega arith;
  offset_word = omega arith;
  seq_word = omega arith;
  transaction_word = omega arith;
  version_word = omega arith;
  flags_word = omega arith;
  crc_word = omega arith;
  pad_word = omega arith;
}

read_superblock-superblock_image_example :
    read_superblock crc (superblock_image crc superblock) ≡ ok (stamp_superblock crc superblock)
read_superblock-superblock_image_example =
    read_superblock-superblock_image crc superblock superblock-IsSuperblock crc-IsCrc refl refl refl
      refl

read_superblock_iff_example :
    (read_superblock crc (superblock_image crc superblock) ≡ ok (stamp_superblock crc superblock))
    ↔ (IsPublished crc (superblock_image crc superblock)
        × (superblock_of (superblock_image crc superblock) ≡ stamp_superblock crc superblock))
read_superblock_iff_example =
    read_superblock_iff crc (superblock_image crc superblock) (stamp_superblock crc superblock)
