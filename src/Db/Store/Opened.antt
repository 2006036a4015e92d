-- ===== src/Db/Store/Opened.antt =====
-- crates/oxgraph-db/src/database: what `open` gives after transactions and a crash.
use oxgraph.Prelude.{
  ℕ, ◌^◌, ◌≤◌, ◌<◌, ◌≡◌, refl, ap, ◌∙◌, Bool, Option, none, some, List, [], ◌∷◌, ◌++◌, length, take,
  ok, arith, take-append, length-append,
}
use oxgraph.Snapshot.Words.{AllBelow}
use oxgraph.Db.State.{NextIds}
use oxgraph.Db.Catalog.{Catalog}
use oxgraph.Db.Wal.{Crc32c, CommitFrame, replay}
use oxgraph.Db.Wal.Encode.{IsCrc, record_bytes, length-record_bytes}
use oxgraph.Db.Wal.Damage.{IsTail}
use oxgraph.Db.Wal.Replay.{log_bytes, log_size, IsLog, replay-encode_log}
use oxgraph.Db.Overlay.{BaseRecords, IndexOps, new_overlay, freeze}
use oxgraph.Db.Overlay.Words.{ids_list}
use oxgraph.Db.Store.{Store, Transaction, recover_frames, write_all, open_store, open_outcome}
use oxgraph.Db.Store.Durable.{IsRecoverable, AreTransactions, IsRecoverable-write_all, recovery}

length-log_bytes :
    (crc : Crc32c) (base_generation : ℕ) (last : Option ℕ) (commits : List CommitFrame)
    → IsLog base_generation last commits
    → length (log_bytes crc commits) ≡ log_size commits
length-log_bytes crc base_generation last [] h = refl
length-log_bytes crc base_generation last (c ∷ commits) (valid, same, next, more) =
    length-append (record_bytes crc c) (log_bytes crc commits)
    ∙ omega (
      arith,
      length-record_bytes crc c valid,
      length-log_bytes crc base_generation (some c.lsn) commits more,
    )

-- The store of a base generation whose log is empty.
abbrev pub fresh_store :
    {I : Type 0} → IndexOps I → NextIds → Catalog → (commit_seq transaction_id : ℕ) → Store I
fresh_store idx base_next base_catalog commit_seq transaction_id = record {
  overlay = freeze (new_overlay idx base_next base_catalog);
  commit_seq = commit_seq;
  last_transaction_id = transaction_id;
  log = [];
}

module _ (usize_max : ℕ) (wide : 0xffff_ffff ≤ usize_max) (is_utf8 : List ℕ → Bool) (crc : Crc32c)
    (law : IsCrc crc) (base_generation : ℕ) (generation_word : base_generation < 2 ^ 64)
    {I : Type 0} (idx : IndexOps I) (base : BaseRecords) where
  -- A store starts on a base with an empty log and ids that are `u64`. It runs any transactions with
  -- valid arguments: some of their calls may fail, some return an error and are rolled back, some are
  -- too large for a record, and for some the append or the sync fails after any number of bytes,
  -- whereupon the truncation of the log to its end before succeeds. Then `open` of the log, with a torn tail at most after it, ends without an error and gives the store
  -- that the transactions left: its overlay, its LSN and its log. Only the last transaction id may be
  -- smaller than the one in memory.
  pub open_store-write_all :
      (base_next : NextIds) (base_catalog : Catalog) (commit_seq transaction_id : ℕ)
      (transactions : List Transaction) (tail : List ℕ)
      → AllBelow (2 ^ 64) (ids_list base_next)
      → AreTransactions is_utf8 transactions
      → IsTail usize_max tail
      → let fresh = fresh_store idx base_next base_catalog commit_seq transaction_id in
        let s = write_all crc base_generation idx base transactions fresh in
        (txn : ℕ) × (txn ≤ s.last_transaction_id)
        × (open_store usize_max is_utf8 crc base_generation idx base base_next base_catalog
              commit_seq transaction_id
              (s.log ++ tail)
            ≡ some (ok (record s { last_transaction_id = txn })))
  unfolding open_store recover_frames
  open_store-write_all base_next base_catalog commit_seq transaction_id transactions tail below
        valid torn =
      let fresh = fresh_store idx base_next base_catalog commit_seq transaction_id in
      let start = recovery fresh.overlay commit_seq transaction_id in
      let s = write_all crc base_generation idx base transactions fresh in
      let empty : IsRecoverable usize_max is_utf8 crc base_generation idx base start fresh =
        record {
          commits = [];
          txn = transaction_id;
          bytes = refl;
          valid = tt;
          next = tt;
          folded = refl;
          txn_le = omega arith;
          below = below;
        } in
      let h =
        IsRecoverable-write_all usize_max is_utf8 crc base_generation idx base start law wide
          generation_word transactions fresh empty valid in
      let read =
        (replay-encode_log crc law usize_max wide base_generation h.commits tail h.valid torn).1 in
      let size = length-log_bytes crc base_generation none h.commits h.valid in
      let kept : take (log_size h.commits) (log_bytes crc h.commits ++ tail)
          ≡ log_bytes crc h.commits =
        take-append (log_size h.commits) (log_bytes crc h.commits) tail size in
      (
        h.txn,
        h.txn_le,
        ap
              (λ (log : List ℕ).
                open_outcome usize_max is_utf8 crc base_generation idx base (log ++ tail) start
                  (replay usize_max crc base_generation (log ++ tail)))
              h.bytes
            ∙ rw (read, h.folded, kept, h.bytes) refl,
      )
