-- ===== src/Db/Store.antt =====
-- crates/oxgraph-db/src/database: the transactions on a store and the recovery of its log. The
-- writer lock, the files' names and the fold that a commit may trigger are left out.
pub mod Reopen
pub mod Durable
pub mod Opened
use Prim.Native.Nat.{max}
use oxgraph.Prelude.{
  ℕ, Bool, true, false, Option, none, some, List, [], ◌∷◌, ◌++◌, length, take, Result, ok, err,
  ◌>>=◌, if◌then◌else◌,
}
use oxgraph.Db.Errors.{
  StorageError, io, DbError, storage, txn_error, commit_seq_overflow, transaction_id_overflow,
}
use oxgraph.Db.State.{NextIds, checked_next, elementwise_max}
use oxgraph.Db.Catalog.{Catalog}
use oxgraph.Db.Wal.{Crc32c, CommitFrame, ReplayOutcome, encode_commit, replay}
use oxgraph.Db.Overlay.{
  BaseRecords, IndexOps, Overlay, WriteOverlay, new_overlay, from_overlay, freeze,
}
use oxgraph.Db.Overlay.Log.{is_empty}
use oxgraph.Db.Overlay.Write.{Call, run_calls, take_frame, set_next_ids}
use oxgraph.Db.Overlay.Replay.{apply_ops}

-- `Db` in one base generation: the overlay and the LSN of its current snapshot, the last
-- transaction id and the bytes of the delta log's file.
pub record Store (I : Type 0) : Type 0 where
  pub overlay : Overlay I
  pub commit_seq : ℕ
  pub last_transaction_id : ℕ
  pub log : List ℕ

-- Of a failing write or sync: how many bytes of the record reached the file, and the error.
pub record IoFailure : Type 0 where
  pub written : ℕ
  pub error : StorageError

-- The file after an append. After a failure it is cut back to its end before, as `rollback_to` does
-- where its truncation succeeds; the source goes on without a word where that fails too.
abbrev pub append_commit :
    Option IoFailure → (frame log : List ℕ) → List ℕ × Result StorageError (Unit {0})
append_commit none frame log = (log ++ frame, ok tt)
append_commit (some failure) frame log =
    let eof = length log in (take eof (log ++ take failure.written frame), err failure.error)

pub data CommitOutcome : Type 0 where
  committed : (lsn : ℕ) → CommitOutcome
  empty : CommitOutcome

-- The closure of `Db::write`: its calls, the error it returns, if any, and what the files do.
pub record Transaction : Type 0 where
  pub calls : List Call
  pub error : Option DbError
  pub failure : Option IoFailure

module _ (crc : Crc32c) (base_generation : ℕ) {I : Type 0} where
  -- `Writer::commit` from the append on.
  abbrev pub publish :
      Option IoFailure
      → WriteOverlay I
      → (lsn transaction_id : ℕ) → Result StorageError (List ℕ)
      → Store I
      → Store I × Result DbError ℕ
  publish failure w lsn transaction_id (err error) s = (s, err (storage error))
  publish failure w lsn transaction_id (ok frame) s =
      let (log, appended) = append_commit failure frame s.log in
      elim appended [
        | err error ↦ (record s { log = log }, err (storage error))
        | ok done ↦ (
          record {
            overlay = freeze w;
            commit_seq = lsn;
            last_transaction_id = transaction_id;
            log = log;
          },
          ok lsn,
        )
      ]

  -- `Writer::commit` of a dirty writer, with the next LSN.
  abbrev pub commit_at :
      Option IoFailure
      → WriteOverlay I
      → (transaction_id : ℕ) → Option ℕ
      → Store I
      → Store I × Result DbError ℕ
  commit_at failure w transaction_id none s = (s, err (txn_error commit_seq_overflow))
  commit_at failure w transaction_id (some lsn) s =
      let (ops, blob, left) = take_frame w in
      publish failure left lsn transaction_id
        (encode_commit crc lsn transaction_id base_generation ops blob) s

  abbrev pub commit :
      Option IoFailure
      → WriteOverlay I
      → (transaction_id : ℕ) → Store I
      → Store I × Result DbError ℕ
  commit failure w transaction_id s =
      if is_empty w.log
      then (s, ok s.commit_seq)
      else commit_at failure w transaction_id (checked_next s.commit_seq) s

  module _ (idx : IndexOps I) (base : BaseRecords) where
    -- `Db::write` once the id is drawn, which a roll back does not give again.
    abbrev pub write_with :
        Transaction → Option ℕ → Store I → Store I × Result DbError CommitOutcome
    write_with t none s = (s, err (txn_error transaction_id_overflow))
    write_with t (some transaction_id) s =
        let burned : Store I = record s { last_transaction_id = transaction_id } in
        let w = run_calls idx base t.calls (from_overlay s.overlay) in
        elim t.error [
          | some error ↦ (burned, err error)
          | none ↦
              let (after, result) = commit t.failure w transaction_id burned in
              (after, result >>= λ lsn. ok (if is_empty w.log then empty else committed lsn))
        ]

    -- `Db::write` and `begin_write`.
    abbrev pub write : Transaction → Store I → Store I × Result DbError CommitOutcome
    write t s = write_with t (checked_next s.last_transaction_id) s

    abbrev pub write_all : List Transaction → Store I → Store I
    write_all [] s = s
    write_all (t ∷ transactions) s = write_all transactions (write t s).0

-- The variables of the loop over the replayed frames.
pub record Recovery (I : Type 0) : Type 0 where
  pub write_overlay : WriteOverlay I
  pub recovered_next : NextIds
  pub last_commit_seq : ℕ
  pub last_txn : ℕ

module _ (usize_max : ℕ) (is_utf8 : List ℕ → Bool) (crc : Crc32c) (base_generation : ℕ) {I : Type 0}
    (idx : IndexOps I) (base : BaseRecords) where
  -- A round of the loop.
  unfoldable pub recover_frame : CommitFrame → Recovery I → Result DbError (Recovery I)
  recover_frame frame r = do
    after ← apply_ops usize_max is_utf8 idx base frame.ops frame.blob frame.lsn r.write_overlay
    ok (record {
      write_overlay = after;
      recovered_next = elementwise_max r.recovered_next after.next;
      last_commit_seq = frame.lsn;
      last_txn = max r.last_txn frame.txn_id;
    })

  unfoldable pub recover_frames : List CommitFrame → Recovery I → Result DbError (Recovery I)
  recover_frames [] r = ok r
  recover_frames (frame ∷ frames) r = recover_frame frame r >>= λ after. recover_frames frames after

  -- The store that `open` returns: the log is cut to its valid length.
  abbrev pub opened : List ℕ → ReplayOutcome → Recovery I → Store I
  opened log outcome r = record {
    overlay = freeze (set_next_ids r.recovered_next r.write_overlay);
    commit_seq = r.last_commit_seq;
    last_transaction_id = r.last_txn;
    log = take outcome.valid_len log;
  }

  abbrev pub open_outcome :
      List ℕ
      → Recovery I
      → Option (Result StorageError ReplayOutcome)
      → Option (Result DbError (Store I))
  open_outcome log start none = none
  open_outcome log start (some (err error)) = some (err (storage error))
  open_outcome log start (some (ok outcome)) =
      some (recover_frames outcome.frames start >>= λ r. ok (opened log outcome r))

  -- `Db::open` on the base's header and catalog, the superblock's LSN and transaction, and the
  -- bytes of the log. `none` is the end of the replay's fuel.
  unfoldable pub open_store :
      NextIds
      → Catalog
      → (commit_seq transaction_id : ℕ) → List ℕ
      → Option (Result DbError (Store I))
  open_store base_next base_catalog commit_seq transaction_id log =
      open_outcome log
        (record {
          write_overlay = new_overlay idx base_next base_catalog;
          recovered_next = base_next;
          last_commit_seq = commit_seq;
          last_txn = transaction_id;
        })
        (replay usize_max crc base_generation log)
