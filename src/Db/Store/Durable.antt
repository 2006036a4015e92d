-- ===== src/Db/Store/Durable.antt =====
-- crates/oxgraph-db/src/database: a store that `open` would give back from its log, and the
-- transactions that keep it one.
use Prim.Native.Nat.{max}
use oxgraph.Prelude.{
  ℕ, ◌+◌, ◌^◌, ◌≤◌, ◌<◌, ◌≡◌, refl, ap, sym, ◌∙◌, subst, inl, inr, Bool, Bool-cases, Option, none,
  some, List, [], ◌∷◌, ◌++◌, length, take, Result, ok, err, arith, leb, leb→le, take-append,
}
use oxgraph.Snapshot.Words.{AllBelow}
use oxgraph.Db.Errors.{StorageError, DbError}
use oxgraph.Db.State.{u64_max}
use oxgraph.Db.Wal.{Crc32c, CommitFrame, encode_commit}
use oxgraph.Db.Wal.Encode.{IsCrc, IsCommit, record_bytes, encode_commit-eq}
use oxgraph.Db.Wal.Replay.{log_bytes, IsLog, Follows}
use oxgraph.Db.Wal.Sound.{last_of, last_snoc}
use oxgraph.Db.Overlay.{BaseRecords, IndexOps, Overlay, from_overlay, freeze}
use oxgraph.Db.Overlay.Log.{is_empty}
use oxgraph.Db.Overlay.Write.{Call, run_calls, take_frame}
use oxgraph.Db.Overlay.Sound.Frame.{AreCalls, apply_ops-take_frame}
use oxgraph.Db.Overlay.Words.{ids_list}
use oxgraph.Db.Overlay.Words.Runs.{AreWordCalls, take_frame-AreOps}
use oxgraph.Db.Store.{
  Store, Recovery, IoFailure, Transaction, recover_frame, recover_frames, publish, commit,
  write_with, write, write_all,
}
use oxgraph.Db.Store.Reopen.{
  encode_commit-fits, log_bytes-snoc, IsLog-snoc, elementwise_max-le, recover_frames-snoc,
}

abbrev bytes_of : Result StorageError (List ℕ) → List ℕ
bytes_of (ok bytes) = bytes
bytes_of (err error) = []

ok_inj : (xs ys : List ℕ) → (◌≡◌ {A = Result StorageError (List ℕ)} (ok xs) (ok ys)) → xs ≡ ys
ok_inj xs ys e = ap bytes_of e

abbrev pub recovery : {I : Type 0} → Overlay I → (commit_seq txn : ℕ) → Recovery I
recovery overlay commit_seq txn = record {
  write_overlay = from_overlay overlay;
  recovered_next = overlay.next;
  last_commit_seq = commit_seq;
  last_txn = txn;
}

-- The calls are valid, with ids that are `u64`.
pub record IsTransaction (is_utf8 : List ℕ → Bool) (t : Transaction) : Type 0 where
  pub calls_valid : AreCalls is_utf8 t.calls
  pub calls_words : AreWordCalls t.calls

abbrev pub AreTransactions : (List ℕ → Bool) → List Transaction → Type 0
AreTransactions is_utf8 [] = Unit
AreTransactions is_utf8 (t ∷ transactions) =
    IsTransaction is_utf8 t × AreTransactions is_utf8 transactions

module _ (usize_max : ℕ) (is_utf8 : List ℕ → Bool) (crc : Crc32c) (base_generation : ℕ) {I : Type 0}
    (idx : IndexOps I) (base : BaseRecords) (start : Recovery I) where
  -- The log holds commits that the recovery folds into the store's overlay and LSN.
  pub record IsRecoverable (s : Store I) : Type 0 where
    pub commits : List CommitFrame
    pub txn : ℕ
    pub bytes : s.log ≡ log_bytes crc commits
    pub valid : IsLog base_generation none commits
    pub next : Follows (last_of none commits) (s.commit_seq + 1)
    pub folded :
        recover_frames usize_max is_utf8 crc base_generation idx base commits start
        ≡ ok (recovery s.overlay s.commit_seq txn)
    pub txn_le : txn ≤ s.last_transaction_id
    pub below : AllBelow (2 ^ 64) (ids_list s.overlay.next)

  pub IsRecoverable-burned :
      (s : Store I) (transaction_id : ℕ)
      → s.last_transaction_id ≤ transaction_id
      → IsRecoverable s
      → IsRecoverable (record s { last_transaction_id = transaction_id })
  IsRecoverable-burned s transaction_id le h = record {
    commits = h.commits;
    txn = h.txn;
    bytes = h.bytes;
    valid = h.valid;
    next = h.next;
    folded = h.folded;
    txn_le = omega (arith, h.txn_le);
    below = h.below;
  }

  module _ (law : IsCrc crc) (wide : 0xffff_ffff ≤ usize_max)
      (generation_word : base_generation < 2 ^ 64) where
    -- The append of a frame that the encoder gave.
    IsRecoverable-append :
        (s : Store I) (calls : List Call) (lsn transaction_id : ℕ) (frame : List ℕ)
        → IsRecoverable s
        → AreCalls is_utf8 calls
        → AreWordCalls calls
        → lsn ≡ s.commit_seq + 1
        → lsn < 2 ^ 64
        → transaction_id < 2 ^ 64
        → s.last_transaction_id ≤ transaction_id
        → let w = run_calls idx base calls (from_overlay s.overlay) in
          let (ops, blob, left) = take_frame w in
          encode_commit crc lsn transaction_id base_generation ops blob ≡ ok frame
          → IsRecoverable (record {
            overlay = freeze left;
            commit_seq = lsn;
            last_transaction_id = transaction_id;
            log = s.log ++ frame;
          })
    unfolding recover_frame
    IsRecoverable-append s calls lsn transaction_id frame h valid words lsn_eq lsn_word txn_word le
          e =
        let w = run_calls idx base calls (from_overlay s.overlay) in
        let ops = (take_frame w).0 in
        let blob = w.log.blob in
        let fits = encode_commit-fits crc lsn transaction_id base_generation ops blob frame e in
        let (grown, below, are_ops) =
          take_frame-AreOps is_utf8 idx base (from_overlay s.overlay) calls h.below refl valid words
            (omega (arith, fits)) in
        let c : CommitFrame = record {
          lsn = lsn;
          txn_id = transaction_id;
          base_generation = base_generation;
          ops = ops;
          blob = blob;
        } in
        let c_valid : IsCommit c = record {
          lsn_word = lsn_word;
          txn_word = txn_word;
          generation_word = generation_word;
          ops_valid = are_ops;
          fits = fits;
        } in
        let same : record_bytes crc c ≡ frame =
          ok_inj (record_bytes crc c) frame (sym (encode_commit-eq crc c c_valid) ∙ e) in
        let replayed =
          apply_ops-take_frame usize_max is_utf8 idx base (from_overlay s.overlay) calls lsn
            s.overlay.next refl valid (omega (arith, fits)) in
        record {
          commits = h.commits ++ c ∷ [];
          txn = max h.txn transaction_id;
          bytes =
              ap (λ (b : List ℕ). b ++ frame) h.bytes
              ∙ ap (λ (b : List ℕ). log_bytes crc h.commits ++ b) (sym same)
              ∙ sym (log_bytes-snoc crc h.commits c);
          valid =
              IsLog-snoc base_generation none h.commits c h.valid c_valid refl
                (subst (Follows (last_of none h.commits)) (sym lsn_eq) h.next);
          next = rw (last_snoc none h.commits c) (omega arith);
          folded =
              recover_frames-snoc usize_max is_utf8 crc base_generation idx base h.commits c start
              ∙ rw (h.folded, replayed, elementwise_max-le s.overlay.next w.next grown) refl;
          txn_le = omega (arith, h.txn_le);
          below = below;
        }

    -- The append, whether it succeeds or not.
    IsRecoverable-publish :
        (s : Store I) (calls : List Call) (failure : Option IoFailure) (lsn transaction_id : ℕ)
        (encoded : Result StorageError (List ℕ))
        → IsRecoverable s
        → AreCalls is_utf8 calls
        → AreWordCalls calls
        → lsn ≡ s.commit_seq + 1
        → lsn < 2 ^ 64
        → transaction_id < 2 ^ 64
        → s.last_transaction_id ≤ transaction_id
        → let w = run_calls idx base calls (from_overlay s.overlay) in
          let (ops, blob, left) = take_frame w in
          encode_commit crc lsn transaction_id base_generation ops blob ≡ encoded
          → IsRecoverable (publish crc base_generation failure left lsn transaction_id encoded s).0
    IsRecoverable-publish s calls failure lsn transaction_id (err error) h valid words l lw tw le
          e =
        h
    IsRecoverable-publish s calls none lsn transaction_id (ok frame) h valid words l lw tw le e =
        IsRecoverable-append s calls lsn transaction_id frame h valid words l lw tw le e
    IsRecoverable-publish s calls (some failure) lsn transaction_id (ok frame) h valid words l lw tw
          le e =
        subst (λ (log : List ℕ). IsRecoverable (record s { log = log }))
          (sym (take-append (length s.log) s.log (take failure.written frame) refl)) h

    IsRecoverable-commit :
        (s : Store I) (calls : List Call) (failure : Option IoFailure) (transaction_id : ℕ)
        → IsRecoverable s
        → AreCalls is_utf8 calls
        → AreWordCalls calls
        → transaction_id < 2 ^ 64
        → s.last_transaction_id ≤ transaction_id
        → let w = run_calls idx base calls (from_overlay s.overlay) in
          IsRecoverable (commit crc base_generation failure w transaction_id s).0
    IsRecoverable-commit s calls failure transaction_id h valid words tw le =
        let w = run_calls idx base calls (from_overlay s.overlay) in
        elim (Bool-cases (is_empty w.log)) [
          | inl e ↦ rw e h
          | inr e ↦ elim (Bool-cases (leb (s.commit_seq + 1) u64_max)) [
            | inl k ↦
                rw (e, k)
                  (IsRecoverable-publish s calls failure (s.commit_seq + 1) transaction_id _ h valid
                    words refl (omega (arith, leb→le (s.commit_seq + 1) u64_max k)) tw le refl)
            | inr k ↦ rw (e, k) h
          ]
        ]

    IsRecoverable-write_with :
        (s : Store I) (t : Transaction) (transaction_id : ℕ)
        → IsRecoverable s
        → IsTransaction is_utf8 t
        → transaction_id < 2 ^ 64
        → s.last_transaction_id ≤ transaction_id
        → IsRecoverable (write_with crc base_generation idx base t (some transaction_id) s).0
    IsRecoverable-write_with s t transaction_id h valid tw le =
        let burned = IsRecoverable-burned s transaction_id le h in
        elim t.error
          as (λ (error : Option DbError).
            IsRecoverable
              (write_with crc base_generation idx base (record t { error = error })
                (some transaction_id) s).0) [
                  | some error ↦ burned
                  | none ↦
                      IsRecoverable-commit (record s { last_transaction_id = transaction_id })
                        t.calls t.failure transaction_id burned valid.calls_valid valid.calls_words
                        tw (omega arith)
                ]

    -- Whatever a transaction comes to, the store stays recoverable.
    pub IsRecoverable-write :
        (s : Store I) (t : Transaction)
        → IsRecoverable s
        → IsTransaction is_utf8 t
        → IsRecoverable (write crc base_generation idx base t s).0
    IsRecoverable-write s t h valid = elim (Bool-cases (leb (s.last_transaction_id + 1) u64_max)) [
      | inl e ↦ rw e (
          IsRecoverable-write_with s t (s.last_transaction_id + 1) h valid
            (omega (arith, leb→le (s.last_transaction_id + 1) u64_max e)) (omega arith))
      | inr e ↦ rw e h
    ]

    pub IsRecoverable-write_all :
        (transactions : List Transaction) (s : Store I)
        → IsRecoverable s
        → AreTransactions is_utf8 transactions
        → IsRecoverable (write_all crc base_generation idx base transactions s)
    IsRecoverable-write_all [] s h valid = h
    IsRecoverable-write_all (t ∷ transactions) s h (valid, more) =
        IsRecoverable-write_all transactions (write crc base_generation idx base t s).0
          (IsRecoverable-write s t h valid) more
