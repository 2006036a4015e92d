-- ===== src/Db/Overlay/Sound.antt =====
-- crates/oxgraph-db/src/overlay/write.rs: the log of a writer, replayed on the writer's start, gives
-- the writer again.
pub mod Topology
pub mod Properties
pub mod Registers
pub mod Frame
use oxgraph.Prelude.{
  ℕ, ◌+◌, ◌≤◌, ◌≡◌, refl, ap, sym, ◌∙◌, subst, Bool, Option, none, some, List, [], ◌∷◌, ◌++◌,
  length, Result, Result-cases, inl, inr, ok, err, ◌>>=◌, arith, append_assoc, append-nil,
  length-append,
}
use oxgraph.Db.Errors.{DbError, IdFamily}
use oxgraph.Db.State.{NextIds}
use oxgraph.Db.Wire.{MutationOp}
use oxgraph.Db.Overlay.{BaseRecords, IndexOps, WriteOverlay}
use oxgraph.Db.Overlay.Log.{empty_log}
use oxgraph.Db.Overlay.Write.{or_overflow}
use oxgraph.Db.Overlay.Replay.{apply_replay_op, apply_ops}

-- The writer of the recovery: its log is empty, and it gets its ids at the end.
abbrev pub replica : {I : Type 0} → WriteOverlay I → NextIds → WriteOverlay I
replica w next = record w { next = next; log = empty_log }

module _ (usize_max : ℕ) (is_utf8 : List ℕ → Bool) {I : Type 0} (idx : IndexOps I)
    (base : BaseRecords) where
  pub apply_ops-append :
      (xs ys : List MutationOp) (blob : List ℕ) (lsn : ℕ) (w : WriteOverlay I)
      → apply_ops usize_max is_utf8 idx base (xs ++ ys) blob lsn w ≡ (
          apply_ops usize_max is_utf8 idx base xs blob lsn w >>= λ after.
          apply_ops usize_max is_utf8 idx base ys blob lsn after)
  unfolding apply_ops
  apply_ops-append [] ys blob lsn w = refl
  apply_ops-append (op ∷ xs) ys blob lsn w =
      elim (Result-cases (apply_replay_op usize_max is_utf8 idx base op blob lsn w)) [
        | inl (after, e) ↦ rw (e, apply_ops) (apply_ops-append xs ys blob lsn after)
        | inr (error, e) ↦ rw (e, apply_ops) refl
      ]

  -- The ops logged so far take the start to here, whatever the blob gets later.
  unfoldable pub Replays : WriteOverlay I → WriteOverlay I → Type 0
  Replays start w =
      (rest : List ℕ) (lsn : ℕ) (next : NextIds)
      → length (w.log.blob ++ rest) ≤ usize_max
      → apply_ops usize_max is_utf8 idx base w.log.ops (w.log.blob ++ rest) lsn (replica start next)
        ≡ ok (replica w next)

  -- What a call does to the log: a piece of the blob, and an op that replays the call.
  abbrev pub ReplaysCall : WriteOverlay I → WriteOverlay I → List ℕ → MutationOp → Type 0
  ReplaysCall w after piece op =
      (rest : List ℕ) (lsn : ℕ) (next : NextIds)
      → length (w.log.blob ++ (piece ++ rest)) ≤ usize_max
      → apply_replay_op usize_max is_utf8 idx base op (w.log.blob ++ (piece ++ rest)) lsn
          (replica w next)
        ≡ ok (replica after next)

  pub Replays-op :
      (start w after : WriteOverlay I) (piece : List ℕ) (op : MutationOp)
      → Replays start w
      → after.log.blob ≡ w.log.blob ++ piece
      → after.log.ops ≡ w.log.ops ++ op ∷ []
      → ReplaysCall w after piece op
      → Replays start after
  unfolding apply_ops Replays
  Replays-op start w after piece op so_far blob_eq ops_eq step rest lsn next fits =
      let whole : after.log.blob ++ rest ≡ w.log.blob ++ (piece ++ rest) =
        ap (λ (b : List ℕ). b ++ rest) blob_eq ∙ append_assoc w.log.blob piece rest in
      let fits2 : length (w.log.blob ++ (piece ++ rest)) ≤ usize_max =
        subst (λ (b : List ℕ). length b ≤ usize_max) whole fits in
      rw
        (
          whole,
          ops_eq,
          apply_ops-append w.log.ops (op ∷ []) (w.log.blob ++ (piece ++ rest)) lsn
              (replica start next),
          so_far (piece ++ rest) lsn next fits2,
          step rest lsn next fits2,
        )
        refl

  -- A registration that the catalog refuses leaves its name in the blob.
  pub Replays-blob :
      (start w after : WriteOverlay I) (piece : List ℕ)
      → Replays start w
      → after.log.blob ≡ w.log.blob ++ piece
      → after.log.ops ≡ w.log.ops
      → ((next : NextIds) → replica w next ≡ replica after next)
      → Replays start after
  unfolding Replays
  Replays-blob start w after piece so_far blob_eq ops_eq same rest lsn next fits =
      let whole : after.log.blob ++ rest ≡ w.log.blob ++ (piece ++ rest) =
        ap (λ (b : List ℕ). b ++ rest) blob_eq ∙ append_assoc w.log.blob piece rest in
      let fits2 : length (w.log.blob ++ (piece ++ rest)) ≤ usize_max =
        subst (λ (b : List ℕ). length b ≤ usize_max) whole fits in
      rw (whole, ops_eq) (so_far (piece ++ rest) lsn next fits2 ∙ ap ok (same next))

  pub Replays-start : (start : WriteOverlay I) → start.log ≡ empty_log → Replays start start
  unfolding Replays apply_ops
  Replays-start start empty rest lsn next fits = rw empty refl

  -- An overflow leaves the writer as it is.
  pub Replays-or_overflow :
      (start w : WriteOverlay I) (next : Option ℕ) (family : IdFamily)
      (go : ℕ → WriteOverlay I × Result DbError ℕ)
      → Replays start w
      → ((n : ℕ) → Replays start (go n).0)
      → Replays start (or_overflow next family w go).0
  Replays-or_overflow start w none family go so_far more = so_far
  Replays-or_overflow start w (some n) family go so_far more = more n
