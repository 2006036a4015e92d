-- ===== src/Db/Store/Reopen.antt =====
-- crates/oxgraph-db/src/database: `open` on the log that a run of transactions leaves.
use Prim.Native.Nat.{max}
use oxgraph.Prelude.{
  ℕ, ◌+◌, ◌*◌, ◌^◌, ◌≤◌, ◌<◌, ◌≡◌, refl, ap, sym, ◌∙◌, inl, inr, Bool, Bool-cases, Option, some,
  List, [], ◌∷◌, ◌++◌, length, Result-cases, ok, ◌>>=◌, arith, leb, leb→le, append_assoc,
  append-nil,
}
use oxgraph.Db.State.{NextIds, elementwise_max}
use oxgraph.Db.Wire.{MutationOp, header_len, op_len}
use oxgraph.Db.Wal.{Crc32c, CommitFrame, encode_commit, u32_max}
use oxgraph.Db.Wal.Encode.{IsCommit, record_bytes}
use oxgraph.Db.Wal.Replay.{log_bytes, IsLog, Follows}
use oxgraph.Db.Wal.Sound.{last_of}
use oxgraph.Db.Overlay.{BaseRecords, IndexOps}
use oxgraph.Db.Overlay.Words.{ids_list, AllLe}
use oxgraph.Db.Store.{Recovery, recover_frame, recover_frames}

-- A commit whose record the framing holds.
pub encode_commit-fits :
    (crc : Crc32c) (lsn txn_id base_generation : ℕ) (ops : List MutationOp) (blob frame : List ℕ)
    → encode_commit crc lsn txn_id base_generation ops blob ≡ ok frame
    → header_len + length ops * op_len + length blob < 2 ^ 32
unfolding encode_commit
encode_commit-fits crc lsn txn_id base_generation ops blob frame h =
    elim (Bool-cases (leb (header_len + length ops * op_len + length blob) u32_max)) [
      | inl e ↦ omega (arith, leb→le (header_len + length ops * op_len + length blob) u32_max e)
      | inr e ↦ ground arith
    ]

pub log_bytes-snoc :
    (crc : Crc32c) (commits : List CommitFrame) (c : CommitFrame)
    → log_bytes crc (commits ++ c ∷ []) ≡ log_bytes crc commits ++ record_bytes crc c
log_bytes-snoc crc [] c = append-nil (record_bytes crc c)
log_bytes-snoc crc (d ∷ commits) c =
    ap (λ (b : List ℕ). record_bytes crc d ++ b) (log_bytes-snoc crc commits c)
    ∙ sym (append_assoc (record_bytes crc d) (log_bytes crc commits) (record_bytes crc c))

pub IsLog-snoc :
    (base_generation : ℕ) (last : Option ℕ) (commits : List CommitFrame) (c : CommitFrame)
    → IsLog base_generation last commits
    → IsCommit c
    → c.base_generation ≡ base_generation
    → Follows (last_of last commits) c.lsn
    → IsLog base_generation last (commits ++ c ∷ [])
IsLog-snoc base_generation last [] c h valid same next = (valid, same, next, tt)
IsLog-snoc base_generation last (d ∷ commits) c (v, g, f, h) valid same next =
    (v, g, f, IsLog-snoc base_generation (some d.lsn) commits c h valid same next)

max_le : (a b : ℕ) → a ≤ b → max a b ≡ b
max_le a b h = omega arith

-- Later ids are the maximum.
pub elementwise_max-le : (a b : NextIds) → AllLe (ids_list a) (ids_list b) → elementwise_max a b ≡ b
elementwise_max-le a b h =
    rw
      (
        max_le a.element b.element (omega arith),
        max_le a.relation b.relation (omega arith),
        max_le a.incidence b.incidence (omega arith),
        max_le a.role b.role (omega arith),
        max_le a.label b.label (omega arith),
        max_le a.relation_type b.relation_type (omega arith),
        max_le a.property_key b.property_key (omega arith),
        max_le a.projection b.projection (omega arith),
        max_le a.index b.index (omega arith),
      )
      refl

module _ (usize_max : ℕ) (is_utf8 : List ℕ → Bool) (crc : Crc32c) (base_generation : ℕ) {I : Type 0}
    (idx : IndexOps I) (base : BaseRecords) where
  pub recover_frames-snoc :
      (frames : List CommitFrame) (c : CommitFrame) (r : Recovery I)
      → recover_frames usize_max is_utf8 crc base_generation idx base (frames ++ c ∷ []) r ≡ (
          recover_frames usize_max is_utf8 crc base_generation idx base frames r
          >>= recover_frame usize_max is_utf8 crc base_generation idx base c)
  unfolding recover_frames
  recover_frames-snoc [] c r =
      elim (Result-cases (recover_frame usize_max is_utf8 crc base_generation idx base c r)) [
        | inl (after, e) ↦ rw (e, recover_frames) refl
        | inr (error, e) ↦ rw (e, recover_frames) refl
      ]
  recover_frames-snoc (d ∷ frames) c r =
      elim (Result-cases (recover_frame usize_max is_utf8 crc base_generation idx base d r)) [
        | inl (after, e) ↦ rw (e, recover_frames) (recover_frames-snoc frames c after)
        | inr (error, e) ↦ rw (e, recover_frames) refl
      ]
