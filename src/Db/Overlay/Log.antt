-- ===== src/Db/Overlay/Log.antt =====
-- crates/oxgraph-db/src/overlay/log.rs: the writer's mutation log, and the reads of a frame's blob.
-- `is_utf8` is `core::str::from_utf8(..).is_ok()`. Lengths fit `u64`.
use Prim.Native.String.{String}
use mathlib.Core.List.{flat_map}
use oxgraph.Prelude.{
  ℕ, ◌*◌, ◌/◌, ◌%◌, Bool, true, false, Option, none, some, List, [], ◌∷◌, ◌++◌, length, take, leb,
  ◌==◌, if◌then◌else◌, Result, ok, ◌>>=◌, ◌>>◌, guard, ok_or, le_bytes, slice, replicate,
}
use oxgraph.Layout.Width.{checked_add}
use oxgraph.Snapshot.Sections.{words_of}
use oxgraph.Db.Errors.{log_corrupt, DbError, storage}
use oxgraph.Db.State.{NextIds}
use oxgraph.Db.Wire.{MutationOp, mutation_op_payload_words}
use oxgraph.Db.Wire.Tags.{op_next_id_watermark}

pub record MutationLog : Type 0 where
  pub ops : List MutationOp
  pub blob : List ℕ

abbrev pub empty_log : MutationLog
empty_log = record { ops = []; blob = [] }

abbrev pub is_empty : MutationLog → Bool
is_empty log = elim log.ops [ [] ↦ true | op ∷ ops ↦ false ]

-- The log with the value in its blob, and where it stands there.
abbrev pub intern : List ℕ → MutationLog → MutationLog × ℕ × ℕ
intern value log = (record log { blob = log.blob ++ value }, length log.blob, length value)

abbrev pub intern_words : List ℕ → MutationLog → MutationLog × ℕ × ℕ
intern_words words log = (
  record log { blob = log.blob ++ flat_map (le_bytes 8) words },
  length log.blob,
  length words * 8,
)

-- The words, then zeros.
unfoldable pub payload_of : List ℕ → List ℕ
payload_of words = take mutation_op_payload_words (words ++ replicate mutation_op_payload_words 0)

abbrev pub op_with : (op_kind flags : ℕ) → List ℕ → MutationOp
op_with op_kind flags words = record {
  op_kind = op_kind;
  flags = flags;
  payload = payload_of words;
}

abbrev pub push : (op_kind flags : ℕ) → List ℕ → MutationLog → MutationLog
push op_kind flags words log = record log { ops = log.ops ++ op_with op_kind flags words ∷ [] }

abbrev pub push_watermark : NextIds → MutationLog → MutationLog
push_watermark next log =
    push op_next_id_watermark 0
      (next.element ∷ next.relation ∷ next.incidence ∷ next.role ∷ next.label ∷ next.relation_type
        ∷ next.property_key ∷ next.projection ∷ next.index ∷ [])
      log

abbrev pub corrupt : (lsn : ℕ) → String → DbError
corrupt lsn reason = storage (log_corrupt lsn reason)

-- `blob.get(start..end)`, for a start that is at most the end.
abbrev pub get_slice : List ℕ → (start end : ℕ) → (len : ℕ) → Option (List ℕ)
get_slice blob start end len = if leb end (length blob) then some (slice blob start len) else none

module _ (usize_max : ℕ) where
  unfoldable pub blob_str :
      (List ℕ → Bool) → List ℕ → (offset len lsn : ℕ) → Result DbError (List ℕ)
  blob_str is_utf8 blob offset len lsn = do
    guard (leb offset usize_max) (corrupt lsn "blob offset overflow")
    guard (leb len usize_max) (corrupt lsn "blob length overflow")
    end ← ok_or (checked_add usize_max offset len) (corrupt lsn "blob slice overflow")
    bytes ← ok_or (get_slice blob offset end len) (corrupt lsn "blob slice out of bounds")
    guard (is_utf8 bytes) (corrupt lsn "blob slice is not UTF-8")
    ok bytes

  unfoldable pub decode_def_words : List ℕ → (offset len lsn : ℕ) → Result DbError (List ℕ)
  decode_def_words blob offset len lsn = do
    guard (leb offset usize_max) (corrupt lsn "def offset overflow")
    guard (leb len usize_max) (corrupt lsn "def length overflow")
    end ← ok_or (checked_add usize_max offset len) (corrupt lsn "def slice overflow")
    bytes ← ok_or (get_slice blob offset end len) (corrupt lsn "def slice out of bounds")
    guard (length bytes % 8 == 0) (corrupt lsn "def slice is not whole u64 words")
    ok (words_of 8 (length bytes / 8) bytes)
