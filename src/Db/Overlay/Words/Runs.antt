-- ===== src/Db/Overlay/Words/Runs.antt =====
-- crates/oxgraph-db/src/overlay/write.rs: the frame of a transaction has ops of words.
use oxgraph.Prelude.{ℕ, ◌^◌, ◌<◌, ◌≡◌, Bool, List, [], ◌∷◌, length, arith}
use oxgraph.Snapshot.Words.{AllBelow}
use oxgraph.Db.Wal.Encode.{AreOps}
use oxgraph.Db.Overlay.{BaseRecords, IndexOps, WriteOverlay}
use oxgraph.Db.Overlay.Log.{empty_log}
use oxgraph.Db.Overlay.Write.{
  call_add_element_label, call_add_relation_label, call_create_element, call_create_incidence,
  call_create_relation, call_register_index, call_register_label, call_register_projection,
  call_register_property_key, call_register_relation_type, call_register_role, call_remove_property,
  call_set_property, call_set_relation_type, call_tombstone_element, call_tombstone_incidence,
  call_tombstone_relation, Call, run_call, run_calls, take_frame,
}
use oxgraph.Db.Overlay.Words.{Worded, ids_list, AllLe, AllLe-refl, AreOps-append, op_with-IsOp}
use oxgraph.Db.Overlay.Words.Calls.{
  subject_id, Worded-create_element, Worded-create_relation, Worded-create_incidence,
  Worded-tombstone_element, Worded-tombstone_relation, Worded-tombstone_incidence,
  Worded-add_element_label, Worded-add_relation_label, Worded-set_relation_type,
  Worded-remove_property, Worded-set_property, Worded-register_role, Worded-register_label,
  Worded-register_relation_type, Worded-register_property_key, Worded-register_projection,
  Worded-register_index,
}
use oxgraph.Db.Overlay.Sound.Frame.{IsCall, AreCalls}

-- The ids that a call is given are `u64`.
abbrev pub IsWordCall : Call → Type 0
IsWordCall (call_create_incidence relation element role) =
    (relation < 2 ^ 64) × (element < 2 ^ 64) × (role < 2 ^ 64)
IsWordCall (call_tombstone_element id) = id < 2 ^ 64
IsWordCall (call_tombstone_relation id) = id < 2 ^ 64
IsWordCall (call_tombstone_incidence id) = id < 2 ^ 64
IsWordCall (call_add_element_label element label) = (element < 2 ^ 64) × (label < 2 ^ 64)
IsWordCall (call_add_relation_label relation label) = (relation < 2 ^ 64) × (label < 2 ^ 64)
IsWordCall (call_set_relation_type relation relation_type) =
    (relation < 2 ^ 64) × (relation_type < 2 ^ 64)
IsWordCall (call_set_property subject key value) = (subject_id subject < 2 ^ 64) × (key < 2 ^ 64)
IsWordCall (call_remove_property subject key) = (subject_id subject < 2 ^ 64) × (key < 2 ^ 64)
IsWordCall _ = Unit

abbrev pub AreWordCalls : List Call → Type 0
AreWordCalls [] = Unit
AreWordCalls (call ∷ calls) = IsWordCall call × AreWordCalls calls

module _ (is_utf8 : List ℕ → Bool) {I : Type 0} (idx : IndexOps I) (base : BaseRecords)
    (start : WriteOverlay I) where
  Worded-run_call :
      (w : WriteOverlay I) (call : Call)
      → IsCall is_utf8 call
      → IsWordCall call
      → Worded start w
      → Worded start (run_call idx base call w)
  Worded-run_call w call_create_element valid words h = Worded-create_element idx base start w h
  Worded-run_call w call_create_relation valid words h = Worded-create_relation idx base start w h
  Worded-run_call w (call_create_incidence relation element role) valid (a, b, c) h =
      Worded-create_incidence idx base start w h relation element role a b c
  Worded-run_call w (call_tombstone_element id) valid a h =
      Worded-tombstone_element idx base start w h id a
  Worded-run_call w (call_tombstone_relation id) valid a h =
      Worded-tombstone_relation idx base start w h id a
  Worded-run_call w (call_tombstone_incidence id) valid a h =
      Worded-tombstone_incidence idx base start w h id a
  Worded-run_call w (call_add_element_label element label) valid (a, b) h =
      Worded-add_element_label idx base start w h element label a b
  Worded-run_call w (call_add_relation_label relation label) valid (a, b) h =
      Worded-add_relation_label idx base start w h relation label a b
  Worded-run_call w (call_set_relation_type relation relation_type) valid (a, b) h =
      Worded-set_relation_type idx base start w h relation relation_type a b
  Worded-run_call w (call_set_property subject key value) valid (a, b) h =
      Worded-set_property idx base start w h is_utf8 subject key value valid a b
  Worded-run_call w (call_remove_property subject key) valid (a, b) h =
      Worded-remove_property idx base start w h subject key a b
  Worded-run_call w (call_register_role name) valid words h =
      Worded-register_role idx base start w h name
  Worded-run_call w (call_register_label name) valid words h =
      Worded-register_label idx base start w h name
  Worded-run_call w (call_register_relation_type name) valid words h =
      Worded-register_relation_type idx base start w h name
  Worded-run_call w (call_register_property_key name family type) valid words h =
      Worded-register_property_key idx base start w h name family type
  Worded-run_call w (call_register_projection definition) (named, (valid, below)) words h =
      Worded-register_projection idx base start w h definition below
  Worded-run_call w (call_register_index name definition) (named, below) words h =
      Worded-register_index idx base start w h name definition below

  pub Worded-run_calls :
      (w : WriteOverlay I) (calls : List Call)
      → AreCalls is_utf8 calls
      → AreWordCalls calls
      → Worded start w
      → Worded start (run_calls idx base calls w)
  Worded-run_calls w [] valid words h = h
  Worded-run_calls w (call ∷ calls) (valid, more) (word, words) h =
      Worded-run_calls (run_call idx base call w) calls more words
        (Worded-run_call w call valid word h)

  pub Worded-start :
      AllBelow (2 ^ 64) (ids_list start.next) → start.log ≡ empty_log → Worded start start
  unfolding Worded
  Worded-start below empty = (below, AllLe-refl (ids_list start.next), λ small. rw empty tt)

  -- A writer whose log is empty and whose ids are `u64` runs calls on `u64` ids with valid arguments,
  -- whatever they return. No id of an allocator goes back, and if the blob is less than `2 ^ 64` bytes,
  -- every op of the frame, the watermark included, is a value of its Rust type.
  pub take_frame-AreOps :
      (calls : List Call)
      → AllBelow (2 ^ 64) (ids_list start.next)
      → start.log ≡ empty_log
      → AreCalls is_utf8 calls
      → AreWordCalls calls
      → length (run_calls idx base calls start).log.blob < 2 ^ 64
      → let w = run_calls idx base calls start in
        AllLe (ids_list start.next) (ids_list w.next)
        × AllBelow (2 ^ 64) (ids_list w.next)
        × AreOps (take_frame w).0
  unfolding Worded
  take_frame-AreOps calls below empty valid words small =
      let w = run_calls idx base calls start in
      let (below2, le, ops) = Worded-run_calls start calls valid words (Worded-start below empty) in
      (
        le,
        below2,
        AreOps-append w.log.ops _ (ops small)
            (op_with-IsOp _ _ _ (omega arith) (omega arith) below2),
      )
