-- ===== src/Db/Overlay/Sound/Frame.antt =====
-- crates/oxgraph-db/src/overlay/write.rs: the frame of a transaction replays to its writer.
use oxgraph.Prelude.{ℕ, ◌≤◌, ◌≡◌, refl, subst, Bool, true, List, [], ◌∷◌, length, ok, append-nil}
use oxgraph.Db.State.{NextIds}
use oxgraph.Db.Catalog.{definition_name}
use oxgraph.Db.Overlay.{BaseRecords, IndexOps, WriteOverlay}
use oxgraph.Db.Overlay.Log.{empty_log, payload_of}
use oxgraph.Db.Overlay.Write.{
  call_register_relation_type, call_register_projection, call_tombstone_incidence,
  call_add_relation_label, call_tombstone_element, call_add_element_label, call_create_element,
  call_create_relation, call_register_label, call_register_index, call_set_relation_type,
  call_set_property, call_remove_property, call_register_property_key, call_create_incidence,
  call_register_role, call_tombstone_relation, Call, run_call, run_calls, take_frame,
}
use oxgraph.Db.Overlay.Replay.{apply_replay_op, apply_ops}
use oxgraph.Db.Overlay.Sound.{Replays, Replays-start, apply_ops-append, replica}
use oxgraph.Db.Overlay.Sound.Topology.{
  Replays-create_element, Replays-create_relation, Replays-create_incidence,
  Replays-tombstone_element, Replays-tombstone_relation, Replays-tombstone_incidence,
  Replays-add_element_label, Replays-add_relation_label, Replays-set_relation_type,
}
use oxgraph.Db.Overlay.Sound.Properties.{IsValue, Replays-set_property, Replays-remove_property}
use oxgraph.Db.Overlay.Sound.Registers.{
  IsProjectionCall, IsIndexCall, Replays-register_role, Replays-register_label,
  Replays-register_relation_type, Replays-register_property_key, Replays-register_projection,
  Replays-register_index,
}

-- The arguments are values of their Rust types: texts are UTF-8, integers are `i64`, id sets are
-- ascending and ids in definitions are `u64`.
abbrev pub IsCall : (List ℕ → Bool) → Call → Type 0
IsCall is_utf8 (call_set_property subject key value) = IsValue is_utf8 value
IsCall is_utf8 (call_register_role name) = is_utf8 name ≡ true
IsCall is_utf8 (call_register_label name) = is_utf8 name ≡ true
IsCall is_utf8 (call_register_relation_type name) = is_utf8 name ≡ true
IsCall is_utf8 (call_register_property_key name family type) = is_utf8 name ≡ true
IsCall is_utf8 (call_register_projection definition) =
    (is_utf8 (definition_name definition) ≡ true) × IsProjectionCall definition
IsCall is_utf8 (call_register_index name definition) =
    (is_utf8 name ≡ true) × IsIndexCall definition
IsCall is_utf8 _ = Unit

abbrev pub AreCalls : (List ℕ → Bool) → List Call → Type 0
AreCalls is_utf8 [] = Unit
AreCalls is_utf8 (call ∷ calls) = IsCall is_utf8 call × AreCalls is_utf8 calls

module _ (usize_max : ℕ) (is_utf8 : List ℕ → Bool) {I : Type 0} (idx : IndexOps I)
    (base : BaseRecords) where
  pub Replays-run_call :
      (start w : WriteOverlay I) (call : Call)
      → IsCall is_utf8 call
      → Replays usize_max is_utf8 idx base start w
      → Replays usize_max is_utf8 idx base start (run_call idx base call w)
  Replays-run_call start w call_create_element valid h =
      Replays-create_element usize_max is_utf8 idx base start w h
  Replays-run_call start w call_create_relation valid h =
      Replays-create_relation usize_max is_utf8 idx base start w h
  Replays-run_call start w (call_create_incidence relation element role) valid h =
      Replays-create_incidence usize_max is_utf8 idx base start w h relation element role
  Replays-run_call start w (call_tombstone_element id) valid h =
      Replays-tombstone_element usize_max is_utf8 idx base start w h id
  Replays-run_call start w (call_tombstone_relation id) valid h =
      Replays-tombstone_relation usize_max is_utf8 idx base start w h id
  Replays-run_call start w (call_tombstone_incidence id) valid h =
      Replays-tombstone_incidence usize_max is_utf8 idx base start w h id
  Replays-run_call start w (call_add_element_label element label) valid h =
      Replays-add_element_label usize_max is_utf8 idx base start w h element label
  Replays-run_call start w (call_add_relation_label relation label) valid h =
      Replays-add_relation_label usize_max is_utf8 idx base start w h relation label
  Replays-run_call start w (call_set_relation_type relation relation_type) valid h =
      Replays-set_relation_type usize_max is_utf8 idx base start w h relation relation_type
  Replays-run_call start w (call_set_property subject key value) valid h =
      Replays-set_property usize_max is_utf8 idx base start w h subject key value valid
  Replays-run_call start w (call_remove_property subject key) valid h =
      Replays-remove_property usize_max is_utf8 idx base start w h subject key
  Replays-run_call start w (call_register_role name) valid h =
      Replays-register_role usize_max is_utf8 idx base start w h name valid
  Replays-run_call start w (call_register_label name) valid h =
      Replays-register_label usize_max is_utf8 idx base start w h name valid
  Replays-run_call start w (call_register_relation_type name) valid h =
      Replays-register_relation_type usize_max is_utf8 idx base start w h name valid
  Replays-run_call start w (call_register_property_key name family type) valid h =
      Replays-register_property_key usize_max is_utf8 idx base start w h name family type valid
  Replays-run_call start w (call_register_projection definition) (named, valid) h =
      Replays-register_projection usize_max is_utf8 idx base start w h definition named valid
  Replays-run_call start w (call_register_index name definition) (named, valid) h =
      Replays-register_index usize_max is_utf8 idx base start w h name definition named valid

  pub Replays-run_calls :
      (start w : WriteOverlay I) (calls : List Call)
      → AreCalls is_utf8 calls
      → Replays usize_max is_utf8 idx base start w
      → Replays usize_max is_utf8 idx base start (run_calls idx base calls w)
  Replays-run_calls start w [] valid h = h
  Replays-run_calls start w (call ∷ calls) (valid, more) h =
      Replays-run_calls start (run_call idx base call w) calls more
        (Replays-run_call start w call valid h)

  -- A writer whose log is empty runs calls with valid arguments, whatever they return. If the blob
  -- fits in memory, the ops that `take_frame` gives, the watermark last, replay without an error, on
  -- the start with whatever ids and under any LSN, and give the writer itself: its records, its
  -- properties, its catalog, its index and its ids.
  pub apply_ops-take_frame :
      (start : WriteOverlay I) (calls : List Call) (lsn : ℕ) (ids : NextIds)
      → start.log ≡ empty_log
      → AreCalls is_utf8 calls
      → length (run_calls idx base calls start).log.blob ≤ usize_max
      → let (ops, blob, left) = take_frame (run_calls idx base calls start) in
        apply_ops usize_max is_utf8 idx base ops blob lsn (record start { next = ids }) ≡ ok left
  unfolding Replays apply_ops apply_replay_op payload_of
  apply_ops-take_frame start calls lsn ids empty valid fits =
      let w = run_calls idx base calls start in
      let whole = append-nil w.log.blob in
      let replayed =
        Replays-run_calls start start calls valid
          (Replays-start usize_max is_utf8 idx base start empty) [] lsn ids (rw whole fits) in
      let same : replica start ids ≡ record start { next = ids } = rw empty refl in
      let here =
        subst
          (λ (b : List ℕ).
            apply_ops usize_max is_utf8 idx base w.log.ops b lsn (replica start ids)
            ≡ ok (replica w ids))
          whole replayed in
      rw
        (
          apply_ops-append usize_max is_utf8 idx base w.log.ops _ w.log.blob lsn
              (record start { next = ids }),
          ← same,
          here,
        )
        refl
