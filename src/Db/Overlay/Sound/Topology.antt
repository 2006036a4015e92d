-- ===== src/Db/Overlay/Sound/Topology.antt =====
-- crates/oxgraph-db/src/overlay/write.rs: the ops of the records, the labels and the types replay.
use oxgraph.Prelude.{ℕ, ◌≡◌, refl, sym, Bool, List, [], ◌∷◌, ◌++◌, ◌∙◌, append-nil}
use oxgraph.Db.State.{checked_next}
use oxgraph.Db.Wire.{MutationOp}
use oxgraph.Db.Errors.{element_id, relation_id, incidence_id}
use oxgraph.Db.Overlay.{BaseRecords, IndexOps, WriteOverlay}
use oxgraph.Db.Overlay.Log.{payload_of}
use oxgraph.Db.Overlay.Write.{
  create_element, create_relation, create_incidence, tombstone_element, tombstone_relation,
  tombstone_incidence, add_element_label, add_relation_label, set_relation_type,
}
use oxgraph.Db.Overlay.Replay.{apply_replay_op, apply_topology_op}
use oxgraph.Db.Overlay.Sound.{Replays, Replays-op, Replays-or_overflow, ReplaysCall}

module _ (usize_max : ℕ) (is_utf8 : List ℕ → Bool) {I : Type 0} (idx : IndexOps I)
    (base : BaseRecords) (start w : WriteOverlay I)
    (so_far : Replays usize_max is_utf8 idx base start w) where
  -- An op that leaves the blob as it is.
  pub Replays-logged :
      (after : WriteOverlay I) (op : MutationOp)
      → after.log.blob ≡ w.log.blob
      → after.log.ops ≡ w.log.ops ++ op ∷ []
      → ReplaysCall usize_max is_utf8 idx base w after [] op
      → Replays usize_max is_utf8 idx base start after
  Replays-logged after op blob_eq ops_eq step =
      Replays-op usize_max is_utf8 idx base start w after [] op so_far
        (blob_eq ∙ sym (append-nil w.log.blob)) ops_eq step

  pub Replays-create_element : Replays usize_max is_utf8 idx base start (create_element w).0
  unfolding apply_replay_op apply_topology_op payload_of
  Replays-create_element =
      Replays-or_overflow usize_max is_utf8 idx base start w (checked_next w.next.element)
        element_id _ so_far (λ next. Replays-logged _ _ refl refl (λ rest lsn ids fits. refl))

  pub Replays-create_relation : Replays usize_max is_utf8 idx base start (create_relation w).0
  unfolding apply_replay_op apply_topology_op payload_of
  Replays-create_relation =
      Replays-or_overflow usize_max is_utf8 idx base start w (checked_next w.next.relation)
        relation_id _ so_far (λ next. Replays-logged _ _ refl refl (λ rest lsn ids fits. refl))

  pub Replays-create_incidence :
      (relation element role : ℕ)
      → Replays usize_max is_utf8 idx base start
          (create_incidence idx base relation element role w).0
  unfolding apply_replay_op apply_topology_op payload_of
  Replays-create_incidence relation element role =
      Replays-or_overflow usize_max is_utf8 idx base start w (checked_next w.next.incidence)
        incidence_id _ so_far (λ next. Replays-logged _ _ refl refl (λ rest lsn ids fits. refl))

  pub Replays-tombstone_element :
      (id : ℕ) → Replays usize_max is_utf8 idx base start (tombstone_element idx base id w)
  unfolding apply_replay_op apply_topology_op payload_of
  Replays-tombstone_element id = Replays-logged _ _ refl refl (λ rest lsn ids fits. refl)

  pub Replays-tombstone_relation :
      (id : ℕ) → Replays usize_max is_utf8 idx base start (tombstone_relation idx base id w)
  unfolding apply_replay_op apply_topology_op payload_of
  Replays-tombstone_relation id = Replays-logged _ _ refl refl (λ rest lsn ids fits. refl)

  pub Replays-tombstone_incidence :
      (id : ℕ) → Replays usize_max is_utf8 idx base start (tombstone_incidence idx base id w)
  unfolding apply_replay_op apply_topology_op payload_of
  Replays-tombstone_incidence id = Replays-logged _ _ refl refl (λ rest lsn ids fits. refl)

  pub Replays-add_element_label :
      (element label : ℕ)
      → Replays usize_max is_utf8 idx base start (add_element_label idx base element label w)
  unfolding apply_replay_op apply_topology_op payload_of
  Replays-add_element_label element label = Replays-logged _ _ refl refl (λ rest lsn ids fits. refl)

  pub Replays-add_relation_label :
      (relation label : ℕ)
      → Replays usize_max is_utf8 idx base start (add_relation_label idx base relation label w)
  unfolding apply_replay_op apply_topology_op payload_of
  Replays-add_relation_label relation label =
      Replays-logged _ _ refl refl (λ rest lsn ids fits. refl)

  pub Replays-set_relation_type :
      (relation relation_type : ℕ)
      → Replays usize_max is_utf8 idx base start
          (set_relation_type idx base relation relation_type w)
  unfolding apply_replay_op apply_topology_op payload_of
  Replays-set_relation_type relation relation_type =
      Replays-logged _ _ refl refl (λ rest lsn ids fits. refl)
