-- ===== src/Db/Index/Scan.antt =====
-- crates/oxgraph-db/src/overlay/write.rs with index.rs: the equality lookups after any calls.
use oxgraph.Prelude.{
  ℕ, ◌≡◌, refl, ◌∙◌, true, false, Option, none, some, List, [], ◌∷◌, arith, if◌then◌else◌,
}
use oxgraph.Db.Errors.{
  element_id, relation_id, incidence_id, role_id, label_id, relation_type_id, property_key_id,
  projection_id, index_id,
}
use oxgraph.Db.Wire.Tags.{op_set_property, pack_flags, encode_subject, property_type_tag}
use oxgraph.Db.State.{
  PropertySubject, element_subject, relation_subject, incidence_subject, PropertyValue, subject_ord,
  NextIds, checked_next, ElementRecord, RelationRecord, value_type,
}
use oxgraph.Db.Catalog.{
  Catalog, insert_role, insert_label, insert_relation_type, insert_property_key, insert_projection,
  insert_index,
}
use oxgraph.Db.Map.{Map, get, nat_ord}
use oxgraph.Db.Map.Sorted.{IsSorted}
use oxgraph.Db.Index.Order.{EqualityKey, equality_ord}
use oxgraph.Db.Index.{
  OverlayIndex, overlay_index, property_equal, set_contains, withdraw_labels, remove_relation_type,
  withdraw_incidence, new_index,
}
use oxgraph.Db.Index.Postings.{posted, set_contains-merge_posting}
use oxgraph.Db.Index.InStep.{InStep, on_set_property-InStep, on_remove_property-InStep}
use oxgraph.Db.Overlay.{BaseRecords, WriteOverlay, new_overlay}
use oxgraph.Db.Overlay.Inner.{
  or_default, visible_property_in, base_property, edit_entry, visible_relation_type,
  visible_element_labels, with_type, add_label, set_property_inner,
}
use oxgraph.Db.Overlay.Write.{
  log_value, value_is, logged, tombstone_relation, add_element_label, set_relation_type,
  visible_property_is, set_property, run_call, run_calls, call_add_element_label,
  call_add_relation_label, call_create_element, call_create_incidence, call_create_relation,
  call_register_index, call_register_label, call_register_projection, call_register_property_key,
  call_register_relation_type, call_register_role, call_remove_property, call_set_property,
  call_set_relation_type, call_tombstone_element, call_tombstone_incidence, call_tombstone_relation,
  Call,
}
use oxgraph.Db.Index.Lockstep.{AreSorted}
use oxgraph.Db.Index.Calls.{
  IsIndexed, IsIndexed-same, IsIndexed-or_overflow, IsIndexed-registered, IsIndexed-tombstone,
  IsIndexed-put, withdraw_labels-SameEquality, on_set_relation_type-SameEquality, Shown, AreShown,
}

module _ (postings : Map EqualityKey (List PropertySubject)) (base : BaseRecords)
    (base_sorted : (s : PropertySubject) → IsSorted (or_default (get s base.properties))) where
  set_value-IsIndexed :
      (subject : PropertySubject) (key : ℕ) (value : PropertyValue) (w : WriteOverlay OverlayIndex)
      → IsIndexed postings base base_sorted w
      → IsIndexed postings base base_sorted (set_property overlay_index base subject key value w)
  unfolding set_property
  set_value-IsIndexed subject key value w h =
      elim (visible_property_is overlay_index base w subject key value)
        as (λ same. IsIndexed postings base base_sorted (
          if same
          then w
          else set_property_inner overlay_index base subject key value (
              logged op_set_property
                (pack_flags (encode_subject subject).0 (property_type_tag (value_type value)))
                ((encode_subject subject).1
                  ∷ key
                  ∷ (log_value value w.log).1
                  ∷ (log_value value w.log).2
                  ∷ (log_value value w.log).3
                  ∷ [])
                (record w { log = (log_value value w.log).0 })))) [
                  | true ↦ h
                  | false ↦
                      IsIndexed-put postings base base_sorted w _ subject key (some value) h refl (
                        on_set_property-InStep postings w.index
                          (visible_property_in w.properties base) h.in_step subject key value)
                ]

  set_relation_type-IsIndexed :
      (relation relation_type : ℕ) (w : WriteOverlay OverlayIndex)
      (relations : Option (Map ℕ (Option RelationRecord)))
      → edit_entry (with_type relation_type) relation base.relations w.relations ≡ relations
      → IsIndexed postings base base_sorted w
      → IsIndexed postings base base_sorted
          (set_relation_type overlay_index base relation relation_type w)
  set_relation_type-IsIndexed relation relation_type w none e h =
      IsIndexed-same postings base base_sorted w _ h refl (rw e (refl, refl))
  set_relation_type-IsIndexed relation relation_type w (some new) e h =
      IsIndexed-same postings base base_sorted w _ h refl (
        rw e (
          on_set_relation_type-SameEquality relation (visible_relation_type base w relation)
            relation_type w.index))

  add_element_label-IsIndexed :
      (element label : ℕ) (w : WriteOverlay OverlayIndex)
      (elements : Option (Map ℕ (Option ElementRecord)))
      → edit_entry (add_label label) element base.elements w.elements ≡ elements
      → IsIndexed postings base base_sorted w
      → IsIndexed postings base base_sorted (add_element_label overlay_index base element label w)
  add_element_label-IsIndexed element label w none e h =
      IsIndexed-same postings base base_sorted w _ h refl (rw e (refl, refl))
  add_element_label-IsIndexed element label w (some new) e h =
      IsIndexed-same postings base base_sorted w _ h refl (rw e (refl, refl))

  tombstone_relation-IsIndexed :
      (id : ℕ) (type : Option ℕ) (w : WriteOverlay OverlayIndex)
      → visible_relation_type base w id ≡ type
      → IsIndexed postings base base_sorted w
      → IsIndexed postings base base_sorted (tombstone_relation overlay_index base id w)
  tombstone_relation-IsIndexed id none w e h =
      IsIndexed-tombstone postings base base_sorted w _ (relation_subject id) w.index h (refl, refl)
        refl (rw e refl)
  tombstone_relation-IsIndexed id (some type) w e h =
      IsIndexed-tombstone postings base base_sorted w _ (relation_subject id)
        (remove_relation_type id type w.index) h (refl, refl) refl (rw e refl)

  -- Each call on records that show keeps the index in step.
  pub IsIndexed-run_call :
      (w : WriteOverlay OverlayIndex) (call : Call)
      → Shown base w call
      → IsIndexed postings base base_sorted w
      → IsIndexed postings base base_sorted (run_call overlay_index base call w)
  IsIndexed-run_call w (call_set_property subject key value) shown h =
      set_value-IsIndexed subject key value w h
  IsIndexed-run_call w (call_remove_property subject key) shown h =
      IsIndexed-put postings base base_sorted w _ subject key none h refl (
        on_remove_property-InStep postings w.index (visible_property_in w.properties base) h.in_step
          subject key)
  IsIndexed-run_call w (call_tombstone_element id) shown h =
      IsIndexed-tombstone postings base base_sorted w _ (element_subject id)
        (withdraw_labels id (visible_element_labels base w id) w.index) h
        (withdraw_labels-SameEquality id (visible_element_labels base w id) w.index) refl refl
  IsIndexed-run_call w (call_tombstone_relation id) shown h =
      tombstone_relation-IsIndexed id (visible_relation_type base w id) w refl h
  IsIndexed-run_call w (call_tombstone_incidence id) (found, e) h =
      IsIndexed-tombstone postings base base_sorted w _ (incidence_subject id)
        (withdraw_incidence id found.relation found.element w.index) h (refl, refl) refl (rw e refl)
  IsIndexed-run_call w (call_set_relation_type relation relation_type) shown h =
      set_relation_type-IsIndexed relation relation_type w
        (edit_entry (with_type relation_type) relation base.relations w.relations) refl h
  IsIndexed-run_call w (call_add_element_label element label) shown h =
      add_element_label-IsIndexed element label w
        (edit_entry (add_label label) element base.elements w.elements) refl h
  IsIndexed-run_call w (call_add_relation_label relation label) shown h =
      IsIndexed-same postings base base_sorted w _ h refl (refl, refl)
  IsIndexed-run_call w call_create_element shown h =
      IsIndexed-or_overflow postings base base_sorted w (checked_next w.next.element) element_id _ h
        (λ n. IsIndexed-same postings base base_sorted w _ h refl (refl, refl))
  IsIndexed-run_call w call_create_relation shown h =
      IsIndexed-or_overflow postings base base_sorted w (checked_next w.next.relation) relation_id _
        h (λ n. IsIndexed-same postings base base_sorted w _ h refl (refl, refl))
  IsIndexed-run_call w (call_create_incidence relation element role) shown h =
      IsIndexed-or_overflow postings base base_sorted w (checked_next w.next.incidence) incidence_id
        _ h (λ n. IsIndexed-same postings base base_sorted w _ h refl (refl, refl))
  IsIndexed-run_call w (call_register_role name) shown h =
      IsIndexed-or_overflow postings base base_sorted w (checked_next w.next.role) role_id _ h (λ n.
        IsIndexed-registered postings base base_sorted (insert_role w.next.role name w.catalog) w _
          _ _ _ _ h refl refl)
  IsIndexed-run_call w (call_register_label name) shown h =
      IsIndexed-or_overflow postings base base_sorted w (checked_next w.next.label) label_id _ h
        (λ n.
          IsIndexed-registered postings base base_sorted (insert_label w.next.label name w.catalog)
            w _ _ _ _ _ h refl refl)
  IsIndexed-run_call w (call_register_relation_type name) shown h =
      IsIndexed-or_overflow postings base base_sorted w (checked_next w.next.relation_type)
        relation_type_id _ h
        (λ n.
          IsIndexed-registered postings base base_sorted
            (insert_relation_type w.next.relation_type name w.catalog) w _ _ _ _ _ h refl refl)
  IsIndexed-run_call w (call_register_property_key name family type) shown h =
      IsIndexed-or_overflow postings base base_sorted w (checked_next w.next.property_key)
        property_key_id _ h
        (λ n.
          IsIndexed-registered postings base base_sorted
            (insert_property_key
              (record { id = w.next.property_key; name = name; family = family; value_type = type })
              w.catalog)
            w _ _ _ _ _ h refl refl)
  IsIndexed-run_call w (call_register_projection definition) shown h =
      IsIndexed-or_overflow postings base base_sorted w (checked_next w.next.projection)
        projection_id _ h
        (λ n.
          IsIndexed-registered postings base base_sorted
            (insert_projection w.next.projection definition w.catalog) w _ _ _ _ _ h refl refl)
  IsIndexed-run_call w (call_register_index name definition) shown h =
      IsIndexed-or_overflow postings base base_sorted w (checked_next w.next.index) index_id _ h
        (λ n.
          IsIndexed-registered postings base base_sorted
            (insert_index w.next.index name definition w.catalog) w _ _ _ _ _ h refl refl)

  pub IsIndexed-run_calls :
      (w : WriteOverlay OverlayIndex) (calls : List Call)
      → AreShown base w calls
      → IsIndexed postings base base_sorted w
      → IsIndexed postings base base_sorted (run_calls overlay_index base calls w)
  IsIndexed-run_calls w [] shown h = h
  IsIndexed-run_calls w (call ∷ calls) (shown, more) h =
      IsIndexed-run_calls (run_call overlay_index base call w) calls more
        (IsIndexed-run_call w call shown h)

  fresh-InStep :
      ((subject : PropertySubject) (key : ℕ) (value : PropertyValue)
        → posted postings (key, value) subject ≡ value_is (base_property base subject key) value)
      → InStep postings new_index (visible_property_in [] base)
  unfolding InStep get set_contains
  fresh-InStep exact s k v = ground (arith, exact s k v)

  fresh-AreSorted : AreSorted []
  unfolding get
  fresh-AreSorted s = tt

  -- A base's properties are maps with each key once, and its equality postings hold a subject under a
  -- key and a value exactly where the base has this value. A writer starts on this base and runs any
  -- calls, which tombstone an incidence only while it shows. Then the equality lookup of any key and
  -- value gives the subjects for which a scan of what the writer shows finds this value, and no others.
  pub property_equal-run_calls :
      ((subject : PropertySubject) (key : ℕ) (value : PropertyValue)
        → posted postings (key, value) subject ≡ value_is (base_property base subject key) value)
      → (next : NextIds) (names : Catalog) (calls : List Call)
      → AreShown base (new_overlay overlay_index next names) calls
      → (subject : PropertySubject) (key : ℕ) (value : PropertyValue)
      → let w = run_calls overlay_index base calls (new_overlay overlay_index next names) in
        set_contains subject (property_equal postings key value w.index)
        ≡ value_is (visible_property_in w.properties base subject key) value
  unfolding InStep
  property_equal-run_calls exact next names calls shown subject key value =
      let start = new_overlay overlay_index next names in
      let w = run_calls overlay_index base calls start in
      let fresh : IsIndexed postings base base_sorted start = record {
        in_step = fresh-InStep exact;
        sorted = fresh-AreSorted;
      } in
      set_contains-merge_posting subject (get (key, value) postings)
        (get (key, value) w.index.equality_added) (get (key, value) w.index.equality_removed)
      ∙ (IsIndexed-run_calls start calls shown fresh).in_step subject key value
