-- ===== src/Db/Overlay/View/Calls.antt =====
-- crates/oxgraph-db/src/overlay/write.rs: each call does to the view of a writer what it is to do.
use oxgraph.Prelude.{
  ℕ, ◌≡◌, refl, ap, ◌∙◌, Bool, true, false, Option, none, some, List, [], arith, Result, ok, err,
}
use oxgraph.Db.Errors.{
  CatalogError, DbError, IdFamily, role_id, label_id, relation_type_id, property_key_id,
  projection_id, index_id,
}
use oxgraph.Db.State.{
  PropertySubject, element_subject, relation_subject, incidence_subject, PropertyValue,
  checked_next, subject_ord,
}
use oxgraph.Db.Catalog.{
  Catalog, insert_role, insert_label, insert_relation_type, insert_property_key, insert_projection,
  insert_index,
}
use oxgraph.Db.Map.{get, nat_ord}
use oxgraph.Db.Overlay.{BaseRecords, IndexOps, WriteOverlay}
use oxgraph.Db.Overlay.Inner.{visible_property_in, add_label, add_relation_label_to, with_type}
use oxgraph.Db.Overlay.Write.{
  value_is, or_overflow, create_element, create_relation, registered, create_incidence,
  set_property, run_call, call_add_element_label, call_add_relation_label, call_create_element,
  call_create_incidence, call_create_relation, call_register_index, call_register_label,
  call_register_projection, call_register_property_key, call_register_relation_type,
  call_register_role, call_remove_property, call_set_property, call_set_relation_type,
  call_tombstone_element, call_tombstone_incidence, call_tombstone_relation, Call,
}
use oxgraph.Db.Overlay.View.{view_of, spec_call}
use oxgraph.Db.Overlay.View.Maps.{
  visible_in-insert, visible_in-edit_entry, visible_property_in-put_property,
  visible_property_in-tombstone, eq_of_==value, assigned_same,
}

module _ {I : Type 0} (idx : IndexOps I) (base : BaseRecords) where
  registered-view :
      (inserted : Result CatalogError Catalog) (w : WriteOverlay I) (id op_kind flags : ℕ)
      (words : List ℕ)
      → view_of base (registered inserted w id op_kind flags words).0 ≡ view_of base w
  registered-view (err error) w id op_kind flags words = refl
  registered-view (ok after) w id op_kind flags words = refl

  or_overflow-view :
      (next : Option ℕ) (family : IdFamily) (w : WriteOverlay I)
      (go : ℕ → WriteOverlay I × Result DbError ℕ)
      → ((n : ℕ) → view_of base (go n).0 ≡ view_of base w)
      → view_of base (or_overflow next family w go).0 ≡ view_of base w
  or_overflow-view none family w go same = refl
  or_overflow-view (some n) family w go same = same n

  -- A call that finds the allocator exhausted changes nothing; another one adds the record.
  create_element-view :
      (w : WriteOverlay I) (next : Option ℕ)
      → checked_next w.next.element ≡ next
      → view_of base (create_element w).0 ≡ spec_call w.next call_create_element (view_of base w)
  create_element-view w none e = rw e refl
  create_element-view w (some n) e = rw e (λ i. record (view_of base w) {
    element_at = λ q.
        visible_in-insert w.next.element q (some (record { id = w.next.element; labels = [] }))
          w.elements (λ q. get q base.elements) i;
  })

  create_relation-view :
      (w : WriteOverlay I) (next : Option ℕ)
      → checked_next w.next.relation ≡ next
      → view_of base (create_relation w).0 ≡ spec_call w.next call_create_relation (view_of base w)
  create_relation-view w none e = rw e refl
  create_relation-view w (some n) e = rw e (λ i. record (view_of base w) {
    relation_at = λ q.
        visible_in-insert w.next.relation q
          (some (record { id = w.next.relation; relation_type = none; labels = [] })) w.relations
          (λ q. get q base.relations) i;
  })

  create_incidence-view :
      (relation element role : ℕ) (w : WriteOverlay I) (next : Option ℕ)
      → checked_next w.next.incidence ≡ next
      → view_of base (create_incidence idx base relation element role w).0
        ≡ spec_call w.next (call_create_incidence relation element role) (view_of base w)
  create_incidence-view relation element role w none e = rw e refl
  create_incidence-view relation element role w (some n) e = rw e (λ i. record (view_of base w) {
    incidence_at = λ q.
        visible_in-insert w.next.incidence q
          (some
            (record { id = w.next.incidence; relation = relation; element = element; role = role }))
          w.incidences (λ q. get q base.incidences) i;
  })

  set_value-view :
      (subject : PropertySubject) (key : ℕ) (value : PropertyValue) (w : WriteOverlay I)
      (current : Option PropertyValue) (same : Bool)
      → visible_property_in w.properties base subject key ≡ current
      → value_is current value ≡ same
      → view_of base (set_property idx base subject key value w)
        ≡ spec_call w.next (call_set_property subject key value) (view_of base w)
  unfolding set_property
  set_value-view subject key value w (some current) true e k =
      rw (e, k)
        (λ i. record (view_of base w) {
          property_at = λ other other_key.
              assigned_same base subject w.properties key (some value)
                (visible_property_in w.properties base) other other_key
                (e ∙ ap some (eq_of_==value current value k)) i;
        })
  set_value-view subject key value w none true e k = ground (arith, k)
  set_value-view subject key value w current false e k =
      rw (e, k)
        (λ i. record (view_of base w) {
          property_at = λ other other_key.
              visible_property_in-put_property base subject w.properties key (some value) other
                other_key i;
        })

  -- The writer after a call shows, for every id and for every subject and key, what it showed before
  -- it, but for the change that the call stands for: the record of a creation is new where the
  -- allocator had an id, a tombstone hides the record and every property of its subject, whether they
  -- stand in the base or in the delta, a label or a type goes to a record that shows, a set or a
  -- removed property reads so, and a registration shows nowhere.
  pub view_of-run_call :
      (call : Call) (w : WriteOverlay I)
      → view_of base (run_call idx base call w) ≡ spec_call w.next call (view_of base w)
  view_of-run_call call_create_element w = create_element-view w (checked_next w.next.element) refl
  view_of-run_call call_create_relation w =
      create_relation-view w (checked_next w.next.relation) refl
  view_of-run_call (call_create_incidence relation element role) w =
      create_incidence-view relation element role w (checked_next w.next.incidence) refl
  view_of-run_call (call_tombstone_element id) w = λ i. record (view_of base w) {
    element_at = λ q. visible_in-insert id q none w.elements (λ q. get q base.elements) i;
    property_at = λ other key.
        visible_property_in-tombstone base (element_subject id) w.properties other key i;
  }
  view_of-run_call (call_tombstone_relation id) w = λ i. record (view_of base w) {
    relation_at = λ q. visible_in-insert id q none w.relations (λ q. get q base.relations) i;
    property_at = λ other key.
        visible_property_in-tombstone base (relation_subject id) w.properties other key i;
  }
  view_of-run_call (call_tombstone_incidence id) w = λ i. record (view_of base w) {
    incidence_at = λ q. visible_in-insert id q none w.incidences (λ q. get q base.incidences) i;
    property_at = λ other key.
        visible_property_in-tombstone base (incidence_subject id) w.properties other key i;
  }
  view_of-run_call (call_add_element_label element label) w = λ i. record (view_of base w) {
    element_at = λ q. visible_in-edit_entry (add_label label) element q base.elements w.elements i;
  }
  view_of-run_call (call_add_relation_label relation label) w = λ i. record (view_of base w) {
    relation_at = λ q.
        visible_in-edit_entry (add_relation_label_to label) relation q base.relations w.relations i;
  }
  view_of-run_call (call_set_relation_type relation relation_type) w = λ i.
      record (view_of base w) {
        relation_at = λ q.
            visible_in-edit_entry (with_type relation_type) relation q base.relations w.relations i;
      }
  view_of-run_call (call_set_property subject key value) w =
      set_value-view subject key value w (visible_property_in w.properties base subject key)
        (value_is (visible_property_in w.properties base subject key) value) refl refl
  view_of-run_call (call_remove_property subject key) w = λ i. record (view_of base w) {
    property_at = λ other other_key.
        visible_property_in-put_property base subject w.properties key none other other_key i;
  }
  view_of-run_call (call_register_role name) w =
      or_overflow-view (checked_next w.next.role) role_id w _
        (λ n. registered-view (insert_role w.next.role name w.catalog) _ _ _ _ _)
  view_of-run_call (call_register_label name) w =
      or_overflow-view (checked_next w.next.label) label_id w _
        (λ n. registered-view (insert_label w.next.label name w.catalog) _ _ _ _ _)
  view_of-run_call (call_register_relation_type name) w =
      or_overflow-view (checked_next w.next.relation_type) relation_type_id w _
        (λ n. registered-view (insert_relation_type w.next.relation_type name w.catalog) _ _ _ _ _)
  view_of-run_call (call_register_property_key name family type) w =
      or_overflow-view (checked_next w.next.property_key) property_key_id w _ (λ n.
        registered-view
          (insert_property_key
            (record { id = w.next.property_key; name = name; family = family; value_type = type })
            w.catalog)
          _ _ _ _ _)
  view_of-run_call (call_register_projection definition) w =
      or_overflow-view (checked_next w.next.projection) projection_id w _
        (λ n. registered-view (insert_projection w.next.projection definition w.catalog) _ _ _ _ _)
  view_of-run_call (call_register_index name definition) w =
      or_overflow-view (checked_next w.next.index) index_id w _
        (λ n. registered-view (insert_index w.next.index name definition w.catalog) _ _ _ _ _)
