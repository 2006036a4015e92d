-- ===== src/Db/Overlay/View.antt =====
-- crates/oxgraph-db/src/overlay: what a writer shows over its base, as functions of the ids, and
-- what each call is to change of it.
pub mod Maps
pub mod Calls
use mathlib.Core.Option
use oxgraph.Prelude.{ℕ, Option, none, some, List, [], ◌∷◌}
use oxgraph.Db.State.{
  checked_next, NextIds, ElementRecord, RelationRecord, IncidenceRecord, PropertySubject,
  element_subject, relation_subject, incidence_subject, PropertyValue, subject_ord,
}
use oxgraph.Db.Map.{Map, get, nat_ord}
use oxgraph.Db.Map.Laws.{update}
use oxgraph.Db.Overlay.{BaseRecords, WriteOverlay}
use oxgraph.Db.Overlay.Inner.{
  visible_in, visible_property_in, add_label, add_relation_label_to, with_type,
}
use oxgraph.Db.Overlay.Write.{
  Call, call_create_element, call_create_relation, call_create_incidence, call_tombstone_element,
  call_tombstone_relation, call_tombstone_incidence, call_add_element_label,
  call_add_relation_label, call_set_relation_type, call_set_property, call_remove_property,
}

pub record View : Type 0 where
  pub element_at : ℕ → Option ElementRecord
  pub relation_at : ℕ → Option RelationRecord
  pub incidence_at : ℕ → Option IncidenceRecord
  pub property_at : PropertySubject → ℕ → Option PropertyValue

abbrev pub view_of : {I : Type 0} → BaseRecords → WriteOverlay I → View
view_of base w = record {
  element_at = λ id. visible_in (get id w.elements) (get id base.elements);
  relation_at = λ id. visible_in (get id w.relations) (get id base.relations);
  incidence_at = λ id. visible_in (get id w.incidences) (get id base.incidences);
  property_at = λ subject key. visible_property_in w.properties base subject key;
}

-- No property of the subject is left.
abbrev pub cleared :
    PropertySubject
    → (PropertySubject → ℕ → Option PropertyValue)
    → PropertySubject
    → ℕ
    → Option PropertyValue
cleared subject properties other key =
    update subject none (λ (other : PropertySubject). properties other key) other

abbrev pub assigned :
    PropertySubject
    → ℕ
    → Option PropertyValue
    → (PropertySubject → ℕ → Option PropertyValue)
    → PropertySubject
    → ℕ
    → Option PropertyValue
assigned subject key value properties other other_key =
    update subject (update key value (properties subject) other_key)
      (λ (other : PropertySubject). properties other other_key) other

-- The map with a record at an id, unless the allocator of these ids is exhausted.
abbrev pub created : {R : Type 0} → Option ℕ → ℕ → R → (ℕ → Option R) → ℕ → Option R
created none id entry old = old
created (some next) id entry old = update id (some entry) old

-- What a call changes, given the ids that come next: a registration and a call on a record that is
-- not there change nothing.
abbrev pub spec_call : NextIds → Call → View → View
spec_call next call_create_element v = record v {
  element_at =
      created (checked_next next.element) next.element (record { id = next.element; labels = [] })
        v.element_at;
}
spec_call next call_create_relation v = record v {
  relation_at =
      created (checked_next next.relation) next.relation
        (record { id = next.relation; relation_type = none; labels = [] }) v.relation_at;
}
spec_call next (call_create_incidence relation element role) v = record v {
  incidence_at =
      created (checked_next next.incidence) next.incidence
        (record { id = next.incidence; relation = relation; element = element; role = role })
        v.incidence_at;
}
spec_call next (call_tombstone_element id) v = record v {
  element_at = update id none v.element_at;
  property_at = cleared (element_subject id) v.property_at;
}
spec_call next (call_tombstone_relation id) v = record v {
  relation_at = update id none v.relation_at;
  property_at = cleared (relation_subject id) v.property_at;
}
spec_call next (call_tombstone_incidence id) v = record v {
  incidence_at = update id none v.incidence_at;
  property_at = cleared (incidence_subject id) v.property_at;
}
spec_call next (call_add_element_label element label) v = record v {
  element_at = update element (Option.map (add_label label) (v.element_at element)) v.element_at;
}
spec_call next (call_add_relation_label relation label) v = record v {
  relation_at =
      update relation (Option.map (add_relation_label_to label) (v.relation_at relation))
        v.relation_at;
}
spec_call next (call_set_relation_type relation relation_type) v = record v {
  relation_at =
      update relation (Option.map (with_type relation_type) (v.relation_at relation)) v.relation_at;
}
spec_call next (call_set_property subject key value) v = record v {
  property_at = assigned subject key (some value) v.property_at;
}
spec_call next (call_remove_property subject key) v = record v {
  property_at = assigned subject key none v.property_at;
}
spec_call next _ v = v
