-- ===== src/Db/Overlay/Inner.antt =====
-- crates/oxgraph-db/src/overlay/write.rs: what the writer sees, and the mutations without their log
-- entries, which the replay runs too.
use oxgraph.Prelude.{ℕ, Option, none, some, List, [], ◌∷◌}
use oxgraph.Db.State.{
  subject_ord, ElementRecord, RelationRecord, IncidenceRecord, PropertySubject, element_subject,
  relation_subject, incidence_subject, PropertyValue,
}
use oxgraph.Db.Map.{Map, get, insert, remove, set_insert, nat_ord}
use oxgraph.Db.Overlay.{BaseRecords, SubjectDelta, IndexOps, WriteOverlay}

-- The value of `or_default()` for a map.
abbrev pub or_default {ℓ κ} : {K : Type ℓ} {V : Type κ} → Option (Map K V) → Map K V
or_default none = []
or_default (some m) = m

-- The entry of the delta, or what the base has.
abbrev pub visible_in {ℓ} : {A : Type ℓ} → Option (Option A) → Option A → Option A
visible_in (some slot) in_base = slot
visible_in none in_base = in_base

abbrev pub property_slot :
    Map PropertySubject SubjectDelta → PropertySubject → ℕ → Option (Option PropertyValue)
property_slot properties subject key = get key (or_default (get subject properties))

-- `BaseRecords::property`
abbrev pub base_property : BaseRecords → PropertySubject → ℕ → Option PropertyValue
base_property base subject key = get key (or_default (get subject base.properties))

abbrev pub visible_property_in :
    Map PropertySubject SubjectDelta
    → BaseRecords
    → PropertySubject
    → (key : ℕ) → Option PropertyValue
visible_property_in properties base subject key =
    visible_in (property_slot properties subject key) (base_property base subject key)

-- The loop over the base's entries.
unfoldable pub insert_all : Map ℕ PropertyValue → Map ℕ PropertyValue → Map ℕ PropertyValue
insert_all [] visible = visible
insert_all ((key, value) ∷ keys) visible = insert_all keys (insert key value visible)

-- The loop over the delta's entries.
unfoldable pub override_all : SubjectDelta → Map ℕ PropertyValue → Map ℕ PropertyValue
override_all [] visible = visible
override_all ((key, some value) ∷ keys) visible = override_all keys (insert key value visible)
override_all ((key, none) ∷ keys) visible = override_all keys (remove key visible)

abbrev pub visible_subject_properties_in :
    Map PropertySubject SubjectDelta → BaseRecords → PropertySubject → Map ℕ PropertyValue
visible_subject_properties_in properties base subject =
    override_all (or_default (get subject properties))
      (insert_all (or_default (get subject base.properties)) [])

-- The loop of `tombstone_subject_properties`.
unfoldable pub mask_all : Map ℕ PropertyValue → SubjectDelta → SubjectDelta
mask_all [] entry = entry
mask_all ((key, value) ∷ keys) entry = mask_all keys (insert key none entry)

unfoldable pub tombstone_subject_properties :
    BaseRecords
    → PropertySubject
    → Map PropertySubject SubjectDelta
    → Map PropertySubject SubjectDelta
tombstone_subject_properties base subject properties =
    let removed = remove subject properties in
    elim (get subject base.properties) [
      | none ↦ removed
      | some keys ↦
          let entry = or_default (get subject removed) in
          insert subject (mask_all keys entry) removed
    ]

unfoldable pub put_property :
    PropertySubject
    → (key : ℕ) → Option PropertyValue
    → Map PropertySubject SubjectDelta
    → Map PropertySubject SubjectDelta
put_property subject key slot properties =
    insert subject (insert key slot (or_default (get subject properties))) properties

-- The delta with the record edited, where there is one that is not tombstoned: the `match` on
-- `entry(id)`.
unfoldable pub edit_entry {ℓ} :
    {R : Type ℓ}
    → (R → R)
    → (id : ℕ) → (base : Map ℕ R) → Map ℕ (Option R)
    → Option (Map ℕ (Option R))
edit_entry edit id base delta = elim (get id delta) [
  | some (some entry) ↦ some (insert id (some (edit entry)) delta)
  | some none ↦ none
  | none ↦ elim (get id base) [
    | some entry ↦ some (insert id (some (edit entry)) delta)
    | none ↦ none
  ]
]

-- The result of the edit, or what was there.
abbrev pub edited {ℓ κ} : {A : Type ℓ} {B : Type κ} → Option A → B → (A → B) → B
edited none old new = old
edited (some a) old new = new a

abbrev pub add_label : ℕ → ElementRecord → ElementRecord
add_label label entry = record entry { labels = set_insert label entry.labels }

abbrev pub add_relation_label_to : ℕ → RelationRecord → RelationRecord
add_relation_label_to label entry = record entry { labels = set_insert label entry.labels }

abbrev pub with_type : ℕ → RelationRecord → RelationRecord
with_type relation_type entry = record entry { relation_type = some relation_type }

abbrev pub labels_of : Option ElementRecord → List ℕ
labels_of none = []
labels_of (some entry) = entry.labels

abbrev pub type_of : Option RelationRecord → Option ℕ
type_of none = none
type_of (some entry) = entry.relation_type

module _ {I : Type 0} (base : BaseRecords) where
  abbrev pub visible_element_labels : WriteOverlay I → ℕ → List ℕ
  visible_element_labels w element =
      labels_of (visible_in (get element w.elements) (get element base.elements))

  abbrev pub visible_relation_type : WriteOverlay I → ℕ → Option ℕ
  visible_relation_type w relation =
      type_of (visible_in (get relation w.relations) (get relation base.relations))

  abbrev pub visible_incidence : WriteOverlay I → ℕ → Option IncidenceRecord
  visible_incidence w id = visible_in (get id w.incidences) (get id base.incidences)

module _ {I : Type 0} (ops : IndexOps I) (base : BaseRecords) where
  abbrev pub tombstone_element_inner : ℕ → WriteOverlay I → WriteOverlay I
  tombstone_element_inner id w =
      let subject = element_subject id in
      record w {
        index =
            ops.on_tombstone_element id (visible_element_labels base w id)
              (visible_subject_properties_in w.properties base subject) w.index;
        elements = insert id none w.elements;
        properties = tombstone_subject_properties base subject w.properties;
      }

  abbrev pub tombstone_relation_inner : ℕ → WriteOverlay I → WriteOverlay I
  tombstone_relation_inner id w =
      let subject = relation_subject id in
      record w {
        index =
            ops.on_tombstone_relation id (visible_relation_type base w id)
              (visible_subject_properties_in w.properties base subject) w.index;
        relations = insert id none w.relations;
        properties = tombstone_subject_properties base subject w.properties;
      }

  abbrev pub tombstone_incidence_inner : ℕ → WriteOverlay I → WriteOverlay I
  tombstone_incidence_inner id w =
      let subject = incidence_subject id in
      record w {
        index = edited (visible_incidence base w id) w.index (λ found.
            ops.on_tombstone_incidence id found.relation found.element
              (visible_subject_properties_in w.properties base subject) w.index);
        incidences = insert id none w.incidences;
        properties = tombstone_subject_properties base subject w.properties;
      }

  abbrev pub add_element_label_inner : (element label : ℕ) → WriteOverlay I → WriteOverlay I
  add_element_label_inner element label w =
      let elements = edit_entry (add_label label) element base.elements w.elements in
      record w {
        elements = edited elements w.elements (λ new. new);
        index = edited elements w.index (λ new. ops.on_add_element_label element label w.index);
      }

  -- The index does not record a relation's labels.
  abbrev pub add_relation_label_inner : (relation label : ℕ) → WriteOverlay I → WriteOverlay I
  add_relation_label_inner relation label w =
      let relations =
        edit_entry (add_relation_label_to label) relation base.relations w.relations in
      record w { relations = edited relations w.relations (λ new. new) }

  abbrev pub set_relation_type_inner :
      (relation relation_type : ℕ) → WriteOverlay I → WriteOverlay I
  set_relation_type_inner relation relation_type w =
      let previous = visible_relation_type base w relation in
      let relations = edit_entry (with_type relation_type) relation base.relations w.relations in
      record w {
        relations = edited relations w.relations (λ new. new);
        index =
            edited relations w.index
              (λ new. ops.on_set_relation_type relation previous relation_type w.index);
      }

  abbrev pub set_property_inner :
      PropertySubject → (key : ℕ) → PropertyValue → WriteOverlay I → WriteOverlay I
  set_property_inner subject key value w =
      let previous = visible_property_in w.properties base subject key in
      record w {
        index = ops.on_set_property subject key previous value w.index;
        properties = put_property subject key (some value) w.properties;
      }

  abbrev pub remove_property_inner : PropertySubject → (key : ℕ) → WriteOverlay I → WriteOverlay I
  remove_property_inner subject key w =
      let previous = visible_property_in w.properties base subject key in
      record w {
        index = ops.on_remove_property subject key previous w.index;
        properties = put_property subject key none w.properties;
      }
