-- ===== src/Db/Overlay/Words/Calls.antt =====
-- crates/oxgraph-db/src/overlay/write.rs: each call logs words and keeps the ids `u64`.
use mathlib.Core.List.{flat_map}
use oxgraph.Prelude.{
  ℕ, ◌^◌, ◌<◌, ◌≡◌, refl, Bool, true, false, List, [], ◌∷◌, ◌++◌, arith, length-append, le_bytes,
  if◌then◌else◌,
}
use oxgraph.Snapshot.Words.{AllBelow, length-flat_map}
use oxgraph.Db.Errors.{
  element_id, relation_id, incidence_id, role_id, label_id, relation_type_id, property_key_id,
  projection_id, index_id,
}
use oxgraph.Db.State.{
  PropertyFamily, PropertyType, PropertySubject, PropertyValue, boolean, integer, text,
  cast_unsigned_word, element_subject, relation_subject, incidence_subject,
}
use oxgraph.Db.Catalog.{
  Name, ProjectionDefinition, graph, hypergraph, definition_name, IndexDefinition, label_index,
  relation_type_index, property_equality, property_range, composite_equality, projection_index,
  insert_role, insert_label, insert_relation_type, insert_property_key, insert_projection,
  insert_index,
}
use oxgraph.Db.Wire.Tags.{encode_subject, property_type_tag, property_family_tag}
use oxgraph.Db.Wire.Defs.{encode_projection_body, encode_index_body}
use oxgraph.Db.Overlay.{BaseRecords, IndexOps, WriteOverlay}
use oxgraph.Db.Overlay.Log.{op_with}
use oxgraph.Db.Overlay.Write.{
  word_of, visible_property_is, create_element, create_relation, create_incidence,
  tombstone_element, tombstone_relation, tombstone_incidence, add_element_label, add_relation_label,
  set_relation_type, set_property, remove_property, register_role, register_label,
  register_relation_type, register_property_key, register_projection, register_index,
}
use oxgraph.Db.Overlay.Words.{
  Worded, Worded-op, Worded-below, Worded-or_overflow, Worded-registered, AllLe-refl, ids_list,
  op_with-IsOp, pack_flags_lt,
}
use oxgraph.Db.Overlay.Sound.Properties.{IsValue}

abbrev pub subject_id : PropertySubject → ℕ
subject_id subject = (encode_subject subject).1

subject_kind_lt : (subject : PropertySubject) → (encode_subject subject).0 < 2 ^ 32
subject_kind_lt (element_subject id) = omega arith
subject_kind_lt (relation_subject id) = omega arith
subject_kind_lt (incidence_subject id) = omega arith

projection_kind_lt :
    (definition : ProjectionDefinition) → (encode_projection_body definition).0 < 2 ^ 32
projection_kind_lt (graph name types source target) = omega arith
projection_kind_lt (hypergraph name types sources targets) = omega arith

index_kind_lt : (definition : IndexDefinition) → (encode_index_body definition).0 < 2 ^ 32
index_kind_lt (label_index label) = omega arith
index_kind_lt (relation_type_index relation_type) = omega arith
index_kind_lt (property_equality key) = omega arith
index_kind_lt (property_range key) = omega arith
index_kind_lt (composite_equality keys) = omega arith
index_kind_lt (projection_index projection) = omega arith

word_of_lt : (flag : Bool) → word_of flag < 2 ^ 64
word_of_lt true = omega arith
word_of_lt false = omega arith

module _ {I : Type 0} (idx : IndexOps I) (base : BaseRecords) (start w : WriteOverlay I)
    (h : Worded start w) where
  pub Worded-create_element : Worded start (create_element w).0
  Worded-create_element =
      let below = Worded-below start w h in
      Worded-or_overflow start w w.next.element element_id _ h (λ n small ge.
        Worded-op start w _ _ h (omega arith) (omega arith) (omega arith) refl
          (λ bound. op_with-IsOp _ _ _ (omega arith) (omega arith) (omega arith)))

  pub Worded-create_relation : Worded start (create_relation w).0
  Worded-create_relation =
      let below = Worded-below start w h in
      Worded-or_overflow start w w.next.relation relation_id _ h (λ n small ge.
        Worded-op start w _ _ h (omega arith) (omega arith) (omega arith) refl
          (λ bound. op_with-IsOp _ _ _ (omega arith) (omega arith) (omega arith)))

  pub Worded-create_incidence :
      (relation element role : ℕ)
      → relation < 2 ^ 64
      → element < 2 ^ 64
      → role < 2 ^ 64
      → Worded start (create_incidence idx base relation element role w).0
  Worded-create_incidence relation element role relation_word element_word role_word =
      let below = Worded-below start w h in
      Worded-or_overflow start w w.next.incidence incidence_id _ h (λ n small ge.
        Worded-op start w _ _ h (omega arith) (omega arith) (omega arith) refl
          (λ bound. op_with-IsOp _ _ _ (omega arith) (omega arith) (omega arith)))

  -- An op on ids that the call was given, which leaves the allocators and the blob.
  pub Worded-logged :
      (after : WriteOverlay I) (op_kind flags : ℕ) (words : List ℕ)
      → after.next ≡ w.next
      → after.log.blob ≡ w.log.blob
      → after.log.ops ≡ w.log.ops ++ op_with op_kind flags words ∷ []
      → op_kind < 2 ^ 32
      → flags < 2 ^ 32
      → AllBelow (2 ^ 64) words
      → Worded start after
  Worded-logged after op_kind flags words next_eq blob_eq ops_eq k f b =
      Worded-op start w after (op_with op_kind flags words) h (rw next_eq (Worded-below start w h))
        (rw next_eq (AllLe-refl (ids_list w.next))) (rw blob_eq (omega arith)) ops_eq
        (λ bound. op_with-IsOp op_kind flags words k f b)

  pub Worded-tombstone_element :
      (id : ℕ) → id < 2 ^ 64 → Worded start (tombstone_element idx base id w)
  Worded-tombstone_element id id_word =
      Worded-logged _ _ _ _ refl refl refl (omega arith) (omega arith) (omega arith)

  pub Worded-tombstone_relation :
      (id : ℕ) → id < 2 ^ 64 → Worded start (tombstone_relation idx base id w)
  Worded-tombstone_relation id id_word =
      Worded-logged _ _ _ _ refl refl refl (omega arith) (omega arith) (omega arith)

  pub Worded-tombstone_incidence :
      (id : ℕ) → id < 2 ^ 64 → Worded start (tombstone_incidence idx base id w)
  Worded-tombstone_incidence id id_word =
      Worded-logged _ _ _ _ refl refl refl (omega arith) (omega arith) (omega arith)

  pub Worded-add_element_label :
      (element label : ℕ)
      → element < 2 ^ 64
      → label < 2 ^ 64
      → Worded start (add_element_label idx base element label w)
  Worded-add_element_label element label element_word label_word =
      Worded-logged _ _ _ _ refl refl refl (omega arith) (omega arith) (omega arith)

  pub Worded-add_relation_label :
      (relation label : ℕ)
      → relation < 2 ^ 64
      → label < 2 ^ 64
      → Worded start (add_relation_label idx base relation label w)
  Worded-add_relation_label relation label relation_word label_word =
      Worded-logged _ _ _ _ refl refl refl (omega arith) (omega arith) (omega arith)

  pub Worded-set_relation_type :
      (relation relation_type : ℕ)
      → relation < 2 ^ 64
      → relation_type < 2 ^ 64
      → Worded start (set_relation_type idx base relation relation_type w)
  Worded-set_relation_type relation relation_type relation_word relation_type_word =
      Worded-logged _ _ _ _ refl refl refl (omega arith) (omega arith) (omega arith)

  pub Worded-remove_property :
      (subject : PropertySubject) (key : ℕ)
      → subject_id subject < 2 ^ 64
      → key < 2 ^ 64
      → Worded start (remove_property idx base subject key w)
  Worded-remove_property subject key subject_word key_word =
      Worded-logged _ _ _ _ refl refl refl (omega arith)
        (pack_flags_lt (encode_subject subject).0 0) (subject_word, (key_word, tt))

  Worded-unless :
      (same : Bool) (after : WriteOverlay I)
      → Worded start after
      → Worded start (if same then w else after)
  Worded-unless true after k = h
  Worded-unless false after k = k

  pub Worded-set_property :
      (is_utf8 : List ℕ → Bool) (subject : PropertySubject) (key : ℕ) (value : PropertyValue)
      → IsValue is_utf8 value
      → subject_id subject < 2 ^ 64
      → key < 2 ^ 64
      → Worded start (set_property idx base subject key value w)
  unfolding set_property
  Worded-set_property is_utf8 subject key (boolean flag) valid subject_word key_word =
      Worded-unless (visible_property_is idx base w subject key (boolean flag)) _ (
        Worded-logged _ _ _ _ refl refl refl (omega arith)
          (pack_flags_lt (encode_subject subject).0 0)
          (subject_word, (key_word, (word_of_lt flag, omega arith))))
  Worded-set_property is_utf8 subject key (integer number) valid subject_word key_word =
      Worded-unless (visible_property_is idx base w subject key (integer number)) _ (
        Worded-logged _ _ _ _ refl refl refl (omega arith)
          (pack_flags_lt (encode_subject subject).0 1)
          (subject_word, (key_word, (cast_unsigned_word number valid, omega arith))))
  Worded-set_property is_utf8 subject key (text string) valid subject_word key_word =
      Worded-unless (visible_property_is idx base w subject key (text string)) _ (
        Worded-op start w _ _ h (Worded-below start w h) (AllLe-refl (ids_list w.next))
          (omega (arith, length-append w.log.blob string)) refl
          (λ bound.
            op_with-IsOp _ _ _ (omega arith) (pack_flags_lt (encode_subject subject).0 2)
              (subject_word, (key_word, omega (arith, length-append w.log.blob string)))))

  pub Worded-register_role : (name : Name) → Worded start (register_role name w).0
  Worded-register_role name =
      let below = Worded-below start w h in
      let size = length-append w.log.blob name in
      Worded-or_overflow start w w.next.role role_id _ h (λ n small ge.
        Worded-registered start w _ (insert_role w.next.role name w.catalog) _ _ _ _ h (omega arith)
          (omega arith) (omega (arith, size)) refl (omega arith) (omega arith)
          (λ bound. omega (arith, size)))

  pub Worded-register_label : (name : Name) → Worded start (register_label name w).0
  Worded-register_label name =
      let below = Worded-below start w h in
      let size = length-append w.log.blob name in
      Worded-or_overflow start w w.next.label label_id _ h (λ n small ge.
        Worded-registered start w _ (insert_label w.next.label name w.catalog) _ _ _ _ h
          (omega arith) (omega arith) (omega (arith, size)) refl (omega arith) (omega arith)
          (λ bound. omega (arith, size)))

  pub Worded-register_relation_type : (name : Name) → Worded start (register_relation_type name w).0
  Worded-register_relation_type name =
      let below = Worded-below start w h in
      let size = length-append w.log.blob name in
      Worded-or_overflow start w w.next.relation_type relation_type_id _ h (λ n small ge.
        Worded-registered start w _ (insert_relation_type w.next.relation_type name w.catalog) _ _ _
          _ h (omega arith) (omega arith) (omega (arith, size)) refl (omega arith) (omega arith)
          (λ bound. omega (arith, size)))

  pub Worded-register_property_key :
      (name : Name) (family : PropertyFamily) (type : PropertyType)
      → Worded start (register_property_key name family type w).0
  Worded-register_property_key name family type =
      let below = Worded-below start w h in
      let size = length-append w.log.blob name in
      Worded-or_overflow start w w.next.property_key property_key_id _ h (λ n small ge.
        Worded-registered start w _
          (insert_property_key
            (record { id = w.next.property_key; name = name; family = family; value_type = type })
            w.catalog)
          _ _ _ _ h (omega arith) (omega arith) (omega (arith, size)) refl (omega arith)
          (pack_flags_lt (property_family_tag family) (property_type_tag type))
          (λ bound. omega (arith, size)))

  pub Worded-register_projection :
      (definition : ProjectionDefinition)
      → AllBelow (256 ^ 8) (encode_projection_body definition).1
      → Worded start (register_projection definition w).0
  Worded-register_projection definition valid =
      let below = Worded-below start w h in
      let words = (encode_projection_body definition).1 in
      let bytes = flat_map (le_bytes 8) words in
      let size = length-append w.log.blob (definition_name definition) in
      let size2 = length-append (w.log.blob ++ definition_name definition) bytes in
      let size3 = length-flat_map 8 words in
      Worded-or_overflow start w w.next.projection projection_id _ h (λ n small ge.
        Worded-registered start w _ (insert_projection w.next.projection definition w.catalog) _ _ _
          _ h (omega arith) (omega arith) (omega (arith, size, size2)) refl (omega arith)
          (projection_kind_lt definition) (λ bound. omega (arith, size, size2, size3)))

  pub Worded-register_index :
      (name : Name) (definition : IndexDefinition)
      → AllBelow (256 ^ 8) (encode_index_body definition).1
      → Worded start (register_index name definition w).0
  Worded-register_index name definition valid =
      let below = Worded-below start w h in
      let words = (encode_index_body definition).1 in
      let bytes = flat_map (le_bytes 8) words in
      let size = length-append w.log.blob (name) in
      let size2 = length-append (w.log.blob ++ name) bytes in
      let size3 = length-flat_map 8 words in
      Worded-or_overflow start w w.next.index index_id _ h (λ n small ge.
        Worded-registered start w _ (insert_index w.next.index name definition w.catalog) _ _ _ _ h
          (omega arith) (omega arith) (omega (arith, size, size2)) refl (omega arith)
          (index_kind_lt definition) (λ bound. omega (arith, size, size2, size3)))
