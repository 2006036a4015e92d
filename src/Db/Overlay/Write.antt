-- ===== src/Db/Overlay/Write.antt =====
-- crates/oxgraph-db/src/overlay/write.rs: the writer's mutations, with their log entries. A method
-- gives the writer after it, whether it succeeds or not, and what it returns.
use oxgraph.Prelude.{
  ℕ, Bool, true, false, Option, none, some, List, [], ◌∷◌, Result, ok, err, if◌then◌else◌,
}
use oxgraph.Db.Errors.{
  CatalogError, DbError, id_overflow, txn_error, catalog, IdFamily, element_id, relation_id,
  incidence_id, role_id, label_id, relation_type_id, property_key_id, projection_id, index_id,
}
use oxgraph.Db.State.{
  PropertyFamily, PropertySubject, PropertyType, PropertyValue, boolean, integer, text, value_type,
  ==value, cast_unsigned, checked_next, NextIds,
}
use oxgraph.Db.Catalog.{
  Name, Catalog, ProjectionDefinition, definition_name, IndexDefinition, insert_role, insert_label,
  insert_relation_type, insert_property_key, insert_projection, insert_index,
}
use oxgraph.Db.Map.{insert, nat_ord}
use oxgraph.Db.Wire.{MutationOp}
use oxgraph.Db.Wire.Tags.{
  op_create_element, op_tombstone_element, op_create_relation, op_tombstone_relation,
  op_create_incidence, op_tombstone_incidence, op_set_relation_type, op_add_element_label,
  op_add_relation_label, op_set_property, op_remove_property, op_catalog_register_role,
  op_catalog_register_label, op_catalog_register_relation_type, op_catalog_register_property_key,
  op_catalog_register_projection, op_catalog_register_index, property_family_tag, property_type_tag,
  encode_subject, pack_flags,
}
use oxgraph.Db.Wire.Defs.{encode_projection_body, encode_index_body}
use oxgraph.Db.Overlay.{BaseRecords, IndexOps, WriteOverlay}
use oxgraph.Db.Overlay.Log.{MutationLog, empty_log, intern, intern_words, push, push_watermark}
use oxgraph.Db.Overlay.Inner.{
  visible_property_in, tombstone_element_inner, tombstone_relation_inner, tombstone_incidence_inner,
  add_element_label_inner, add_relation_label_inner, set_relation_type_inner, set_property_inner,
  remove_property_inner,
}

-- `u64::from(bool)`
abbrev pub word_of : Bool → ℕ
word_of true = 1
word_of false = 0

-- The log with a text in its blob, and the words of the value in its op: the scalar, and where the
-- text stands.
abbrev pub log_value : PropertyValue → MutationLog → MutationLog × ℕ × ℕ × ℕ
log_value (boolean flag) log = (log, word_of flag, 0, 0)
log_value (integer number) log = (log, cast_unsigned number, 0, 0)
log_value (text string) log = let (after, off, len) = intern string log in (after, 0, off, len)

abbrev pub value_is : Option PropertyValue → PropertyValue → Bool
value_is none value = false
value_is (some current) value = ==value current value

module _ {I : Type 0} where
  abbrev pub logged : (op_kind flags : ℕ) → List ℕ → WriteOverlay I → WriteOverlay I
  logged op_kind flags words w = record w { log = push op_kind flags words w.log }

  -- The frame of the commit: its ops, its blob and the writer left.
  abbrev pub take_frame : WriteOverlay I → List MutationOp × List ℕ × WriteOverlay I
  take_frame w =
      let log = push_watermark w.next w.log in (log.ops, log.blob, record w { log = empty_log })

  abbrev pub set_next_ids : NextIds → WriteOverlay I → WriteOverlay I
  set_next_ids next w = record w { next = next }

  -- The body of a creation, which the overflow of the allocator skips.
  abbrev pub or_overflow :
      Option ℕ
      → IdFamily
      → WriteOverlay I
      → (ℕ → WriteOverlay I × Result DbError ℕ)
      → WriteOverlay I × Result DbError ℕ
  or_overflow none family w go = (w, err (txn_error (id_overflow family)))
  or_overflow (some next) family w go = go next

  abbrev pub create_element : WriteOverlay I → WriteOverlay I × Result DbError ℕ
  create_element w =
      let id = w.next.element in
      or_overflow (checked_next id) element_id w (λ next. (
        logged op_create_element 0 (id ∷ []) (record w {
          next = record w.next { element = next };
          elements = insert id (some (record { id = id; labels = [] })) w.elements;
        }),
        ok id,
      ))

  abbrev pub create_relation : WriteOverlay I → WriteOverlay I × Result DbError ℕ
  create_relation w =
      let id = w.next.relation in
      or_overflow (checked_next id) relation_id w (λ next. (
        logged op_create_relation 0 (id ∷ []) (record w {
          next = record w.next { relation = next };
          relations =
              insert id (some (record { id = id; relation_type = none; labels = [] })) w.relations;
        }),
        ok id,
      ))

  -- The body of a registration, once the allocator and the log are ahead: an error of the catalog
  -- leaves them there.
  abbrev pub registered :
      Result CatalogError Catalog
      → WriteOverlay I
      → (id op_kind flags : ℕ) → List ℕ
      → WriteOverlay I × Result DbError ℕ
  registered (err error) w id op_kind flags words = (w, err (catalog error))
  registered (ok after) w id op_kind flags words =
      (logged op_kind flags words (record w { catalog = after }), ok id)

  abbrev pub register_role : Name → WriteOverlay I → WriteOverlay I × Result DbError ℕ
  register_role name w =
      let id = w.next.role in
      or_overflow (checked_next id) role_id w (λ next.
        let (log, name_off, name_len) = intern name w.log in
        registered (insert_role id name w.catalog)
          (record w { next = record w.next { role = next }; log = log }) id op_catalog_register_role
          0 (id ∷ name_off ∷ name_len ∷ []))

  abbrev pub register_label : Name → WriteOverlay I → WriteOverlay I × Result DbError ℕ
  register_label name w =
      let id = w.next.label in
      or_overflow (checked_next id) label_id w (λ next.
        let (log, name_off, name_len) = intern name w.log in
        registered (insert_label id name w.catalog)
          (record w { next = record w.next { label = next }; log = log }) id
          op_catalog_register_label 0 (id ∷ name_off ∷ name_len ∷ []))

  abbrev pub register_relation_type : Name → WriteOverlay I → WriteOverlay I × Result DbError ℕ
  register_relation_type name w =
      let id = w.next.relation_type in
      or_overflow (checked_next id) relation_type_id w (λ next.
        let (log, name_off, name_len) = intern name w.log in
        registered (insert_relation_type id name w.catalog)
          (record w { next = record w.next { relation_type = next }; log = log }) id
          op_catalog_register_relation_type 0 (id ∷ name_off ∷ name_len ∷ []))

  abbrev pub register_property_key :
      Name → PropertyFamily → PropertyType → WriteOverlay I → WriteOverlay I × Result DbError ℕ
  register_property_key name family type w =
      let id = w.next.property_key in
      or_overflow (checked_next id) property_key_id w (λ next.
        let (log, name_off, name_len) = intern name w.log in
        registered
          (insert_property_key (record { id = id; name = name; family = family; value_type = type })
            w.catalog)
          (record w { next = record w.next { property_key = next }; log = log }) id
          op_catalog_register_property_key
          (pack_flags (property_family_tag family) (property_type_tag type))
          (id ∷ name_off ∷ name_len ∷ []))

  abbrev pub register_projection :
      ProjectionDefinition → WriteOverlay I → WriteOverlay I × Result DbError ℕ
  register_projection definition w =
      let id = w.next.projection in
      or_overflow (checked_next id) projection_id w (λ next.
        let (named, name_off, name_len) = intern (definition_name definition) w.log in
        let (kind, words) = encode_projection_body definition in
        let (log, def_off, def_len) = intern_words words named in
        registered (insert_projection id definition w.catalog)
          (record w { next = record w.next { projection = next }; log = log }) id
          op_catalog_register_projection kind (id ∷ name_off ∷ name_len ∷ def_off ∷ def_len ∷ []))

  abbrev pub register_index :
      Name → IndexDefinition → WriteOverlay I → WriteOverlay I × Result DbError ℕ
  register_index name definition w =
      let id = w.next.index in
      or_overflow (checked_next id) index_id w (λ next.
        let (named, name_off, name_len) = intern name w.log in
        let (kind, words) = encode_index_body definition in
        let (log, def_off, def_len) = intern_words words named in
        registered (insert_index id name definition w.catalog)
          (record w { next = record w.next { index = next }; log = log }) id
          op_catalog_register_index kind (id ∷ name_off ∷ name_len ∷ def_off ∷ def_len ∷ []))

module _ {I : Type 0} (ops : IndexOps I) (base : BaseRecords) where
  abbrev pub create_incidence :
      (relation element role : ℕ) → WriteOverlay I → WriteOverlay I × Result DbError ℕ
  create_incidence relation element role w =
      let id = w.next.incidence in
      or_overflow (checked_next id) incidence_id w (λ next. (
        logged op_create_incidence 0 (id ∷ relation ∷ element ∷ role ∷ []) (record w {
          next = record w.next { incidence = next };
          incidences =
              insert id
                (some (record { id = id; relation = relation; element = element; role = role }))
                w.incidences;
          index = ops.on_create_incidence id relation element w.index;
        }),
        ok id,
      ))

  abbrev pub tombstone_element : ℕ → WriteOverlay I → WriteOverlay I
  tombstone_element id w =
      logged op_tombstone_element 0 (id ∷ []) (tombstone_element_inner ops base id w)

  abbrev pub tombstone_relation : ℕ → WriteOverlay I → WriteOverlay I
  tombstone_relation id w =
      logged op_tombstone_relation 0 (id ∷ []) (tombstone_relation_inner ops base id w)

  abbrev pub tombstone_incidence : ℕ → WriteOverlay I → WriteOverlay I
  tombstone_incidence id w =
      logged op_tombstone_incidence 0 (id ∷ []) (tombstone_incidence_inner ops base id w)

  abbrev pub add_element_label : (element label : ℕ) → WriteOverlay I → WriteOverlay I
  add_element_label element label w =
      logged op_add_element_label 0 (element ∷ label ∷ [])
        (add_element_label_inner ops base element label w)

  abbrev pub add_relation_label : (relation label : ℕ) → WriteOverlay I → WriteOverlay I
  add_relation_label relation label w =
      logged op_add_relation_label 0 (relation ∷ label ∷ [])
        (add_relation_label_inner ops base relation label w)

  abbrev pub set_relation_type : (relation relation_type : ℕ) → WriteOverlay I → WriteOverlay I
  set_relation_type relation relation_type w =
      logged op_set_relation_type 0 (relation ∷ relation_type ∷ [])
        (set_relation_type_inner ops base relation relation_type w)

  abbrev pub visible_property_is :
      WriteOverlay I → PropertySubject → (key : ℕ) → PropertyValue → Bool
  visible_property_is w subject key value =
      value_is (visible_property_in w.properties base subject key) value

  -- Setting the visible value again is not logged.
  unfoldable pub set_property :
      PropertySubject → (key : ℕ) → PropertyValue → WriteOverlay I → WriteOverlay I
  set_property subject key value w =
      let (subject_kind, subject_id) = encode_subject subject in
      let (log, scalar, text_off, text_len) = log_value value w.log in
      if visible_property_is w subject key value
      then w
      else set_property_inner ops base subject key value (
          logged op_set_property (pack_flags subject_kind (property_type_tag (value_type value)))
            (subject_id ∷ key ∷ scalar ∷ text_off ∷ text_len ∷ []) (record w { log = log }))

  abbrev pub remove_property : PropertySubject → (key : ℕ) → WriteOverlay I → WriteOverlay I
  remove_property subject key w =
      let (subject_kind, subject_id) = encode_subject subject in
      remove_property_inner ops base subject key
        (logged op_remove_property (pack_flags subject_kind 0) (subject_id ∷ key ∷ []) w)

-- The calls of a transaction on its writer.
pub data Call : Type 0 where
  call_create_element call_create_relation : Call
  call_create_incidence : (relation element role : ℕ) → Call
  call_tombstone_element call_tombstone_relation call_tombstone_incidence : (id : ℕ) → Call
  call_add_element_label : (element label : ℕ) → Call
  call_add_relation_label : (relation label : ℕ) → Call
  call_set_relation_type : (relation relation_type : ℕ) → Call
  call_set_property : (subject : PropertySubject) (key : ℕ) (value : PropertyValue) → Call
  call_remove_property : (subject : PropertySubject) (key : ℕ) → Call
  call_register_role call_register_label call_register_relation_type : (name : Name) → Call
  call_register_property_key : (name : Name) (family : PropertyFamily) (type : PropertyType) → Call
  call_register_projection : (definition : ProjectionDefinition) → Call
  call_register_index : (name : Name) (definition : IndexDefinition) → Call

module _ {I : Type 0} (ops : IndexOps I) (base : BaseRecords) where
  -- The writer after a call, whatever the call returns.
  abbrev pub run_call : Call → WriteOverlay I → WriteOverlay I
  run_call call_create_element w = (create_element w).0
  run_call call_create_relation w = (create_relation w).0
  run_call (call_create_incidence relation element role) w =
      (create_incidence ops base relation element role w).0
  run_call (call_tombstone_element id) w = tombstone_element ops base id w
  run_call (call_tombstone_relation id) w = tombstone_relation ops base id w
  run_call (call_tombstone_incidence id) w = tombstone_incidence ops base id w
  run_call (call_add_element_label element label) w = add_element_label ops base element label w
  run_call (call_add_relation_label relation label) w = add_relation_label ops base relation label w
  run_call (call_set_relation_type relation relation_type) w =
      set_relation_type ops base relation relation_type w
  run_call (call_set_property subject key value) w = set_property ops base subject key value w
  run_call (call_remove_property subject key) w = remove_property ops base subject key w
  run_call (call_register_role name) w = (register_role name w).0
  run_call (call_register_label name) w = (register_label name w).0
  run_call (call_register_relation_type name) w = (register_relation_type name w).0
  run_call (call_register_property_key name family type) w =
      (register_property_key name family type w).0
  run_call (call_register_projection definition) w = (register_projection definition w).0
  run_call (call_register_index name definition) w = (register_index name definition w).0

  abbrev pub run_calls : List Call → WriteOverlay I → WriteOverlay I
  run_calls [] w = w
  run_calls (call ∷ calls) w = run_calls calls (run_call call w)
