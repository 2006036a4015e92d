-- ===== src/Db/Overlay/Replay.antt =====
-- crates/oxgraph-db/src/overlay/write.rs and database/open.rs: the replay of logged ops onto a
-- writer.
use oxgraph.Prelude.{
  ℕ, Bool, not, ◌||◌, none, some, List, [], ◌∷◌, Result, ok, err, ◌>>=◌, ok_or, map_err, ◌==◌,
  if◌then◌else◌, get_or,
}
use oxgraph.Db.Errors.{CatalogError, DbError, catalog}
use oxgraph.Db.State.{
  PropertyType, boolean_type, integer_type, text_type, PropertyValue, boolean, integer, text,
  cast_signed, NextIds,
}
use oxgraph.Db.Catalog.{
  Name, Catalog, PropertyKeyDefinition, insert_role, insert_label, insert_relation_type,
  insert_property_key, insert_projection, insert_index,
}
use oxgraph.Db.Map.{insert, nat_ord}
use oxgraph.Db.Wire.{MutationOp}
use oxgraph.Db.Wire.Tags.{
  op_create_element, op_tombstone_element, op_create_relation, op_tombstone_relation,
  op_create_incidence, op_tombstone_incidence, op_set_relation_type, op_add_element_label,
  op_add_relation_label, op_set_property, op_remove_property, op_catalog_register_role,
  op_catalog_register_label, op_catalog_register_relation_type, op_catalog_register_property_key,
  op_catalog_register_projection, op_catalog_register_index, op_next_id_watermark,
  property_family_from_tag, property_type_from_tag, decode_subject, unpack_flags,
}
use oxgraph.Db.Wire.Defs.{decode_projection_body, decode_index_body}
use oxgraph.Db.Overlay.{BaseRecords, IndexOps, WriteOverlay}
use oxgraph.Db.Overlay.Log.{corrupt, blob_str, decode_def_words}
use oxgraph.Db.Overlay.Inner.{
  tombstone_element_inner, tombstone_relation_inner, tombstone_incidence_inner,
  add_element_label_inner, add_relation_label_inner, set_relation_type_inner, set_property_inner,
  remove_property_inner,
}

-- `payload.get(index).map_or(0, ..)`
abbrev pub word_at : MutationOp → ℕ → ℕ
word_at op index = get_or op.payload index 0

-- The kinds of `apply_topology_op`, which are the first nine.
abbrev pub is_topology : ℕ → Bool
is_topology kind =
    kind == op_create_element
    || (kind == op_create_relation
        || (kind == op_create_incidence
            || (kind == op_tombstone_element
                || (kind == op_tombstone_relation
                    || (kind == op_tombstone_incidence
                        || (kind == op_add_element_label
                            || (kind == op_add_relation_label || kind == op_set_relation_type)))))))

-- The kinds of `apply_catalog_op`.
abbrev pub is_catalog : ℕ → Bool
is_catalog kind =
    kind == op_catalog_register_role
    || (kind == op_catalog_register_label
        || (kind == op_catalog_register_relation_type
            || (kind == op_catalog_register_property_key
                || (kind == op_catalog_register_projection || kind == op_catalog_register_index))))

abbrev pub watermark_of : MutationOp → NextIds
watermark_of op = record {
  element = word_at op 0;
  relation = word_at op 1;
  incidence = word_at op 2;
  role = word_at op 3;
  label = word_at op 4;
  relation_type = word_at op 5;
  property_key = word_at op 6;
  projection = word_at op 7;
  index = word_at op 8;
}

-- The `..Replay` methods are the inner mutations.
module _ {I : Type 0} (idx : IndexOps I) (base : BaseRecords) where
  unfoldable pub apply_topology_op : (kind : ℕ) → MutationOp → WriteOverlay I → WriteOverlay I
  apply_topology_op kind op w =
      let id = word_at op 0 in
      if kind == op_create_element
      then record w { elements = insert id (some (record { id = id; labels = [] })) w.elements }
      else if kind == op_create_relation
      then record w {
        relations =
            insert id (some (record { id = id; relation_type = none; labels = [] })) w.relations;
      }
      else if kind == op_create_incidence
      then record w {
        incidences =
            insert id
              (some (record {
                id = id;
                relation = word_at op 1;
                element = word_at op 2;
                role = word_at op 3;
              }))
              w.incidences;
        index = idx.on_create_incidence id (word_at op 1) (word_at op 2) w.index;
      }
      else if kind == op_tombstone_element
      then tombstone_element_inner idx base id w
      else if kind == op_tombstone_relation
      then tombstone_relation_inner idx base id w
      else if kind == op_tombstone_incidence
      then tombstone_incidence_inner idx base id w
      else if kind == op_add_element_label
      then add_element_label_inner idx base id (word_at op 1) w
      else if kind == op_add_relation_label
      then add_relation_label_inner idx base id (word_at op 1) w
      else set_relation_type_inner idx base id (word_at op 1) w

-- `catalog` of the writer with what was inserted, or the error.
abbrev pub apply_registered :
    {I : Type 0} → WriteOverlay I → Result CatalogError Catalog → Result DbError (WriteOverlay I)
apply_registered w (ok after) = ok (record w { catalog = after })
apply_registered w (err error) = err (catalog error)

unfoldable pub apply_property_key :
    {I : Type 0} → MutationOp → (lsn : ℕ) → Name → WriteOverlay I → Result DbError (WriteOverlay I)
apply_property_key op lsn name w = do
  let (family_tag, value_tag) = unpack_flags op.flags
  family ← ok_or (property_family_from_tag family_tag) (corrupt lsn "property-key family tag")
  type ← ok_or (property_type_from_tag value_tag) (corrupt lsn "property-key value tag")
  let definition : PropertyKeyDefinition = record {
    id = word_at op 0;
    name = name;
    family = family;
    value_type = type;
  }
  apply_registered w (insert_property_key definition w.catalog)

module _ (usize_max : ℕ) (is_utf8 : List ℕ → Bool) where
  unfoldable pub apply_projection :
      {I : Type 0}
      → MutationOp
      → List ℕ
      → (lsn : ℕ) → Name
      → WriteOverlay I
      → Result DbError (WriteOverlay I)
  apply_projection op blob lsn name w = do
    words ← decode_def_words usize_max blob (word_at op 3) (word_at op 4) lsn
    definition ←
        map_err (λ reason. corrupt lsn reason)
          (decode_projection_body usize_max op.flags name words)
    apply_registered w (insert_projection (word_at op 0) definition w.catalog)

  unfoldable pub apply_index :
      {I : Type 0}
      → MutationOp
      → List ℕ
      → (lsn : ℕ) → Name
      → WriteOverlay I
      → Result DbError (WriteOverlay I)
  apply_index op blob lsn name w = do
    words ← decode_def_words usize_max blob (word_at op 3) (word_at op 4) lsn
    definition ← map_err (λ reason. corrupt lsn reason) (decode_index_body op.flags words)
    apply_registered w (insert_index (word_at op 0) name definition w.catalog)

  -- The `match` of `apply_catalog_op`.
  unfoldable pub apply_named :
      {I : Type 0}
      → (kind : ℕ) → MutationOp
      → List ℕ
      → (lsn : ℕ) → Name
      → WriteOverlay I
      → Result DbError (WriteOverlay I)
  apply_named kind op blob lsn name w =
      let id = word_at op 0 in
      if kind == op_catalog_register_role
      then apply_registered w (insert_role id name w.catalog)
      else if kind == op_catalog_register_label
      then apply_registered w (insert_label id name w.catalog)
      else if kind == op_catalog_register_relation_type
      then apply_registered w (insert_relation_type id name w.catalog)
      else if kind == op_catalog_register_property_key
      then apply_property_key op lsn name w
      else if kind == op_catalog_register_projection
      then apply_projection op blob lsn name w
      else apply_index op blob lsn name w

  unfoldable pub apply_catalog_op :
      {I : Type 0}
      → (kind : ℕ) → MutationOp
      → List ℕ
      → (lsn : ℕ) → WriteOverlay I
      → Result DbError (WriteOverlay I)
  apply_catalog_op kind op blob lsn w = do
    name ← blob_str usize_max is_utf8 blob (word_at op 1) (word_at op 2) lsn
    apply_named kind op blob lsn name w

  unfoldable pub decode_value :
      PropertyType → MutationOp → List ℕ → (lsn : ℕ) → Result DbError PropertyValue
  decode_value boolean_type op blob lsn = ok (boolean (not (word_at op 2 == 0)))
  decode_value integer_type op blob lsn = ok (integer (cast_signed (word_at op 2)))
  decode_value text_type op blob lsn = do
    string ← blob_str usize_max is_utf8 blob (word_at op 3) (word_at op 4) lsn
    ok (text string)

  module _ {I : Type 0} (idx : IndexOps I) (base : BaseRecords) where
    unfoldable pub apply_set_property :
        MutationOp → List ℕ → (lsn : ℕ) → WriteOverlay I → Result DbError (WriteOverlay I)
    apply_set_property op blob lsn w = do
      let (subject_kind, value_tag) = unpack_flags op.flags
      subject ←
          ok_or (decode_subject subject_kind (word_at op 0))
            (corrupt lsn "set-property subject kind")
      type ← ok_or (property_type_from_tag value_tag) (corrupt lsn "set-property value tag")
      value ← decode_value type op blob lsn
      ok (set_property_inner idx base subject (word_at op 1) value w)

    -- The case `OP_REMOVE_PROPERTY`.
    unfoldable pub apply_remove_property :
        MutationOp → (lsn : ℕ) → WriteOverlay I → Result DbError (WriteOverlay I)
    apply_remove_property op lsn w = do
      let (subject_kind, high) = unpack_flags op.flags
      subject ←
          ok_or (decode_subject subject_kind (word_at op 0))
            (corrupt lsn "remove-property subject kind")
      ok (remove_property_inner idx base subject (word_at op 1) w)

    unfoldable pub apply_replay_op :
        MutationOp → List ℕ → (lsn : ℕ) → WriteOverlay I → Result DbError (WriteOverlay I)
    apply_replay_op op blob lsn w =
        let kind = op.op_kind in
        if is_topology kind
        then ok (apply_topology_op idx base kind op w)
        else if kind == op_set_property
        then apply_set_property op blob lsn w
        else if kind == op_remove_property
        then apply_remove_property op lsn w
        else if is_catalog kind
        then apply_catalog_op kind op blob lsn w
        else if kind == op_next_id_watermark
        then ok (record w { next = watermark_of op })
        else err (corrupt lsn "unknown mutation op kind")

    -- The loop over a frame's ops.
    unfoldable pub apply_ops :
        List MutationOp → List ℕ → (lsn : ℕ) → WriteOverlay I → Result DbError (WriteOverlay I)
    apply_ops [] blob lsn w = ok w
    apply_ops (op ∷ ops) blob lsn w = do
      after ← apply_replay_op op blob lsn w
      apply_ops ops blob lsn after
