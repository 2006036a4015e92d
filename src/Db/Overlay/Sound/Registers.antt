-- ===== src/Db/Overlay/Sound/Registers.antt =====
-- crates/oxgraph-db/src/overlay/write.rs: the ops of the catalog's registrations replay.
use mathlib.Core.List.{flat_map}
use oxgraph.Prelude.{
  ℕ, ◌*◌, ◌^◌, ◌≤◌, ◌≡◌, refl, ap, sym, ◌∙◌, subst, Bool, true, List, [], ◌∷◌, ◌++◌, length, Result,
  ok, err, append_assoc, length-append, le_bytes, arith,
}
use oxgraph.Db.Errors.{
  CatalogError, role_id, label_id, relation_type_id, property_key_id, projection_id, index_id,
}
use oxgraph.Db.State.{
  NextIds, checked_next, PropertyFamily, element_family, relation_family, incidence_family,
  PropertyType, boolean_type, integer_type, text_type,
}
use oxgraph.Db.Catalog.{
  Name, Catalog, ProjectionDefinition, definition_name, IndexDefinition, insert_role, insert_label,
  insert_relation_type, insert_property_key, insert_projection, insert_index,
}
use oxgraph.Snapshot.Words.{AllBelow, length-flat_map}
use oxgraph.Db.Wire.{MutationOp}
use oxgraph.Db.Wire.Tags.{
  op_catalog_register_property_key, pack_flags, property_family_tag, property_type_tag,
}
use oxgraph.Db.Wire.Defs.{encode_projection_body, encode_index_body}
use oxgraph.Db.Wire.Bodies.{
  IsProjection, decode_projection_body-encode_projection_body, decode_index_body-encode_index_body,
}
use oxgraph.Db.Overlay.{BaseRecords, IndexOps, WriteOverlay}
use oxgraph.Db.Overlay.Log.{op_with, payload_of, blob_str, decode_def_words}
use oxgraph.Db.Overlay.Write.{
  registered, register_role, register_label, register_relation_type, register_property_key,
  register_projection, register_index,
}
use oxgraph.Db.Overlay.Replay.{
  apply_replay_op, apply_catalog_op, apply_named, apply_property_key, apply_projection, apply_index,
  apply_registered,
}
use oxgraph.Db.Overlay.Blob.{blob_str-intern, decode_def_words-intern_words}
use oxgraph.Db.Overlay.Sound.{Replays, Replays-op, Replays-blob, Replays-or_overflow, replica}

-- The words of the definition's ids are `u64`.
abbrev pub IsProjectionCall : ProjectionDefinition → Type 0
IsProjectionCall definition =
    IsProjection definition × AllBelow (256 ^ 8) (encode_projection_body definition).1

abbrev pub IsIndexCall : IndexDefinition → Type 0
IsIndexCall definition = AllBelow (256 ^ 8) (encode_index_body definition).1

-- A name and the words of a definition, interned one after the other.
module _ (usize_max : ℕ) (is_utf8 : List ℕ → Bool) (blob name words rest : List ℕ) (lsn : ℕ)
    (fits : length (blob ++ ((name ++ flat_map (le_bytes 8) words) ++ rest)) ≤ usize_max) where
  abbrev bytes : List ℕ
  bytes = flat_map (le_bytes 8) words

  name_first : blob ++ ((name ++ bytes) ++ rest) ≡ blob ++ (name ++ (bytes ++ rest))
  name_first = ap (λ (b : List ℕ). blob ++ b) (append_assoc name bytes rest)

  words_next : blob ++ ((name ++ bytes) ++ rest) ≡ (blob ++ name) ++ (bytes ++ rest)
  words_next = name_first ∙ sym (append_assoc blob name (bytes ++ rest))

  pub blob_str-definition :
      is_utf8 name ≡ true
      → blob_str usize_max is_utf8
          (blob ++ ((name ++ flat_map (le_bytes 8) words) ++ rest))
          (length blob)
          (length name)
          lsn
        ≡ ok name
  blob_str-definition valid =
      subst (λ (b : List ℕ). blob_str usize_max is_utf8 b (length blob) (length name) lsn ≡ ok name)
        (sym name_first)
        (blob_str-intern usize_max blob name (bytes ++ rest)
          (subst (λ (b : List ℕ). length b ≤ usize_max) name_first fits) is_utf8 lsn valid)

  pub decode_def_words-definition :
      AllBelow (256 ^ 8) words
      → decode_def_words usize_max
          (blob ++ ((name ++ flat_map (le_bytes 8) words) ++ rest))
          (length (blob ++ name))
          (length words * 8)
          lsn
        ≡ ok words
  decode_def_words-definition below =
      subst
        (λ (b : List ℕ).
          decode_def_words usize_max b (length (blob ++ name)) (length words * 8) lsn ≡ ok words)
        (sym words_next)
        (decode_def_words-intern_words usize_max (blob ++ name) words rest lsn
          (subst (λ (b : List ℕ). length b ≤ usize_max) words_next fits) below)

  pub words_fit : length words ≤ usize_max
  words_fit = omega (
    arith,
    fits,
    length-append blob ((name ++ flat_map (le_bytes 8) words) ++ rest),
    length-append (name ++ flat_map (le_bytes 8) words) rest,
    length-append name (flat_map (le_bytes 8) words),
    length-flat_map 8 words,
  )

apply_property_key_lem :
    {I : Type 0} (name : Name) (family : PropertyFamily) (type : PropertyType) (id off len lsn : ℕ)
    (w : WriteOverlay I)
    → apply_property_key
        (op_with op_catalog_register_property_key
          (pack_flags (property_family_tag family) (property_type_tag type))
          (id ∷ off ∷ len ∷ []))
        lsn
        name
        w
      ≡ apply_registered w (
          insert_property_key
            (record { id = id; name = name; family = family; value_type = type })
            w.catalog)
unfolding apply_property_key payload_of
apply_property_key_lem name element_family boolean_type id off len lsn w = refl
apply_property_key_lem name element_family integer_type id off len lsn w = refl
apply_property_key_lem name element_family text_type id off len lsn w = refl
apply_property_key_lem name relation_family boolean_type id off len lsn w = refl
apply_property_key_lem name relation_family integer_type id off len lsn w = refl
apply_property_key_lem name relation_family text_type id off len lsn w = refl
apply_property_key_lem name incidence_family boolean_type id off len lsn w = refl
apply_property_key_lem name incidence_family integer_type id off len lsn w = refl
apply_property_key_lem name incidence_family text_type id off len lsn w = refl

module _ (usize_max : ℕ) (is_utf8 : List ℕ → Bool) {I : Type 0} (idx : IndexOps I)
    (base : BaseRecords) (start w : WriteOverlay I)
    (so_far : Replays usize_max is_utf8 idx base start w) where
  -- A registration whose op replays as the insertion does.
  Replays-registered :
      (inserted : Result CatalogError Catalog) (bumped : WriteOverlay I) (piece : List ℕ)
      (id op_kind flags : ℕ) (words : List ℕ)
      → bumped.log.blob ≡ w.log.blob ++ piece
      → bumped.log.ops ≡ w.log.ops
      → ((next : NextIds) → replica w next ≡ replica bumped next)
      → ((rest : List ℕ) (lsn : ℕ) (next : NextIds)
          → length (w.log.blob ++ (piece ++ rest)) ≤ usize_max
          → apply_replay_op usize_max is_utf8 idx base
              (op_with op_kind flags words)
              (w.log.blob ++ (piece ++ rest))
              lsn
              (replica w next)
            ≡ apply_registered (replica bumped next) inserted)
      → Replays usize_max is_utf8 idx base start
          (registered inserted bumped id op_kind flags words).0
  Replays-registered (err error) bumped piece id op_kind flags words blob_eq ops_eq same step =
      Replays-blob usize_max is_utf8 idx base start w bumped piece so_far blob_eq ops_eq same
  Replays-registered (ok after) bumped piece id op_kind flags words blob_eq ops_eq same step =
      Replays-op usize_max is_utf8 idx base start w _ piece (op_with op_kind flags words) so_far
        blob_eq (ap (λ (l : List MutationOp). l ++ op_with op_kind flags words ∷ []) ops_eq) step

  pub Replays-register_role :
      (name : Name)
      → is_utf8 name ≡ true
      → Replays usize_max is_utf8 idx base start (register_role name w).0
  unfolding apply_replay_op apply_catalog_op apply_named payload_of
  Replays-register_role name valid =
      Replays-or_overflow usize_max is_utf8 idx base start w (checked_next w.next.role) role_id _
        so_far
        (λ n.
          Replays-registered (insert_role w.next.role name w.catalog) _ name _ _ _ _ refl refl
            (λ next. refl)
            (λ rest lsn next fits.
              rw (blob_str-intern usize_max w.log.blob name rest fits is_utf8 lsn valid) refl))

  pub Replays-register_label :
      (name : Name)
      → is_utf8 name ≡ true
      → Replays usize_max is_utf8 idx base start (register_label name w).0
  unfolding apply_replay_op apply_catalog_op apply_named payload_of
  Replays-register_label name valid =
      Replays-or_overflow usize_max is_utf8 idx base start w (checked_next w.next.label) label_id _
        so_far
        (λ n.
          Replays-registered (insert_label w.next.label name w.catalog) _ name _ _ _ _ refl refl
            (λ next. refl)
            (λ rest lsn next fits.
              rw (blob_str-intern usize_max w.log.blob name rest fits is_utf8 lsn valid) refl))

  pub Replays-register_relation_type :
      (name : Name)
      → is_utf8 name ≡ true
      → Replays usize_max is_utf8 idx base start (register_relation_type name w).0
  unfolding apply_replay_op apply_catalog_op apply_named payload_of
  Replays-register_relation_type name valid =
      Replays-or_overflow usize_max is_utf8 idx base start w (checked_next w.next.relation_type)
        relation_type_id _ so_far
        (λ n.
          Replays-registered (insert_relation_type w.next.relation_type name w.catalog) _ name _ _ _
            _ refl refl (λ next. refl)
            (λ rest lsn next fits.
              rw (blob_str-intern usize_max w.log.blob name rest fits is_utf8 lsn valid) refl))

  pub Replays-register_property_key :
      (name : Name) (family : PropertyFamily) (type : PropertyType)
      → is_utf8 name ≡ true
      → Replays usize_max is_utf8 idx base start (register_property_key name family type w).0
  unfolding apply_replay_op apply_catalog_op apply_named apply_property_key payload_of
  Replays-register_property_key name family type valid =
      Replays-or_overflow usize_max is_utf8 idx base start w (checked_next w.next.property_key)
        property_key_id _ so_far
        (λ n.
          Replays-registered
            (insert_property_key
              (record { id = w.next.property_key; name = name; family = family; value_type = type })
              w.catalog)
            _ name _ _ _ _ refl refl (λ next. refl)
            (λ rest lsn next fits.
              rw (blob_str-intern usize_max w.log.blob name rest fits is_utf8 lsn valid) (
                apply_property_key_lem name family type w.next.property_key (length w.log.blob)
                  (length name) lsn (replica w next))))

  pub Replays-register_projection :
      (definition : ProjectionDefinition)
      → is_utf8 (definition_name definition) ≡ true
      → IsProjectionCall definition
      → Replays usize_max is_utf8 idx base start (register_projection definition w).0
  unfolding apply_replay_op apply_catalog_op apply_named apply_projection payload_of
  Replays-register_projection definition valid (proper, below) =
      let name = definition_name definition in
      let words = (encode_projection_body definition).1 in
      Replays-or_overflow usize_max is_utf8 idx base start w (checked_next w.next.projection)
        projection_id _ so_far
        (λ n.
          Replays-registered (insert_projection w.next.projection definition w.catalog) _
            (name ++ flat_map (le_bytes 8) words) _ _ _ _
            (append_assoc w.log.blob name (flat_map (le_bytes 8) words)) refl (λ next. refl)
            (λ rest lsn next fits.
              rw
                (
                  blob_str-definition usize_max is_utf8 w.log.blob name words rest lsn fits valid,
                  decode_def_words-definition usize_max is_utf8 w.log.blob name words rest lsn fits
                      below,
                  decode_projection_body-encode_projection_body usize_max definition proper
                      (words_fit usize_max is_utf8 w.log.blob name words rest lsn fits),
                )
                refl))

  pub Replays-register_index :
      (name : Name) (definition : IndexDefinition)
      → is_utf8 name ≡ true
      → IsIndexCall definition
      → Replays usize_max is_utf8 idx base start (register_index name definition w).0
  unfolding apply_replay_op apply_catalog_op apply_named apply_index payload_of
  Replays-register_index name definition valid below =
      let words = (encode_index_body definition).1 in
      Replays-or_overflow usize_max is_utf8 idx base start w (checked_next w.next.index) index_id _
        so_far
        (λ n.
          Replays-registered (insert_index w.next.index name definition w.catalog) _
            (name ++ flat_map (le_bytes 8) words) _ _ _ _
            (append_assoc w.log.blob name (flat_map (le_bytes 8) words)) refl (λ next. refl)
            (λ rest lsn next fits.
              rw
                (
                  blob_str-definition usize_max is_utf8 w.log.blob name words rest lsn fits valid,
                  decode_def_words-definition usize_max is_utf8 w.log.blob name words rest lsn fits
                      below,
                  decode_index_body-encode_index_body definition,
                )
                refl))
