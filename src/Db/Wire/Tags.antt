-- ===== src/Db/Wire/Tags.antt =====
-- crates/oxgraph-db/src/wire.rs: the op kinds of the delta log and the tags that its ops carry.
use oxgraph.Prelude.{ℕ, ◌+◌, ◌*◌, ◌/◌, ◌%◌, Option, none, some, ◌==◌, if◌then◌else◌}
use oxgraph.Db.State.{
  PropertyFamily, element_family, relation_family, incidence_family, PropertySubject,
  element_subject, relation_subject, incidence_subject, PropertyType, boolean_type, integer_type,
  text_type,
}

abbrev pub op_create_element : ℕ
op_create_element = 1

abbrev pub op_tombstone_element : ℕ
op_tombstone_element = 2

abbrev pub op_create_relation : ℕ
op_create_relation = 3

abbrev pub op_tombstone_relation : ℕ
op_tombstone_relation = 4

abbrev pub op_create_incidence : ℕ
op_create_incidence = 5

abbrev pub op_tombstone_incidence : ℕ
op_tombstone_incidence = 6

abbrev pub op_set_relation_type : ℕ
op_set_relation_type = 7

abbrev pub op_add_element_label : ℕ
op_add_element_label = 8

abbrev pub op_add_relation_label : ℕ
op_add_relation_label = 9

abbrev pub op_set_property : ℕ
op_set_property = 10

abbrev pub op_remove_property : ℕ
op_remove_property = 11

abbrev pub op_catalog_register_role : ℕ
op_catalog_register_role = 12

abbrev pub op_catalog_register_label : ℕ
op_catalog_register_label = 13

abbrev pub op_catalog_register_relation_type : ℕ
op_catalog_register_relation_type = 14

abbrev pub op_catalog_register_property_key : ℕ
op_catalog_register_property_key = 15

abbrev pub op_catalog_register_projection : ℕ
op_catalog_register_projection = 16

abbrev pub op_catalog_register_index : ℕ
op_catalog_register_index = 17

abbrev pub op_next_id_watermark : ℕ
op_next_id_watermark = 18

abbrev pub property_family_tag : PropertyFamily → ℕ
property_family_tag element_family = 0
property_family_tag relation_family = 1
property_family_tag incidence_family = 2

abbrev pub property_family_from_tag : ℕ → Option PropertyFamily
property_family_from_tag tag =
    if tag == 0
    then some element_family
    else if tag == 1
    then some relation_family
    else if tag == 2
    then some incidence_family
    else none

abbrev pub property_type_tag : PropertyType → ℕ
property_type_tag boolean_type = 0
property_type_tag integer_type = 1
property_type_tag text_type = 2

abbrev pub property_type_from_tag : ℕ → Option PropertyType
property_type_from_tag tag =
    if tag == 0
    then some boolean_type
    else if tag == 1
    then some integer_type
    else if tag == 2
    then some text_type
    else none

abbrev pub encode_subject : PropertySubject → ℕ × ℕ
encode_subject (element_subject id) = (0, id)
encode_subject (relation_subject id) = (1, id)
encode_subject (incidence_subject id) = (2, id)

abbrev pub decode_subject : (kind id : ℕ) → Option PropertySubject
decode_subject kind id =
    if kind == 0
    then some (element_subject id)
    else if kind == 1
    then some (relation_subject id)
    else if kind == 2
    then some (incidence_subject id)
    else none

-- The two halves are disjoint, so the `|` is a sum.
abbrev pub pack_flags : ℕ → ℕ → ℕ
pack_flags low high = low % 0x1_0000 + high % 0x1_0000 * 0x1_0000

abbrev pub unpack_flags : ℕ → ℕ × ℕ
unpack_flags flags = (flags % 0x1_0000, flags / 0x1_0000)
