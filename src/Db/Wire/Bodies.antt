-- ===== src/Db/Wire/Bodies.antt =====
-- crates/oxgraph-db/src/wire/defs.rs: definitions read back from their words.
use oxgraph.Prelude.{
  ℕ, ◌+◌, ◌≤◌, ◌<◌, ◌≡◌, refl, ap, List, [], ◌∷◌, ◌++◌, length, ok, arith, le→leb, take-append,
  drop-append, length-append, append-nil, sym, ◌∙◌,
}
use oxgraph.Db.Catalog.{
  ProjectionDefinition, definition_name, graph, hypergraph, IndexDefinition, label_index,
  relation_type_index, property_equality, property_range, composite_equality, projection_index,
}
use oxgraph.Db.Map.{set_of, set_insert, nat_ord}
use oxgraph.Db.Wire.Defs.{
  push_id_set, encode_projection_body, encode_index_body, read_id_set, decode_graph_body,
  decode_hypergraph_body, decode_projection_body, decode_index_body,
}

-- The ids of a `BTreeSet`, in its order: strictly ascending.
abbrev pub IsIdSet : List ℕ → Type 0
IsIdSet [] = Unit
IsIdSet (x ∷ []) = Unit
IsIdSet (x ∷ y ∷ rest) = (x < y) × IsIdSet (y ∷ rest)

abbrev pub IsProjection : ProjectionDefinition → Type 0
IsProjection (graph name relation_types source_role target_role) = IsIdSet relation_types
IsProjection (hypergraph name relation_types source_roles target_roles) =
    IsIdSet relation_types × IsIdSet source_roles × IsIdSet target_roles

pub set_of_id_set : (ids : List ℕ) → IsIdSet ids → set_of ids ≡ ids
unfolding set_of set_insert nat_ord
set_of_id_set [] h = refl
set_of_id_set (x ∷ []) h = refl
set_of_id_set (x ∷ y ∷ rest) (less, more) = rw (set_of_id_set (y ∷ rest) more) (ground arith)

-- A set is read back with the words after it.
pub read_id_set-push_id_set :
    (usize_max passed : ℕ) (ids rest : List ℕ)
    → passed + 1 + length ids ≤ usize_max
    → read_id_set usize_max passed (push_id_set ids ++ rest) ≡ ok (ids, rest)
unfolding read_id_set
read_id_set-push_id_set usize_max passed ids rest fits =
    let inside : length ids ≤ length (ids ++ rest) = omega (arith, length-append ids rest) in
    rw
      (
        le→leb (length ids) usize_max (omega arith),
        le→leb (passed + 1 + length ids) usize_max fits,
        le→leb (length ids) (length (ids ++ rest)) inside,
        take-append (length ids) ids rest refl,
        drop-append (length ids) ids rest refl,
      )
      refl

-- A projection whose id sets are sets, and whose words a slice can hold, is read back from its
-- words, discriminant and name.
pub decode_projection_body-encode_projection_body :
    (usize_max : ℕ) (definition : ProjectionDefinition)
    → IsProjection definition
    → length (encode_projection_body definition).1 ≤ usize_max
    → decode_projection_body usize_max
        (encode_projection_body definition).0
        (definition_name definition)
        (encode_projection_body definition).1
      ≡ ok definition
unfolding decode_graph_body decode_hypergraph_body
decode_projection_body-encode_projection_body usize_max (graph name types source target) set fits =
    let read : read_id_set usize_max 2 (length types ∷ types) ≡ ok (types, []) =
      ap (read_id_set usize_max 2) (sym (append-nil (push_id_set types)))
      ∙ read_id_set-push_id_set usize_max 2 types [] (omega arith) in
    rw (read, set_of_id_set types set) refl
decode_projection_body-encode_projection_body usize_max (hypergraph name types sources targets)
      (types_set, sources_set, targets_set) fits =
    let size = length-append (push_id_set sources) (push_id_set targets ++ push_id_set types) in
    let more = length-append (push_id_set targets) (push_id_set types) in
    let first =
      read_id_set-push_id_set usize_max 0 sources (push_id_set targets ++ push_id_set types)
        (omega arith) in
    let second =
      read_id_set-push_id_set usize_max (1 + length sources) targets (push_id_set types)
        (omega arith) in
    let third : read_id_set usize_max (1 + length sources + (1 + length targets))
          (length types ∷ types)
        ≡ ok (types, []) =
      ap (read_id_set usize_max (1 + length sources + (1 + length targets)))
        (sym (append-nil (push_id_set types)))
      ∙ read_id_set-push_id_set usize_max (1 + length sources + (1 + length targets)) types []
          (omega arith) in
    rw
      (
        first,
        second,
        third,
        set_of_id_set types types_set,
        set_of_id_set sources sources_set,
        set_of_id_set targets targets_set,
      )
      refl

pub decode_index_body-encode_index_body :
    (definition : IndexDefinition)
    → decode_index_body (encode_index_body definition).0 (encode_index_body definition).1
      ≡ ok definition
decode_index_body-encode_index_body (label_index label) = refl
decode_index_body-encode_index_body (relation_type_index relation_type) = refl
decode_index_body-encode_index_body (property_equality key) = refl
decode_index_body-encode_index_body (property_range key) = refl
decode_index_body-encode_index_body (composite_equality keys) = refl
decode_index_body-encode_index_body (projection_index projection) = refl
