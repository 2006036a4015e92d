-- ===== src/Db/Wire/Defs.antt =====
-- crates/oxgraph-db/src/wire/defs.rs: the words of projection and index definitions. A function
-- that moves the cursor returns the words from it on; `usize_max` is the host's `usize::MAX`.
use Prim.Native.String.{String}
use oxgraph.Prelude.{
  ℕ, ◌+◌, Option, none, some, List, [], ◌∷◌, ◌++◌, length, take, drop, leb, ◌==◌, if◌then◌else◌,
  Result, ok, err, ◌>>=◌, ◌>>◌, guard, ok_or,
}
use oxgraph.Db.Catalog.{
  Name, ProjectionDefinition, graph, hypergraph, IndexDefinition, label_index, relation_type_index,
  property_equality, property_range, composite_equality, projection_index,
}
use oxgraph.Db.Map.{set_of, nat_ord}

abbrev pub head? : List ℕ → Option ℕ
head? [] = none
head? (x ∷ xs) = some x

abbrev pub push_id_set : List ℕ → List ℕ
push_id_set ids = length ids ∷ ids

-- The discriminants are the `DEF_*` constants.
abbrev pub encode_projection_body : ProjectionDefinition → ℕ × List ℕ
encode_projection_body (graph name relation_types source_role target_role) =
    (0, source_role ∷ target_role ∷ push_id_set relation_types)
encode_projection_body (hypergraph name relation_types source_roles target_roles) =
    (1, push_id_set source_roles ++ (push_id_set target_roles ++ push_id_set relation_types))

abbrev pub encode_index_body : IndexDefinition → ℕ × List ℕ
encode_index_body (label_index label) = (0, label ∷ [])
encode_index_body (relation_type_index relation_type) = (1, relation_type ∷ [])
encode_index_body (property_equality key) = (2, key ∷ [])
encode_index_body (property_range key) = (3, key ∷ [])
encode_index_body (composite_equality keys) = (4, keys)
encode_index_body (projection_index projection) = (5, projection ∷ [])

-- `None` of `words.get(cursor..end)` for an end past the slice.
abbrev pub split_at? : ℕ → List ℕ → Option (List ℕ × List ℕ)
split_at? n words = if leb n (length words) then some (take n words, drop n words) else none

-- The bounds: `passed` words stand before the cursor.
unfoldable pub read_id_set : (usize_max passed : ℕ) → List ℕ → Result String (List ℕ × List ℕ)
read_id_set usize_max passed words = do
  count ← ok_or (head? words) "def missing id-set length"
  guard (leb count usize_max) "def id-set length overflow"
  guard (leb (passed + 1 + count) usize_max) "def id-set overflow"
  ok_or (split_at? count (drop 1 words)) "def id-set out of bounds"

-- The case `DEF_PROJECTION_GRAPH`.
unfoldable pub decode_graph_body :
    (usize_max : ℕ) → Name → List ℕ → Result String ProjectionDefinition
decode_graph_body usize_max name words = do
  source_role ← ok_or (head? words) "graph def missing source role"
  target_role ← ok_or (head? (drop 1 words)) "graph def missing target role"
  relation_types ← read_id_set usize_max 2 (drop 2 words)
  ok (graph name (set_of relation_types.0) source_role target_role)

-- The case `DEF_PROJECTION_HYPER`.
unfoldable pub decode_hypergraph_body :
    (usize_max : ℕ) → Name → List ℕ → Result String ProjectionDefinition
decode_hypergraph_body usize_max name words = do
  source_roles ← read_id_set usize_max 0 words
  let after_sources = 1 + length source_roles.0
  target_roles ← read_id_set usize_max after_sources source_roles.1
  let after_targets = after_sources + (1 + length target_roles.0)
  relation_types ← read_id_set usize_max after_targets target_roles.1
  ok (hypergraph name (set_of relation_types.0) (set_of source_roles.0) (set_of target_roles.0))

abbrev pub decode_projection_body :
    (usize_max discriminant : ℕ) → Name → List ℕ → Result String ProjectionDefinition
decode_projection_body usize_max discriminant name words =
    if discriminant == 0
    then decode_graph_body usize_max name words
    else if discriminant == 1
    then decode_hypergraph_body usize_max name words
    else err "unknown projection definition kind"

abbrev pub decode_index_body : (discriminant : ℕ) → List ℕ → Result String IndexDefinition
decode_index_body discriminant words =
    let first : (ℕ → IndexDefinition) → Result String IndexDefinition =
      λ make. (ok_or (head? words) "index def missing id" >>= λ id. ok (make id)) in
    if discriminant == 0
    then first label_index
    else if discriminant == 1
    then first relation_type_index
    else if discriminant == 2
    then first property_equality
    else if discriminant == 3
    then first property_range
    else if discriminant == 4
    then ok (composite_equality words)
    else if discriminant == 5
    then first projection_index
    else err "unknown index definition kind"
