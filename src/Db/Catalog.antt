-- ===== src/Db/Catalog.antt =====
-- crates/oxgraph-db/src/catalog.rs: the catalog. A name is the bytes of a `String`.
use oxgraph.Prelude.{ℕ, List, [], Result, ok, err, ◌>>=◌, if◌then◌else◌}
use oxgraph.Db.Errors.{CatalogError, duplicate_name}
use oxgraph.Db.State.{PropertyFamily, PropertyType}
use oxgraph.Db.Map.{Map, insert, contains_key, nat_ord, list_ord}

abbrev pub Name : Type 0
Name = List ℕ

-- `RoleDefinition`, `LabelDefinition` and `RelationTypeDefinition`.
pub record NamedDefinition : Type 0 where
  pub id : ℕ
  pub name : Name

pub record PropertyKeyDefinition : Type 0 where
  pub id : ℕ
  pub name : Name
  pub family : PropertyFamily
  pub value_type : PropertyType

-- The id sets are in ascending order.
pub data ProjectionDefinition : Type 0 where
  graph :
      (name : Name) (relation_types : List ℕ) (source_role target_role : ℕ) → ProjectionDefinition
  hypergraph :
      (name : Name) (relation_types source_roles target_roles : List ℕ) → ProjectionDefinition

abbrev pub definition_name : ProjectionDefinition → Name
definition_name (graph name relation_types source_role target_role) = name
definition_name (hypergraph name relation_types source_roles target_roles) = name

pub data IndexDefinition : Type 0 where
  label_index : (label : ℕ) → IndexDefinition
  relation_type_index : (relation_type : ℕ) → IndexDefinition
  property_equality property_range : (key : ℕ) → IndexDefinition
  composite_equality : (keys : List ℕ) → IndexDefinition
  projection_index : (projection : ℕ) → IndexDefinition

pub record IndexEntry : Type 0 where
  pub id : ℕ
  pub name : Name
  pub definition : IndexDefinition

pub record ProjectionEntry : Type 0 where
  pub id : ℕ
  pub definition : ProjectionDefinition

pub record Catalog : Type 0 where
  pub roles : Map ℕ NamedDefinition
  pub role_names : Map Name ℕ
  pub labels : Map ℕ NamedDefinition
  pub label_names : Map Name ℕ
  pub relation_types : Map ℕ NamedDefinition
  pub relation_type_names : Map Name ℕ
  pub property_keys : Map ℕ PropertyKeyDefinition
  pub property_key_names : Map Name ℕ
  pub projections : Map ℕ ProjectionEntry
  pub projection_names : Map Name ℕ
  pub indexes : Map ℕ IndexEntry
  pub index_names : Map Name ℕ

-- `Catalog::empty`
abbrev pub empty_catalog : Catalog
empty_catalog = record {
  roles = [];
  role_names = [];
  labels = [];
  label_names = [];
  relation_types = [];
  relation_type_names = [];
  property_keys = [];
  property_key_names = [];
  projections = [];
  projection_names = [];
  indexes = [];
  index_names = [];
}

-- The map with the name, where it is new.
unfoldable pub insert_named : Map Name ℕ → Name → ℕ → Result CatalogError (Map Name ℕ)
insert_named names name id =
    if contains_key name names then err duplicate_name else ok (insert name id names)

abbrev pub insert_role : ℕ → Name → Catalog → Result CatalogError Catalog
insert_role id name c = do
  names ← insert_named c.role_names name id
  let definition : NamedDefinition = record { id = id; name = name }
  ok (record c { role_names = names; roles = insert id definition c.roles })

abbrev pub insert_label : ℕ → Name → Catalog → Result CatalogError Catalog
insert_label id name c = do
  names ← insert_named c.label_names name id
  let definition : NamedDefinition = record { id = id; name = name }
  ok (record c { label_names = names; labels = insert id definition c.labels })

abbrev pub insert_relation_type : ℕ → Name → Catalog → Result CatalogError Catalog
insert_relation_type id name c = do
  names ← insert_named c.relation_type_names name id
  let definition : NamedDefinition = record { id = id; name = name }
  ok (record c {
    relation_type_names = names;
    relation_types = insert id definition c.relation_types;
  })

abbrev pub insert_property_key : PropertyKeyDefinition → Catalog → Result CatalogError Catalog
insert_property_key definition c = do
  names ← insert_named c.property_key_names definition.name definition.id
  ok (record c {
    property_key_names = names;
    property_keys = insert definition.id definition c.property_keys;
  })

abbrev pub insert_projection : ℕ → ProjectionDefinition → Catalog → Result CatalogError Catalog
insert_projection id definition c = do
  names ← insert_named c.projection_names (definition_name definition) id
  let entry : ProjectionEntry = record { id = id; definition = definition }
  ok (record c { projection_names = names; projections = insert id entry c.projections })

abbrev pub insert_index : ℕ → Name → IndexDefinition → Catalog → Result CatalogError Catalog
insert_index id name definition c = do
  names ← insert_named c.index_names name id
  let entry : IndexEntry = record { id = id; name = name; definition = definition }
  ok (record c { index_names = names; indexes = insert id entry c.indexes })
