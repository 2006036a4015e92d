-- ===== src/Db/Overlay.antt =====
-- crates/oxgraph-db/src/overlay: the delta of a write transaction over a base.
pub mod Log
pub mod Inner
pub mod Write
pub mod Replay
pub mod Blob
pub mod View
pub mod Words
pub mod Sound
use oxgraph.Prelude.{ℕ, Option, List, []}
use oxgraph.Db.State.{
  ElementRecord, RelationRecord, IncidenceRecord, PropertySubject, PropertyValue, NextIds,
}
use oxgraph.Db.Catalog.{Catalog}
use oxgraph.Db.Map.{Map}
use oxgraph.Db.Overlay.Log.{MutationLog, empty_log}

-- `BaseRecords` without its own index, which the writer does not read.
pub record BaseRecords : Type 0 where
  pub elements : Map ℕ ElementRecord
  pub relations : Map ℕ RelationRecord
  pub incidences : Map ℕ IncidenceRecord
  pub properties : Map PropertySubject (Map ℕ PropertyValue)

-- A record, or a tombstone.
abbrev pub Delta : Type 0 → Type 0
Delta R = Map ℕ (Option R)

abbrev pub SubjectDelta : Type 0
SubjectDelta = Map ℕ (Option PropertyValue)

-- What the writer calls of `OverlayIndex` (index.rs), on an index of the type `I`.
pub record IndexOps (I : Type 0) : Type 0 where
  pub empty_index : I
  pub on_create_incidence : (id relation element : ℕ) → I → I
  pub on_tombstone_element : (id : ℕ) → (labels : List ℕ) → Map ℕ PropertyValue → I → I
  pub on_tombstone_relation : (id : ℕ) → (relation_type : Option ℕ) → Map ℕ PropertyValue → I → I
  pub on_tombstone_incidence : (id relation element : ℕ) → Map ℕ PropertyValue → I → I
  pub on_add_element_label : (element label : ℕ) → I → I
  pub on_set_relation_type : (relation : ℕ) → (previous : Option ℕ) → (relation_type : ℕ) → I → I
  pub on_set_property :
      PropertySubject → (key : ℕ) → (previous : Option PropertyValue) → PropertyValue → I → I
  pub on_remove_property : PropertySubject → (key : ℕ) → (previous : Option PropertyValue) → I → I

-- The published overlay.
pub record Overlay (I : Type 0) : Type 0 where
  pub elements : Delta ElementRecord
  pub relations : Delta RelationRecord
  pub incidences : Delta IncidenceRecord
  pub properties : Map PropertySubject SubjectDelta
  pub catalog : Catalog
  pub next : NextIds
  pub index : I

pub record WriteOverlay (I : Type 0) : Type 0 where
  pub elements : Delta ElementRecord
  pub relations : Delta RelationRecord
  pub incidences : Delta IncidenceRecord
  pub properties : Map PropertySubject SubjectDelta
  pub catalog : Catalog
  pub next : NextIds
  pub log : MutationLog
  pub index : I

module _ {I : Type 0} where
  -- `WriteOverlay::new`
  abbrev pub new_overlay : IndexOps I → NextIds → Catalog → WriteOverlay I
  new_overlay ops next catalog = record {
    elements = [];
    relations = [];
    incidences = [];
    properties = [];
    catalog = catalog;
    next = next;
    log = empty_log;
    index = ops.empty_index;
  }

  abbrev pub from_overlay : Overlay I → WriteOverlay I
  from_overlay parent = record {
    elements = parent.elements;
    relations = parent.relations;
    incidences = parent.incidences;
    properties = parent.properties;
    catalog = parent.catalog;
    next = parent.next;
    log = empty_log;
    index = parent.index;
  }

  abbrev pub freeze : WriteOverlay I → Overlay I
  freeze w = record {
    elements = w.elements;
    relations = w.relations;
    incidences = w.incidences;
    properties = w.properties;
    catalog = w.catalog;
    next = w.next;
    index = w.index;
  }
