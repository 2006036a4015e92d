-- ===== src/Db/Index.antt =====
-- crates/oxgraph-db/src/index.rs: the posting deltas that a writer maintains, and their merge with
-- the base's postings. A posting is its members, in ascending order.
pub mod Order
pub mod Postings
pub mod InStep
pub mod Withdrawn
pub mod Lockstep
pub mod Calls
pub mod Scan
use Prim.Native.Nat.{Ordering, compare}
use Prim.Native.Nat.Ordering.{lt, eq, gt}
use oxgraph.Prelude.{
  ℕ, ◌≡◌, refl, ap, Bool, true, false, Option, none, some, List, [], ◌∷◌, arith, if◌then◌else◌,
  ◌==◌,
}
use oxgraph.Db.State.{
  ℤ, pos, negsuc, PropertySubject, element_subject, relation_subject, incidence_subject,
  PropertyValue, boolean, integer, text, ==value, subject_ord,
}
use oxgraph.Db.Map.{Ord, Map, get, insert, remove, set_insert, nat_ord, list_ord, cmp_list}
use oxgraph.Db.Index.Order.{EqualityKey, equality_ord}
use oxgraph.Db.Overlay.{IndexOps}
use oxgraph.Db.Overlay.Inner.{or_default}

pub record OverlayIndex : Type 0 where
  pub label_added : Map ℕ (List ℕ)
  pub label_removed : Map ℕ (List ℕ)
  pub relation_type_added : Map ℕ (List ℕ)
  pub relation_type_removed : Map ℕ (List ℕ)
  pub equality_added : Map EqualityKey (List PropertySubject)
  pub equality_removed : Map EqualityKey (List PropertySubject)
  pub element_incidence_added : Map ℕ (List ℕ)
  pub element_incidence_removed : Map ℕ (List ℕ)
  pub relation_incidence_added : Map ℕ (List ℕ)
  pub relation_incidence_removed : Map ℕ (List ℕ)

-- `OverlayIndex::new`
abbrev pub new_index : OverlayIndex
new_index = record {
  label_added = [];
  label_removed = [];
  relation_type_added = [];
  relation_type_removed = [];
  equality_added = [];
  equality_removed = [];
  element_incidence_added = [];
  element_incidence_removed = [];
  relation_incidence_added = [];
  relation_incidence_removed = [];
}

module _ {M : Type 0} ⦃m : Ord M⦄ where
  -- `BTreeSet::contains`
  unfoldable pub set_contains : M → List M → Bool
  set_contains x [] = false
  set_contains x (y ∷ ys) = elim (m.cmp x y) [
    | eq ↦ true
    | lt ↦ set_contains x ys
    | gt ↦ set_contains x ys
  ]

  -- `BTreeSet::remove`
  unfoldable pub set_remove : M → List M → List M
  set_remove x [] = []
  set_remove x (y ∷ ys) = elim (m.cmp x y) [
    | eq ↦ set_remove x ys
    | lt ↦ y ∷ set_remove x ys
    | gt ↦ y ∷ set_remove x ys
  ]

  -- The loops of `extend` and of the removals.
  unfoldable pub set_extend : List M → List M → List M
  set_extend [] visible = visible
  set_extend (x ∷ xs) visible = set_extend xs (set_insert x visible)

  unfoldable pub set_remove_all : List M → List M → List M
  set_remove_all [] visible = visible
  set_remove_all (x ∷ xs) visible = set_remove_all xs (set_remove x visible)

  abbrev pub members_of : Option (List M) → List M
  members_of none = []
  members_of (some members) = members

  unfoldable pub merge_posting : (base added removed : Option (List M)) → List M
  merge_posting base added removed =
      set_remove_all (members_of removed)
        (set_extend (members_of added) (set_extend (members_of base) []))

module _ {K M : Type 0} ⦃k : Ord K⦄ ⦃m : Ord M⦄ where
  -- An entry without a member left is removed.
  abbrev pub or_removed : K → List M → Map K (List M) → Map K (List M)
  or_removed key [] map = remove key map
  or_removed key (x ∷ xs) map = insert key (x ∷ xs) map

  unfoldable pub remove_posting : Map K (List M) → K → M → Map K (List M)
  remove_posting map key member = elim (get key map) [
    | none ↦ map
    | some members ↦
        if set_contains member members then or_removed key (set_remove member members) map else map
  ]

  -- `entry(key).or_default()` and the insertion
  unfoldable pub add_posting : Map K (List M) → K → M → Map K (List M)
  add_posting map key member = insert key (set_insert member (members_of (get key map))) map

abbrev pub add_equality : PropertySubject → (key : ℕ) → PropertyValue → OverlayIndex → OverlayIndex
add_equality subject key value x = record x {
  equality_removed = remove_posting x.equality_removed (key, value) subject;
  equality_added = add_posting x.equality_added (key, value) subject;
}

abbrev pub remove_equality :
    PropertySubject → (key : ℕ) → PropertyValue → OverlayIndex → OverlayIndex
remove_equality subject key value x = record x {
  equality_added = remove_posting x.equality_added (key, value) subject;
  equality_removed = add_posting x.equality_removed (key, value) subject;
}

abbrev pub on_set_property :
    PropertySubject → (key : ℕ) → Option PropertyValue → PropertyValue → OverlayIndex → OverlayIndex
on_set_property subject key none new_value x = add_equality subject key new_value x
on_set_property subject key (some previous) new_value x =
    add_equality subject key new_value
      (if ==value previous new_value then x else remove_equality subject key previous x)

abbrev pub on_remove_property :
    PropertySubject → (key : ℕ) → Option PropertyValue → OverlayIndex → OverlayIndex
on_remove_property subject key none x = x
on_remove_property subject key (some previous) x = remove_equality subject key previous x

abbrev pub on_add_element_label : (element label : ℕ) → OverlayIndex → OverlayIndex
on_add_element_label element label x = record x {
  label_removed = remove_posting x.label_removed label element;
  label_added = add_posting x.label_added label element;
}

abbrev pub on_create_incidence : (incidence relation element : ℕ) → OverlayIndex → OverlayIndex
on_create_incidence incidence relation element x = record x {
  element_incidence_removed = remove_posting x.element_incidence_removed element incidence;
  element_incidence_added = add_posting x.element_incidence_added element incidence;
  relation_incidence_removed = remove_posting x.relation_incidence_removed relation incidence;
  relation_incidence_added = add_posting x.relation_incidence_added relation incidence;
}

abbrev pub remove_relation_type : (relation relation_type : ℕ) → OverlayIndex → OverlayIndex
remove_relation_type relation relation_type x = record x {
  relation_type_added = remove_posting x.relation_type_added relation_type relation;
  relation_type_removed = add_posting x.relation_type_removed relation_type relation;
}

abbrev pub add_relation_type : (relation new_type : ℕ) → OverlayIndex → OverlayIndex
add_relation_type relation new_type x = record x {
  relation_type_removed = remove_posting x.relation_type_removed new_type relation;
  relation_type_added = add_posting x.relation_type_added new_type relation;
}

abbrev pub on_set_relation_type :
    (relation : ℕ) → Option ℕ → (new_type : ℕ) → OverlayIndex → OverlayIndex
on_set_relation_type relation none new_type x = add_relation_type relation new_type x
on_set_relation_type relation (some previous) new_type x =
    add_relation_type relation new_type
      (if previous == new_type then x else remove_relation_type relation previous x)

-- The loop over the subject's properties.
unfoldable pub withdraw_subject_properties :
    PropertySubject → Map ℕ PropertyValue → OverlayIndex → OverlayIndex
withdraw_subject_properties subject [] x = x
withdraw_subject_properties subject ((key, value) ∷ properties) x =
    withdraw_subject_properties subject properties (remove_equality subject key value x)

-- The loop over the element's labels.
unfoldable pub withdraw_labels : ℕ → List ℕ → OverlayIndex → OverlayIndex
withdraw_labels element [] x = x
withdraw_labels element (label ∷ labels) x = withdraw_labels element labels (record x {
  label_added = remove_posting x.label_added label element;
  label_removed = add_posting x.label_removed label element;
})

abbrev pub on_tombstone_element :
    (element : ℕ) → (labels : List ℕ) → Map ℕ PropertyValue → OverlayIndex → OverlayIndex
on_tombstone_element element labels properties x =
    withdraw_subject_properties (element_subject element) properties
      (withdraw_labels element labels x)

abbrev pub on_tombstone_relation :
    (relation : ℕ) → Option ℕ → Map ℕ PropertyValue → OverlayIndex → OverlayIndex
on_tombstone_relation relation none properties x =
    withdraw_subject_properties (relation_subject relation) properties x
on_tombstone_relation relation (some relation_type) properties x =
    withdraw_subject_properties (relation_subject relation) properties
      (remove_relation_type relation relation_type x)

abbrev pub withdraw_incidence : (incidence relation element : ℕ) → OverlayIndex → OverlayIndex
withdraw_incidence incidence relation element x = record x {
  element_incidence_added = remove_posting x.element_incidence_added element incidence;
  element_incidence_removed = add_posting x.element_incidence_removed element incidence;
  relation_incidence_added = remove_posting x.relation_incidence_added relation incidence;
  relation_incidence_removed = add_posting x.relation_incidence_removed relation incidence;
}

abbrev pub on_tombstone_incidence :
    (incidence relation element : ℕ) → Map ℕ PropertyValue → OverlayIndex → OverlayIndex
on_tombstone_incidence incidence relation element properties x =
    withdraw_subject_properties (incidence_subject incidence) properties
      (withdraw_incidence incidence relation element x)

-- The index as the writer uses it.
abbrev pub overlay_index : IndexOps OverlayIndex
overlay_index = record {
  empty_index = new_index;
  on_create_incidence = on_create_incidence;
  on_tombstone_element = on_tombstone_element;
  on_tombstone_relation = on_tombstone_relation;
  on_tombstone_incidence = on_tombstone_incidence;
  on_add_element_label = on_add_element_label;
  on_set_relation_type = on_set_relation_type;
  on_set_property = on_set_property;
  on_remove_property = on_remove_property;
}

-- The lookups, over the base's postings.
abbrev pub elements_with_label : Map ℕ (List ℕ) → ℕ → OverlayIndex → List ℕ
elements_with_label base label x =
    merge_posting (get label base) (get label x.label_added) (get label x.label_removed)

abbrev pub relations_with_type : Map ℕ (List ℕ) → ℕ → OverlayIndex → List ℕ
relations_with_type base relation_type x =
    merge_posting (get relation_type base) (get relation_type x.relation_type_added)
      (get relation_type x.relation_type_removed)

abbrev pub element_incidences : Map ℕ (List ℕ) → ℕ → OverlayIndex → List ℕ
element_incidences base element x =
    merge_posting (get element base) (get element x.element_incidence_added)
      (get element x.element_incidence_removed)

abbrev pub property_equal :
    Map EqualityKey (List PropertySubject)
    → (key : ℕ) → PropertyValue
    → OverlayIndex
    → List PropertySubject
property_equal base key value x =
    merge_posting (get (key, value) base) (get (key, value) x.equality_added)
      (get (key, value) x.equality_removed)
