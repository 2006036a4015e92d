-- ===== src/Db/Index/Calls.antt =====
-- crates/oxgraph-db/src/overlay/write.rs with index.rs: after any calls, the lookups of the equality
-- index are those of a scan.
use oxgraph.Prelude.{
  ℕ, ◌≡◌, refl, sym, inl, inr, Bool-cases, Option, none, some, List, [], ◌∷◌, Result, ok, err, ◌==◌,
}
use oxgraph.Db.Errors.{CatalogError, DbError, IdFamily}
use oxgraph.Db.State.{PropertySubject, IncidenceRecord, PropertyValue, subject_ord}
use oxgraph.Db.Catalog.{Catalog}
use oxgraph.Db.Map.{Map, get, nat_ord}
use oxgraph.Db.Map.Sorted.{IsSorted}
use oxgraph.Db.Index.Order.{EqualityKey, equality_ord}
use oxgraph.Db.Index.{
  OverlayIndex, overlay_index, on_set_relation_type, withdraw_labels, withdraw_subject_properties,
}
use oxgraph.Db.Index.InStep.{InStep, InStep-ext}
use oxgraph.Db.Index.Withdrawn.{
  withdraw_subject_properties-InStep, get-visible_subject_properties_in,
}
use oxgraph.Db.Overlay.{BaseRecords, WriteOverlay}
use oxgraph.Db.Overlay.Inner.{
  or_default, visible_property_in, visible_subject_properties_in, tombstone_subject_properties,
  put_property, visible_incidence,
}
use oxgraph.Db.Overlay.Write.{or_overflow, registered, run_call, call_tombstone_incidence, Call}
use oxgraph.Db.Overlay.View.{assigned}
use oxgraph.Db.Overlay.View.Maps.{visible_property_in-put_property, visible_property_in-tombstone}
use oxgraph.Db.Index.Lockstep.{AreSorted, put_property-AreSorted, tombstone-AreSorted}

-- The equality postings agree.
abbrev pub SameEquality : OverlayIndex → OverlayIndex → Type 0
SameEquality x y = (x.equality_added ≡ y.equality_added) × (x.equality_removed ≡ y.equality_removed)

pub withdraw_labels-SameEquality :
    (element : ℕ) (labels : List ℕ) (x : OverlayIndex)
    → SameEquality (withdraw_labels element labels x) x
unfolding withdraw_labels
withdraw_labels-SameEquality element [] x = (refl, refl)
withdraw_labels-SameEquality element (label ∷ labels) x =
    withdraw_labels-SameEquality element labels _

pub on_set_relation_type-SameEquality :
    (relation : ℕ) (previous : Option ℕ) (new_type : ℕ) (x : OverlayIndex)
    → SameEquality (on_set_relation_type relation previous new_type x) x
on_set_relation_type-SameEquality relation none new_type x = (refl, refl)
on_set_relation_type-SameEquality relation (some previous) new_type x =
    elim (Bool-cases (previous == new_type)) [
      | inl e ↦ rw e (refl, refl)
      | inr e ↦ rw e (refl, refl)
    ]

-- A property of an incidence that is not there would stay in the postings: `Writer` asks for the
-- incidence first.
abbrev pub Shown : BaseRecords → WriteOverlay OverlayIndex → Call → Type 0
Shown base w (call_tombstone_incidence id) =
    (found : IncidenceRecord) × (visible_incidence base w id ≡ some found)
Shown base w _ = Unit

abbrev pub AreShown : BaseRecords → WriteOverlay OverlayIndex → List Call → Type 0
AreShown base w [] = Unit
AreShown base w (call ∷ calls) =
    Shown base w call × AreShown base (run_call overlay_index base call w) calls

module _ (postings : Map EqualityKey (List PropertySubject)) (base : BaseRecords)
    (base_sorted : (s : PropertySubject) → IsSorted (or_default (get s base.properties))) where
  -- The postings show what the writer does, whose deltas are maps.
  pub record IsIndexed (w : WriteOverlay OverlayIndex) : Type 0 where
    pub in_step : InStep postings w.index (visible_property_in w.properties base)
    pub sorted : AreSorted w.properties

  SameEquality-InStep :
      (x y : OverlayIndex) (seen : PropertySubject → ℕ → Option PropertyValue)
      → SameEquality x y
      → InStep postings y seen
      → InStep postings x seen
  unfolding InStep
  SameEquality-InStep x y seen (added, removed) h subject key value =
      rw (added, removed) (h subject key value)

  -- A call that leaves the properties and their postings.
  pub IsIndexed-same :
      (w after : WriteOverlay OverlayIndex)
      → IsIndexed w
      → after.properties ≡ w.properties
      → SameEquality after.index w.index
      → IsIndexed after
  IsIndexed-same w after h same equality = record {
    in_step = SameEquality-InStep after.index w.index _ equality (rw same h.in_step);
    sorted = rw same h.sorted;
  }

  pub IsIndexed-or_overflow :
      (w : WriteOverlay OverlayIndex) (next : Option ℕ) (family : IdFamily)
      (go : ℕ → WriteOverlay OverlayIndex × Result DbError ℕ)
      → IsIndexed w
      → ((n : ℕ) → IsIndexed (go n).0)
      → IsIndexed (or_overflow next family w go).0
  IsIndexed-or_overflow w none family go h more = h
  IsIndexed-or_overflow w (some n) family go h more = more n

  pub IsIndexed-registered :
      (inserted : Result CatalogError Catalog) (w bumped : WriteOverlay OverlayIndex)
      (id op_kind flags : ℕ) (words : List ℕ)
      → IsIndexed w
      → bumped.properties ≡ w.properties
      → bumped.index ≡ w.index
      → IsIndexed (registered inserted bumped id op_kind flags words).0
  IsIndexed-registered (err error) w bumped id op_kind flags words h same index =
      IsIndexed-same w _ h same (rw index (refl, refl))
  IsIndexed-registered (ok after) w bumped id op_kind flags words h same index =
      IsIndexed-same w _ h same (rw index (refl, refl))

  pub IsIndexed-tombstone :
      (w after : WriteOverlay OverlayIndex) (subject : PropertySubject) (x : OverlayIndex)
      → IsIndexed w
      → SameEquality x w.index
      → after.properties ≡ tombstone_subject_properties base subject w.properties
      → after.index
        ≡ withdraw_subject_properties subject
            (visible_subject_properties_in w.properties base subject)
            x
      → IsIndexed after
  IsIndexed-tombstone w after subject x h equality properties_eq index_eq =
      let withdrawn =
        withdraw_subject_properties-InStep postings x (visible_property_in w.properties base)
          subject (visible_subject_properties_in w.properties base subject)
          (SameEquality-InStep x w.index _ equality h.in_step)
          (λ k.
            get-visible_subject_properties_in w.properties base subject k (h.sorted subject)
              (base_sorted subject)) in
      record {
        in_step =
            rw (properties_eq, index_eq)
              (InStep-ext postings _ _ _
                (λ other key.
                  sym (visible_property_in-tombstone base subject w.properties other key))
                withdrawn);
        sorted = rw properties_eq (tombstone-AreSorted base subject w.properties h.sorted);
      }

  pub IsIndexed-put :
      (w after : WriteOverlay OverlayIndex) (subject : PropertySubject) (key : ℕ)
      (slot : Option PropertyValue)
      → IsIndexed w
      → after.properties ≡ put_property subject key slot w.properties
      → InStep postings after.index
          (assigned subject key slot (visible_property_in w.properties base))
      → IsIndexed after
  IsIndexed-put w after subject key slot h properties_eq index = record {
    in_step = rw properties_eq (
        InStep-ext postings _ _ _
          (λ other other_key.
            sym
              (visible_property_in-put_property base subject w.properties key slot other other_key))
          index);
    sorted = rw properties_eq (put_property-AreSorted subject key slot w.properties h.sorted);
  }
