-- ===== src/Db/Index/Lockstep.antt =====
-- crates/oxgraph-db/src/overlay/write.rs with index.rs: the index of a writer keeps up with its
-- calls.
use Prim.Native.Nat.Ordering.{lt, eq, gt}
use oxgraph.Prelude.{ℕ, sym, subst, Option, none, some, [], ◌∷◌}
use oxgraph.Db.State.{PropertySubject, PropertyValue, subject_ord}
use oxgraph.Db.Map.{Map, get, insert, remove, nat_ord}
use oxgraph.Db.Map.Laws.{update, get-insert, get-remove}
use oxgraph.Db.Map.Sorted.{IsSorted, insert-IsSorted}
use oxgraph.Db.Index.Order.{equality_ord}
use oxgraph.Db.Overlay.{BaseRecords, SubjectDelta}
use oxgraph.Db.Overlay.Inner.{or_default, mask_all, tombstone_subject_properties, put_property}

-- The deltas of every subject are maps.
abbrev pub AreSorted : Map PropertySubject SubjectDelta → Type 0
AreSorted properties = (subject : PropertySubject) → IsSorted (or_default (get subject properties))

sorted_update :
    (subject other : PropertySubject) (slot : Option SubjectDelta)
    (f : PropertySubject → Option SubjectDelta)
    → IsSorted (or_default slot)
    → ((s : PropertySubject) → IsSorted (or_default (f s)))
    → IsSorted (or_default (update subject slot f other))
unfolding update
sorted_update subject other slot f h k =
    elim (subject_ord.cmp other subject)
      as (λ o. IsSorted (or_default (elim o [ eq ↦ slot | lt ↦ f other | gt ↦ f other ]))) [
        | eq ↦ h
        | lt ↦ k other
        | gt ↦ k other
      ]

pub put_property-AreSorted :
    (subject : PropertySubject) (key : ℕ) (slot : Option PropertyValue)
    (properties : Map PropertySubject SubjectDelta)
    → AreSorted properties
    → AreSorted (put_property subject key slot properties)
unfolding put_property
put_property-AreSorted subject key slot properties h other =
    let keys = or_default (get subject properties) in
    subst (λ (o : Option SubjectDelta). IsSorted (or_default o))
      (sym (get-insert subject other (insert key slot keys) properties))
      (sorted_update subject other (some (insert key slot keys)) (λ s. get s properties)
        (insert-IsSorted key slot keys (h subject)) h)

mask_all-IsSorted :
    (keys : Map ℕ PropertyValue) (entry : SubjectDelta)
    → IsSorted entry
    → IsSorted (mask_all keys entry)
unfolding mask_all
mask_all-IsSorted [] entry h = h
mask_all-IsSorted ((k, v) ∷ keys) entry h =
    mask_all-IsSorted keys (insert k none entry) (insert-IsSorted k none entry h)

module _ (base : BaseRecords) (subject : PropertySubject)
    (properties : Map PropertySubject SubjectDelta) (h : AreSorted properties) where
  removed-AreSorted : AreSorted (remove subject properties)
  removed-AreSorted other =
      subst (λ (o : Option SubjectDelta). IsSorted (or_default o))
        (sym (get-remove subject other properties))
        (sorted_update subject other none (λ s. get s properties) tt h)

  pub tombstone-AreSorted : AreSorted (tombstone_subject_properties base subject properties)
  unfolding tombstone_subject_properties
  tombstone-AreSorted other =
      let removed = remove subject properties in
      let entry = or_default (get subject removed) in
      elim (get subject base.properties)
        as (λ found. IsSorted (
          or_default (
            get other (elim found [
              | none ↦ removed
              | some keys ↦ insert subject (mask_all keys entry) removed
            ])))) [
              | none ↦ removed-AreSorted other
              | some keys ↦
                  subst (λ (o : Option SubjectDelta). IsSorted (or_default o))
                    (sym (get-insert subject other (mask_all keys entry) removed))
                    (sorted_update subject other (some (mask_all keys entry)) (λ s. get s removed)
                      (mask_all-IsSorted keys entry (removed-AreSorted subject)) removed-AreSorted)
            ]
