-- ===== src/Db/Index/Withdrawn.antt =====
-- crates/oxgraph-db/src/index.rs and overlay/write.rs: a tombstone takes every property of its
-- subject out of the postings.
use Prim.Native.Nat.Ordering.{lt, eq, gt}
use oxgraph.Prelude.{
  ℕ, ◌≡◌, refl, ap, ◌∙◌, Bool, true, false, not, ◌&&◌, ◌||◌, Option, none, some, List, [], ◌∷◌,
  arith,
}
use oxgraph.Db.State.{PropertySubject, PropertyValue, ==value, subject_ord}
use oxgraph.Db.Map.{Map, get, insert, remove, nat_ord}
use oxgraph.Db.Map.Laws.{update, get-insert, get-remove}
use oxgraph.Db.Map.Sorted.{IsSorted, get_above}
use oxgraph.Db.Index.Order.{EqualityKey, equality_ord}
use oxgraph.Db.Index.{OverlayIndex, remove_equality, withdraw_subject_properties}
use oxgraph.Db.Index.InStep.{indexed, pointed_if, indexed-remove_equality, InStep, ==value_refl}
use oxgraph.Db.Overlay.{BaseRecords, SubjectDelta}
use oxgraph.Db.Overlay.Inner.{
  insert_all, override_all, visible_in, or_default, visible_subject_properties_in,
  visible_property_in,
}
use oxgraph.Db.Overlay.Write.{value_is}
use oxgraph.Db.Overlay.View.{cleared}
use oxgraph.Db.Overlay.View.Maps.{eq_of_==value}

-- A later entry of a delta does not undo an earlier one: each key stands once.
get-override_all :
    (keys : SubjectDelta) (visible : Map ℕ PropertyValue) (k : ℕ)
    → IsSorted keys
    → get k (override_all keys visible) ≡ visible_in (get k keys) (get k visible)
unfolding get override_all update
get-override_all [] visible k h = refl
get-override_all ((q, some v) ∷ keys) visible k (above, h) = ground (
  arith,
  get-override_all keys (insert q v visible) k h,
  get-insert q k v visible,
  nat_ord.eq_of_cmp k q,
  get_above q keys above,
)
get-override_all ((q, none) ∷ keys) visible k (above, h) = ground (
  arith,
  get-override_all keys (remove q visible) k h,
  get-remove q k visible,
  nat_ord.eq_of_cmp k q,
  get_above q keys above,
)

-- The first of two values.
abbrev first_of : Option PropertyValue → Option PropertyValue → Option PropertyValue
first_of (some v) other = some v
first_of none other = other

get-insert_all :
    (keys visible : Map ℕ PropertyValue) (k : ℕ)
    → IsSorted keys
    → get k (insert_all keys visible) ≡ first_of (get k keys) (get k visible)
unfolding get insert_all update
get-insert_all [] visible k h = refl
get-insert_all ((q, v) ∷ keys) visible k (above, h) = ground (
  arith,
  get-insert_all keys (insert q v visible) k h,
  get-insert q k v visible,
  nat_ord.eq_of_cmp k q,
  get_above q keys above,
)

get_nothing : (k : ℕ) → get {V = PropertyValue} k [] ≡ none
unfolding get
get_nothing k = refl

-- What is withdrawn is what shows.
pub get-visible_subject_properties_in :
    (properties : Map PropertySubject SubjectDelta) (base : BaseRecords) (subject : PropertySubject)
    (k : ℕ)
    → IsSorted (or_default (get subject properties))
    → IsSorted (or_default (get subject base.properties))
    → get k (visible_subject_properties_in properties base subject)
      ≡ visible_property_in properties base subject k
get-visible_subject_properties_in properties base subject k delta_sorted base_sorted =
    let keys = or_default (get subject base.properties) in
    get-override_all (or_default (get subject properties)) (insert_all keys []) k delta_sorted
    ∙ ground (arith, get-insert_all keys [] k base_sorted, get_nothing k)

-- A value stands under the key.
unfoldable has_entry : ℕ → PropertyValue → Map ℕ PropertyValue → Bool
has_entry k v [] = false
has_entry k v ((q, u) ∷ m) = elim (nat_ord.cmp k q) [
  | eq ↦ ==value u v || has_entry k v m
  | lt ↦ has_entry k v m
  | gt ↦ has_entry k v m
]

get-has_entry :
    (k : ℕ) (v : PropertyValue) (m : Map ℕ PropertyValue)
    → get k m ≡ some v
    → has_entry k v m ≡ true
unfolding get has_entry
get-has_entry k v [] h = ground arith
get-has_entry k v ((q, u) ∷ m) h = ground (arith, get-has_entry k v m, ==value_refl v, h)

eq_of_==value_seen :
    (o : Option PropertyValue) (v : PropertyValue) → value_is o v ≡ true → o ≡ some v
eq_of_==value_seen none v h = ground arith
eq_of_==value_seen (some u) v h = ap some (eq_of_==value u v h)

indexed-withdraw :
    (postings : Map EqualityKey (List PropertySubject)) (subject : PropertySubject)
    (m : Map ℕ PropertyValue) (x : OverlayIndex) (other : PropertySubject) (k : ℕ)
    (v : PropertyValue)
    → indexed postings (withdraw_subject_properties subject m x) other k v
      ≡ update subject
          (indexed postings x other k v && not (has_entry k v m))
          (λ other. indexed postings x other k v)
          other
unfolding withdraw_subject_properties has_entry update
indexed-withdraw postings subject [] x other k v = ground arith
indexed-withdraw postings subject ((q, u) ∷ m) x other k v = ground (
  arith,
  indexed-withdraw postings subject m (remove_equality subject q u x) other k v,
  indexed-remove_equality postings x subject other q k u v,
  pointed_if false subject other q k u v (indexed postings x),
)

pub withdraw_subject_properties-InStep :
    (postings : Map EqualityKey (List PropertySubject)) (x : OverlayIndex)
    (seen : PropertySubject → ℕ → Option PropertyValue) (subject : PropertySubject)
    (m : Map ℕ PropertyValue)
    → InStep postings x seen
    → ((k : ℕ) → get k m ≡ seen subject k)
    → InStep postings (withdraw_subject_properties subject m x) (cleared subject seen)
unfolding InStep update
withdraw_subject_properties-InStep postings x seen subject m h same other k v = ground (
  arith,
  indexed-withdraw postings subject m x other k v,
  h other k v,
  same k,
  get-has_entry k v m,
  subject_ord.eq_of_cmp other subject,
  eq_of_==value_seen (seen subject k) v,
)
