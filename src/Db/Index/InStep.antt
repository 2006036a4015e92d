-- ===== src/Db/Index/InStep.antt =====
-- crates/oxgraph-db/src/index.rs: the equality postings show what the overlay shows.
use Prim.Native.Nat.Ordering.{lt, eq, gt}
use oxgraph.Prelude.{
  ℕ, ◌≡◌, refl, ap, sym, ◌∙◌, inl, inr, Bool, true, false, not, ◌&&◌, ◌||◌, Bool-cases, Option,
  Option-cases, none, some, List, [], ◌∷◌, arith, if◌then◌else◌, ==_refl,
}
use oxgraph.Db.State.{
  PropertySubject, PropertyValue, boolean, integer, text, ==value, ==bytes, pos, negsuc,
  subject_ord,
}
use oxgraph.Db.Map.{Map, nat_ord}
use oxgraph.Db.Map.Laws.{update}
use oxgraph.Db.Index.Order.{EqualityKey, equality_ord}
use oxgraph.Db.Index.{
  OverlayIndex, add_equality, remove_equality, on_set_property, on_remove_property,
}
use oxgraph.Db.Index.Postings.{posted, posted-add_posting, posted-remove_posting}
use oxgraph.Db.Overlay.Write.{value_is}
use oxgraph.Db.Overlay.View.{assigned}
use oxgraph.Db.Overlay.View.Maps.{eq_of_==value}

-- A table of values, as the postings and the overlay give it.
abbrev pub Shows : Type 0
Shows = PropertySubject → ℕ → PropertyValue → Bool

abbrev pub indexed : Map EqualityKey (List PropertySubject) → OverlayIndex → Shows
indexed postings x subject key value =
    (posted postings (key, value) subject || posted x.equality_added (key, value) subject)
    && not (posted x.equality_removed (key, value) subject)

abbrev pub pointed : Bool → PropertySubject → ℕ → PropertyValue → Shows → Shows
pointed b subject key value shows other other_key other_value =
    update (key, value) (update subject b (λ other. shows other key value) other)
      (λ (p : EqualityKey). shows other p.0 p.1) (other_key, other_value)

==bytes_refl : (xs : List ℕ) → ==bytes xs xs ≡ true
==bytes_refl [] = refl
==bytes_refl (x ∷ xs) = rw (==_refl x) (==bytes_refl xs)

pub ==value_refl : (v : PropertyValue) → ==value v v ≡ true
==value_refl (boolean true) = refl
==value_refl (boolean false) = refl
==value_refl (integer (pos n)) = ==_refl n
==value_refl (integer (negsuc n)) = ==_refl n
==value_refl (text xs) = ==bytes_refl xs

pub pointed_if :
    (b : Bool) (subject other : PropertySubject) (key other_key : ℕ)
    (value other_value : PropertyValue) (shows : Shows)
    → pointed b subject key value shows other other_key other_value
      ≡ elim (subject_ord.cmp other subject) [
        | eq ↦ elim (nat_ord.cmp other_key key) [
          | eq ↦ if ==value value other_value then b else shows other other_key other_value
          | lt ↦ shows other other_key other_value
          | gt ↦ shows other other_key other_value
        ]
        | lt ↦ shows other other_key other_value
        | gt ↦ shows other other_key other_value
      ]
unfolding update
pointed_if b subject other key other_key value other_value shows = ground (
  arith,
  equality_ord.eq_of_cmp (other_key, other_value) (key, value),
  equality_ord.cmp_refl (key, value),
  eq_of_==value value other_value,
  ==value_refl value,
  subject_ord.eq_of_cmp other subject,
  nat_ord.eq_of_cmp other_key key,
  nat_ord.cmp_refl key,
)

module _ (postings : Map EqualityKey (List PropertySubject)) (x : OverlayIndex) where
  indexed-add_equality :
      (subject other : PropertySubject) (key other_key : ℕ) (value other_value : PropertyValue)
      → indexed postings (add_equality subject key value x) other other_key other_value
        ≡ pointed true subject key value (indexed postings x) other other_key other_value
  unfolding update
  indexed-add_equality subject other key other_key value other_value = ground (
    arith,
    posted-add_posting x.equality_added (key, value) subject (other_key, other_value) other,
    posted-remove_posting x.equality_removed (key, value) subject (other_key, other_value) other,
    equality_ord.eq_of_cmp (other_key, other_value) (key, value),
  )

  pub indexed-remove_equality :
      (subject other : PropertySubject) (key other_key : ℕ) (value other_value : PropertyValue)
      → indexed postings (remove_equality subject key value x) other other_key other_value
        ≡ pointed false subject key value (indexed postings x) other other_key other_value
  unfolding update
  indexed-remove_equality subject other key other_key value other_value = ground (
    arith,
    posted-remove_posting x.equality_added (key, value) subject (other_key, other_value) other,
    posted-add_posting x.equality_removed (key, value) subject (other_key, other_value) other,
    equality_ord.eq_of_cmp (other_key, other_value) (key, value),
  )

-- The postings show a value under a key of a subject exactly where it is seen.
unfoldable pub InStep :
    Map EqualityKey (List PropertySubject)
    → OverlayIndex
    → (PropertySubject → ℕ → Option PropertyValue)
    → Type 0
InStep postings x seen =
    (subject : PropertySubject) (key : ℕ) (value : PropertyValue)
    → indexed postings x subject key value ≡ value_is (seen subject key) value

module _ (postings : Map EqualityKey (List PropertySubject)) (x : OverlayIndex)
    (seen : PropertySubject → ℕ → Option PropertyValue) (h : InStep postings x seen) where
  add_equality-InStep :
      (subject : PropertySubject) (key : ℕ) (value : PropertyValue)
      → ((v : PropertyValue) → value_is (seen subject key) v ≡ true → v ≡ value)
      → InStep postings (add_equality subject key value x) (assigned subject key (some value) seen)
  unfolding InStep update
  add_equality-InStep subject key value only other other_key other_value = ground (
    arith,
    h other other_key other_value,
    indexed-add_equality postings x subject other key other_key value other_value,
    pointed_if true subject other key other_key value other_value (indexed postings x),
    subject_ord.eq_of_cmp other subject,
    nat_ord.eq_of_cmp other_key key,
    only other_value,
    ==value_refl value,
  )

  remove_equality-InStep :
      (subject : PropertySubject) (key : ℕ) (value : PropertyValue)
      → seen subject key ≡ some value
      → InStep postings (remove_equality subject key value x) (assigned subject key none seen)
  unfolding InStep update
  remove_equality-InStep subject key value there other other_key other_value = ground (
    arith,
    h other other_key other_value,
    indexed-remove_equality postings x subject other key other_key value other_value,
    pointed_if false subject other key other_key value other_value (indexed postings x),
    subject_ord.eq_of_cmp other subject,
    nat_ord.eq_of_cmp other_key key,
    there,
    eq_of_==value value other_value,
  )

pub InStep-ext :
    (postings : Map EqualityKey (List PropertySubject)) (x : OverlayIndex)
    (seen other : PropertySubject → ℕ → Option PropertyValue)
    → ((subject : PropertySubject) (key : ℕ) → seen subject key ≡ other subject key)
    → InStep postings x seen
    → InStep postings x other
unfolding InStep
InStep-ext postings x seen other same h subject key value =
    h subject key value ∙ ap (λ (o : Option PropertyValue). value_is o value) (same subject key)

assigned_here :
    (subject : PropertySubject) (key : ℕ) (value : Option PropertyValue)
    (seen : PropertySubject → ℕ → Option PropertyValue)
    → assigned subject key value seen subject key ≡ value
unfolding update
assigned_here subject key value seen =
    ground (arith, subject_ord.cmp_refl subject, nat_ord.cmp_refl key)

assigned_there :
    (subject : PropertySubject) (key : ℕ) (value : Option PropertyValue)
    (seen : PropertySubject → ℕ → Option PropertyValue) (other : PropertySubject) (other_key : ℕ)
    → seen subject key ≡ value
    → assigned subject key value seen other other_key ≡ seen other other_key
unfolding update
assigned_there subject key value seen other other_key h =
    ground (arith, subject_ord.eq_of_cmp other subject, nat_ord.eq_of_cmp other_key key, h)

assigned_twice :
    (subject : PropertySubject) (key : ℕ) (first second : Option PropertyValue)
    (seen : PropertySubject → ℕ → Option PropertyValue) (other : PropertySubject) (other_key : ℕ)
    → assigned subject key second (assigned subject key first seen) other other_key
      ≡ assigned subject key second seen other other_key
unfolding update
assigned_twice subject key first second seen other other_key =
    ground
      (arith, subject_ord.cmp_refl subject, nat_ord.eq_of_cmp other_key key, nat_ord.cmp_refl key)

module _ (postings : Map EqualityKey (List PropertySubject)) (x : OverlayIndex)
    (seen : PropertySubject → ℕ → Option PropertyValue) (h : InStep postings x seen)
    (subject : PropertySubject) (key : ℕ) where
  -- The value that was seen leaves the postings, and the new one comes in.
  pub on_set_property-InStep :
      (new_value : PropertyValue)
      → InStep postings
          (on_set_property subject key (seen subject key) new_value x)
          (assigned subject key (some new_value) seen)
  on_set_property-InStep new_value = elim (Option-cases (seen subject key)) [
    | inl e ↦ rw e (
        add_equality-InStep postings x seen h subject key new_value
          (λ v shown. ground (arith, e, shown)))
    | inr (previous, e) ↦ elim (Bool-cases (==value previous new_value)) [
      | inl same ↦
          rw (e, same)
            (add_equality-InStep postings x seen h subject key new_value (λ v shown.
              ground (
                arith,
                e,
                shown,
                eq_of_==value previous v,
                eq_of_==value previous new_value,
                same,
              )))
      | inr differs ↦
          rw (e, differs)
            (InStep-ext postings _ _ _ (assigned_twice subject key none (some new_value) seen) (
              add_equality-InStep postings _ _
                (remove_equality-InStep postings x seen h subject key previous e) subject key
                new_value (λ v shown. ground (arith, shown, assigned_here subject key none seen))))
    ]
  ]

  pub on_remove_property-InStep :
      InStep postings
        (on_remove_property subject key (seen subject key) x)
        (assigned subject key none seen)
  on_remove_property-InStep = elim (Option-cases (seen subject key)) [
    | inl e ↦ rw e (
        InStep-ext postings x seen _
          (λ other other_key. sym (assigned_there subject key none seen other other_key e)) h)
    | inr (previous, e) ↦ rw e (remove_equality-InStep postings x seen h subject key previous e)
  ]
