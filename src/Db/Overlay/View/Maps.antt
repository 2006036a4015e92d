-- ===== src/Db/Overlay/View/Maps.antt =====
-- crates/oxgraph-db/src/overlay/write.rs: the delta maps of a writer, as functions over the base.
use oxgraph.Prelude.{
  ℕ, ◌≡◌, refl, ap, sym, inl, inr, true, false, Option, Option-cases, none, some, List, [], ◌∷◌,
  arith,
}
use mathlib.Core.Option
use oxgraph.Db.State.{
  PropertySubject, PropertyValue, boolean, integer, text, ==value, ==bytes, pos, negsuc,
  subject_ord,
}
use oxgraph.Db.Map.{Map, get, insert, remove, nat_ord}
use oxgraph.Db.Map.Laws.{update, get-insert, get-remove, update_same}
use oxgraph.Db.Overlay.{BaseRecords, SubjectDelta}
use oxgraph.Db.Overlay.Inner.{
  or_default, visible_in, visible_property_in, edit_entry, edited, mask_all,
  tombstone_subject_properties, put_property,
}
use oxgraph.Db.Overlay.View.{cleared, assigned}

module _ {ℓ} {R : Type ℓ} where
  pub visible_in-insert :
      (id q : ℕ) (slot : Option R) (delta : Map ℕ (Option R)) (base : ℕ → Option R)
      → visible_in (get q (insert id slot delta)) (base q)
        ≡ update id slot (λ q. visible_in (get q delta) (base q)) q
  unfolding update
  visible_in-insert id q slot delta base = rw (get-insert id q slot delta) (ground arith)

  pub visible_in-edit_entry :
      (edit : R → R) (id q : ℕ) (base : Map ℕ R) (delta : Map ℕ (Option R))
      → visible_in (get q (edited (edit_entry edit id base delta) delta (λ new. new))) (get q base)
        ≡ update id
            (Option.map edit (visible_in (get id delta) (get id base)))
            (λ q. visible_in (get q delta) (get q base))
            q
  unfolding edit_entry
  visible_in-edit_entry edit id q base delta =
      let seen = λ (q : ℕ). visible_in (get q delta) (get q base) in
      elim (Option-cases (get id delta)) [
        | inl e ↦ elim (Option-cases (get id base)) [
          | inl none_there ↦
              rw (edit_entry, e, none_there)
                (sym (update_same id q none seen (rw (e, none_there) refl)))
          | inr (found, there) ↦
              rw (edit_entry, e, there)
                (visible_in-insert id q (some (edit found)) delta (λ q. get q base))
        ]
        | inr (none, e) ↦ rw (edit_entry, e) (sym (update_same id q none seen (rw e refl)))
        | inr (some found, e) ↦
            rw (edit_entry, e) (visible_in-insert id q (some (edit found)) delta (λ q. get q base))
      ]

pub get_empty : {V : Type 0} (k : ℕ) → get {V = V} k [] ≡ none
unfolding get
get_empty k = refl

-- Masked keys stay masked.
mask_all-masked :
    (keys : Map ℕ PropertyValue) (entry : SubjectDelta) (k : ℕ)
    → get k entry ≡ some none
    → get k (mask_all keys entry) ≡ some none
unfolding mask_all update
mask_all-masked [] entry k h = h
mask_all-masked ((q, v) ∷ keys) entry k h =
    mask_all-masked keys (insert q none entry) k (rw (get-insert q k none entry) (ground arith))

mask_all-visible :
    (keys : Map ℕ PropertyValue) (entry : SubjectDelta) (k : ℕ)
    → get k entry ≡ none
    → visible_in (get k (mask_all keys entry)) (get k keys) ≡ none
unfolding mask_all get update
mask_all-visible [] entry k h = rw h refl
mask_all-visible ((q, v) ∷ keys) entry k h = ground (
  arith,
  mask_all-visible keys (insert q none entry) k,
  mask_all-masked keys (insert q none entry) k,
  get-insert q k none entry,
  h,
)

eq_of_==bytes : (xs ys : List ℕ) → ==bytes xs ys ≡ true → xs ≡ ys
eq_of_==bytes [] [] h = refl
eq_of_==bytes (x ∷ xs) (y ∷ ys) h = ground (arith, eq_of_==bytes xs ys)
eq_of_==bytes [] (y ∷ ys) h = ground arith
eq_of_==bytes (x ∷ xs) [] h = ground arith

pub eq_of_==value : (a b : PropertyValue) → ==value a b ≡ true → a ≡ b
eq_of_==value (boolean true) (boolean true) h = refl
eq_of_==value (boolean false) (boolean false) h = refl
eq_of_==value (boolean true) (boolean false) h = ground arith
eq_of_==value (boolean false) (boolean true) h = ground arith
eq_of_==value (integer (pos a)) (integer (pos b)) h = ground arith
eq_of_==value (integer (negsuc a)) (integer (negsuc b)) h = ground arith
eq_of_==value (integer (pos a)) (integer (negsuc b)) h = ground arith
eq_of_==value (integer (negsuc a)) (integer (pos b)) h = ground arith
eq_of_==value (text a) (text b) h = ap text (eq_of_==bytes a b h)
eq_of_==value (boolean a) (integer b) h = ground arith
eq_of_==value (boolean a) (text b) h = ground arith
eq_of_==value (integer a) (boolean b) h = ground arith
eq_of_==value (integer a) (text b) h = ground arith
eq_of_==value (text a) (boolean b) h = ground arith
eq_of_==value (text a) (integer b) h = ground arith

module _ (base : BaseRecords) (subject : PropertySubject)
    (properties : Map PropertySubject SubjectDelta) where
  pub visible_property_in-put_property :
      (key : ℕ) (slot : Option PropertyValue) (other : PropertySubject) (other_key : ℕ)
      → visible_property_in (put_property subject key slot properties) base other other_key
        ≡ assigned subject key slot (visible_property_in properties base) other other_key
  unfolding put_property update
  visible_property_in-put_property key slot other other_key =
      let keys = or_default (get subject properties) in
      ground (
        arith,
        get-insert subject other (insert key slot keys) properties,
        get-insert key other_key slot keys,
        subject_ord.eq_of_cmp other subject,
      )

  pub visible_property_in-tombstone :
      (other : PropertySubject) (other_key : ℕ)
      → visible_property_in
          (tombstone_subject_properties base subject properties)
          base
          other
          other_key
        ≡ cleared subject (visible_property_in properties base) other other_key
  unfolding tombstone_subject_properties update
  visible_property_in-tombstone other other_key =
      let removed = remove subject properties in
      elim (Option-cases (get subject base.properties)) [
        | inl e ↦
            rw (tombstone_subject_properties, e)
              (ground (
                arith,
                get-remove subject other properties,
                subject_ord.eq_of_cmp other subject,
                e,
                get_empty {V = PropertyValue} other_key,
                get_empty {V = Option PropertyValue} other_key,
              ))
        | inr (keys, e) ↦
            rw (tombstone_subject_properties, e)
              (ground (
                arith,
                get-remove subject subject properties,
                subject_ord.cmp_refl subject,
                get-remove subject other properties,
                get-insert subject other (mask_all keys (or_default (get subject removed))) removed,
                subject_ord.eq_of_cmp other subject,
                mask_all-visible keys [] other_key (get_empty other_key),
              ))
      ]

  -- Assigning the visible value.
  pub assigned_same :
      (key : ℕ) (value : Option PropertyValue) (seen : PropertySubject → ℕ → Option PropertyValue)
      (other : PropertySubject) (other_key : ℕ)
      → seen subject key ≡ value
      → seen other other_key ≡ assigned subject key value seen other other_key
  unfolding update
  assigned_same key value seen other other_key h =
      ground (arith, subject_ord.eq_of_cmp other subject, nat_ord.eq_of_cmp other_key key, h)
