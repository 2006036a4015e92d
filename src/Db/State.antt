-- ===== src/Db/State.antt =====
-- crates/oxgraph-db/src/state.rs, value.rs and id.rs: the records, the property values and the id
-- allocators. An id is the number that it holds.
use oxgraph.Prelude.{
  ℕ, ◌-◌, ◌^◌, ◌<◌, ◌≡◌, Bool, true, false, Option, List, [], ◌∷◌, arith, ltb, ◌==◌, if◌then◌else◌,
}
use Prim.Native.Nat.{compare, Ordering, max}
use Prim.Native.Nat.Ordering.{lt, eq, gt}
use oxgraph.Layout.Width.{checked_add}
use oxgraph.Db.Map.{Ord, nat_ord, list_ord}

abbrev pub u64_max : ℕ
u64_max = 0xffff_ffff_ffff_ffff

abbrev pub checked_next : ℕ → Option ℕ
checked_next id = checked_add u64_max id 1

pub record ElementRecord : Type 0 where
  pub id : ℕ
  pub labels : List ℕ

pub record RelationRecord : Type 0 where
  pub id : ℕ
  pub relation_type : Option ℕ
  pub labels : List ℕ

pub record IncidenceRecord : Type 0 where
  pub id : ℕ
  pub relation : ℕ
  pub element : ℕ
  pub role : ℕ

pub data PropertyFamily : Type 0 where
  element_family relation_family incidence_family : PropertyFamily

pub data PropertySubject : Type 0 where
  element_subject relation_subject incidence_subject : (id : ℕ) → PropertySubject

-- The derived order: the variants, then the ids.
abbrev pub cmp_subject : PropertySubject → PropertySubject → Ordering
cmp_subject (element_subject a) (element_subject b) = compare a b
cmp_subject (element_subject a) (relation_subject b) = lt
cmp_subject (element_subject a) (incidence_subject b) = lt
cmp_subject (relation_subject a) (element_subject b) = gt
cmp_subject (relation_subject a) (relation_subject b) = compare a b
cmp_subject (relation_subject a) (incidence_subject b) = lt
cmp_subject (incidence_subject a) (element_subject b) = gt
cmp_subject (incidence_subject a) (relation_subject b) = gt
cmp_subject (incidence_subject a) (incidence_subject b) = compare a b

pub cmp_subject_refl : (a : PropertySubject) → cmp_subject a a ≡ eq
cmp_subject_refl (element_subject a) = ground arith
cmp_subject_refl (relation_subject a) = ground arith
cmp_subject_refl (incidence_subject a) = ground arith

pub eq_of_cmp_subject : (a b : PropertySubject) → cmp_subject a b ≡ eq → a ≡ b
eq_of_cmp_subject (element_subject a) (element_subject b) h = ground arith
eq_of_cmp_subject (element_subject a) (relation_subject b) h = ground arith
eq_of_cmp_subject (element_subject a) (incidence_subject b) h = ground arith
eq_of_cmp_subject (relation_subject a) (element_subject b) h = ground arith
eq_of_cmp_subject (relation_subject a) (relation_subject b) h = ground arith
eq_of_cmp_subject (relation_subject a) (incidence_subject b) h = ground arith
eq_of_cmp_subject (incidence_subject a) (element_subject b) h = ground arith
eq_of_cmp_subject (incidence_subject a) (relation_subject b) h = ground arith
eq_of_cmp_subject (incidence_subject a) (incidence_subject b) h = ground arith

instance unfoldable pub subject_ord : Ord PropertySubject
subject_ord = record {
  cmp = cmp_subject;
  cmp_refl = cmp_subject_refl;
  eq_of_cmp = eq_of_cmp_subject;
}

-- `i64`
pub data ℤ : Type 0 where
  pos negsuc : (n : ℕ) → ℤ

abbrev pub ==ℤ : ℤ → ℤ → Bool
==ℤ (pos a) (pos b) = a == b
==ℤ (negsuc a) (negsuc b) = a == b
==ℤ _ _ = false

abbrev pub IsI64 : ℤ → Type 0
IsI64 (pos n) = n < 2 ^ 63
IsI64 (negsuc n) = n < 2 ^ 63

-- The two's complement `i64::cast_unsigned` and `u64::cast_signed`.
abbrev pub cast_unsigned : ℤ → ℕ
cast_unsigned (pos n) = n
cast_unsigned (negsuc n) = u64_max - n

abbrev pub cast_signed : ℕ → ℤ
cast_signed word = if ltb word (2 ^ 63) then pos word else negsuc (u64_max - word)

pub data PropertyType : Type 0 where
  boolean_type integer_type text_type : PropertyType

-- A text is its bytes.
pub data PropertyValue : Type 0 where
  boolean : (flag : Bool) → PropertyValue
  integer : (number : ℤ) → PropertyValue
  text : (string : List ℕ) → PropertyValue

abbrev pub value_type : PropertyValue → PropertyType
value_type (boolean flag) = boolean_type
value_type (integer number) = integer_type
value_type (text string) = text_type

abbrev pub ==Bool : Bool → Bool → Bool
==Bool true b = b
==Bool false true = false
==Bool false false = true

abbrev pub ==bytes : List ℕ → List ℕ → Bool
==bytes [] [] = true
==bytes (x ∷ xs) (y ∷ ys) = if x == y then ==bytes xs ys else false
==bytes _ _ = false

-- The derived `==`.
abbrev pub ==value : PropertyValue → PropertyValue → Bool
==value (boolean a) (boolean b) = ==Bool a b
==value (integer a) (integer b) = ==ℤ a b
==value (text a) (text b) = ==bytes a b
==value _ _ = false

pub record NextIds : Type 0 where
  pub element : ℕ
  pub relation : ℕ
  pub incidence : ℕ
  pub role : ℕ
  pub label : ℕ
  pub relation_type : ℕ
  pub property_key : ℕ
  pub projection : ℕ
  pub index : ℕ

-- `NextIds::INITIAL`
abbrev pub initial_ids : NextIds
initial_ids = record {
  element = 1;
  relation = 1;
  incidence = 1;
  role = 1;
  label = 1;
  relation_type = 1;
  property_key = 1;
  projection = 1;
  index = 1;
}

abbrev pub elementwise_max : NextIds → NextIds → NextIds
elementwise_max a b = record {
  element = max a.element b.element;
  relation = max a.relation b.relation;
  incidence = max a.incidence b.incidence;
  role = max a.role b.role;
  label = max a.label b.label;
  relation_type = max a.relation_type b.relation_type;
  property_key = max a.property_key b.property_key;
  projection = max a.projection b.projection;
  index = max a.index b.index;
}

pub cast_signed-cast_unsigned : (z : ℤ) → IsI64 z → cast_signed (cast_unsigned z) ≡ z
cast_signed-cast_unsigned (pos n) h = ground arith
cast_signed-cast_unsigned (negsuc n) h = ground arith

pub cast_unsigned_word : (z : ℤ) → IsI64 z → cast_unsigned z < 2 ^ 64
cast_unsigned_word (pos n) h = ground arith
cast_unsigned_word (negsuc n) h = ground arith
