-- ===== src/Db/Index/Order.antt =====
-- crates/oxgraph-db/src/value.rs and index.rs: the order of the keys of the equality postings.
use Prim.Native.Nat.{Ordering, compare}
use Prim.Native.Nat.Ordering.{lt, eq, gt}
use oxgraph.Prelude.{ℕ, ◌≡◌, refl, ap, Bool, true, false, arith}
use oxgraph.Db.State.{ℤ, pos, negsuc, PropertyValue, boolean, integer, text}
use oxgraph.Db.Map.{Ord, nat_ord, list_ord, cmp_list, cmp_list_refl, eq_of_cmp_list}

-- The derived orders of `i64`, `bool` and `PropertyValue`.
abbrev pub cmp_integer : ℤ → ℤ → Ordering
cmp_integer (pos a) (pos b) = compare a b
cmp_integer (pos a) (negsuc b) = gt
cmp_integer (negsuc a) (pos b) = lt
cmp_integer (negsuc a) (negsuc b) = compare b a

abbrev pub cmp_boolean : Bool → Bool → Ordering
cmp_boolean false true = lt
cmp_boolean true false = gt
cmp_boolean _ _ = eq

abbrev pub cmp_value : PropertyValue → PropertyValue → Ordering
cmp_value (boolean a) (boolean b) = cmp_boolean a b
cmp_value (boolean a) (integer b) = lt
cmp_value (boolean a) (text b) = lt
cmp_value (integer a) (boolean b) = gt
cmp_value (integer a) (integer b) = cmp_integer a b
cmp_value (integer a) (text b) = lt
cmp_value (text a) (boolean b) = gt
cmp_value (text a) (integer b) = gt
cmp_value (text a) (text b) = cmp_list a b

pub cmp_value_refl : (a : PropertyValue) → cmp_value a a ≡ eq
cmp_value_refl (boolean true) = refl
cmp_value_refl (boolean false) = refl
cmp_value_refl (integer (pos a)) = ground arith
cmp_value_refl (integer (negsuc a)) = ground arith
cmp_value_refl (text a) = cmp_list_refl a

pub eq_of_cmp_value : (a b : PropertyValue) → cmp_value a b ≡ eq → a ≡ b
eq_of_cmp_value (boolean true) (boolean true) h = refl
eq_of_cmp_value (boolean false) (boolean false) h = refl
eq_of_cmp_value (boolean true) (boolean false) h = ground arith
eq_of_cmp_value (boolean false) (boolean true) h = ground arith
eq_of_cmp_value (boolean a) (integer b) h = ground arith
eq_of_cmp_value (boolean a) (text b) h = ground arith
eq_of_cmp_value (integer a) (boolean b) h = ground arith
eq_of_cmp_value (integer (pos a)) (integer (pos b)) h = ground arith
eq_of_cmp_value (integer (pos a)) (integer (negsuc b)) h = ground arith
eq_of_cmp_value (integer (negsuc a)) (integer (pos b)) h = ground arith
eq_of_cmp_value (integer (negsuc a)) (integer (negsuc b)) h = ground arith
eq_of_cmp_value (integer a) (text b) h = ground arith
eq_of_cmp_value (text a) (boolean b) h = ground arith
eq_of_cmp_value (text a) (integer b) h = ground arith
eq_of_cmp_value (text a) (text b) h = ap text (eq_of_cmp_list a b h)

abbrev pub EqualityKey : Type 0
EqualityKey = ℕ × PropertyValue

abbrev pub cmp_equality : EqualityKey → EqualityKey → Ordering
cmp_equality a b = elim (compare a.0 b.0) [ eq ↦ cmp_value a.1 b.1 | lt ↦ lt | gt ↦ gt ]

pub cmp_equality_refl : (a : EqualityKey) → cmp_equality a a ≡ eq
cmp_equality_refl (k, v) = ground (arith, cmp_value_refl v, nat_ord.cmp_refl k)

pub eq_of_cmp_equality : (a b : EqualityKey) → cmp_equality a b ≡ eq → a ≡ b
eq_of_cmp_equality (k, v) (q, u) h = ground (arith, eq_of_cmp_value v u, nat_ord.eq_of_cmp k q)

instance unfoldable pub equality_ord : Ord EqualityKey
equality_ord = record {
  cmp = cmp_equality;
  cmp_refl = cmp_equality_refl;
  eq_of_cmp = eq_of_cmp_equality;
}
