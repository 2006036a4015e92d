-- ===== src/Db/Map.antt =====
-- The `BTreeMap` and `BTreeSet` of crates/oxgraph-db, as association lists in the keys' order.
-- `K: Ord` is an instance with the laws that the trait asks of `cmp`.
pub mod Laws
pub mod Sorted
use Prim.Native.Nat.{compare, Ordering}
use Prim.Native.Nat.Ordering.{lt, eq, gt}
use oxgraph.Prelude.{
  ℕ, ◌≡◌, refl, Bool, true, false, Option, none, some, List, [], ◌∷◌, arith, ◌≢◌, ap,
}

-- Equality is read as `≡`; that the order is one is not needed.
pub record Ord {ℓ} (Key : Type ℓ) : Type ℓ where
  pub cmp : Key → Key → Ordering
  pub cmp_refl : (key : Key) → cmp key key ≡ eq
  pub eq_of_cmp : (key other : Key) → cmp key other ≡ eq → key ≡ other

pub compare_refl : (n : ℕ) → compare n n ≡ eq
compare_refl n = ground arith

pub eq_of_compare : (n k : ℕ) → compare n k ≡ eq → n ≡ k
eq_of_compare n k h = ground arith

instance unfoldable pub nat_ord : Ord ℕ
nat_ord = record { cmp = compare; cmp_refl = compare_refl; eq_of_cmp = eq_of_compare }

-- Sequences compare lexicographically.
module _ {ℓ} {K : Type ℓ} ⦃o : Ord K⦄ where
  unfoldable pub cmp_list : List K → List K → Ordering
  cmp_list [] [] = eq
  cmp_list [] (y ∷ ys) = lt
  cmp_list (x ∷ xs) [] = gt
  cmp_list (x ∷ xs) (y ∷ ys) = elim (o.cmp x y) [ eq ↦ cmp_list xs ys | lt ↦ lt | gt ↦ gt ]

  pub cmp_list_refl : (xs : List K) → cmp_list xs xs ≡ eq
  unfolding cmp_list
  cmp_list_refl [] = refl
  cmp_list_refl (x ∷ xs) = rw (o.cmp_refl x, cmp_list) (cmp_list_refl xs)

  pub eq_of_cmp_list : (xs ys : List K) → cmp_list xs ys ≡ eq → xs ≡ ys
  unfolding cmp_list
  eq_of_cmp_list [] [] h = refl
  eq_of_cmp_list [] (y ∷ ys) h = ground arith
  eq_of_cmp_list (x ∷ xs) [] h = ground arith
  eq_of_cmp_list (x ∷ xs) (y ∷ ys) h = ground (arith, o.eq_of_cmp x y, eq_of_cmp_list xs ys)

  instance unfoldable pub list_ord : Ord (List K)
  list_ord = record { cmp = cmp_list; cmp_refl = cmp_list_refl; eq_of_cmp = eq_of_cmp_list }

abbrev pub Map {ℓ κ} : Type ℓ → Type κ → Type (ℓ ⊔ κ)
Map K V = List (K × V)

module _ {ℓ κ} {K : Type ℓ} {V : Type κ} ⦃o : Ord K⦄ where
  unfoldable pub get : K → Map K V → Option V
  get k [] = none
  get k ((q, v) ∷ m) = elim (o.cmp k q) [ eq ↦ some v | lt ↦ get k m | gt ↦ get k m ]

  unfoldable pub insert : K → V → Map K V → Map K V
  insert k v [] = (k, v) ∷ []
  insert k v ((q, u) ∷ m) = elim (o.cmp k q) [
    | lt ↦ (k, v) ∷ (q, u) ∷ m
    | eq ↦ (k, v) ∷ m
    | gt ↦ (q, u) ∷ insert k v m
  ]

  unfoldable pub remove : K → Map K V → Map K V
  remove k [] = []
  remove k ((q, u) ∷ m) = elim (o.cmp k q) [
    | eq ↦ remove k m
    | lt ↦ (q, u) ∷ remove k m
    | gt ↦ (q, u) ∷ remove k m
  ]

  abbrev pub contains_key : K → Map K V → Bool
  contains_key k m = elim (get k m) [ none ↦ false | some v ↦ true ]

module _ {ℓ} {K : Type ℓ} ⦃o : Ord K⦄ where
  -- `BTreeSet::insert`
  unfoldable pub set_insert : K → List K → List K
  set_insert k [] = k ∷ []
  set_insert k (q ∷ s) = elim (o.cmp k q) [ lt ↦ k ∷ q ∷ s | eq ↦ q ∷ s | gt ↦ q ∷ set_insert k s ]

  -- `collect` into a `BTreeSet`
  unfoldable pub set_of : List K → List K
  set_of [] = []
  set_of (x ∷ xs) = set_insert x (set_of xs)
