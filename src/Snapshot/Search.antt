-- ===== src/Snapshot/Search.antt =====
-- `slice::binary_search_by` of the standard library, as `Snapshot::section` calls it on the kinds
-- of the entries: the range `base .. base + size` is halved until one candidate is left.
use oxgraph.Prelude.{
  ℕ, zero, suc, ◌+◌, ◌-◌, ◌/◌, ◌≤◌, ◌<◌, ◌≡◌, ◌⊎◌, ◌↔◌, Option, none, some, List, [], ◌∷◌, length,
  get_or, ltb, ◌==◌, if◌then◌else◌, arith, Bool-cases, inl, inr,
}

-- Fuel bounds the rounds; a range of `size` needs fewer than `size`.
unfoldable pub search_loop : ℕ → List ℕ → ℕ → ℕ → ℕ → ℕ
search_loop zero kinds kind base size = base
search_loop (suc fuel) kinds kind base size =
    let mid = base + size / 2 in
    let next =
      search_loop fuel kinds kind (if ltb kind (get_or kinds mid 0) then base else mid)
        (size - size / 2) in
    if ltb 1 size then next else base

unfoldable pub binary_search : List ℕ → ℕ → Option ℕ
binary_search kinds kind =
    let base = search_loop (length kinds) kinds kind 0 (length kinds) in
    if length kinds == 0 then none else if get_or kinds base 0 == kind then some base else none

-- Strictly ascending, each kind above `prev` too.
abbrev pub IsAscendingFrom : Option ℕ → List ℕ → Type 0
IsAscendingFrom prev [] = Unit
IsAscendingFrom none (k ∷ ks) = IsAscendingFrom (some k) ks
IsAscendingFrom (some prev) (k ∷ ks) = (prev < k) × IsAscendingFrom (some k) ks

above :
    (prev : ℕ) (ks : List ℕ) (j : ℕ)
    → IsAscendingFrom (some prev) ks
    → j < length ks
    → prev < get_or ks j 0
above prev [] j h lt = absurd (omega arith)
above prev (k ∷ ks) zero h lt = h.0
above prev (k ∷ ks) (suc j) h lt = omega (arith, above k ks j h.1 (omega arith))

-- So the kinds grow with the index.
pub ascending_lt :
    (prev : Option ℕ) (ks : List ℕ) (i j : ℕ)
    → IsAscendingFrom prev ks
    → i < j
    → j < length ks
    → get_or ks i 0 < get_or ks j 0
ascending_lt prev [] i j h lt in_range = absurd (omega arith)
ascending_lt prev (k ∷ ks) i zero h lt in_range = absurd (omega arith)
ascending_lt none (k ∷ ks) zero (suc j) h lt in_range = above k ks j h (omega arith)
ascending_lt (some p) (k ∷ ks) zero (suc j) h lt in_range = above k ks j h.1 (omega arith)
ascending_lt none (k ∷ ks) (suc i) (suc j) h lt in_range =
    ascending_lt (some k) ks i j h (omega arith) (omega arith)
ascending_lt (some p) (k ∷ ks) (suc i) (suc j) h lt in_range =
    ascending_lt (some k) ks i j h.1 (omega arith) (omega arith)

le-or-lt : (a b : ℕ) → (a ≤ b) ⊎ (b < a)
le-or-lt a b = ground arith

module _ (kinds : List ℕ) (kind : ℕ) (sorted : IsAscendingFrom none kinds) where
  index_le :
      (i j : ℕ) → i < length kinds → get_or kinds i 0 ≤ get_or kinds j 0 → j < length kinds → i ≤ j
  index_le i j h le j_in = elim (le-or-lt i j) [
    | inl p ↦ p
    | inr p ↦ absurd (omega (arith, ascending_lt none kinds j i sorted p h))
  ]

  index_lt :
      (i j : ℕ) → i < length kinds → j < length kinds → get_or kinds i 0 < get_or kinds j 0 → i < j
  index_lt i j h k lt = elim (le-or-lt j i) [
    | inl p ↦ absurd (ground (arith, index_eq_or i j p, ascending_lt none kinds j i sorted))
    | inr p ↦ p
  ]
    where
      index_eq_or : (i j : ℕ) → j ≤ i → (i ≡ j) ⊎ (j < i)
      index_eq_or i j p = ground arith

  -- An index that holds the kind stays inside the range.
  search_loop-finds :
      (fuel base size i : ℕ)
      → size ≤ fuel
      → base + size ≤ length kinds
      → base ≤ i
      → i < base + size
      → get_or kinds i 0 ≡ kind
      → search_loop fuel kinds kind base size ≡ i
  unfolding search_loop
  search_loop-finds zero base size i f b lo hi e = absurd (omega arith)
  search_loop-finds (suc fuel) base size i f b lo hi e = elim (Bool-cases (ltb 1 size)) [
    | inr one ↦ rw one (ground arith)
    | inl more ↦ rw more (elim (Bool-cases (ltb kind (get_or kinds (base + size / 2) 0))) [
      | inl left ↦ rw left (
          search_loop-finds fuel base (size - size / 2) i (ground arith) (ground arith) lo
            (omega
              (arith, index_lt i (base + size / 2) (omega arith) (ground arith) (ground arith)))
            e)
      | inr right ↦ rw right (
          search_loop-finds fuel (base + size / 2) (size - size / 2) i (ground arith) (ground arith)
            (index_le (base + size / 2) i (ground arith) (ground arith) (omega arith))
            (ground arith) e)
    ])
  ]

  search_loop-in :
      (fuel base size : ℕ)
      → 0 < size
      → base + size ≤ length kinds
      → search_loop fuel kinds kind base size < length kinds
  unfolding search_loop
  search_loop-in zero base size p b = omega arith
  search_loop-in (suc fuel) base size p b = elim (Bool-cases (ltb 1 size)) [
    | inr one ↦ rw one (omega arith)
    | inl more ↦ rw more (
        search_loop-in fuel
          (if ltb kind (get_or kinds (base + size / 2) 0) then base else base + size / 2)
          (size - size / 2) (ground arith) (ground arith))
  ]

  -- On strictly ascending kinds the search finds a kind exactly where it stands.
  pub binary_search_iff :
      (i : ℕ)
      → (binary_search kinds kind ≡ some i) ↔ ((i < length kinds) × (get_or kinds i 0 ≡ kind))
  unfolding binary_search
  binary_search_iff i = (
    λ h. ground (arith, search_loop-in (length kinds) 0 (length kinds)),
    λ (lt, e).
        let found =
          search_loop-finds (length kinds) 0 (length kinds) i (omega arith) (omega arith)
            (omega arith) (omega arith) e in
        rw found (ground arith),
  )
