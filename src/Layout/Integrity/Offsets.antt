-- ===== src/Layout/Integrity/Offsets.antt =====
-- crates/oxgraph-layout-util/src/integrity.rs: offset arrays that pass.
use oxgraph.Prelude.{
  ℕ, zero, suc, ◌+◌, ◌-◌, ◌≤◌, ◌<◌, ◌≡◌, refl, ◌↔◌, List, [], ◌∷◌, length, ok, arith, inl, inr, ◌⊎◌,
}
use oxgraph.Layout.Integrity.{
  ◌!◌, monotonic_loop, check_offsets_monotonic, check_final, check_offset_section,
}

le-cases : (i j : ℕ) → i ≤ j → (i ≡ j) ⊎ (i < j)
le-cases i j h = ground arith

-- Each number is at least the one before it, the first at least `previous`, and all fit `usize`.
abbrev pub IsAscending : ℕ → ℕ → List ℕ → Type 0
IsAscending usize_max previous [] = Unit
IsAscending usize_max previous (x ∷ xs) =
    (previous ≤ x) × (x ≤ usize_max) × IsAscending usize_max x xs

-- `offsets` cuts `value_len` values into `count` ranges: offsets[i] .. offsets[i + 1] is the i-th.
pub record IsOffsetSection (offsets : List ℕ) (count value_len : ℕ) : Type 0 where
  pub size : length offsets ≡ count + 1
  pub first : offsets ! 0 ≡ 0
  pub ordered : (i : ℕ) → i < count → offsets ! i ≤ offsets ! (suc i)
  pub final : offsets ! count ≡ value_len

module _ {offsets : List ℕ} {count value_len : ℕ} where
  -- Offsets never decrease, however far apart.
  pub offsets_mono :
      IsOffsetSection offsets count value_len
      → (i j : ℕ) → i ≤ j
      → j ≤ count
      → offsets ! i ≤ offsets ! j
  offsets_mono h i zero p q = let e : i ≡ 0 = omega arith in rw e (omega arith)
  offsets_mono h i (suc j) p q = elim (le-cases i (suc j) p) [
    | inl e ↦ rw e (omega arith)
    | inr lt ↦
        omega (arith, offsets_mono h i j (omega arith) (omega arith), h.ordered j (omega arith))
  ]

  -- So every offset is inside the values.
  pub offsets-le-len :
      IsOffsetSection offsets count value_len → (i : ℕ) → i ≤ count → offsets ! i ≤ value_len
  offsets-le-len h i p = omega (arith, offsets_mono h i count p (omega arith), h.final)

ascending→ordered :
    (usize_max previous : ℕ) (xs : List ℕ) (i : ℕ)
    → IsAscending usize_max previous xs
    → suc i < length xs
    → xs ! i ≤ xs ! (suc i)
ascending→ordered m p [] i h lt = absurd (omega arith)
ascending→ordered m p (x ∷ []) i h lt = absurd (omega arith)
ascending→ordered m p (x ∷ y ∷ xs) zero h lt = h.2.0
ascending→ordered m p (x ∷ y ∷ xs) (suc i) h lt = ascending→ordered m x (y ∷ xs) i h.2 (omega arith)

ordered→ascending :
    (usize_max previous : ℕ) (xs : List ℕ)
    → ((i : ℕ) → i < length xs → xs ! i ≤ usize_max)
    → ((i : ℕ) → suc i < length xs → xs ! i ≤ xs ! (suc i))
    → previous ≤ xs ! 0
    → IsAscending usize_max previous xs
ordered→ascending m p [] small h le = tt
ordered→ascending m p (x ∷ []) small h le = (le, small 0 (omega arith), tt)
ordered→ascending m p (x ∷ y ∷ xs) small h le = (
  le,
  small 0 (omega arith),
  ordered→ascending m x (y ∷ xs) (λ i lt. small (suc i) (omega arith))
      (λ i lt. h (suc i) (omega arith)) (h 0 (omega arith)),
)

module _ (usize_max : ℕ) where
  monotonic_loop-IsAscending :
      (index previous : ℕ) (words : List ℕ)
      → (monotonic_loop usize_max (suc index) previous words ≡ ok tt)
        ↔ IsAscending usize_max previous words
  unfolding monotonic_loop
  monotonic_loop-IsAscending index previous [] = (λ _. tt, λ _. refl)
  monotonic_loop-IsAscending index previous (x ∷ xs) =
      ground (arith, monotonic_loop-IsAscending (suc index) x xs)

  check_offsets_monotonic-IsAscending :
      (offsets : List ℕ)
      → (check_offsets_monotonic usize_max offsets ≡ ok tt)
        ↔ (IsAscending usize_max 0 offsets × (offsets ! 0 ≡ 0))
  unfolding check_offsets_monotonic monotonic_loop
  check_offsets_monotonic-IsAscending [] = (λ _. (tt, refl), λ _. refl)
  check_offsets_monotonic-IsAscending (x ∷ xs) = ground (arith, monotonic_loop-IsAscending 0 x xs)

  module _ (offsets : List ℕ) (count value_len : ℕ) where
    section_parts :
        length offsets ≤ usize_max
        → (check_offset_section usize_max offsets count value_len ≡ ok tt) ↔ (
            (length offsets ≡ count + 1)
            × (check_offsets_monotonic usize_max offsets ≡ ok tt)
            × (check_final usize_max (length offsets - 1) (offsets ! (length offsets - 1)) value_len
                ≡ ok tt))
    unfolding check_offset_section
    section_parts fits = ground arith

    final_part :
        value_len ≤ usize_max
        → length offsets ≡ count + 1
        → (check_final usize_max (length offsets - 1) (offsets ! (length offsets - 1)) value_len
            ≡ ok tt)
          ↔ (offsets ! count ≡ value_len)
    unfolding check_final
    final_part fits size = let e : length offsets - 1 ≡ count = omega arith in rw e (ground arith)

    passed→IsOffsetSection :
        length offsets ≤ usize_max
        → value_len ≤ usize_max
        → check_offset_section usize_max offsets count value_len ≡ ok tt
        → IsOffsetSection offsets count value_len
    passed→IsOffsetSection fits fits' h =
        let (size, mono, last) = (section_parts fits).0 h in
        let (up, first) = (check_offsets_monotonic-IsAscending offsets).0 mono in
        record {
          size = size;
          first = first;
          ordered = λ i lt. ascending→ordered usize_max 0 offsets i up (omega arith);
          final = (final_part fits' size).0 last;
        }

    -- The check passes exactly on the arrays that cut `value_len` values into `count` consecutive
    -- ranges, for slices whose lengths fit `usize`.
    pub check_offset_section_iff :
        length offsets ≤ usize_max
        → value_len ≤ usize_max
        → (check_offset_section usize_max offsets count value_len ≡ ok tt)
          ↔ IsOffsetSection offsets count value_len
    check_offset_section_iff fits fits' = (
      passed→IsOffsetSection fits fits',
      λ h. (section_parts fits).1 (
        h.size,
        (check_offsets_monotonic-IsAscending offsets).1 (
          ordered→ascending usize_max 0 offsets
              (λ i lt. omega (arith, offsets-le-len h i (omega (arith, h.size))))
              (λ i lt. h.ordered i (omega (arith, h.size))) (omega arith),
          h.first,
        ),
        (final_part fits' h.size).1 h.final,
      ),
    )
