-- ===== src/Layout/Integrity/Issues.antt =====
-- crates/oxgraph-layout-util/src/integrity.rs: the issues of `check_offset_section`.
use oxgraph.Prelude.{
  ℕ, suc, ◌+◌, ◌-◌, ◌≤◌, ◌<◌, ◌≡◌, ◌≢◌, refl, List, [], ◌∷◌, length, ok, err, arith, Bool-cases,
  leb, ◌==◌, ◌>>◌, inl, inr, suc-eq-zero,
}
use oxgraph.Layout.Integrity.{
  OffsetIntegrityIssue, wrong_length, count_overflow, first_non_zero, non_monotonic, final_mismatch,
  value_out_of_range, usize_overflow, Checked, ◌!◌, monotonic_loop, check_offsets_monotonic,
  check_final, check_offset_section,
}
use oxgraph.Layout.Integrity.Offsets.{IsOffsetSection, check_offset_section_iff}

-- What an issue says of the words after `previous`, the first of them numbered `index`.
abbrev ReportsOrder : (usize_max index previous : ℕ) → List ℕ → Checked → Type 0
ReportsOrder usize_max index previous words (ok _) = Unit
ReportsOrder usize_max index previous words (err (non_monotonic at before actual)) =
    (k : ℕ) × (at ≡ index + k)
    × (k < length words)
    × ((previous ∷ words) ! k ≡ before)
    × (words ! k ≡ actual)
    × (actual < before)
ReportsOrder usize_max index previous words (err (usize_overflow at)) =
    (k : ℕ) × (at ≡ index + k) × (k < length words) × (usize_max < words ! k)
ReportsOrder usize_max index previous words (err _) = ⊥

-- What the whole check says: the array cuts the values into ranges, or the issue is a true
-- observation of the array that contradicts it.
abbrev pub ReportsOffsets : (usize_max : ℕ) → List ℕ → (count value_len : ℕ) → Checked → Type 0
ReportsOffsets usize_max offsets count value_len (ok _) = IsOffsetSection offsets count value_len
ReportsOffsets usize_max offsets count value_len (err (count_overflow n)) =
    (n ≡ count) × (usize_max < count + 1)
ReportsOffsets usize_max offsets count value_len (err (wrong_length expected actual)) =
    (expected ≡ count + 1) × (actual ≡ length offsets) × (actual ≢ expected)
ReportsOffsets usize_max offsets count value_len (err (first_non_zero actual)) =
    (offsets ! 0 ≡ actual) × (actual ≢ 0)
ReportsOffsets usize_max offsets count value_len (err (non_monotonic index previous actual)) =
    (0 < index)
    × (index < length offsets)
    × (offsets ! (index - 1) ≡ previous)
    × (offsets ! index ≡ actual)
    × (actual < previous)
ReportsOffsets usize_max offsets count value_len (err (final_mismatch final_offset len)) =
    (offsets ! count ≡ final_offset) × (len ≡ value_len) × (final_offset ≢ value_len)
ReportsOffsets usize_max offsets count value_len (err (usize_overflow index)) =
    (index < length offsets) × (usize_max < offsets ! index)
ReportsOffsets usize_max offsets count value_len (err (value_out_of_range _ _ _)) = ⊥

abbrev RefusesTruly : (usize_max : ℕ) → List ℕ → (count value_len : ℕ) → Checked → Type 0
RefusesTruly usize_max offsets count value_len (ok _) = Unit
RefusesTruly usize_max offsets count value_len (err e) =
    ReportsOffsets usize_max offsets count value_len (err e)

module _ (usize_max : ℕ) where
  ReportsOrder-cons :
      (index previous x : ℕ) (xs : List ℕ) (r : Checked)
      → ReportsOrder usize_max (suc index) x xs r
      → ReportsOrder usize_max index previous (x ∷ xs) r
  ReportsOrder-cons index previous x xs (ok _) h = tt
  ReportsOrder-cons index previous x xs (err (non_monotonic at before actual)) (k, e, lt, p, a, d) =
      (suc k, omega arith, omega arith, p, a, d)
  ReportsOrder-cons index previous x xs (err (usize_overflow at)) (k, e, lt, o) =
      (suc k, omega arith, omega arith, o)
  ReportsOrder-cons index previous x xs (err _) h = elim h [ ]

  monotonic_loop-Reports :
      (index previous : ℕ) (words : List ℕ)
      → ReportsOrder usize_max
          (suc index)
          previous
          words
          (monotonic_loop usize_max (suc index) previous words)
  unfolding monotonic_loop
  monotonic_loop-Reports index previous [] = tt
  monotonic_loop-Reports index previous (x ∷ xs) = elim (Bool-cases (leb x usize_max)) [
    | inr e ↦ rw e (0, omega arith, omega arith, ground arith)
    | inl e ↦
        rw (e, suc-eq-zero index)
          (elim (Bool-cases (leb previous x)) [
            | inr f ↦ rw f (0, omega arith, omega arith, refl, refl, ground arith)
            | inl f ↦ rw f (
                ReportsOrder-cons (suc index) previous x xs
                  (monotonic_loop usize_max (suc (suc index)) x xs)
                  (monotonic_loop-Reports (suc index) x xs))
          ])
  ]

  module _ (count value_len : ℕ) where
    -- From the loop's report on the tail to that of the whole array.
    order→offsets :
        (x : ℕ) (xs : List ℕ) (e : OffsetIntegrityIssue)
        → ReportsOrder usize_max 1 x xs (err e)
        → ReportsOffsets usize_max (x ∷ xs) count value_len (err e)
    order→offsets x xs (non_monotonic at before actual) (k, e, lt, p, a, d) =
        let at_suc : at ≡ suc k = omega arith in
        let before_at : suc k - 1 ≡ k = omega arith in
        rw (at_suc, before_at) (omega arith, omega arith, p, a, d)
    order→offsets x xs (usize_overflow at) (k, e, lt, o) =
        let at_suc : at ≡ suc k = omega arith in rw at_suc (omega arith, o)
    order→offsets x xs _ h = elim h [ ]

    order_report :
        (x : ℕ) (xs : List ℕ) (r : Checked)
        → ReportsOrder usize_max 1 x xs r
        → RefusesTruly usize_max (x ∷ xs) count value_len r
    order_report x xs (ok _) h = tt
    order_report x xs (err e) h = order→offsets x xs e h

    loop_report :
        (x : ℕ) (xs : List ℕ)
        → RefusesTruly usize_max
            (x ∷ xs)
            count
            value_len
            (check_offsets_monotonic usize_max (x ∷ xs))
    unfolding check_offsets_monotonic monotonic_loop
    loop_report x xs = elim (Bool-cases (leb x usize_max)) [
      | inr big ↦ rw big (omega arith, ground arith)
      | inl fits ↦ rw fits (elim (Bool-cases (x == 0)) [
        | inr bad ↦ rw bad (refl, ground arith)
        | inl good ↦
            rw good
              (order_report x xs (monotonic_loop usize_max 1 x xs) (monotonic_loop-Reports 0 x xs))
      ])
    ]

    RefusesTruly-bind :
        (offsets : List ℕ) (m k : Checked)
        → RefusesTruly usize_max offsets count value_len m
        → RefusesTruly usize_max offsets count value_len k
        → RefusesTruly usize_max offsets count value_len (m >> k)
    RefusesTruly-bind offsets (ok _) k h j = j
    RefusesTruly-bind offsets (err e) k h j = h

    final_report :
        (offsets : List ℕ)
        → value_len ≤ usize_max
        → length offsets ≡ count + 1
        → RefusesTruly usize_max offsets count value_len
            (check_final usize_max (length offsets - 1) (offsets ! (length offsets - 1)) value_len)
    unfolding check_final
    final_report offsets fits size =
        let last : length offsets - 1 ≡ count = omega arith in
        rw last (elim (Bool-cases (leb (offsets ! count) usize_max)) [
          | inr big ↦ rw big (omega arith, ground arith)
          | inl small ↦ rw small (elim (Bool-cases ((offsets ! count) == value_len)) [
            | inr off ↦ rw off (refl, refl, ground arith)
            | inl same ↦ rw same tt
          ])
        ])

    -- The two loops' part, once the length is right.
    body_report :
        (offsets : List ℕ)
        → value_len ≤ usize_max
        → length offsets ≡ count + 1
        → RefusesTruly usize_max offsets count value_len (
            check_offsets_monotonic usize_max offsets
            >> check_final usize_max
                (length offsets - 1)
                (offsets ! (length offsets - 1))
                value_len)
    body_report [] fits size = absurd (omega arith)
    body_report (x ∷ xs) fits size =
        RefusesTruly-bind (x ∷ xs) _ _ (loop_report x xs) (final_report (x ∷ xs) fits size)

    section_report :
        (offsets : List ℕ)
        → value_len ≤ usize_max
        → RefusesTruly usize_max offsets count value_len
            (check_offset_section usize_max offsets count value_len)
    unfolding check_offset_section
    section_report offsets fits = elim (Bool-cases (leb (count + 1) usize_max)) [
      | inr big ↦ rw big (refl, ground arith)
      | inl small ↦ rw small (elim (Bool-cases (length offsets == count + 1)) [
        | inr off ↦ rw off (refl, refl, ground arith)
        | inl same ↦ rw same (body_report offsets fits (ground arith))
      ])
    ]

    reports_of :
        (offsets : List ℕ) (r : Checked)
        → (r ≡ ok tt → IsOffsetSection offsets count value_len)
        → RefusesTruly usize_max offsets count value_len r
        → ReportsOffsets usize_max offsets count value_len r
    reports_of offsets (ok _) good h = good refl
    reports_of offsets (err e) good h = h

    -- On every branch `check_offset_section` tells the truth: a pass means that the offsets cut the
    -- values into `count` ranges, and each issue is an observation of the array, with the numbers
    -- that it carries, which rules that out. Slice lengths fit `usize`.
    pub check_offset_section-Reports :
        (offsets : List ℕ)
        → length offsets ≤ usize_max
        → value_len ≤ usize_max
        → ReportsOffsets usize_max offsets count value_len
            (check_offset_section usize_max offsets count value_len)
    check_offset_section-Reports offsets fits fits' =
        reports_of offsets _
          (check_offset_section_iff usize_max offsets count value_len fits fits').0
          (section_report offsets fits')
