-- ===== src/Layout/Integrity.antt =====
-- crates/oxgraph-layout-util/src/integrity.rs: the checks that a borrowed offset or value array
-- passes before a view is opened.
pub mod Offsets
pub mod Values
pub mod Issues
use oxgraph.Prelude.{
  ℕ, suc, ◌+◌, ◌-◌, ◌≡◌, Option, none, some, List, [], ◌∷◌, length, get_or, ltb, leb, ◌==◌,
  if◌then◌else◌, Result, ok, err, ◌>>=◌, ◌>>◌, guard, ok_or,
}
use oxgraph.Layout.Width.{to_usize, checked_add}

-- `OffsetIntegrityIssue`; `wrong_length` is its `Length`.
pub data OffsetIntegrityIssue : Type 0 where
  wrong_length : (expected actual : ℕ) → OffsetIntegrityIssue
  count_overflow : (count : ℕ) → OffsetIntegrityIssue
  first_non_zero : (actual : ℕ) → OffsetIntegrityIssue
  non_monotonic : (index previous actual : ℕ) → OffsetIntegrityIssue
  final_mismatch : (final_offset value_len : ℕ) → OffsetIntegrityIssue
  value_out_of_range : (index value bound : ℕ) → OffsetIntegrityIssue
  usize_overflow : (index : ℕ) → OffsetIntegrityIssue

abbrev pub Checked : Type 0
Checked = Result OffsetIntegrityIssue (Unit {0})

-- A total read, for statements; each use stands under a bound on the index.
infixl 90 ◌!◌
abbrev pub ◌!◌ : List ℕ → ℕ → ℕ
a ! i = get_or a i 0

module _ (usize_max : ℕ) where
  -- The loop of `check_offsets_monotonic` from `index` on, after `previous`.
  unfoldable pub monotonic_loop : ℕ → ℕ → List ℕ → Checked
  monotonic_loop index previous [] = ok tt
  monotonic_loop index previous (word ∷ words) = do
    offset ← ok_or (to_usize usize_max word) (usize_overflow index)
    if index == 0
        then guard (offset == 0) (first_non_zero offset)
        else guard (leb previous offset) (non_monotonic index previous offset)
    monotonic_loop (suc index) offset words

  unfoldable pub check_offsets_monotonic : List ℕ → Checked
  check_offsets_monotonic offsets = monotonic_loop 0 0 offsets

  -- The loop of `check_value_range` from `index` on.
  unfoldable pub range_loop : ℕ → ℕ → List ℕ → Checked
  range_loop bound index [] = ok tt
  range_loop bound index (word ∷ words) = do
    value ← ok_or (to_usize usize_max word) (usize_overflow index)
    guard (ltb value bound) (value_out_of_range index value bound)
    range_loop bound (suc index) words

  unfoldable pub check_value_range : List ℕ → ℕ → Checked
  check_value_range values bound = range_loop bound 0 values

  -- The last test of `check_offset_section`, on the word at `final_index`.
  unfoldable pub check_final : ℕ → ℕ → ℕ → Checked
  check_final final_index word value_len = do
    final_offset ← ok_or (to_usize usize_max word) (usize_overflow final_index)
    guard (final_offset == value_len) (final_mismatch final_offset value_len)

  unfoldable pub check_offset_section : List ℕ → ℕ → ℕ → Checked
  check_offset_section offsets expected_count value_len = do
    expected ← ok_or (checked_add usize_max expected_count 1) (count_overflow expected_count)
    guard (length offsets == expected) (wrong_length expected (length offsets))
    check_offsets_monotonic offsets
    check_final (length offsets - 1) (offsets ! (length offsets - 1)) value_len
