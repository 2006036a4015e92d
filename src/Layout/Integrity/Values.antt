-- ===== src/Layout/Integrity/Values.antt =====
-- crates/oxgraph-layout-util/src/integrity.rs: `check_value_range`.
use oxgraph.Prelude.{
  ℕ, zero, suc, ◌+◌, ◌≤◌, ◌<◌, ◌≡◌, refl, inl, inr, List, [], ◌∷◌, length, ok, err, arith,
  Bool-cases, ltb, leb,
}
use oxgraph.Layout.Integrity.{
  value_out_of_range, usize_overflow, Checked, ◌!◌, range_loop, check_value_range,
}

-- What a run of the check on `values`, the first of them numbered `index`, says of them: all are
-- below `bound`, or the issue shows the first one that is not.
abbrev pub ReportsValues : (usize_max bound index : ℕ) → List ℕ → Checked → Type 0
ReportsValues usize_max bound index values (ok _) = (i : ℕ) → i < length values → values ! i < bound
ReportsValues usize_max bound index values (err (value_out_of_range at value limit)) =
    (k : ℕ) × (at ≡ index + k)
    × (k < length values)
    × (values ! k ≡ value)
    × (limit ≡ bound)
    × (bound ≤ value)
    × (value ≤ usize_max)
    × ((j : ℕ) → j < k → values ! j < bound)
ReportsValues usize_max bound index values (err (usize_overflow at)) =
    (k : ℕ) × (at ≡ index + k)
    × (k < length values)
    × (usize_max < values ! k)
    × ((j : ℕ) → j < k → values ! j < bound)
ReportsValues usize_max bound index values (err _) = ⊥

module _ (usize_max bound : ℕ) where
  below_cons :
      (x : ℕ) (xs : List ℕ) (k : ℕ)
      → x < bound
      → ((j : ℕ) → j < k → xs ! j < bound)
      → (j : ℕ) → j < suc k
      → (x ∷ xs) ! j < bound
  below_cons x xs k h hs zero p = h
  below_cons x xs k h hs (suc j) p = hs j (omega arith)

  -- A report on the tail becomes one on the whole list.
  ReportsValues-cons :
      (index x : ℕ) (xs : List ℕ) (r : Checked)
      → x < bound
      → ReportsValues usize_max bound (suc index) xs r
      → ReportsValues usize_max bound index (x ∷ xs) r
  ReportsValues-cons index x xs (ok _) h all = below_cons x xs (length xs) h all
  ReportsValues-cons index x xs (err (value_out_of_range at value limit)) h
        (k, e, lt, v, l, b, f, js) =
      (suc k, omega arith, omega arith, v, l, b, f, below_cons x xs k h js)
  ReportsValues-cons index x xs (err (usize_overflow at)) h (k, e, lt, o, js) =
      (suc k, omega arith, omega arith, o, below_cons x xs k h js)
  ReportsValues-cons index x xs (err _) h r = elim r [ ]

  range_loop-Reports :
      (index : ℕ) (values : List ℕ)
      → ReportsValues usize_max bound index values (range_loop usize_max bound index values)
  unfolding range_loop
  range_loop-Reports index [] = λ i p. absurd (omega arith)
  range_loop-Reports index (x ∷ xs) = elim (Bool-cases (leb x usize_max)) [
    | inr e ↦ rw e (0, omega arith, omega arith, ground arith, λ j p. absurd (omega arith))
    | inl e ↦ rw e (elim (Bool-cases (ltb x bound)) [
      | inr f ↦ rw f (
        0,
        omega arith,
        omega arith,
        refl,
        refl,
        ground arith,
        ground arith,
        λ j p. absurd (omega arith),
      )
      | inl f ↦ rw f (
          ReportsValues-cons index x xs (range_loop usize_max bound (suc index) xs) (ground arith)
            (range_loop-Reports (suc index) xs))
    ])
  ]

  -- `check_value_range` accepts exactly when every value is below the bound, and otherwise its
  -- issue names the first value that is not, by index and value, or that does not fit `usize`.
  pub check_value_range-Reports :
      (values : List ℕ)
      → ReportsValues usize_max bound 0 values (check_value_range usize_max values bound)
  unfolding check_value_range
  check_value_range-Reports values = range_loop-Reports 0 values
