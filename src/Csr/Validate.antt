-- ===== src/Csr/Validate.antt =====
-- crates/oxgraph-csr/src/lib.rs: `CsrGraph::validate`.
use oxgraph.Prelude.{ℕ, ◌≤◌, ◌<◌, ◌≡◌, ◌↔◌, refl, ap, sym, ◌∙◌, subst, List, length, ok, err, arith}
use oxgraph.Layout.Integrity.{
  value_out_of_range, usize_overflow, Checked, check_offset_section, check_value_range, ◌!◌,
}
use oxgraph.Layout.Integrity.Offsets.{IsOffsetSection, check_offset_section_iff}
use oxgraph.Layout.Integrity.Values.{ReportsValues, check_value_range-Reports}
use oxgraph.Csr.{CsrGraph, validate}

-- The invariant of a view: the offsets cut the targets into the nodes' rows, and every target is a
-- node.
pub record IsCsr (usize_max : ℕ) (g : CsrGraph) : Type 0 where
  pub same_count : g.node_bound ≡ g.node_count
  pub rows : IsOffsetSection g.offsets g.node_bound (length g.targets)
  pub nodes : (i : ℕ) → i < length g.targets → g.targets ! i < g.node_bound
  pub edges_fit : length g.targets ≤ usize_max
  pub offsets_fit : length g.offsets ≤ usize_max

module _ (usize_max bound : ℕ) (values : List ℕ) where
  values_ok :
      check_value_range usize_max values bound ≡ ok tt
      → (i : ℕ) → i < length values
      → values ! i < bound
  values_ok h =
      subst (ReportsValues usize_max bound 0 values) h
        (check_value_range-Reports usize_max bound values)

  below_report :
      (r : Checked)
      → bound ≤ usize_max
      → ((i : ℕ) → i < length values → values ! i < bound)
      → ReportsValues usize_max bound 0 values r
      → r ≡ ok tt
  below_report (ok tt) fits all rep = refl
  below_report (err (value_out_of_range at value limit)) fits all (k, e, lt, v, l, b, f, js) =
      absurd (omega (arith, all k lt))
  below_report (err (usize_overflow at)) fits all (k, e, lt, o, js) =
      absurd (omega (arith, all k lt))
  below_report (err _) fits all rep = elim rep [ ]

  values_pass :
      bound ≤ usize_max
      → ((i : ℕ) → i < length values → values ! i < bound)
      → check_value_range usize_max values bound ≡ ok tt
  values_pass fits all =
      below_report (check_value_range usize_max values bound) fits all
        (check_value_range-Reports usize_max bound values)

-- The view that `validate` makes where it passes.
abbrev pub view_of : ℕ → List ℕ → List ℕ → CsrGraph
view_of node_count offsets targets = record {
  node_count = node_count;
  node_bound = node_count;
  offsets = offsets;
  targets = targets;
}

module _ (usize_max node_count : ℕ) (offsets targets : List ℕ) where
  validate_parts :
      (g : CsrGraph)
      → validate usize_max node_count offsets targets ≡ ok g
      → (check_offset_section usize_max offsets node_count (length targets) ≡ ok tt)
        × (check_value_range usize_max targets node_count ≡ ok tt)
        × (g ≡ view_of node_count offsets targets)
  unfolding validate
  validate_parts g h = ground arith

  validate_passes :
      node_count < usize_max
      → check_offset_section usize_max offsets node_count (length targets) ≡ ok tt
      → check_value_range usize_max targets node_count ≡ ok tt
      → validate usize_max node_count offsets targets ≡ ok (view_of node_count offsets targets)
  unfolding validate
  validate_passes lt h k = ground arith

  -- `validate` passes on slices of addressable length exactly where the offsets cut the targets
  -- into `node_count` rows and every target is a node, and the view it makes then borrows them.
  pub validate_iff :
      (g : CsrGraph)
      → length offsets ≤ usize_max
      → length targets ≤ usize_max
      → (validate usize_max node_count offsets targets ≡ ok g)
        ↔ ((g ≡ view_of node_count offsets targets) × IsCsr usize_max g)
  validate_iff g fits fits' = (
    λ h.
        let (cuts, below, e) = validate_parts g h in
        (
          e,
          rw e (record {
            same_count = refl;
            rows =
                (check_offset_section_iff usize_max offsets node_count (length targets) fits
                    fits').0
                  cuts;
            nodes = values_ok usize_max node_count targets below;
            edges_fit = fits';
            offsets_fit = fits;
          }),
        ),
    λ (e, h). made e (subst (IsCsr usize_max) e h),
  )
    where
      made :
          g ≡ view_of node_count offsets targets
          → IsCsr usize_max (view_of node_count offsets targets)
          → validate usize_max node_count offsets targets ≡ ok g
      made e h =
          let size = h.rows.size in
          validate_passes (omega arith)
            ((check_offset_section_iff usize_max offsets node_count (length targets) fits fits').1
              h.rows)
            (values_pass usize_max node_count targets (omega arith) h.nodes)
          ∙ ap ok (sym e)
