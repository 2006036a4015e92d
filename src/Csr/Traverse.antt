-- ===== src/Csr/Traverse.antt =====
-- crates/oxgraph-csr/src/lib.rs: the walks of a validated `CsrGraph`.
use oxgraph.Prelude.{
  ℕ, zero, suc, ◌+◌, ◌-◌, ◌≤◌, ◌<◌, ◌≡◌, refl, ap, ◌∙◌, subst, Bool, Option, some, List, [], ◌∷◌,
  ◌++◌, length, get_elem?, get_or, slice, arith, map, get_elem?-eq-get_or, take, drop, length-take,
  length-drop, take_all, le→leb,
}
use mathlib.Core.Option
use oxgraph.Layout.Width.{Width, max_value}
use oxgraph.Layout.Integrity.{◌!◌}
use oxgraph.Layout.Integrity.Offsets.{offsets_mono, offsets-le-len}
use oxgraph.Csr.{
  CsrGraph, try_node_slot, try_edge_slot, try_target, outgoing_range, range_slice,
  element_successors, out_degree, edge_run, outgoing_edges, for_each_out_target, visit_loop,
}
use oxgraph.Csr.Visits.{IsVisited, visit_loop-IsVisited}
use oxgraph.Csr.Validate.{IsCsr}

-- The targets of a node's edges.
abbrev pub row : CsrGraph → ℕ → List ℕ
row g node = slice g.targets (g.offsets ! node) (g.offsets ! suc node - g.offsets ! node)

take-slice :
    {A : Type 0} (a n : ℕ) (xs : List A)
    → a + n ≤ length xs
    → take a xs ++ slice xs a n ≡ take (a + n) xs
take-slice zero n xs h = let e : 0 + n ≡ n = omega arith in rw e
take-slice (suc a) n [] h = absurd (omega arith)
take-slice (suc a) n (x ∷ xs) h =
    let e : suc a + n ≡ suc (a + n) = omega arith in
    rw e (ap (λ ys. x ∷ ys) (take-slice a n xs (omega arith)))

pub drop-get_or :
    (i : ℕ) (xs : List ℕ) → i < length xs → drop i xs ≡ get_or xs i 0 ∷ drop (suc i) xs
drop-get_or i [] h = absurd (omega arith)
drop-get_or zero (x ∷ xs) h = refl
drop-get_or (suc i) (x ∷ xs) h = drop-get_or i xs (omega arith)

module _ {usize_max : ℕ} (g : CsrGraph) (valid : IsCsr usize_max g) where
  target_of :
      (edge : ℕ) → edge < length g.targets → try_target usize_max g edge ≡ some (g.targets ! edge)
  unfolding try_target try_edge_slot Option.bind Option.map
  target_of edge h = let small : edge ≤ usize_max = omega (arith, valid.edges_fit) in ground arith

  run_targets :
      (edge_index : Width) (from n : ℕ)
      → from + n ≤ length g.targets
      → from + n ≤ max_value usize_max edge_index
      → (edges : List ℕ) × (edge_run usize_max edge_index n from ≡ some edges)
        × (map (try_target usize_max g) edges ≡ map some (slice g.targets from n))
  unfolding edge_run Option.bind Option.map
  run_targets edge_index from zero h fits = ([], refl, refl)
  run_targets edge_index from (suc n) h fits =
      let e : from + 1 ≡ suc from = omega arith in
      let (edges, run, same) = run_targets edge_index (suc from) n (omega arith) (omega arith) in
      (
        from ∷ edges,
        rw (le→leb from (max_value usize_max edge_index) (omega arith), e, run) refl,
        rw (drop-get_or from g.targets (omega arith), target_of from (omega arith), same) refl,
      )

module _ {usize_max : ℕ} (g : CsrGraph) (valid : IsCsr usize_max g) (node : ℕ)
    (inside : node < g.node_count) where
  slot_of : try_node_slot usize_max g node ≡ some node
  unfolding try_node_slot Option.bind
  slot_of =
      let same = valid.same_count in
      let size = valid.rows.size in
      let fits = valid.offsets_fit in let small : node ≤ usize_max = omega arith in ground arith

  row_bounds : (g.offsets ! node ≤ g.offsets ! suc node) × (g.offsets ! suc node ≤ length g.targets)
  row_bounds =
      let same = valid.same_count in
      (
        offsets_mono valid.rows node (suc node) (omega arith) (omega arith),
        offsets-le-len valid.rows (suc node) (omega arith),
      )

  range_of : outgoing_range usize_max g node ≡ some (g.offsets ! node, g.offsets ! suc node)
  unfolding outgoing_range Option.bind Option.map
  range_of =
      let same = valid.same_count in
      let size = valid.rows.size in
      let fits = valid.edges_fit in
      let (up, last) = row_bounds in
      let first : get_elem? g.offsets node ≡ some (g.offsets ! node) =
        get_elem?-eq-get_or g.offsets node 0 (omega arith) in
      let e : node + 1 ≡ suc node = omega arith in
      let second : get_elem? g.offsets (suc node) ≡ some (g.offsets ! suc node) =
        get_elem?-eq-get_or g.offsets (suc node) 0 (omega arith) in
      rw (first, e, second) (ground arith)

  length-row : length (row g node) ≡ g.offsets ! suc node - g.offsets ! node
  length-row =
      let (up, last) = row_bounds in
      let n = g.offsets ! suc node - g.offsets ! node in
      omega (
        arith,
        length-take n (drop (g.offsets ! node) g.targets),
        length-drop (g.offsets ! node) g.targets,
      )

  range_slice-row :
      range_slice g.targets (g.offsets ! node) (g.offsets ! suc node) ≡ some (row g node)
  range_slice-row = let (up, last) = row_bounds in ground arith

  visits_row :
      {S : Type 0} (visit : S → ℕ → S × Bool) (s : S)
      → for_each_out_target usize_max g node visit s ≡ some (visit_loop visit s (row g node))
  unfolding for_each_out_target Option.bind Option.map
  visits_row visit s =
      let same = valid.same_count in
      let size = valid.rows.size in
      let fits = valid.edges_fit in
      let fits' = valid.offsets_fit in
      let (up, last) = row_bounds in
      let e : node + 1 ≡ suc node = omega arith in
      rw
        (
          for_each_out_target,
          slot_of,
          le→leb node usize_max (omega arith),
          get_elem?-eq-get_or g.offsets node 0 (omega arith),
          Option.bind,
          le→leb (g.offsets ! node) usize_max (omega arith),
          e,
          get_elem?-eq-get_or g.offsets (suc node) 0 (omega arith),
          Option.bind,
          le→leb (g.offsets ! suc node) usize_max (omega arith),
          range_slice-row,
        )
        refl

  pub element_successors-row : element_successors usize_max g node ≡ some (row g node)
  unfolding element_successors Option.bind
  element_successors-row = rw (slot_of, range_of) range_slice-row

  -- On a node of a valid view whose offsets fit the edge index type no call panics:
  -- `element_successors` is the node's row, `out_degree` its length, the targets of
  -- `outgoing_edges` are the row in order, and `for_each_out_target` shows the visitor the words of
  -- the row from the front on, up to the first at which it answers to stop, and reports whether
  -- there was one.
  pub walks_row :
      (edge_index : Width)
      → ((i : ℕ) → i < length g.offsets → g.offsets ! i ≤ max_value usize_max edge_index)
      → {S : Type 0} (visit : S → ℕ → S × Bool) (s : S)
      → (element_successors usize_max g node ≡ some (row g node))
        × (out_degree usize_max g node ≡ some (length (row g node)))
        × ((edges : List ℕ) × (outgoing_edges usize_max edge_index g node ≡ some edges)
            × (map (try_target usize_max g) edges ≡ map some (row g node)))
        × ((end : S × Bool) × (for_each_out_target usize_max g node visit s ≡ some end)
            × IsVisited visit s (row g node) end)
  unfolding out_degree outgoing_edges Option.bind Option.map
  walks_row edge_index words visit s =
      let (up, last) = row_bounds in
      let same = valid.same_count in
      let size = valid.rows.size in
      let n = g.offsets ! suc node - g.offsets ! node in
      let (edges, run, targets) =
        run_targets g valid edge_index (g.offsets ! node) n (omega arith)
          (omega (arith, words (suc node) (omega arith))) in
      (
        element_successors-row,
        rw (slot_of, range_of, length-row) refl,
        (edges, rw (slot_of, range_of) run, targets),
        (
          visit_loop visit s (row g node),
          visits_row visit s,
          visit_loop-IsVisited visit s (row g node),
        ),
      )

module _ (usize_max : ℕ) (g : CsrGraph) where
  -- The successors of the nodes below `node`, one after the other.
  abbrev pub successors_before : ℕ → Option (List ℕ)
  successors_before zero = some []
  successors_before (suc node) =
      Option.bind (successors_before node)
        (λ before. Option.map (λ row. before ++ row) (element_successors usize_max g node))

module _ {usize_max : ℕ} (g : CsrGraph) (valid : IsCsr usize_max g) where
  successors_prefix :
      (node : ℕ)
      → node ≤ g.node_count
      → successors_before usize_max g node ≡ some (take (g.offsets ! node) g.targets)
  unfolding Option.bind Option.map
  successors_prefix zero h = rw (valid.rows.first) refl
  successors_prefix (suc node) h =
      let (up, last) = row_bounds g valid node (omega arith) in
      let e : g.offsets ! node + (g.offsets ! suc node - g.offsets ! node) ≡ g.offsets ! suc node =
        omega arith in
      rw
        (
          successors_prefix node (omega arith),
          element_successors-row g valid node (omega arith),
          take-slice (g.offsets ! node) (g.offsets ! suc node - g.offsets ! node) g.targets
              (omega arith),
          e,
        )
        refl

  -- On a valid view `element_successors` of the nodes, in order, gives back its targets: each edge
  -- is walked at one node, once, and none of these calls panics.
  pub successors_all : successors_before usize_max g g.node_count ≡ some g.targets
  successors_all =
      let same = valid.same_count in
      let end = valid.rows.final in
      let e : g.offsets ! g.node_count ≡ length g.targets =
        subst (λ n. g.offsets ! n ≡ length g.targets) same end in
      successors_prefix g.node_count (omega arith)
      ∙ ap some (take_all (g.offsets ! g.node_count) g.targets (omega arith))
