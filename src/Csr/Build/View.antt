-- ===== src/Csr/Build/View.antt =====
-- crates/oxgraph-csr/src/build.rs: `freeze`, then `as_view` or `transpose`.
use oxgraph.Prelude.{
  ℕ, zero, suc, ◌+◌, ◌-◌, ◌≤◌, ◌<◌, ◌≡◌, ◌⊎◌, refl, ap, ◌∙◌, List, [], ◌∷◌, length, slice, ok, some,
  arith, inl, inr, subst, le→leb, take, drop, length-take, length-drop,
}
use oxgraph.Layout.Width.{Width, max_value}
use oxgraph.Layout.Integrity.{◌!◌}
use oxgraph.Layout.Integrity.Offsets.{IsOffsetSection, offsets-le-len}
use oxgraph.Csr.{CsrGraph, element_successors}
use oxgraph.Csr.Validate.{IsCsr}
use oxgraph.Csr.Traverse.{element_successors-row}
use oxgraph.Csr.Build.{GraphBuilder, FrozenTopology, freeze, as_view}
use oxgraph.Csr.Build.Counting.{AreNodes, ≡-cases}
use oxgraph.Csr.Build.Scatter.{heads_of, heads_hit, heads_miss}
use oxgraph.Csr.Build.Freeze.{IsFrozen, freeze_topology-IsFrozen}
use oxgraph.Csr.Build.Builder.{IsBuilder}

-- Each place of the values lies in one of the rows.
row_at :
    {offsets : List ℕ} {count value_len : ℕ}
    → IsOffsetSection offsets count value_len
    → (i k : ℕ) → k ≤ count
    → i < offsets ! k
    → (node : ℕ) × (node < count) × (offsets ! node ≤ i) × (i < offsets ! suc node)
row_at h i zero le lt = absurd (omega (arith, h.first))
row_at {offsets} h i (suc k) le lt = elim (side (offsets ! k)) [
  | inl before ↦ row_at h i k (omega arith) before
  | inr after ↦ (k, omega arith, after, lt)
]
  where
    side : (n : ℕ) → (i < n) ⊎ (n ≤ i)
    side n = ground arith

take-get_or : (n j : ℕ) (xs : List ℕ) → j < n → take n xs ! j ≡ xs ! j
take-get_or zero j xs h = absurd (omega arith)
take-get_or (suc n) j [] h = refl
take-get_or (suc n) zero (x ∷ xs) h = refl
take-get_or (suc n) (suc j) (x ∷ xs) h = take-get_or n j xs (omega arith)

get_or-drop : (a j : ℕ) (xs : List ℕ) → drop a xs ! j ≡ xs ! (a + j)
get_or-drop zero j xs = let e : 0 + j ≡ j = omega arith in rw e refl
get_or-drop (suc a) j [] = refl
get_or-drop (suc a) j (x ∷ xs) =
    let e : suc a + j ≡ suc (a + j) = omega arith in rw e (get_or-drop a j xs)

AreNodes-get_or : (n : ℕ) (xs : List ℕ) (i : ℕ) → AreNodes n xs → i < length xs → xs ! i < n
AreNodes-get_or n [] i h lt = absurd (omega arith)
AreNodes-get_or n (x ∷ xs) zero h lt = h.0
AreNodes-get_or n (x ∷ xs) (suc i) h lt = AreNodes-get_or n xs i h.1 (omega arith)

heads_of-AreNodes :
    (n node : ℕ) (sources targets : List ℕ)
    → AreNodes n targets
    → AreNodes n (heads_of node sources targets)
heads_of-AreNodes n node [] targets h = tt
heads_of-AreNodes n node (source ∷ sources) [] h = tt
heads_of-AreNodes n node (source ∷ sources) (target ∷ targets) (lt, h) =
    elim (≡-cases source node) [
      | inl e ↦
          rw (heads_hit node source target sources targets e)
            (lt, heads_of-AreNodes n node sources targets h)
      | inr e ↦
          rw (heads_miss node source target sources targets e)
            (heads_of-AreNodes n node sources targets h)
    ]

module _ (node_count : ℕ) (sources targets : List ℕ) (t : FrozenTopology)
    (frozen : IsFrozen node_count sources targets t) (visible : AreNodes node_count targets) where
  -- Every grouped target is a node.
  grouped_visible : (i : ℕ) → i < length t.targets → t.targets ! i < node_count
  grouped_visible i lt =
      let all = frozen.ranges.final in
      let len = frozen.heads_len in
      let (node, n, lo, hi) = row_at frozen.ranges i node_count (omega arith) (omega arith) in
      let start = t.offsets ! node in
      let width = t.offsets ! suc node - start in
      let j = i - start in
      let place : start + j ≡ i = omega arith in
      let fits = offsets-le-len frozen.ranges (suc node) (omega arith) in
      let size : length (row_of node) ≡ width =
        omega (arith, length-take width (drop start t.targets), length-drop start t.targets) in
      let below : row_of node ! j < node_count =
        AreNodes-get_or node_count (row_of node) j
          (rw (frozen.head_row node n) (heads_of-AreNodes node_count node sources targets visible))
          (omega arith) in
      let same : row_of node ! j ≡ t.targets ! i =
        take-get_or width j (drop start t.targets) (omega arith)
        ∙ get_or-drop start j t.targets
        ∙ ap (λ k. t.targets ! k) place in
      subst (λ k. k < node_count) same below
    where
      row_of : ℕ → List ℕ
      row_of node = slice t.targets (t.offsets ! node) (t.offsets ! suc node - t.offsets ! node)

module _ (usize_max : ℕ) (node_index edge_index : Width) (b : GraphBuilder)
    (valid : IsBuilder usize_max b) (small : b.node_count < usize_max)
    (room : length b.sources ≤ usize_max)
    (edges_fit : length b.sources ≤ max_value usize_max edge_index)
    (nodes_fit : b.node_count ≤ max_value usize_max node_index) where
  -- The frozen graph, its view, and the nodes of both.
  pub freeze_view :
      (t : FrozenTopology) × (freeze usize_max node_index edge_index b ≡ ok t)
      × (g : CsrGraph) × (as_view usize_max node_index t ≡ ok g)
      × IsCsr usize_max g
      × ((node : ℕ)
          → node < b.node_count
          → element_successors usize_max g node ≡ some (heads_of node b.sources b.targets))
      × (g.node_bound ≡ b.node_count)
  unfolding freeze as_view
  freeze_view =
      let (t, run, frozen) =
        freeze_topology-IsFrozen usize_max b.node_count node_index edge_index b.sources b.targets
          small valid.sources_visible valid.paired room edges_fit in
      let same = frozen.nodes_same in
      let g : CsrGraph = record {
        node_count = t.node_count;
        node_bound = t.node_count;
        offsets = t.offsets;
        targets = t.targets;
      } in
      let csr : IsCsr usize_max g = record {
        same_count = refl;
        rows = rw (same, frozen.heads_len) (frozen.ranges);
        nodes =
            rw same
              (grouped_visible b.node_count b.sources b.targets t frozen valid.targets_visible);
        edges_fit = omega (arith, frozen.heads_len);
        offsets_fit = omega (arith, frozen.ranges.size);
      } in
      (
        t,
        run,
        g,
        rw (le→leb t.node_count (max_value usize_max node_index) (omega arith)) refl,
        csr,
        λ node lt.
            element_successors-row g csr node (omega arith) ∙ ap some (frozen.head_row node lt),
        same,
      )

  -- A valid builder whose counts fit its widths and `usize`, with a node count below `usize::MAX`,
  -- is frozen, and the view of what it freezes is valid:
  -- the successors of each node are the targets of its edges, in the order in which they were
  -- added.
  pub freeze_successors :
      (t : FrozenTopology) × (freeze usize_max node_index edge_index b ≡ ok t)
      × (g : CsrGraph) × (as_view usize_max node_index t ≡ ok g)
      × IsCsr usize_max g
      × ((node : ℕ)
          → node < b.node_count
          → element_successors usize_max g node ≡ some (heads_of node b.sources b.targets))
  freeze_successors =
      let (t, run, g, viewed, csr, rows, bound) = freeze_view in (t, run, g, viewed, csr, rows)
