-- ===== src/Csr/Build/Freeze.antt =====
-- crates/oxgraph-csr/src/build.rs: the whole of `freeze_topology`.
use oxgraph.Prelude.{
  ℕ, suc, ◌+◌, ◌-◌, ◌≤◌, ◌<◌, ◌≡◌, refl, ap, sym, ◌∙◌, List, [], ◌∷◌, length, slice, ok, arith,
  replicate, length-replicate, inl, inr, subst, le→leb,
}
use oxgraph.Layout.Width.{Width, max_value}
use oxgraph.Layout.Build.{index_from_usize}
use oxgraph.Layout.Integrity.{◌!◌}
use oxgraph.Layout.Integrity.Offsets.{IsOffsetSection, offsets-le-len}
use oxgraph.Csr.Traverse.{drop-get_or}
use oxgraph.Csr.Build.{FrozenTopology, freeze_topology, index_zero}
use oxgraph.Csr.Build.Counting.{degree, degree_hit, degree_miss, AreNodes, ≡-cases}
use oxgraph.Csr.Build.Offsets.{offsets_made}
use oxgraph.Csr.Build.Scatter.{ids_of, heads_of, ids_hit, ids_miss, heads_hit, heads_miss}
use oxgraph.Csr.Build.Rows.{placed}

-- A range is known by its words.
slice-eq :
    (start : ℕ) (xs zs : List ℕ)
    → start + length zs ≤ length xs
    → ((j : ℕ) → j < length zs → xs ! (start + j) ≡ zs ! j)
    → slice xs start (length zs) ≡ zs
slice-eq start xs [] h all = refl
slice-eq start xs (z ∷ zs) h all =
    let e : start + 0 ≡ start = omega arith in
    let first : xs ! start ≡ z = subst (λ k. xs ! k ≡ z) e (all 0 (omega arith)) in
    let rest = slice-eq (suc start) xs zs (omega arith) (λ j lt.
      let e : suc start + j ≡ start + suc j = omega arith in rw e (all (suc j) (omega arith))) in
    rw (drop-get_or start xs (omega arith), first, rest) refl

-- A row is known by its words.
row-eq :
    (start end d : ℕ) (xs zs : List ℕ)
    → end ≡ start + d
    → length zs ≡ d
    → end ≤ length xs
    → ((j : ℕ) → j < d → xs ! (start + j) ≡ zs ! j)
    → slice xs start (end - start) ≡ zs
row-eq start end d xs zs e len fits all =
    let width : end - start ≡ length zs = omega arith in
    rw width (slice-eq start xs zs (omega arith) (λ j lt. all j (omega arith)))

length-ids_of :
    (node edge : ℕ) (sources : List ℕ) → length (ids_of node edge sources) ≡ degree node sources
length-ids_of node edge [] = refl
length-ids_of node edge (source ∷ sources) = elim (≡-cases source node) [
  | inl e ↦
      rw (ids_hit node edge source sources e, degree_hit node source sources e)
        (ap suc (length-ids_of node (suc edge) sources))
  | inr e ↦
      rw (ids_miss node edge source sources e, degree_miss node source sources e)
        (length-ids_of node (suc edge) sources)
]

length-heads_of :
    (node : ℕ) (sources targets : List ℕ)
    → length sources ≡ length targets
    → length (heads_of node sources targets) ≡ degree node sources
length-heads_of node [] targets same = refl
length-heads_of node (source ∷ sources) [] same = absurd (omega arith)
length-heads_of node (source ∷ sources) (target ∷ targets) same = elim (≡-cases source node) [
  | inl e ↦
      rw (heads_hit node source target sources targets e, degree_hit node source sources e)
        (ap suc (length-heads_of node sources targets (omega arith)))
  | inr e ↦
      rw (heads_miss node source target sources targets e, degree_miss node source sources e)
        (length-heads_of node sources targets (omega arith))
]

index_zero_ok : (usize_max : ℕ) (width : Width) → index_zero usize_max width ≡ ok 0
unfolding index_zero index_from_usize
index_zero_ok usize_max width = rw (le→leb 0 (max_value usize_max width) (omega arith)) refl

module _ (node_count : ℕ) (sources targets : List ℕ) where
  -- The frozen form of the edges: the offsets cut the two grouped arrays into one row for each
  -- node, with its edges' ids and targets in the order in which the edges were added.
  pub record IsFrozen (t : FrozenTopology) : Type 0 where
    pub nodes_same : t.node_count ≡ node_count
    pub sources_same : t.sources ≡ sources
    pub targets_same : t.edge_targets ≡ targets
    pub ranges : IsOffsetSection t.offsets node_count (length sources)
    pub ids_len : length t.edge_ids ≡ length sources
    pub heads_len : length t.targets ≡ length sources
    pub id_row :
        (node : ℕ)
        → node < node_count
        → slice t.edge_ids (t.offsets ! node) (t.offsets ! suc node - t.offsets ! node)
          ≡ ids_of node 0 sources
    pub head_row :
        (node : ℕ)
        → node < node_count
        → slice t.targets (t.offsets ! node) (t.offsets ! suc node - t.offsets ! node)
          ≡ heads_of node sources targets

module _ (usize_max node_count : ℕ) (node_index edge_index : Width) (sources targets : List ℕ) where
  -- Edges between visible nodes are frozen whenever their count fits the edge width and `usize`,
  -- and the node count is below `usize::MAX`: no error, no index out of bounds, and each node's row
  -- is its edges in the order in which they were added.
  pub freeze_topology-IsFrozen :
      node_count < usize_max
      → AreNodes node_count sources
      → length sources ≡ length targets
      → length sources ≤ usize_max
      → length sources ≤ max_value usize_max edge_index
      → (t : FrozenTopology) × (freeze_topology usize_max node_index edge_index node_count sources
            targets
          ≡ ok t)
        × IsFrozen node_count sources targets t
  unfolding freeze_topology
  freeze_topology-IsFrozen small nodes same room fits =
      let (counts, offsets, run, run', run'', cuts) =
        offsets_made usize_max node_count edge_index sources small nodes room fits in
      let size = cuts.ranges.size in
      let n = length sources in
      let (edge_ids, grouped, run3, done) =
        placed usize_max node_count n edge_index offsets cuts.ranges room (omega arith) 0 offsets
          (replicate n 0) (replicate (length targets) 0) sources targets
          (record {
            cursors = omega arith;
            ids_len = length-replicate n 0;
            heads_len = length-replicate (length targets) 0 ∙ sym same;
            low = λ node lt. omega arith;
            high = λ node lt. omega (arith, cuts.step node lt);
          })
          nodes same (omega arith) in
      let ids_len : length edge_ids ≡ n = done.ids_same ∙ length-replicate n 0 in
      let heads_len : length grouped ≡ n =
        done.heads_same ∙ length-replicate (length targets) 0 ∙ sym same in
      (
        record {
          node_count = node_count;
          offsets = offsets;
          edge_ids = edge_ids;
          targets = grouped;
          sources = sources;
          edge_targets = targets;
        },
        rw
            (
              run,
              run',
              run'',
              index_zero_ok usize_max edge_index,
              index_zero_ok usize_max node_index,
              run3,
            )
            refl,
        record {
          nodes_same = refl;
          sources_same = refl;
          targets_same = refl;
          ranges = cuts.ranges;
          ids_len = ids_len;
          heads_len = heads_len;
          id_row = λ node lt.
              row-eq (offsets ! node) (offsets ! suc node) (degree node sources) edge_ids
                (ids_of node 0 sources) (cuts.step node lt) (length-ids_of node 0 sources)
                (omega (arith, offsets-le-len cuts.ranges (suc node) lt))
                (λ j inside. (done.wrote node j lt inside).0);
          head_row = λ node lt.
              row-eq (offsets ! node) (offsets ! suc node) (degree node sources) grouped
                (heads_of node sources targets) (cuts.step node lt)
                (length-heads_of node sources targets same)
                (omega (arith, offsets-le-len cuts.ranges (suc node) lt))
                (λ j inside. (done.wrote node j lt inside).1);
        },
      )
