-- ===== src/Algo/OfCsr/Sort.antt =====
-- crates/oxgraph-algo/src/toposort.rs on the frozen graphs of crates/oxgraph-csr/src/build.rs.
use oxgraph.Prelude.{
  ℕ, zero, suc, ◌<◌, ◌≤◌, ◌≡◌, ◌↔◌, refl, ap, sym, subst, some, List, [], ◌∷◌, length, arith, ok,
  inl, inr,
}
use oxgraph.Layout.Width.{Width, max_value}
use oxgraph.Csr.{CsrGraph, element_successors}
use oxgraph.Csr.Build.{GraphBuilder, FrozenTopology, freeze, as_view}
use oxgraph.Csr.Build.Counting.{AreNodes, ≡-cases}
use oxgraph.Csr.Build.Builder.{IsBuilder}
use oxgraph.Csr.Build.Scatter.{heads_of, heads_hit, heads_miss}
use oxgraph.Csr.Build.View.{freeze_view}
use oxgraph.Algo.Topology.{IsDense, count}
use oxgraph.Algo.Toposort.{topological_sort}
use oxgraph.Algo.Toposort.Acyclic.{topological_sort_iff}
use oxgraph.Algo.OfCsr.{csr_topology, visible_successors, nodes_below}

-- A number for each node that grows along every edge.
abbrev pub Climbs : (ℕ → ℕ) → List ℕ → List ℕ → Type 0
Climbs rank [] targets = Unit
Climbs rank (source ∷ sources) [] = Unit
Climbs rank (source ∷ sources) (target ∷ targets) =
    (rank source < rank target) × Climbs rank sources targets

module _ (usize_max : ℕ) (g : CsrGraph) where
  csr-IsDense : IsDense (csr_topology usize_max g)
  unfolding csr_topology
  csr-IsDense = record { distinct = λ x y h e. e }

  abbrev hits : ℕ → List ℕ → ℕ
  hits node nodes = count (csr_topology usize_max g) node nodes

  climb_edge :
      (rank : ℕ → ℕ) (u v : ℕ) (sources targets : List ℕ)
      → Climbs rank sources targets
      → 0 < hits v (heads_of u sources targets)
      → rank u < rank v
  unfolding csr_topology
  climb_edge rank u v [] targets c h = absurd (omega arith)
  climb_edge rank u v (source ∷ sources) [] c h = absurd (omega arith)
  climb_edge rank u v (source ∷ sources) (target ∷ targets) (up, c) h = elim (≡-cases source u) [
    | inl e ↦
        let own : 0 < hits v (target ∷ heads_of u sources targets) =
          subst (λ l. 0 < hits v l) (heads_hit u source target sources targets e) h in
        elim (≡-cases target v) [
          | inl at ↦ omega (arith, ap rank e, ap rank at)
          | inr other ↦ climb_edge rank u v sources targets c (ground arith)
        ]
    | inr other ↦
        climb_edge rank u v sources targets c
          (subst (λ l. 0 < hits v l) (heads_miss u source target sources targets other) h)
  ]

  edge-Climbs :
      (rank : ℕ → ℕ) (n : ℕ) (sources targets : List ℕ)
      → AreNodes n sources
      → AreNodes n targets
      → ((u v : ℕ) → u < n → v < n → 0 < hits v (heads_of u sources targets) → rank u < rank v)
      → Climbs rank sources targets
  unfolding csr_topology
  edge-Climbs rank n [] targets s t h = tt
  edge-Climbs rank n (source ∷ sources) [] s t h = tt
  edge-Climbs rank n (source ∷ sources) (target ∷ targets) (s, ss) (t, ts) h =
      let later : (u v : ℕ)
          → 0 < hits v (heads_of u sources targets)
          → 0 < hits v (heads_of u (source ∷ sources) (target ∷ targets)) =
        λ u v e. elim (≡-cases source u) [
          | inl same ↦
              subst (λ l. 0 < hits v l) (sym (heads_hit u source target sources targets same))
                (ground arith)
          | inr other ↦
              subst (λ l. 0 < hits v l) (sym (heads_miss u source target sources targets other)) e
        ] in
      (
        h source target s t
            (rw (heads_hit source source target sources targets refl) (ground arith)),
        edge-Climbs rank n sources targets ss ts (λ u v hu hv e. h u v hu hv (later u v e)),
      )

  hits-nodes_below : (n i : ℕ) → i < n → 0 < hits i (nodes_below n)
  unfolding csr_topology
  hits-nodes_below zero i h = absurd (omega arith)
  hits-nodes_below (suc n) i h = ground (arith, hits-nodes_below n i)

module _ (usize_max : ℕ) (node_index edge_index : Width) (b : GraphBuilder)
    (valid : IsBuilder usize_max b) (small : b.node_count < usize_max)
    (room : length b.sources ≤ usize_max)
    (edges_fit : length b.sources ≤ max_value usize_max edge_index)
    (nodes_fit : b.node_count ≤ max_value usize_max node_index) where
  -- A valid builder whose counts fit is frozen and viewed, and `topological_sort` of all nodes of the
  -- view returns an order exactly when the builder's edges have no cycle: when some rank of the nodes
  -- grows along every edge that was added.
  pub freeze-topological_sort :
      (t : FrozenTopology) × (freeze usize_max node_index edge_index b ≡ ok t)
      × (g : CsrGraph) × (as_view usize_max node_index t ≡ ok g)
      × (((order : List ℕ) × (topological_sort (csr_topology usize_max g) (nodes_below b.node_count)
              ≡ some (ok order)))
          ↔ ((rank : ℕ → ℕ) × Climbs rank b.sources b.targets))
  unfolding csr_topology
  freeze-topological_sort =
      let (t, run, g, viewed, csr, rows, bound) =
        freeze_view usize_max node_index edge_index b valid small room edges_fit nodes_fit in
      let sorts =
        topological_sort_iff (csr_topology usize_max g) (nodes_below b.node_count)
          (csr-IsDense usize_max g) in
      let successors : (u : ℕ)
          → u < b.node_count
          → visible_successors (element_successors usize_max g u) ≡ heads_of u b.sources b.targets =
        λ u h. ap visible_successors (rows u h) in
      (
        t,
        run,
        g,
        viewed,
        (
          λ found.
              let (rank, ranked) = sorts.0 found in
              (
                rank,
                edge-Climbs usize_max g rank b.node_count b.sources b.targets valid.sources_visible
                    valid.targets_visible
                    (λ u v hu hv e.
                      ranked u v (hits-nodes_below usize_max g b.node_count u hu)
                        (hits-nodes_below usize_max g b.node_count v hv) (omega arith) (omega arith)
                        (subst (λ l. 0 < hits usize_max g v l) (sym (successors u hu)) e)),
              ),
          λ ranks. sorts.1 (
            ranks.0,
            λ u v mu mv bu bv e.
                climb_edge usize_max g ranks.0 u v b.sources b.targets ranks.1
                  (subst (λ l. 0 < hits usize_max g v l) (successors u (omega arith)) e),
          ),
        ),
      )
