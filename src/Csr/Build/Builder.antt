-- ===== src/Csr/Build/Builder.antt =====
-- crates/oxgraph-csr/src/build.rs: `GraphBuilder::add_node` and `add_edge`.
use oxgraph.Prelude.{
  ℕ, ◌+◌, ◌≤◌, ◌<◌, ◌≡◌, ◌↔◌, List, [], ◌∷◌, ◌++◌, length, length-append, ok, arith,
}
use oxgraph.Layout.Width.{Width, max_value}
use oxgraph.Layout.Build.{next_dense_index, id_to_slot}
use oxgraph.Csr.Build.{GraphBuilder, add_node, add_edge, ensure_node}
use oxgraph.Csr.Build.Counting.{AreNodes}

-- Every edge of a builder is between visible nodes.
pub record IsBuilder (usize_max : ℕ) (b : GraphBuilder) : Type 0 where
  pub sources_visible : AreNodes b.node_count b.sources
  pub targets_visible : AreNodes b.node_count b.targets
  pub paired : length b.sources ≡ length b.targets
  pub nodes_fit : b.node_count ≤ usize_max

AreNodes-append : (n : ℕ) (xs : List ℕ) (x : ℕ) → AreNodes n xs → x < n → AreNodes n (xs ++ x ∷ [])
AreNodes-append n [] x h lt = (lt, tt)
AreNodes-append n (y ∷ ys) x h lt = (h.0, AreNodes-append n ys x h.1 lt)

AreNodes-mono : (m n : ℕ) (xs : List ℕ) → m ≤ n → AreNodes m xs → AreNodes n xs
AreNodes-mono m n [] h k = tt
AreNodes-mono m n (x ∷ xs) h k = (omega arith, AreNodes-mono m n xs h k.1)

module _ (usize_max : ℕ) (b : GraphBuilder) (valid : IsBuilder usize_max b) where
  -- On a valid builder `add_edge` accepts exactly an edge between visible nodes whose id fits the
  -- edge width; the id is the number of edges before it, and the edge is appended.
  pub add_edge_iff :
      (edge_index : Width) (source target id : ℕ) (b' : GraphBuilder)
      → (add_edge usize_max edge_index b source target ≡ ok (id, b')) ↔ (
          (source < b.node_count)
          × (target < b.node_count)
          × (length b.sources ≤ max_value usize_max edge_index)
          × (id ≡ length b.sources)
          × (b' ≡ record b {
            sources = b.sources ++ source ∷ [];
            targets = b.targets ++ target ∷ [];
          }))
  unfolding add_edge ensure_node id_to_slot
  add_edge_iff edge_index source target id b' = let fits = valid.nodes_fit in ground arith

  -- An added edge keeps the builder's edges between visible nodes.
  pub add_edge-IsBuilder :
      (edge_index : Width) (source target id : ℕ) (b' : GraphBuilder)
      → add_edge usize_max edge_index b source target ≡ ok (id, b')
      → IsBuilder usize_max b'
  add_edge-IsBuilder edge_index source target id b' h =
      let (s, t, fits, e, same) = (add_edge_iff edge_index source target id b').0 h in
      rw same (record {
        sources_visible = AreNodes-append b.node_count b.sources source valid.sources_visible s;
        targets_visible = AreNodes-append b.node_count b.targets target valid.targets_visible t;
        paired = omega (
          arith,
          valid.paired,
          length-append b.sources (source ∷ []),
          length-append b.targets (target ∷ []),
        );
        nodes_fit = valid.nodes_fit;
      })

  add_node-eq :
      (node_index : Width) (id : ℕ) (b' : GraphBuilder)
      → add_node usize_max node_index b ≡ ok (id, b')
      → (id ≡ b.node_count)
        × (b.node_count < usize_max)
        × (b' ≡ record b { node_count = b.node_count + 1 })
  unfolding add_node next_dense_index
  add_node-eq node_index id b' h = ground arith

  -- An added node has the next id, and keeps the builder's edges between visible nodes.
  pub add_node-IsBuilder :
      (node_index : Width) (id : ℕ) (b' : GraphBuilder)
      → add_node usize_max node_index b ≡ ok (id, b')
      → (id ≡ b.node_count) × IsBuilder usize_max b'
  add_node-IsBuilder node_index id b' h =
      let (e, room, same) = add_node-eq node_index id b' h in
      (
        e,
        rw same (record {
          sources_visible =
              AreNodes-mono b.node_count (b.node_count + 1) b.sources (omega arith)
                valid.sources_visible;
          targets_visible =
              AreNodes-mono b.node_count (b.node_count + 1) b.targets (omega arith)
                valid.targets_visible;
          paired = valid.paired;
          nodes_fit = omega arith;
        }),
      )
