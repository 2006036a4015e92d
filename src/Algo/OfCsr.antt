-- ===== src/Algo/OfCsr.antt =====
-- crates/oxgraph-csr/src/lib.rs: the view of a graph as the topology that the algorithms walk.
use oxgraph.Prelude.{ℕ, zero, suc, Option, none, some, List, [], ◌∷◌}
use oxgraph.Csr.{CsrGraph, element_successors}
use oxgraph.Algo.Topology.{Topology}
pub mod Sort

-- The successors of a visible node; of others the source panics.
abbrev pub visible_successors : Option (List ℕ) → List ℕ
visible_successors none = []
visible_successors (some targets) = targets

-- `DenseElementIndex` and `ElementSuccessors` of a view, for visible nodes.
unfoldable pub csr_topology : (usize_max : ℕ) → CsrGraph → Topology ℕ
csr_topology usize_max g = record {
  element_bound = g.node_bound;
  element_index = λ node. node;
  element_successors = λ node. visible_successors (element_successors usize_max g node);
}

-- The nodes below `n`, the last one first.
abbrev pub nodes_below : ℕ → List ℕ
nodes_below zero = []
nodes_below (suc n) = n ∷ nodes_below n
