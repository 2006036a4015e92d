-- ===== src/Algo/Topology.antt =====
-- crates/oxgraph-topology/src/lib.rs: the capabilities `DenseElementIndex` and `ElementSuccessors`
-- that the algorithms ask of a graph.
use oxgraph.Prelude.{ℕ, ◌+◌, ◌<◌, ◌≤◌, ◌≡◌, ◌==◌, List, [], ◌∷◌, ◌++◌, if◌then◌else◌, arith}
pub mod Counting

pub record Topology (E : Type 0) : Type 0 where
  pub element_bound : ℕ
  pub element_index : E → ℕ
  pub element_successors : E → List E

-- Distinct visible elements map to distinct indexes; an index in the bound is of a visible element.
pub record IsDense {E : Type 0} (g : Topology E) : Type 0 where
  pub distinct :
      (x y : E)
      → g.element_index x < g.element_bound
      → g.element_index x ≡ g.element_index y
      → x ≡ y

module _ {E : Type 0} (g : Topology E) where
  -- The elements of index `i`.
  abbrev pub count : ℕ → List E → ℕ
  count i [] = 0
  count i (x ∷ xs) = (if g.element_index x == i then 1 else 0) + count i xs

  -- The entries that lead from one of the elements to index `i`.
  abbrev pub entries : ℕ → List E → ℕ
  entries i [] = 0
  entries i (x ∷ xs) = count i (g.element_successors x) + entries i xs
