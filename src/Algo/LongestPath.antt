-- ===== src/Algo/LongestPath.antt =====
-- crates/oxgraph-algo/src/longest_path_dag.rs: the longest chain of an acyclic graph, by its
-- topological order. A panic, that of an index out of bounds too, or the end of the fuel, is `none`.
use oxgraph.Prelude.{
  ℕ, zero, suc, ◌+◌, Bool, true, false, ◌&&◌, ◌||◌, none, some, List, [], ◌∷◌, ◌++◌, get_elem?,
  set_elem?, replicate, ltb, if◌then◌else◌, Result, ok, err,
}
use mathlib.Core.Option
use mathlib.Core.Option.{Option}
use oxgraph.Algo.Topology.{Topology}
use oxgraph.Algo.Toposort.{ToposortError, topological_sort}
pub mod Relax
pub mod Pass
pub mod Longest

pub data LongestPathError : Type 0 where
  dag_cycle : LongestPathError

-- The variables of the pass over the order.
pub record Chains (E : Type 0) : Type 0 where
  pub lengths : List ℕ
  pub predecessor : List (Option E)
  pub best_end : Option E
  pub best_length : ℕ

-- `path.reverse()`
abbrev pub reverse : {E : Type 0} → List E → List E
reverse [] = []
reverse (x ∷ xs) = reverse xs ++ x ∷ []

abbrev pub is_none : {E : Type 0} → Option E → Bool
is_none none = true
is_none (some x) = false

module _ {E : Type 0} (g : Topology E) where
  -- One successor of `node`, whose chain has `node_length` edges. `lengths[target]` is read within
  -- the bound only.
  unfoldable pub relax_at : (node : E) → (node_length : ℕ) → E → Chains E → Option (Chains E)
  relax_at node node_length successor s =
      let target = g.element_index successor in
      if ltb target g.element_bound
      then Option.bind (get_elem? s.lengths target) (λ target_length.
        if ltb target_length (suc node_length)
        then Option.bind (set_elem? s.lengths target (suc node_length)) (λ lengths.
          Option.map (λ predecessor. record s { lengths = lengths; predecessor = predecessor })
            (set_elem? s.predecessor target (some node)))
        else some s)
      else some s

  -- The loop over the successors of `node`.
  unfoldable pub relax : (node : E) → (node_length : ℕ) → List E → Chains E → Option (Chains E)
  relax node node_length [] s = some s
  relax node node_length (successor ∷ successors) s =
      Option.bind (relax_at node node_length successor s)
        (λ next. relax node node_length successors next)

  -- `best_end` and `best_length` for one node.
  unfoldable pub improve : (node : E) → (node_length : ℕ) → Chains E → Chains E
  improve node node_length s =
      if is_none s.best_end || ltb s.best_length node_length
      then record s { best_end = some node; best_length = node_length }
      else s

  -- The pass over the order.
  unfoldable pub pass : List E → Chains E → Option (Chains E)
  pass [] s = some s
  pass (node ∷ order) s = Option.bind (get_elem? s.lengths (g.element_index node)) (λ node_length.
      Option.bind (relax node node_length (g.element_successors node) (improve node node_length s))
        (λ next. pass order next))

  -- `while let Some(node) = cursor`
  unfoldable pub backtrack :
      (fuel : ℕ) → List (Option E) → (cursor : Option E) → (path : List E) → Option (List E)
  backtrack zero predecessor cursor path = none
  backtrack (suc fuel) predecessor none path = some path
  backtrack (suc fuel) predecessor (some node) path =
      Option.bind (get_elem? predecessor (g.element_index node))
        (λ cursor. backtrack fuel predecessor cursor (path ++ node ∷ []))

  -- The pass over an order that is not empty, and the path back; a round for each edge of it, one for
  -- its first element and one for the end are enough.
  unfoldable pub longest_in : List E → Option (List E)
  longest_in order =
      let bound = g.element_bound in
      let start : Chains E = record {
        lengths = replicate bound 0;
        predecessor = replicate bound none;
        best_end = none;
        best_length = 0;
      } in
      Option.bind (pass order start)
        (λ s. Option.map reverse (backtrack (suc (suc s.best_length)) s.predecessor s.best_end []))

  unfoldable pub longest_path_dag : List E → Option (Result LongestPathError (List E))
  longest_path_dag elements = Option.bind (topological_sort g elements) (λ sorted. elim sorted [
    | err error ↦ some (err dag_cycle)
    | ok order ↦ elim order [
      | [] ↦ some (ok [])
      | node ∷ rest ↦ Option.map ok (longest_in (node ∷ rest))
    ]
  ])
