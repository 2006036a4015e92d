-- ===== src/Examples/Algo.antt =====
-- crates/oxgraph-algo on the graph of three nodes and three edges that is built.
use oxgraph.Prelude.{ℕ, ◌≡◌, ◌↔◌, refl, some, List, [], ◌∷◌, ok, err, arith, if◌then◌else◌, ◌==◌}
use mathlib.Core.Option
use oxgraph.Layout.Width.{u16}
use oxgraph.Csr.{CsrGraph}
use oxgraph.Csr.Build.{GraphBuilder, FrozenTopology, freeze, as_view}
use oxgraph.Csr.Build.Builder.{IsBuilder}
use oxgraph.Algo.Topology.{Topology, IsDense}
use oxgraph.Algo.Toposort.{
  topological_sort, cycle, collect, collect_at, is_target, tally, tally_at, tally_all, ready,
  release, release_at, kahn,
}
use oxgraph.Algo.Toposort.Cycle.{IsRank}
use oxgraph.Algo.Toposort.Order.{Sorted, topological_sort-Sorted}
use oxgraph.Algo.Toposort.Acyclic.{topological_sort_iff}
use oxgraph.Algo.Sssp.{shortest_path_lengths, search, visit, visit_at, is_fresh, mark}
use oxgraph.Algo.Sssp.Shortest.{Measured}
use oxgraph.Algo.Sssp.Correct.{requested, shortest_path_lengths-Measured}
use oxgraph.Algo.LongestPath.{
  longest_path_dag, longest_in, pass, relax, relax_at, improve, backtrack,
}
use oxgraph.Algo.LongestPath.Longest.{Longest, longest_path_dag-Longest}
use oxgraph.Algo.OfCsr.{csr_topology, nodes_below}
use oxgraph.Algo.OfCsr.Sort.{Climbs, freeze-topological_sort}

abbrev host : ℕ
host = 0xffff_ffff_ffff_ffff

-- 0 → 2, 0 → 1 and 2 → 1.
abbrev successors : ℕ → List ℕ
successors node = if node == 0 then 2 ∷ 1 ∷ [] else if node == 2 then 1 ∷ [] else []

abbrev path_graph : Topology ℕ
path_graph = record {
  element_bound = 3;
  element_index = λ node. node;
  element_successors = successors;
}

path_graph-IsDense : IsDense path_graph
path_graph-IsDense = record { distinct = λ x y h e. e }

sorted : topological_sort path_graph (1 ∷ 2 ∷ 0 ∷ 2 ∷ []) ≡ some (ok (0 ∷ 2 ∷ 1 ∷ []))
unfolding topological_sort collect collect_at tally tally_at tally_all is_target ready release
    release_at kahn Option.bind Option.map
sorted = refl

abbrev loop_graph : Topology ℕ
loop_graph = record path_graph { element_successors = λ node. node ∷ [] }

looped : topological_sort loop_graph (1 ∷ []) ≡ some (err cycle)
unfolding topological_sort collect collect_at tally tally_at tally_all is_target ready release
    release_at kahn Option.bind Option.map
looped = refl

topological_sort-Sorted_example :
    Sorted path_graph (1 ∷ 2 ∷ 0 ∷ 2 ∷ []) (topological_sort path_graph (1 ∷ 2 ∷ 0 ∷ 2 ∷ []))
topological_sort-Sorted_example =
    topological_sort-Sorted path_graph (1 ∷ 2 ∷ 0 ∷ 2 ∷ []) path_graph-IsDense

topological_sort_iff_example :
    ((order : List ℕ) × (topological_sort path_graph (1 ∷ 2 ∷ 0 ∷ []) ≡ some (ok order)))
    ↔ ((rank : ℕ → ℕ) × IsRank path_graph (1 ∷ 2 ∷ 0 ∷ []) rank)
topological_sort_iff_example = topological_sort_iff path_graph (1 ∷ 2 ∷ 0 ∷ []) path_graph-IsDense

abbrev built : GraphBuilder
built = record { node_count = 3; sources = 0 ∷ 2 ∷ 0 ∷ []; targets = 2 ∷ 1 ∷ 1 ∷ [] }

built-IsBuilder : IsBuilder host built
built-IsBuilder = record {
  sources_visible = omega arith;
  targets_visible = omega arith;
  paired = refl;
  nodes_fit = omega arith;
}

freeze-topological_sort_example :
    (t : FrozenTopology) × (freeze host u16 u16 built ≡ ok t)
    × (g : CsrGraph) × (as_view host u16 t ≡ ok g)
    × (((order : List ℕ) × (topological_sort (csr_topology host g) (nodes_below 3)
            ≡ some (ok order)))
        ↔ ((rank : ℕ → ℕ) × Climbs rank (0 ∷ 2 ∷ 0 ∷ []) (2 ∷ 1 ∷ 1 ∷ [])))
freeze-topological_sort_example =
    freeze-topological_sort host u16 u16 built built-IsBuilder (omega arith) (omega arith)
      (omega arith) (omega arith)

distances :
    shortest_path_lengths path_graph 0 (0 ∷ 1 ∷ 2 ∷ []) ≡ some ((0, 0) ∷ (2, 1) ∷ (1, 1) ∷ [])
unfolding shortest_path_lengths search visit visit_at is_fresh mark is_target Option.bind Option.map
distances = refl

shortest_path_lengths-Measured_example :
    Measured path_graph
      (requested path_graph (0 ∷ 1 ∷ 2 ∷ []))
      0
      (shortest_path_lengths path_graph 0 (0 ∷ 1 ∷ 2 ∷ []))
shortest_path_lengths-Measured_example =
    shortest_path_lengths-Measured path_graph 0 (0 ∷ 1 ∷ 2 ∷ []) path_graph-IsDense

longest : longest_path_dag path_graph (0 ∷ 1 ∷ 2 ∷ []) ≡ some (ok (0 ∷ 2 ∷ 1 ∷ []))
unfolding longest_path_dag longest_in pass relax relax_at improve backtrack topological_sort collect
    collect_at tally tally_at tally_all is_target ready release release_at kahn Option.bind
    Option.map
longest = refl

longest_path_dag-Longest_example :
    Longest path_graph (0 ∷ 1 ∷ 2 ∷ []) (longest_path_dag path_graph (0 ∷ 1 ∷ 2 ∷ []))
longest_path_dag-Longest_example =
    longest_path_dag-Longest path_graph (0 ∷ 1 ∷ 2 ∷ []) path_graph-IsDense
