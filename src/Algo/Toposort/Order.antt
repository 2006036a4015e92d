-- ===== src/Algo/Toposort/Order.antt =====
-- crates/oxgraph-algo/src/toposort.rs: what `topological_sort` returns.
use oxgraph.Prelude.{
  ℕ, suc, ◌≤◌, ◌≡◌, ◌∙◌, Bool, false, ◌&&◌, Bool-cases, inl, inr, some, none, List, [], length,
  replicate, length-replicate, ltb, ◌==◌, ==_iff, if◌then◌else◌, arith, Result, ok, err,
}
use mathlib.Core.Option
use mathlib.Core.Option.{Option}
use oxgraph.Algo.Topology.{Topology, IsDense, count}
use oxgraph.Algo.Topology.Counting.{entries_le}
use oxgraph.Algo.Toposort.{ToposortError, topological_sort}
use oxgraph.Algo.Toposort.Total.{
  collected, tallied_all, sources_of, collect_eq, tally_all_eq, ready_eq,
}
use oxgraph.Algo.Toposort.Start.{
  IsCollected, collected-IsCollected, tally_all_lem, count-sources_of, get_or-replicate,
}
use oxgraph.Algo.Toposort.Release.{AreNodes, IsRound, order_le}
use oxgraph.Algo.Toposort.Rounds.{Forward, kahn_lem}
use oxgraph.Algo.Toposort.Cycle.{IsRank, nodes_ordered, count_eq}

module _ {E : Type 0} (g : Topology E) (elements : List E) where
  -- Each requested element within the bound once, and no other.
  abbrev pub ListsEach : List E → Type 0
  ListsEach order =
      (i : ℕ)
      → count g i order ≡ (if ltb i g.element_bound && ltb 0 (count g i elements) then 1 else 0)

  -- An order of the elements, or the proof that there is none.
  abbrev pub Sorted : Option (Result ToposortError (List E)) → Type 0
  Sorted none = ⊥
  Sorted (some (ok order)) = ListsEach order × Forward g order
  Sorted (some (err error)) = (rank : E → ℕ) → ¬ IsRank g elements rank

  module _ (dense : IsDense g) (member : List Bool) (nodes : List E)
      (c : IsCollected g elements member nodes) where
    abbrev indegrees : List ℕ
    indegrees = tallied_all g member nodes (replicate g.element_bound 0)

    are_nodes : AreNodes g member nodes
    are_nodes = record { flags = c.size; once = λ i. ground (arith, c.flagged i, c.listed i) }

    first_round :
        IsRound g member nodes []
          (record { indegree = indegrees; queue = sources_of g indegrees nodes; order = [] })
    first_round =
        let told =
          tally_all_lem g member nodes (replicate g.element_bound 0)
            (length-replicate g.element_bound 0) in
        record {
          size = told.0;
          placed = λ i. omega (arith, count-sources_of g indegrees i nodes);
          balance = λ i h. omega (arith, told.1 i h, get_or-replicate {A = ℕ} g.element_bound i 0);
        }

    module _ (last : List ℕ) (out : List E)
        (r : IsRound g member nodes [] (record { indegree = last; queue = []; order = out }))
        (sorted : Forward g out) where
      out_le : (j : ℕ) → count g j out ≤ count g j nodes
      out_le j = ground (arith, r.placed j)

      full_Sorted : length out ≡ length nodes → Sorted (some (ok out))
      full_Sorted same = (
        λ i. count_eq g dense out nodes out_le same i ∙ ground (arith, c.flagged i, c.listed i),
        sorted,
      )

      -- A rank would put every node in order.
      no-IsRank : (length out == length nodes) ≡ false → (rank : E → ℕ) → ¬ IsRank g elements rank
      no-IsRank short rank ranked =
          let ranked_nodes : IsRank g nodes rank = λ u v hu hv bu bv entry.
            ranked u v (ground (arith, c.flagged (g.element_index u), c.listed (g.element_index u)))
              (ground (arith, c.flagged (g.element_index v), c.listed (g.element_index v))) bu bv
              entry in
          let all = nodes_ordered g dense member nodes are_nodes last out r rank ranked_nodes in
          let few =
            (order_le g dense member nodes are_nodes []
              (record { indegree = last; queue = []; order = out }) r 0).1 in
          let many =
            (entries_le g dense 0 nodes out all (λ j h. ground (arith, are_nodes.once j))).1 in
          ground arith

  -- `topological_sort` on a dense topology ends without a panic. An order it returns has each
  -- requested element within the bound once and nothing else, and no entry of the graph leads from
  -- an element of it back to an earlier one or to itself. Where it reports a cycle, no rank grows
  -- along every entry between the requested elements.
  pub topological_sort-Sorted : IsDense g → Sorted (topological_sort g elements)
  unfolding topological_sort Option.bind
  topological_sort-Sorted dense =
      let member = (collected g elements (replicate g.element_bound false) []).0 in
      let nodes = (collected g elements (replicate g.element_bound false) []).1 in
      let c = collected-IsCollected g elements in
      let start =
        collect_eq g elements (replicate g.element_bound false) []
          (length-replicate g.element_bound false) in
      let counted =
        tally_all_eq g member c.size nodes (replicate g.element_bound 0)
          (length-replicate g.element_bound 0) in
      let round = first_round dense member nodes c in
      let size = round.size in
      let queued =
        ready_eq g (indegrees dense member nodes c) nodes
          (λ i h. ground (arith, (are_nodes dense member nodes c).once i)) in
      let (last, out, same, r, sorted) =
        kahn_lem g dense member nodes (are_nodes dense member nodes c) (suc (length nodes))
          (indegrees dense member nodes c) (sources_of g (indegrees dense member nodes c) nodes) []
          round tt (omega arith) in
      elim (Bool-cases (length out == length nodes)) [
        | inl e ↦
            rw (start, counted, queued, same, e)
              (full_Sorted dense member nodes c last out r sorted
                ((==_iff (length out) (length nodes)).0 e))
        | inr e ↦
            rw (start, counted, queued, same, e)
              (no-IsRank dense member nodes c last out r sorted e)
      ]
