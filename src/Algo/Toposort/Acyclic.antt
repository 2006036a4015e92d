-- ===== src/Algo/Toposort/Acyclic.antt =====
-- crates/oxgraph-algo/src/toposort.rs: `topological_sort` as a test for cycles.
use oxgraph.Prelude.{
  ℕ, suc, ◌<◌, ◌≡◌, ◌↔◌, refl, ap, Bool-cases, inl, inr, some, none, List, [], ◌∷◌, ◌==◌,
  if◌then◌else◌, arith, Result, ok, err,
}
use mathlib.Core.Option.{Option}
use oxgraph.Algo.Topology.{Topology, IsDense, count}
use oxgraph.Algo.Toposort.{ToposortError, topological_sort}
use oxgraph.Algo.Toposort.Rounds.{Forward}
use oxgraph.Algo.Toposort.Cycle.{IsRank}
use oxgraph.Algo.Toposort.Order.{Sorted, ListsEach, topological_sort-Sorted}

module _ {E : Type 0} (g : Topology E) where
  -- Where index `i` stands first.
  abbrev position : ℕ → List E → ℕ
  position i [] = 0
  position i (x ∷ xs) =
      let after = suc (position i xs) in if g.element_index x == i then 0 else after

  position_lt :
      (order : List E) (u : E) (i : ℕ)
      → Forward g order
      → 0 < count g (g.element_index u) order
      → 0 < count g i order
      → 0 < count g i (g.element_successors u)
      → position (g.element_index u) order < position i order
  position_lt [] u i f hu hi entry = absurd (omega arith)
  position_lt (x ∷ order) u i f hu hi entry = elim (Bool-cases (g.element_index x == i)) [
    | inl e ↦
        let none_back = f.0 u hu in
        let same : g.element_index x ≡ i = ground arith in
        absurd (omega (arith, ap (λ (k : ℕ). count g k (g.element_successors u)) same))
    | inr e ↦ elim (Bool-cases (g.element_index x == g.element_index u)) [
      | inl own ↦ ground arith
      | inr own ↦
          let ih = position_lt order u i f.1 (ground arith) (ground arith) entry in ground arith
    ]
  ]

  module _ (elements : List E) (dense : IsDense g) where
    order-IsRank :
        (order : List E)
        → ListsEach g elements order
        → Forward g order
        → IsRank g elements (λ u. position (g.element_index u) order)
    order-IsRank order each f u v hu hv bu bv entry =
        position_lt order u (g.element_index v) f (ground (arith, each (g.element_index u)))
          (ground (arith, each (g.element_index v))) entry

    Sorted-IsRank :
        (o : Option (Result ToposortError (List E)))
        → Sorted g elements o
        → ((order : List E) × (o ≡ some (ok order))) ↔ ((rank : E → ℕ) × IsRank g elements rank)
    Sorted-IsRank none h = elim h [ ]
    Sorted-IsRank (some (ok order)) (each, f) = (
      λ _. ((λ u. position (g.element_index u) order), order-IsRank order each f),
      λ _. (order, refl),
    )
    Sorted-IsRank (some (err error)) h =
        (λ found. absurd (let e = found.1 in cc), λ r. absurd (h r.0 r.1))

    -- `topological_sort` on a dense topology returns an order exactly when the requested elements
    -- have no cycle: when some rank grows along every entry between those within the bound.
    pub topological_sort_iff :
        ((order : List E) × (topological_sort g elements ≡ some (ok order)))
        ↔ ((rank : E → ℕ) × IsRank g elements rank)
    topological_sort_iff =
        Sorted-IsRank (topological_sort g elements) (topological_sort-Sorted g elements dense)
