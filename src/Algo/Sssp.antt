-- ===== src/Algo/Sssp.antt =====
-- crates/oxgraph-algo/src/sssp.rs: breadth-first distances. A panic, that of an index out
-- of bounds too, or the end of the fuel, is `none`; a distance is below the number of nodes, which fits a `u64`.
use oxgraph.Prelude.{
  ℕ, zero, suc, Bool, true, false, not, ◌&&◌, ◌||◌, none, some, List, [], ◌∷◌, ◌++◌, get_elem?,
  set_elem?, replicate, ltb, if◌then◌else◌,
}
use mathlib.Core.Option
use mathlib.Core.Option.{Option}
use oxgraph.Algo.Topology.{Topology}
use oxgraph.Algo.Toposort.{is_target}
pub mod Entries
pub mod Visit
pub mod Rounds
pub mod Shortest
pub mod Correct

-- The variables that the loop over the successors changes.
pub record Search (E : Type 0) : Type 0 where
  pub visited : List Bool
  pub queue : List (E × ℕ)

module _ {E : Type 0} (g : Topology E) where
  -- The loop over the elements.
  unfoldable pub mark : List E → List Bool → Option (List Bool)
  mark [] member = some member
  mark (element ∷ elements) member =
      let index = g.element_index element in
      Option.bind (if ltb index g.element_bound then set_elem? member index true else some member)
        (λ flags. mark elements flags)

  -- `target < bound && member[target] && !visited[target]`
  unfoldable pub is_fresh : List Bool → List Bool → ℕ → Option Bool
  is_fresh member visited target =
      Option.bind (is_target g member target)
        (λ listed. if listed then Option.map not (get_elem? visited target) else some false)

  -- One successor of a node at `distance`.
  unfoldable pub visit_at : List Bool → (distance : ℕ) → E → Search E → Option (Search E)
  visit_at member distance successor s =
      let target = g.element_index successor in
      Option.bind (is_fresh member s.visited target) (λ fresh.
        if fresh
        then Option.map
            (λ visited. record {
              visited = visited;
              queue = s.queue ++ (successor, suc distance) ∷ [];
            })
            (set_elem? s.visited target true)
        else some s)

  -- The loop over the successors of a node.
  unfoldable pub visit : List Bool → (distance : ℕ) → List E → Search E → Option (Search E)
  visit member distance [] s = some s
  visit member distance (successor ∷ successors) s =
      Option.bind (visit_at member distance successor s)
        (λ next. visit member distance successors next)

  -- `while let Some((node, distance)) = queue.pop_front()`
  unfoldable pub search :
      (fuel : ℕ)
      → List Bool
      → (visited : List Bool) (queue distances : List (E × ℕ)) → Option (List (E × ℕ))
  search zero member visited queue distances = none
  search (suc fuel) member visited [] distances = some distances
  search (suc fuel) member visited ((node, distance) ∷ queue) distances =
      Option.bind
        (visit member distance (g.element_successors node)
          (record { visited = visited; queue = queue }))
        (λ s. search fuel member s.visited s.queue (distances ++ (node, distance) ∷ []))

  -- No index is queued twice, so one round more than the bound is enough.
  unfoldable pub shortest_path_lengths : (source : E) → List E → Option (List (E × ℕ))
  shortest_path_lengths source elements =
      let bound = g.element_bound in
      Option.bind (mark elements (replicate bound false)) (λ member.
        let source_index = g.element_index source in
        Option.bind (is_target g member source_index) (λ listed.
          if listed
          then Option.bind (set_elem? (replicate bound false) source_index true)
              (λ visited. search (suc bound) member visited ((source, 0) ∷ []) [])
          else some []))
