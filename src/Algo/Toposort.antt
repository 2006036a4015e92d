-- ===== src/Algo/Toposort.antt =====
-- crates/oxgraph-algo/src/toposort.rs: Kahn's algorithm. A panic, that of an index out of
-- bounds too, or the end of the fuel, is `none`.
use oxgraph.Prelude.{
  ℕ, zero, suc, ◌-◌, Bool, true, false, not, ◌&&◌, ◌||◌, none, some, List, [], ◌∷◌, ◌++◌, length,
  get_elem?, set_elem?, replicate, ltb, leb, ◌==◌, if◌then◌else◌, Result, ok, err,
}
use mathlib.Core.Option
use mathlib.Core.Option.{Option}
use oxgraph.Algo.Topology.{Topology}
pub mod Total
pub mod Start
pub mod Rounds
pub mod Order
pub mod Acyclic
pub mod Cycle
pub mod Release

pub data ToposortError : Type 0 where
  cycle : ToposortError

-- The variables of the main loop.
pub record Kahn (E : Type 0) : Type 0 where
  pub indegree : List ℕ
  pub queue : List E
  pub order : List E

module _ {E : Type 0} (g : Topology E) where
  -- `if index < bound && !member[index]` for one element.
  unfoldable pub collect_at : E → List Bool → List E → Option (List Bool × List E)
  collect_at element member nodes =
      let index = g.element_index element in
      if ltb index g.element_bound
      then Option.bind (get_elem? member index) (λ seen.
        if seen
        then some (member, nodes)
        else Option.map (λ flags. (flags, nodes ++ element ∷ [])) (set_elem? member index true))
      else some (member, nodes)

  -- The first loop: the elements within the bound, each once.
  unfoldable pub collect : List E → List Bool → List E → Option (List Bool × List E)
  collect [] member nodes = some (member, nodes)
  collect (element ∷ elements) member nodes =
      Option.bind (collect_at element member nodes) (λ s. collect elements s.0 s.1)

  -- `target < bound && member[target]`
  unfoldable pub is_target : List Bool → ℕ → Option Bool
  is_target member target =
      if ltb target g.element_bound then get_elem? member target else some false

  -- One successor of the second loop. A count of entries fits `usize`.
  unfoldable pub tally_at : List Bool → E → List ℕ → Option (List ℕ)
  tally_at member successor indegree =
      let target = g.element_index successor in
      Option.bind (is_target member target) (λ counts.
        if counts
        then Option.bind (get_elem? indegree target) (λ n. set_elem? indegree target (suc n))
        else some indegree)

  -- The second loop, over the successors of one node.
  unfoldable pub tally : List Bool → List E → List ℕ → Option (List ℕ)
  tally member [] indegree = some indegree
  tally member (successor ∷ successors) indegree =
      Option.bind (tally_at member successor indegree) (λ next. tally member successors next)

  unfoldable pub tally_all : List Bool → List E → List ℕ → Option (List ℕ)
  tally_all member [] indegree = some indegree
  tally_all member (node ∷ nodes) indegree =
      Option.bind (tally member (g.element_successors node) indegree)
        (λ next. tally_all member nodes next)

  -- The third loop: the nodes without a predecessor.
  unfoldable pub ready : List ℕ → List E → Option (List E)
  ready indegree [] = some []
  ready indegree (node ∷ nodes) =
      Option.bind (get_elem? indegree (g.element_index node))
        (λ n. Option.map (λ rest. if n == 0 then node ∷ rest else rest) (ready indegree nodes))

  -- One successor of the main loop: `continue`, or `indegree[target] -= 1`, which panics at zero.
  unfoldable pub release_at : List Bool → E → Kahn E → Option (Kahn E)
  release_at member successor s =
      let target = g.element_index successor in
      Option.bind (is_target member target) (λ counts.
        if counts
        then Option.bind (get_elem? s.indegree target) (λ n.
          let left = n - 1 in
          if n == 0
          then none
          else Option.map
              (λ indegree. record {
                indegree = indegree;
                queue = if left == 0 then s.queue ++ successor ∷ [] else s.queue;
                order = s.order;
              })
              (set_elem? s.indegree target left))
        else some s)

  unfoldable pub release : List Bool → List E → Kahn E → Option (Kahn E)
  release member [] s = some s
  release member (successor ∷ successors) s =
      Option.bind (release_at member successor s) (λ next. release member successors next)

  -- `while let Some(node) = queue.pop_front()`
  unfoldable pub kahn :
      (fuel : ℕ) → List Bool → (indegree : List ℕ) (queue order : List E) → Option (List E)
  kahn zero member indegree queue order = none
  kahn (suc fuel) member indegree [] order = some order
  kahn (suc fuel) member indegree (node ∷ queue) order =
      Option.bind
        (release member (g.element_successors node)
          (record { indegree = indegree; queue = queue; order = order ++ node ∷ [] }))
        (λ s. kahn fuel member s.indegree s.queue s.order)

  -- A round takes a node that no other round takes, so one more than the nodes is enough fuel.
  unfoldable pub topological_sort : List E → Option (Result ToposortError (List E))
  topological_sort elements =
      let bound = g.element_bound in
      Option.bind (collect elements (replicate bound false) []) (λ taken.
        let nodes = taken.1 in
        Option.bind (tally_all taken.0 nodes (replicate bound 0)) (λ indegree.
          Option.bind (ready indegree nodes) (λ queue.
            Option.bind (kahn (suc (length nodes)) taken.0 indegree queue [])
              (λ order. some (if length order == length nodes then ok order else err cycle)))))
