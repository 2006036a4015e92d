-- ===== src/Algo/Toposort/Rounds.antt =====
-- crates/oxgraph-algo/src/toposort.rs: the main loop, a node put in order at a time.
use oxgraph.Prelude.{
  ℕ, zero, suc, ◌+◌, ◌<◌, ◌≤◌, ◌≡◌, refl, ap, sym, subst, Bool, Bool-cases, inl, inr, some, List,
  [], ◌∷◌, ◌++◌, length, length-append, ltb, arith,
}
use mathlib.Core.Option
use mathlib.Core.Option.{Option}
use oxgraph.Algo.Topology.{Topology, IsDense, count}
use oxgraph.Algo.Topology.Counting.{count-append, entries-append, entries_le}
use oxgraph.Algo.Toposort.{Kahn, kahn}
use oxgraph.Algo.Toposort.Release.{AreNodes, IsRound, order_le, release-IsRound}

module _ {E : Type 0} (g : Topology E) where
  -- No element has an entry that leads back: to one before it, or to itself.
  abbrev pub Forward : List E → Type 0
  Forward [] = Unit
  Forward (u ∷ us) =
      ((v : E)
        → 0 < count g (g.element_index v) (u ∷ us)
        → count g (g.element_index u) (g.element_successors v) ≡ 0)
      × Forward us

  Forward-snoc :
      (us : List E) (x : E)
      → Forward us
      → ((v : E)
          → g.element_index x ≡ g.element_index v
          → (u : E) → 0 < count g (g.element_index u) (us ++ x ∷ [])
          → count g (g.element_index u) (g.element_successors v) ≡ 0)
      → Forward (us ++ x ∷ [])
  Forward-snoc [] x f no_entry = (λ v h. no_entry v (ground arith) x (ground arith), tt)
  Forward-snoc (u ∷ us) x f no_entry = (
    λ v h. elim (Bool-cases (ltb 0 (count g (g.element_index v) (u ∷ us)))) [
      | inl e ↦ f.0 v (ground arith)
      | inr e ↦
          no_entry v (ground (arith, count-append g (g.element_index v) us (x ∷ []))) u
            (ground arith)
    ],
    Forward-snoc us x f.1 (λ v e w h. no_entry v e w (omega arith)),
  )

module _ {E : Type 0} (g : Topology E) (dense : IsDense g) (member : List Bool) (nodes : List E)
    (are : AreNodes g member nodes) where
  abbrev state : List ℕ → List E → List E → Kahn E
  state indegree queue order = record { indegree = indegree; queue = queue; order = order }

  module _ (indegree : List ℕ) (x : E) (queue order : List E)
      (r : IsRound g member nodes [] (state indegree (x ∷ queue) order)) where
    -- The node at the head of the queue is new.
    head_new : (j : ℕ) → count g j (x ∷ order) ≤ count g j nodes
    head_new j = ground (arith, r.placed j)

    head_inside : g.element_index x < g.element_bound
    head_inside = ground (arith, r.placed (g.element_index x), are.once (g.element_index x))

    -- It has no entry to what is in order, or to itself.
    no_entry_back :
        (v : E)
        → g.element_index x ≡ g.element_index v
        → (u : E) → 0 < count g (g.element_index u) (order ++ x ∷ [])
        → count g (g.element_index u) (g.element_successors v) ≡ 0
    no_entry_back v e u h =
        let i = g.element_index u in
        let same = dense.distinct x v head_inside e in
        let le =
          (entries_le g dense i (x ∷ order) nodes head_new
            (λ j h. ground (arith, r.placed j, are.once j))).0 in
        let own : count g i (g.element_successors x) ≡ 0 =
          ground (arith, r.placed i, are.once i, r.balance i, count-append g i order (x ∷ [])) in
        subst (λ (y : E). count g i (g.element_successors y) ≡ 0) same own

    taken : IsRound g member nodes (g.element_successors x) (state indegree queue (order ++ x ∷ []))
    taken = record {
      size = r.size;
      placed = λ i. ground (arith, r.placed i, count-append g i order (x ∷ []));
      balance = λ i h. omega (arith, r.balance i h, entries-append g i order (x ∷ []));
    }

  -- With a round for each node left, the loop ends with an empty queue.
  pub kahn_lem :
      (fuel : ℕ) (indegree : List ℕ) (queue order : List E)
      → IsRound g member nodes [] (state indegree queue order)
      → Forward g order
      → length nodes < fuel + length order
      → (last : List ℕ) × (out : List E) × (kahn g fuel member indegree queue order ≡ some out)
        × IsRound g member nodes [] (state last [] out)
        × Forward g out
  unfolding kahn Option.bind
  kahn_lem zero indegree queue order r f enough =
      absurd
        (omega (arith, (order_le g dense member nodes are [] (state indegree queue order) r 0).1))
  kahn_lem (suc fuel) indegree [] order r f enough = (indegree, order, refl, r, f)
  kahn_lem (suc fuel) indegree (x ∷ queue) order r f enough =
      let forward = Forward-snoc g order x f (no_entry_back indegree x queue order r) in
      let (t, same, ends, kept) =
        release-IsRound g dense member nodes are (g.element_successors x)
          (state indegree queue (order ++ x ∷ [])) (taken indegree x queue order r) in
      let forward_t : Forward g t.order = subst (Forward g) (sym kept) forward in
      let (last, out, done, round, sorted) =
        kahn_lem fuel t.indegree t.queue t.order ends forward_t
          (omega (arith, ap length kept, length-append order (x ∷ []))) in
      (last, out, rw same done, round, sorted)
