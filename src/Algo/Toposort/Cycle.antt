-- ===== src/Algo/Toposort/Cycle.antt =====
-- crates/oxgraph-algo/src/toposort.rs: what a node that is left without a place in the order means.
use oxgraph.Prelude.{
  ℕ, zero, suc, ◌+◌, ◌<◌, ◌≤◌, ◌≡◌, refl, ap, ◌∙◌, Bool, Bool-cases, inl, inr, List, [], ◌∷◌,
  length, subst, ltb, ltb→lt, ◌==◌, if◌then◌else◌, arith, ==_refl,
}
use oxgraph.Algo.Topology.{Topology, IsDense, count, entries}
use oxgraph.Algo.Topology.Counting.{entries_le, without}
use oxgraph.Algo.Toposort.Release.{AreNodes, IsRound}

module _ {E : Type 0} (g : Topology E) where
  -- A number for each element that grows along every entry between the elements.
  abbrev pub IsRank : List E → (E → ℕ) → Type 0
  IsRank elements rank =
      (u v : E)
      → 0 < count g (g.element_index u) elements
      → 0 < count g (g.element_index v) elements
      → g.element_index u < g.element_bound
      → g.element_index v < g.element_bound
      → 0 < count g (g.element_index v) (g.element_successors u)
      → rank u < rank v

  -- The elements with an entry to index `i`.
  abbrev preds : ℕ → List E → List E
  preds i [] = []
  preds i (x ∷ xs) =
      let rest = preds i xs in if ltb 0 (count g i (g.element_successors x)) then x ∷ rest else rest

  entries-preds : (i : ℕ) (xs : List E) → entries g i (preds i xs) ≡ entries g i xs
  entries-preds i [] = refl
  entries-preds i (x ∷ xs) = ground (arith, entries-preds i xs)

  count-preds : (i j : ℕ) (xs : List E) → count g j (preds i xs) ≤ count g j xs
  count-preds i j [] = omega arith
  count-preds i j (x ∷ xs) = ground (arith, count-preds i j xs)

  pred_found :
      (i j : ℕ) (xs : List E)
      → 0 < count g j (preds i xs)
      → (w : E) × (g.element_index w ≡ j) × (0 < count g i (g.element_successors w))
  pred_found i j [] h = absurd (omega arith)
  pred_found i j (x ∷ xs) h = elim (Bool-cases (ltb 0 (count g j (preds i xs)))) [
    | inl e ↦ pred_found i j xs (ground arith)
    | inr e ↦ (x, ground arith, ground arith)
  ]

  module _ (dense : IsDense g) where
    -- As many elements, and none more often: the same elements.
    pub count_eq :
        (xs ys : List E)
        → ((j : ℕ) → count g j xs ≤ count g j ys)
        → length xs ≡ length ys
        → (j : ℕ) → count g j xs ≡ count g j ys
    count_eq [] [] le same j = refl
    count_eq [] (y ∷ ys) le same j = absurd (omega arith)
    count_eq (x ∷ xs) ys le same j =
        let at = le (g.element_index x) in
        let own = ==_refl (g.element_index x) in
        let w = without g (g.element_index x) ys (ground arith) in
        let split : (k : ℕ)
            → count g k ys ≡ (if g.element_index x == k then 1 else 0) + count g k w.rest =
          λ k.
            w.same_count k
            ∙ ap (λ (n : ℕ). (if n == k then 1 else 0) + count g k w.rest) w.index_of in
        let ih =
          count_eq xs w.rest (λ k. omega (arith, le k, split k)) (omega (arith, w.same_length)) j in
        omega (arith, split j)

module _ {E : Type 0} (g : Topology E) (dense : IsDense g) (member : List Bool) (nodes : List E)
    (are : AreNodes g member nodes) (indegree : List ℕ) (order : List E)
    (r : IsRound g member nodes [] (record { indegree = indegree; queue = []; order = order }))
    (rank : E → ℕ) (ranked : IsRank g nodes rank) where
  inside : (i : ℕ) → 0 < count g i nodes → i < g.element_bound
  inside i h = ground (arith, are.once i)

  covered :
      (i j : ℕ)
      → (0 < count g j (preds g i nodes) → 0 < count g j order)
      → count g j (preds g i nodes) ≤ count g j order
  covered i j h = elim (Bool-cases (ltb 0 (count g j (preds g i nodes)))) [
    | inl e ↦
        let p = h (ltb→lt 0 (count g j (preds g i nodes)) e) in
        ground (arith, count-preds g i j nodes, are.once j)
    | inr e ↦ ground arith
  ]

  -- Below a rank every node is in order, by its predecessors.
  all_ordered :
      (n : ℕ) (v : E)
      → rank v < n
      → 0 < count g (g.element_index v) nodes
      → 0 < count g (g.element_index v) order
  all_ordered zero v low h = absurd (omega arith)
  all_ordered (suc n) v low h =
      let i = g.element_index v in
      let before : (j : ℕ) → 0 < count g j (preds g i nodes) → 0 < count g j order = λ j p.
        let (w, at, entry) = pred_found g i j nodes p in
        let listed : 0 < count g (g.element_index w) nodes =
          omega (arith, count-preds g i j nodes, ap (λ (k : ℕ). count g k nodes) at) in
        let lower = ranked w v listed h (inside (g.element_index w) listed) (inside i h) entry in
        subst (λ k. 0 < count g k order) at (all_ordered n w (omega arith) listed) in
      let le =
        (entries_le g dense i (preds g i nodes) order (λ j. covered i j (before j))
          (λ j p. inside j (omega (arith, count-preds g i j nodes)))).0 in
      ground (arith, r.placed i, r.balance i, are.once i, entries-preds g i nodes)

  pub nodes_ordered : (j : ℕ) → count g j nodes ≤ count g j order
  nodes_ordered j = elim (Bool-cases (ltb 0 (count g j nodes))) [
    | inl e ↦
        let w = without g j nodes (ltb→lt 0 (count g j nodes) e) in
        let here : 0 < count g (g.element_index w.taken) nodes = ground (arith, w.index_of) in
        let found : 0 < count g j order =
          subst (λ k. 0 < count g k order) w.index_of
            (all_ordered (suc (rank w.taken)) w.taken (omega arith) here) in
        ground (arith, are.once j)
    | inr e ↦ ground arith
  ]
