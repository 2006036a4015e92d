-- ===== src/Algo/Toposort/Release.antt =====
-- crates/oxgraph-algo/src/toposort.rs: the inner loop, which gives up the edges of one node.
use oxgraph.Prelude.{
  ℕ, ◌+◌, ◌-◌, ◌<◌, ◌≤◌, ◌≡◌, refl, ◌∙◌, Bool, true, false, Bool-cases, inl, inr, some, List, [],
  ◌∷◌, ◌++◌, length, get_or, set, length-set, get_elem?-eq-get_or, set_elem?-eq-set, ◌==◌,
  if◌then◌else◌, arith,
}
use oxgraph.Algo.Topology.{Topology, IsDense, count, entries}
use oxgraph.Algo.Topology.Counting.{count-append, entries_le}
use mathlib.Core.Option
use oxgraph.Algo.Toposort.{Kahn, release, release_at}
use oxgraph.Algo.Toposort.Total.{is_member, is_target_eq}
use oxgraph.Algo.Toposort.Start.{get_or-set}

-- The nodes are those flagged, each once.
pub record AreNodes {E : Type 0} (g : Topology E) (member : List Bool) (nodes : List E)
    : Type 0 where
  pub flags : length member ≡ g.element_bound
  pub once : (i : ℕ) → count g i nodes ≡ (if is_member g member i then 1 else 0)

-- Between two entries of a round: `left` are those still to come of the node put in order last.
pub record IsRound {E : Type 0} (g : Topology E) (member : List Bool) (nodes left : List E)
    (s : Kahn E) : Type 0 where
  pub size : length s.indegree ≡ g.element_bound
  pub placed :
      (i : ℕ)
      → count g i s.order + count g i s.queue
        ≡ (if get_or s.indegree i 0 == 0 then count g i nodes else 0)
  pub balance :
      (i : ℕ)
      → is_member g member i ≡ true
      → get_or s.indegree i 0 + entries g i s.order ≡ entries g i nodes + count g i left

module _ {E : Type 0} (g : Topology E) (dense : IsDense g) (member : List Bool) (nodes : List E)
    (are : AreNodes g member nodes) where
  -- What is in order is among the nodes, so its entries are.
  pub order_le :
      (left : List E) (s : Kahn E)
      → IsRound g member nodes left s
      → (i : ℕ) → (entries g i s.order ≤ entries g i nodes) × (length s.order ≤ length nodes)
  order_le left s r i =
      entries_le g dense i s.order nodes (λ j. ground (arith, r.placed j))
        (λ j h. ground (arith, r.placed j, are.once j))

  abbrev after : E → Kahn E → Kahn E
  after x s =
      let target = g.element_index x in
      let less = get_or s.indegree target 0 - 1 in
      record {
        indegree = set s.indegree target less;
        queue = if less == 0 then s.queue ++ x ∷ [] else s.queue;
        order = s.order;
      }

  -- An entry to a node finds its count above zero.
  entry_counted :
      (x : E) (left : List E) (s : Kahn E)
      → IsRound g member nodes (x ∷ left) s
      → is_member g member (g.element_index x) ≡ true
      → 0 < get_or s.indegree (g.element_index x) 0
  entry_counted x left s r e =
      let le = (order_le (x ∷ left) s r (g.element_index x)).0 in
      ground (arith, r.balance (g.element_index x) e)

  after-IsRound :
      (x : E) (left : List E) (s : Kahn E)
      → IsRound g member nodes (x ∷ left) s
      → is_member g member (g.element_index x) ≡ true
      → IsRound g member nodes left (after x s)
  after-IsRound x left s r e =
      let target = g.element_index x in
      let size = r.size in
      let positive = entry_counted x left s r e in
      let inside : target < length s.indegree = ground arith in
      let less = get_or s.indegree target 0 - 1 in
      let written = λ (i : ℕ). get_or-set s.indegree target i less 0 inside in
      record {
        size = length-set s.indegree target less ∙ r.size;
        placed = λ i.
            ground (arith, written i, r.placed i, are.once i, count-append g i s.queue (x ∷ []));
        balance = λ i h. ground (arith, written i, r.balance i h);
      }

  skip-IsRound :
      (x : E) (left : List E) (s : Kahn E)
      → IsRound g member nodes (x ∷ left) s
      → is_member g member (g.element_index x) ≡ false
      → IsRound g member nodes left s
  skip-IsRound x left s r e = record {
    size = r.size;
    placed = r.placed;
    balance = λ i h. ground (arith, r.balance i h);
  }

  -- The loop never counts below zero, and never indexes out of bounds.
  pub release-IsRound :
      (left : List E) (s : Kahn E)
      → IsRound g member nodes left s
      → (t : Kahn E) × (release g member left s ≡ some t)
        × IsRound g member nodes [] t
        × (t.order ≡ s.order)
  unfolding release release_at Option.bind Option.map
  release-IsRound [] s r = (s, refl, r, refl)
  release-IsRound (x ∷ left) s r =
      let i = g.element_index x in
      let counts = is_target_eq g member i are.flags in
      elim (Bool-cases (is_member g member i)) [
        | inl e ↦
            let size = r.size in
            let inside : i < length s.indegree = ground arith in
            let positive = entry_counted x left s r e in
            let above : (get_or s.indegree i 0 == 0) ≡ false = ground arith in
            let (t, same, ends, kept) =
              release-IsRound left (after x s) (after-IsRound x left s r e) in
            (
              t,
              rw
                  (
                    counts,
                    e,
                    get_elem?-eq-get_or s.indegree i 0 inside,
                    above,
                    set_elem?-eq-set s.indegree i (get_or s.indegree i 0 - 1) inside,
                  )
                  same,
              ends,
              kept,
            )
        | inr e ↦
            let (t, same, ends, kept) = release-IsRound left s (skip-IsRound x left s r e) in
            (t, rw (counts, e) same, ends, kept)
      ]
