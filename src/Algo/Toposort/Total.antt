-- ===== src/Algo/Toposort/Total.antt =====
-- crates/oxgraph-algo/src/toposort.rs: the loops before the main one, on lists that are indexed in
-- bounds, as total functions.
use oxgraph.Prelude.{
  ℕ, suc, ◌<◌, ◌≡◌, refl, ◌∙◌, Bool, true, false, not, ◌&&◌, Bool-cases, inl, inr, some, List, [],
  ◌∷◌, ◌++◌, length, get_or, set, get_elem?-eq-get_or, set_elem?-eq-set, length-set, ltb, ◌==◌,
  if◌then◌else◌, arith, ==_refl,
}
use mathlib.Core.Option
use oxgraph.Algo.Topology.{Topology, count}
use oxgraph.Algo.Toposort.{collect, collect_at, is_target, tally, tally_at, tally_all, ready}

module _ {E : Type 0} (g : Topology E) where
  unfoldable pub collected : List E → List Bool → List E → List Bool × List E
  collected [] member nodes = (member, nodes)
  collected (element ∷ elements) member nodes =
      let index = g.element_index element in
      let fresh = ltb index g.element_bound && not (get_or member index false) in
      collected elements (if fresh then set member index true else member)
        (if fresh then nodes ++ element ∷ [] else nodes)

  abbrev pub is_member : List Bool → ℕ → Bool
  is_member member target = ltb target g.element_bound && get_or member target false

  unfoldable pub tallied : List Bool → List E → List ℕ → List ℕ
  tallied member [] indegree = indegree
  tallied member (successor ∷ successors) indegree =
      let target = g.element_index successor in
      tallied member successors (
        if is_member member target
        then set indegree target (suc (get_or indegree target 0))
        else indegree)

  unfoldable pub tallied_all : List Bool → List E → List ℕ → List ℕ
  tallied_all member [] indegree = indegree
  tallied_all member (node ∷ nodes) indegree =
      tallied_all member nodes (tallied member (g.element_successors node) indegree)

  unfoldable pub sources_of : List ℕ → List E → List E
  sources_of indegree [] = []
  sources_of indegree (node ∷ nodes) =
      let rest = sources_of indegree nodes in
      if get_or indegree (g.element_index node) 0 == 0 then node ∷ rest else rest

  pub is_target_eq :
      (member : List Bool) (i : ℕ)
      → length member ≡ g.element_bound
      → is_target g member i ≡ some (is_member member i)
  unfolding is_target
  is_target_eq member i size = elim (Bool-cases (ltb i g.element_bound)) [
    | inl e ↦ rw (e, get_elem?-eq-get_or member i false (ground arith)) refl
    | inr e ↦ rw e refl
  ]

  pub collect_eq :
      (elements : List E) (member : List Bool) (nodes : List E)
      → length member ≡ g.element_bound
      → collect g elements member nodes ≡ some (collected elements member nodes)
  unfolding collect collect_at collected Option.bind Option.map
  collect_eq [] member nodes size = refl
  collect_eq (x ∷ elements) member nodes size =
      let i = g.element_index x in
      elim (Bool-cases (ltb i g.element_bound)) [
        | inl e ↦
            let inside : i < length member = ground arith in
            elim (Bool-cases (get_or member i false)) [
              | inl seen ↦
                  rw (e, get_elem?-eq-get_or member i false inside, seen)
                    (collect_eq elements member nodes size)
              | inr fresh ↦
                  rw
                    (
                      e,
                      get_elem?-eq-get_or member i false inside,
                      fresh,
                      set_elem?-eq-set member i true inside,
                    )
                    (collect_eq elements (set member i true) (nodes ++ x ∷ [])
                      (length-set member i true ∙ size))
            ]
        | inr e ↦ rw e (collect_eq elements member nodes size)
      ]

  module _ (member : List Bool) (flags : length member ≡ g.element_bound) where
    pub tally_eq :
        (successors : List E) (indegree : List ℕ)
        → length indegree ≡ g.element_bound
        → (tally g member successors indegree ≡ some (tallied member successors indegree))
          × (length (tallied member successors indegree) ≡ g.element_bound)
    unfolding tally tally_at tallied Option.bind
    tally_eq [] indegree size = (refl, size)
    tally_eq (x ∷ successors) indegree size =
        let i = g.element_index x in
        elim (Bool-cases (is_member member i)) [
          | inl e ↦
              let inside : i < length indegree = ground arith in
              let n = get_or indegree i 0 in
              let (run, left) =
                tally_eq successors (set indegree i (suc n))
                  (length-set indegree i (suc n) ∙ size) in
              rw
                (
                  is_target_eq member i flags,
                  e,
                  get_elem?-eq-get_or indegree i 0 inside,
                  set_elem?-eq-set indegree i (suc n) inside,
                )
                (run, left)
          | inr e ↦ rw (is_target_eq member i flags, e) (tally_eq successors indegree size)
        ]

    pub tally_all_eq :
        (nodes : List E) (indegree : List ℕ)
        → length indegree ≡ g.element_bound
        → tally_all g member nodes indegree ≡ some (tallied_all member nodes indegree)
    unfolding tally_all tallied_all Option.bind
    tally_all_eq [] indegree size = refl
    tally_all_eq (x ∷ nodes) indegree size =
        let (run, left) = tally_eq (g.element_successors x) indegree size in
        rw run (tally_all_eq nodes (tallied member (g.element_successors x) indegree) left)

  pub ready_eq :
      (indegree : List ℕ) (nodes : List E)
      → ((i : ℕ) → 0 < count g i nodes → i < length indegree)
      → ready g indegree nodes ≡ some (sources_of indegree nodes)
  unfolding ready sources_of Option.bind Option.map
  ready_eq indegree [] below = refl
  ready_eq indegree (x ∷ nodes) below =
      let i = g.element_index x in
      let inside = below i (ground (arith, ==_refl i)) in
      rw
        (
          get_elem?-eq-get_or indegree i 0 inside,
          ready_eq indegree nodes (λ j h. below j (omega arith)),
        )
        refl
