-- ===== src/Algo/LongestPath/Pass.antt =====
-- crates/oxgraph-algo/src/longest_path_dag.rs: the pass over the order.
use oxgraph.Prelude.{
  ℕ, suc, ◌<◌, ◌≤◌, ◌≡◌, ◌⊎◌, refl, ap, sym, ◌∙◌, subst, false, ◌||◌, Bool-cases, inl, inr, none,
  some, List, [], ◌∷◌, ◌++◌, append_assoc, append-nil, length, get_or, get_elem?-eq-get_or, ltb,
  ◌==◌, ==_refl, arith,
}
use mathlib.Core.Option
use mathlib.Core.Option.{Option}
use oxgraph.Algo.Topology.{Topology, IsDense, count}
use oxgraph.Algo.Topology.Counting.{count-append}
use oxgraph.Algo.Toposort.Rounds.{Forward}
use oxgraph.Algo.LongestPath.{Chains, improve, pass, is_none}
use oxgraph.Algo.LongestPath.Relax.{IsSized, Relaxed, relax-Relaxed}

module _ {E : Type 0} (g : Topology E) where
  abbrev pub Has : E → List E → Type 0
  Has u xs = 0 < count g (g.element_index u) xs

  abbrev pub at : Chains E → E → ℕ
  at s u = get_or s.lengths (g.element_index u) 0

  abbrev pub before : Chains E → E → Option E
  before s u = get_or s.predecessor (g.element_index u) none

  -- What holds once the nodes `done` are passed.
  pub record IsPassed (done : List E) (s : Chains E) : Type 0 where
    pub sizes : (length s.lengths ≡ g.element_bound) × (length s.predecessor ≡ g.element_bound)
    pub upper :
        (u v : E)
        → Has u done
        → g.element_index v < g.element_bound
        → 0 < count g (g.element_index v) (g.element_successors u)
        → suc (at s u) ≤ at s v
    pub traced :
        (v : E)
        → ((before s v ≡ none) × (at s v ≡ 0))
          ⊎ ((u : E) × (before s v ≡ some u)
              × Has u done
              × (0 < count g (g.element_index v) (g.element_successors u))
              × (at s v ≡ suc (at s u)))
    pub best :
        ((s.best_end ≡ none) × (s.best_length ≡ 0))
        ⊎ ((w : E) × (s.best_end ≡ some w) × Has w done × (s.best_length ≡ at s w))
    pub most : (u : E) → Has u done → (at s u ≤ s.best_length) × (is_none s.best_end ≡ false)

  -- `improve` changes the best only, and to the better of two.
  pub record Improved (x : E) (s t : Chains E) : Type 0 where
    pub lengths_kept : t.lengths ≡ s.lengths
    pub predecessor_kept : t.predecessor ≡ s.predecessor
    pub chosen :
        ((t.best_end ≡ some x) × (t.best_length ≡ at s x))
        ⊎ ((t.best_end ≡ s.best_end) × (t.best_length ≡ s.best_length))
    pub ended : is_none t.best_end ≡ false
    pub higher : (at s x ≤ t.best_length)
    pub no_lower : is_none s.best_end ≡ false → s.best_length ≤ t.best_length

  improve-Improved : (x : E) (s : Chains E) → Improved x s (improve g x (at s x) s)
  unfolding improve
  improve-Improved x s = elim (Bool-cases (is_none s.best_end || ltb s.best_length (at s x))) [
    | inl e ↦ rw e (record {
      lengths_kept = refl;
      predecessor_kept = refl;
      chosen = inl (refl, refl);
      ended = refl;
      higher = omega arith;
      no_lower = λ h. ground arith;
    })
    | inr e ↦ rw e (record {
      lengths_kept = refl;
      predecessor_kept = refl;
      chosen = inr (refl, refl);
      ended = ground arith;
      higher = ground arith;
      no_lower = λ h. omega arith;
    })
  ]

  Has-split :
      IsDense g
      → (done : List E) (x u : E) → g.element_index x < g.element_bound
      → Has u (done ++ x ∷ [])
      → Has u done ⊎ (x ≡ u)
  Has-split dense done x u inside h = elim (Bool-cases (g.element_index x == g.element_index u)) [
    | inl e ↦ inr (dense.distinct x u inside (ground arith))
    | inr e ↦ inl (ground (arith, count-append g (g.element_index u) done (x ∷ [])))
  ]

  module _ (dense : IsDense g) (done : List E) (x : E) (s : Chains E) (p : IsPassed done s)
      (inside : g.element_index x < g.element_bound)
      (apart : (u : E)
        → Has u (done ++ x ∷ [])
        → count g (g.element_index u) (g.element_successors x) ≡ 0)
      (t r : Chains E) (i : Improved x s t)
      (q : Relaxed g x (at s x) (g.element_successors x) t r) where
    -- The chains of what is passed stay.
    stays : (u : E) → Has u (done ++ x ∷ []) → at r u ≡ at s u
    stays u h = elim (q.traced (g.element_index u)) [
      | inl (a, b) ↦ a ∙ ap (λ lengths. get_or lengths (g.element_index u) 0) i.lengths_kept
      | inr (a, b, c) ↦ absurd (omega (arith, apart u h))
    ]

    own-Has : Has x (done ++ x ∷ [])
    own-Has =
        ground
          (arith, count-append g (g.element_index x) done (x ∷ []), ==_refl (g.element_index x))

    old-Has : (u : E) → Has u done → Has u (done ++ x ∷ [])
    old-Has u h = omega (arith, count-append g (g.element_index u) done (x ∷ []))

    lengths_before : (v : E) → at t v ≡ at s v
    lengths_before v = ap (λ lengths. get_or lengths (g.element_index v) 0) i.lengths_kept

    upper_after :
        (u v : E)
        → Has u (done ++ x ∷ [])
        → g.element_index v < g.element_bound
        → 0 < count g (g.element_index v) (g.element_successors u)
        → suc (at r u) ≤ at r v
    upper_after u v h b entry = elim (Has-split dense done x u inside h) [
      | inl old ↦
          omega (
            arith,
            p.upper u v old b entry,
            stays u h,
            q.grown (g.element_index v),
            lengths_before v,
          )
      | inr e ↦
          let from_x : 0 < count g (g.element_index v) (g.element_successors x) =
            subst (λ (y : E). 0 < count g (g.element_index v) (g.element_successors y)) (sym e)
              entry in
          omega (arith, q.raised (g.element_index v) b from_x, stays u h, ap (at s) e)
    ]

    traced_after :
        (v : E)
        → ((before r v ≡ none) × (at r v ≡ 0))
          ⊎ ((u : E) × (before r v ≡ some u)
              × Has u (done ++ x ∷ [])
              × (0 < count g (g.element_index v) (g.element_successors u))
              × (at r v ≡ suc (at r u)))
    traced_after v = elim (q.traced (g.element_index v)) [
      | inl (a, b) ↦
          let kept : before r v ≡ before s v =
            b
            ∙ ap (λ predecessor. get_or predecessor (g.element_index v) none) i.predecessor_kept in
          elim (p.traced v) [
            | inl (empty, zero_long) ↦ inl (kept ∙ empty, a ∙ lengths_before v ∙ zero_long)
            | inr (u, found, hu, entry, long) ↦ inr (
              u,
              kept ∙ found,
              old-Has u hu,
              entry,
              a ∙ lengths_before v ∙ long ∙ ap suc (sym (stays u (old-Has u hu))),
            )
          ]
      | inr (a, b, c) ↦ inr (x, b, own-Has, c, a ∙ ap suc (sym (stays x own-Has)))
    ]

    best_after :
        ((r.best_end ≡ none) × (r.best_length ≡ 0))
        ⊎ ((w : E) × (r.best_end ≡ some w) × Has w (done ++ x ∷ []) × (r.best_length ≡ at r w))
    best_after = elim i.chosen [
      | inl (e, l) ↦ inr (x, q.end_kept ∙ e, own-Has, q.best_kept ∙ l ∙ sym (stays x own-Has))
      | inr (e, l) ↦ elim p.best [
        | inl (no_end, no_length) ↦ inl (q.end_kept ∙ e ∙ no_end, q.best_kept ∙ l ∙ no_length)
        | inr (w, is_end, hw, long) ↦ inr (
          w,
          q.end_kept ∙ e ∙ is_end,
          old-Has w hw,
          q.best_kept ∙ l ∙ long ∙ sym (stays w (old-Has w hw)),
        )
      ]
    ]

    most_after :
        (u : E) → Has u (done ++ x ∷ []) → (at r u ≤ r.best_length) × (is_none r.best_end ≡ false)
    most_after u h =
        let ended : is_none r.best_end ≡ false = ap is_none q.end_kept ∙ i.ended in
        (
          elim (Has-split dense done x u inside h) [
            | inl old ↦
                let (high, some_end) = p.most u old in
                omega (arith, i.no_lower some_end, stays u h, q.best_kept)
            | inr e ↦ omega (arith, i.higher, stays u h, q.best_kept, ap (at s) e)
          ],
          ended,
        )

    step-IsPassed : IsPassed (done ++ x ∷ []) r
    step-IsPassed = record {
      sizes = (q.sized.lengths_size, q.sized.predecessor_size);
      upper = λ u v h b entry. upper_after u v h b entry;
      traced = λ v. traced_after v;
      best = best_after;
      most = λ u h. most_after u h;
    }

  -- The pass over an order with no entry back; it does not panic.
  pub pass-IsPassed :
      IsDense g
      → (order done : List E) (s : Chains E) → IsPassed done s
      → Forward g order
      → ((i : ℕ) → 0 < count g i order → i < g.element_bound)
      → ((u v : E)
          → Has u done
          → Has v order
          → count g (g.element_index u) (g.element_successors v) ≡ 0)
      → (t : Chains E) × (pass g order s ≡ some t) × IsPassed (done ++ order) t
  unfolding pass Option.bind
  pass-IsPassed dense [] done s p f below apart = (s, refl, rw (append-nil done) p)
  pass-IsPassed dense (x ∷ order) done s p f below apart =
      let own : Has x (x ∷ order) = ground (arith, ==_refl (g.element_index x)) in
      let inside = below (g.element_index x) own in
      let chosen = improve-Improved x s in
      let t = improve g x (at s x) s in
      let sized : IsSized g x (at s x) t = record {
        lengths_size = ap length chosen.lengths_kept ∙ p.sizes.0;
        predecessor_size = ap length chosen.predecessor_kept ∙ p.sizes.1;
      } in
      let none_to : (v : E)
          → Has v (x ∷ order)
          → (u : E) → x ≡ u
          → count g (g.element_index u) (g.element_successors v) ≡ 0 =
        λ v h u e.
          subst (λ (y : E). count g (g.element_index y) (g.element_successors v) ≡ 0) e (f.0 v h) in
      let apart_x : (u : E)
          → Has u (done ++ x ∷ [])
          → count g (g.element_index u) (g.element_successors x) ≡ 0 =
        λ u h. elim (Has-split dense done x u inside h) [
          | inl old ↦ apart u x old own
          | inr e ↦ none_to x own u e
        ] in
      let later : (u v : E)
          → Has u (done ++ x ∷ [])
          → Has v order
          → count g (g.element_index u) (g.element_successors v) ≡ 0 =
        λ u v h hv. elim (Has-split dense done x u inside h) [
          | inl old ↦ apart u v old (omega arith)
          | inr e ↦ none_to v (omega arith) u e
        ] in
      let (r, relaxed, q) = relax-Relaxed g x (at s x) (g.element_successors x) t sized in
      let taken = step-IsPassed dense done x s p inside apart_x t r chosen q in
      let (end, run, passed) =
        pass-IsPassed dense order (done ++ x ∷ []) r taken f.1 (λ i h. below i (omega arith))
          later in
      let size = p.sizes.0 in
      (
        end,
        rw (get_elem?-eq-get_or s.lengths (g.element_index x) 0 (omega arith), relaxed) run,
        rw⁻¹ (append_assoc done (x ∷ []) order) passed,
      )
