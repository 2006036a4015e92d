-- ===== src/Algo/Sssp/Visit.antt =====
-- crates/oxgraph-algo/src/sssp.rs: the loop over the successors of a node.
use oxgraph.Prelude.{
  ℕ, zero, suc, ◌+◌, ◌<◌, ◌≤◌, ◌≡◌, ◌∙◌, Bool, true, false, not, ◌&&◌, Bool-cases, inl, inr, List,
  [], ◌∷◌, ◌++◌, length, length-append, length-set, get_or, set, get_elem?-eq-get_or,
  set_elem?-eq-set, refl, some, ◌==◌, if◌then◌else◌, arith,
}
use oxgraph.Algo.Topology.{Topology, count}
use oxgraph.Algo.Toposort.Total.{is_member, is_target_eq}
use oxgraph.Algo.Toposort.Start.{get_or-set}
use mathlib.Core.Option
use oxgraph.Algo.Sssp.{Search, visit, visit_at, is_fresh}
use oxgraph.Algo.Sssp.Entries.{
  trues, trues-set, times, near, times-append, near-append, Ascending, Ascending-snoc,
}

module _ {E : Type 0} (g : Topology E) (listed : ℕ → Bool) (source : E) where
  -- A walk of `n` entries from the source, through listed elements.
  abbrev pub Reach : ℕ → E → Type 0
  Reach zero v = (g.element_index v ≡ g.element_index source) × (listed (g.element_index v) ≡ true)
  Reach (suc n) v =
      (u : E) × Reach n u
      × (0 < count g (g.element_index v) (g.element_successors u))
      × (listed (g.element_index v) ≡ true)

  abbrev pub AllReach : List (E × ℕ) → Type 0
  AllReach [] = Unit
  AllReach ((x, d) ∷ xs) = Reach d x × AllReach xs

  pub AllReach-snoc :
      (xs : List (E × ℕ)) (x : E) (d : ℕ) → AllReach xs → Reach d x → AllReach (xs ++ (x, d) ∷ [])
  AllReach-snoc [] x d a r = (r, tt)
  AllReach-snoc ((y, e) ∷ xs) x d (s, a) r = (s, AllReach-snoc xs x d a r)

module _ {E : Type 0} (g : Topology E) (member : List Bool) (source : E) (popped : List (E × ℕ))
    (u : E) (distance : ℕ) (found : Reach g (is_member g member) source distance u) where
  -- What holds before each successor; `popped` ends with the node.
  pub record IsVisit (s : Search E) : Type 0 where
    pub size : length s.visited ≡ g.element_bound
    pub accounted : length popped + length s.queue ≡ trues s.visited
    pub once :
        (i : ℕ) → times g i popped + times g i s.queue ≡ (if get_or s.visited i false then 1 else 0)
    pub reached : AllReach g (is_member g member) source s.queue
    pub rising : Ascending g distance (suc distance) s.queue

  abbrev queued : E → Search E → Search E
  queued x s = record {
    visited = set s.visited (g.element_index x) true;
    queue = s.queue ++ (x, suc distance) ∷ [];
  }

  queued-IsVisit :
      (x : E) (s : Search E)
      → IsVisit s
      → 0 < count g (g.element_index x) (g.element_successors u)
      → is_member g member (g.element_index x) ≡ true
      → get_or s.visited (g.element_index x) false ≡ false
      → IsVisit (queued x s)
  queued-IsVisit x s v entry target fresh =
      let size = v.size in
      let inside : g.element_index x < length s.visited = ground arith in
      record {
        size = length-set s.visited (g.element_index x) true ∙ v.size;
        accounted = omega (
          arith,
          v.accounted,
          length-append s.queue ((x, suc distance) ∷ []),
          trues-set s.visited (g.element_index x) inside fresh,
        );
        once = λ i. ground (
          arith,
          v.once i,
          times-append g i s.queue ((x, suc distance) ∷ []),
          get_or-set s.visited (g.element_index x) i true false inside,
        );
        reached =
            AllReach-snoc g (is_member g member) source s.queue x (suc distance) v.reached
              (u, found, entry, target);
        rising = Ascending-snoc g distance (suc distance) s.queue x (omega arith) v.rising;
      }

  -- What a run over the successors `xs` leaves.
  pub record Visited (xs : List E) (s t : Search E) : Type 0 where
    pub valid : IsVisit t
    pub kept : (i : ℕ) → get_or s.visited i false ≡ true → get_or t.visited i false ≡ true
    pub seen :
        (i : ℕ) → is_member g member i ≡ true → 0 < count g i xs → get_or t.visited i false ≡ true
    pub grown : (i k : ℕ) → near g i k s.queue ≤ near g i k t.queue

  -- The tests of one successor.
  is_fresh_eq :
      (visited : List Bool) (i : ℕ)
      → length member ≡ g.element_bound
      → length visited ≡ g.element_bound
      → is_fresh g member visited i ≡ some (is_member g member i && not (get_or visited i false))
  unfolding is_fresh Option.bind Option.map
  is_fresh_eq visited i flags size = elim (Bool-cases (is_member g member i)) [
    | inl e ↦
        rw (is_target_eq g member i flags, e, get_elem?-eq-get_or visited i false (ground arith))
          refl
    | inr e ↦ rw (is_target_eq g member i flags, e) refl
  ]

  old-Visited :
      (x : E) (xs : List E) (s t : Search E)
      → (is_member g member (g.element_index x) && not (get_or s.visited (g.element_index x) false))
        ≡ false
      → Visited xs s t
      → Visited (x ∷ xs) s t
  old-Visited x xs s t e v = record {
    valid = v.valid;
    kept = v.kept;
    seen = λ i t h. elim (Bool-cases (g.element_index x == i)) [
      | inl same ↦ v.kept i (ground arith)
      | inr other ↦ v.seen i t (ground arith)
    ];
    grown = v.grown;
  }

  -- The loop does not panic.
  pub visit-Visited :
      (xs : List E) (s : Search E)
      → length member ≡ g.element_bound
      → IsVisit s
      → ((i : ℕ) → 0 < count g i xs → 0 < count g i (g.element_successors u))
      → (t : Search E) × (visit g member distance xs s ≡ some t) × Visited xs s t
  unfolding visit visit_at Option.bind Option.map
  visit-Visited [] s flags v sub = (
    s,
    refl,
    record {
      valid = v;
      kept = λ i h. h;
      seen = λ i t h. absurd (omega arith);
      grown = λ i k. omega arith;
    },
  )
  visit-Visited (x ∷ xs) s flags v sub =
      let target = g.element_index x in
      let rest : (i : ℕ) → 0 < count g i xs → 0 < count g i (g.element_successors u) =
        λ i h. sub i (omega arith) in
      let tested = is_fresh_eq s.visited target flags v.size in
      elim (Bool-cases (is_member g member target && not (get_or s.visited target false))) [
        | inl e ↦
            let size = v.size in
            let inside : target < length s.visited = ground arith in
            let (t, run, ih) =
              visit-Visited xs (queued x s) flags
                (queued-IsVisit x s v (sub target (ground arith)) (ground arith) (ground arith))
                rest in
            (
              t,
              rw (tested, e, set_elem?-eq-set s.visited target true inside) run,
              record {
                valid = ih.valid;
                kept = λ i h.
                    ih.kept i (ground (arith, get_or-set s.visited target i true false inside));
                seen = λ i t h. elim (Bool-cases (target == i)) [
                  | inl same ↦
                      ih.kept i (ground (arith, get_or-set s.visited target i true false inside))
                  | inr other ↦ ih.seen i t (ground arith)
                ];
                grown = λ i k.
                    omega (arith, ih.grown i k, near-append g i k s.queue ((x, suc distance) ∷ []));
              },
            )
        | inr e ↦
            let (t, run, ih) = visit-Visited xs s flags v rest in
            (t, rw (tested, e) run, old-Visited x xs s t e ih)
      ]
