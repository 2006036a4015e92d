-- ===== src/Algo/LongestPath/Longest.antt =====
-- crates/oxgraph-algo/src/longest_path_dag.rs: what `longest_path_dag` returns.
use oxgraph.Prelude.{
  ℕ, zero, suc, ◌+◌, ◌<◌, ◌≤◌, ◌≡◌, refl, ap, sym, ◌∙◌, subst, true, inl, inr, none, some, List, [],
  ◌∷◌, ◌++◌, length, length-replicate, get_elem?, get_elem?-eq-get_or, replicate, ==_refl, arith,
  Result, ok, err,
}
use mathlib.Core.Option
use mathlib.Core.Option.{Option}
use oxgraph.Algo.Topology.{Topology, IsDense, count}
use oxgraph.Algo.Toposort.{ToposortError, topological_sort}
use oxgraph.Algo.Toposort.Start.{get_or-replicate}
use oxgraph.Algo.Toposort.Rounds.{Forward}
use oxgraph.Algo.Toposort.Cycle.{IsRank}
use oxgraph.Algo.Toposort.Order.{Sorted, ListsEach, topological_sort-Sorted}
use oxgraph.Algo.Sssp.Correct.{requested}
use oxgraph.Algo.LongestPath.{
  Chains, LongestPathError, dag_cycle, reverse, backtrack, longest_in, longest_path_dag,
}
use oxgraph.Algo.LongestPath.Pass.{Has, at, before, IsPassed, pass-IsPassed}

reverse-snoc : {E : Type 0} (xs : List E) (x : E) → reverse (xs ++ x ∷ []) ≡ x ∷ reverse xs
reverse-snoc [] x = refl
reverse-snoc (y ∷ xs) x = ap (λ zs. zs ++ y ∷ []) (reverse-snoc xs x)

module _ {E : Type 0} (g : Topology E) (elements : List E) where
  -- Requested elements, each with an entry to the next.
  abbrev pub Chain : List E → Type 0
  Chain [] = Unit
  Chain (x ∷ []) = requested g elements (g.element_index x) ≡ true
  Chain (x ∷ (y ∷ zs)) =
      (requested g elements (g.element_index x) ≡ true)
      × (0 < count g (g.element_index y) (g.element_successors x))
      × Chain (y ∷ zs)

  -- A chain that no chain exceeds, or the proof that the entries have a cycle.
  abbrev pub Longest : Option (Result LongestPathError (List E)) → Type 0
  Longest none = ⊥
  Longest (some (err error)) = (rank : E → ℕ) → ¬ IsRank g elements rank
  Longest (some (ok path)) =
      Chain path × ((other : List E) → Chain other → length other ≤ length path)

  Chain-head :
      (x : E) (xs : List E) → Chain (x ∷ xs) → requested g elements (g.element_index x) ≡ true
  Chain-head x [] c = c
  Chain-head x (y ∷ zs) c = c.0

  module _ (dense : IsDense g) (order : List E) (each : ListsEach g elements order)
      (sorted : Forward g order) where
    in_order : (x : E) → requested g elements (g.element_index x) ≡ true → Has g x order
    in_order x h = ground (arith, each (g.element_index x))

    ordered : (x : E) → Has g x order → requested g elements (g.element_index x) ≡ true
    ordered x h = ground (arith, each (g.element_index x))

    module _ (s : Chains E) (p : IsPassed g order s) where
      abbrev Back : ℕ → E → List E → List E → Type 0
      Back n v zs path =
          (out : List E) × (backtrack g (suc (suc n)) s.predecessor (some v) path ≡ some out)
          × Chain (reverse out)
          × (length (reverse out) ≡ suc n + length zs)

      -- The read of a requested element's predecessor does not panic.
      read_before :
          (v : E)
          → requested g elements (g.element_index v) ≡ true
          → get_elem? s.predecessor (g.element_index v) ≡ some (before g s v)
      read_before v listed =
          let size = p.sizes.1 in
          get_elem?-eq-get_or s.predecessor (g.element_index v) none (ground arith)

      -- The first element of the chain has no predecessor.
      Back-end :
          (n : ℕ) (v : E) (zs path : List E)
          → n ≡ 0
          → requested g elements (g.element_index v) ≡ true
          → before g s v ≡ none
          → reverse path ≡ zs
          → Chain (v ∷ zs)
          → Back n v zs path
      unfolding backtrack Option.bind
      Back-end n v zs path short listed ends same c =
          let out : reverse (path ++ v ∷ []) ≡ v ∷ zs =
            reverse-snoc path v ∙ ap (λ ws. v ∷ ws) same in
          (
            path ++ v ∷ [],
            rw (read_before v listed, ends) refl,
            subst Chain (sym out) c,
            omega (arith, ap length out),
          )

      -- The path back from an element has its length, and one more element.
      backtrack_lem :
          (n : ℕ) (v : E) (zs path : List E)
          → at g s v ≡ n
          → reverse path ≡ zs
          → Chain (v ∷ zs)
          → Back n v zs path
      unfolding backtrack Option.bind
      backtrack_lem zero v zs path long same c = elim (p.traced v) [
        | inl (ends, short) ↦ Back-end zero v zs path refl (Chain-head v zs c) ends same c
        | inr (u, found, hu, entry, longer) ↦ absurd (omega arith)
      ]
      backtrack_lem (suc n) v zs path long same c = elim (p.traced v) [
        | inl (ends, short) ↦ absurd (omega arith)
        | inr (u, found, hu, entry, longer) ↦
            let grown : reverse (path ++ v ∷ []) ≡ v ∷ zs =
              reverse-snoc path v ∙ ap (λ ws. v ∷ ws) same in
            let (out, run, chained, size) =
              backtrack_lem n u (v ∷ zs) (path ++ v ∷ []) (omega arith) grown
                (ordered u hu, entry, c) in
            (out, rw (read_before v (Chain-head v zs c), found) run, chained, omega (arith, size))
      ]

      Chain-le : (y : E) (ys : List E) → Chain (y ∷ ys) → length ys + at g s y ≤ s.best_length
      Chain-le y [] c = omega (arith, (p.most y (in_order y c)).0)
      Chain-le y (z ∷ ys) (at_y, entry, c) =
          let inside : g.element_index z < g.element_bound =
            let h = Chain-head z ys c in ground arith in
          omega (arith, Chain-le z ys c, p.upper y z (in_order y at_y) inside entry)

      none_longer : (other : List E) → Chain other → length other ≤ suc s.best_length
      none_longer [] c = omega arith
      none_longer (y ∷ ys) c = omega (arith, Chain-le y ys c)

      -- The best end has the longest chain.
      from_best :
          (w : E)
          → s.best_end ≡ some w
          → Has g w order
          → s.best_length ≡ at g s w
          → (out : List E) × (backtrack g (suc (suc s.best_length)) s.predecessor s.best_end []
              ≡ some out)
            × Chain (reverse out)
            × (length (reverse out) ≡ suc s.best_length)
      from_best w is_end hw long =
          let (out, run, chained, size) =
            backtrack_lem s.best_length w [] [] (sym long) refl (ordered w hw) in
          (
            out,
            ap (λ o. backtrack g (suc (suc s.best_length)) s.predecessor o []) is_end ∙ run,
            chained,
            omega (arith, size),
          )

    start : Chains E
    start = record {
      lengths = replicate g.element_bound 0;
      predecessor = replicate g.element_bound none;
      best_end = none;
      best_length = 0;
    }

    start-IsPassed : IsPassed g [] start
    unfolding start
    start-IsPassed = record {
      sizes = (length-replicate g.element_bound 0, length-replicate g.element_bound none);
      upper = λ u v h b entry. absurd (omega arith);
      traced = λ v. inl (
        get_or-replicate g.element_bound (g.element_index v) none,
        get_or-replicate g.element_bound (g.element_index v) 0,
      );
      best = inl (refl, refl);
      most = λ u h. absurd (omega arith);
    }

    longest_in-Longest :
        (x : E)
        → Has g x order
        → (path : List E) × (longest_in g order ≡ some path)
          × Chain path
          × ((other : List E) → Chain other → length other ≤ length path)
    unfolding longest_in start Option.map Option.bind
    longest_in-Longest x hx =
        let (s, ran, p) =
          pass-IsPassed g dense order [] start start-IsPassed sorted (λ i h. ground (arith, each i))
            (λ u v h hv. absurd (omega arith)) in
        elim p.best [
          | inl (no_end, no_length) ↦ absurd (let some_end = (p.most x hx).1 in cc)
          | inr (w, is_end, hw, long) ↦
              let (out, run, chained, size) = from_best s p w is_end hw long in
              (
                reverse out,
                rw (ran, run) refl,
                chained,
                λ other c. omega (arith, none_longer s p other c, size),
              )
        ]

  no-Chain : ListsEach g elements [] → (other : List E) → Chain other → length other ≤ 0
  no-Chain each [] c = omega arith
  no-Chain each (x ∷ xs) c =
      let listed = Chain-head x xs c in absurd (ground (arith, each (g.element_index x)))

  abbrev after_sort :
      Option (Result ToposortError (List E)) → Option (Result LongestPathError (List E))
  after_sort o = Option.bind o (λ sorted. elim sorted [
    | err error ↦ some (err dag_cycle)
    | ok order ↦ elim order [
      | [] ↦ some (ok [])
      | node ∷ rest ↦ Option.map ok (longest_in g (node ∷ rest))
    ]
  ])

  after_sort-Longest :
      IsDense g
      → (o : Option (Result ToposortError (List E))) → Sorted g elements o
      → Longest (after_sort o)
  unfolding Option.bind Option.map
  after_sort-Longest dense none h = elim h [ ]
  after_sort-Longest dense (some (err error)) h = h
  after_sort-Longest dense (some (ok [])) (each, sorted) = (tt, no-Chain each)
  after_sort-Longest dense (some (ok (x ∷ rest))) (each, sorted) =
      let (path, run, chained, longest) =
        longest_in-Longest dense (x ∷ rest) each sorted x
          (ground (arith, ==_refl (g.element_index x))) in
      rw run (chained, longest)

  -- `longest_path_dag` on a dense topology ends without a panic. A path it returns is a chain of
  -- requested elements within the bound, each with an entry to the next, and no such chain has more
  -- elements. Where it reports a cycle, no rank grows along every entry between the requested
  -- elements.
  pub longest_path_dag-Longest : IsDense g → Longest (longest_path_dag g elements)
  unfolding longest_path_dag
  longest_path_dag-Longest dense =
      after_sort-Longest dense (topological_sort g elements)
        (topological_sort-Sorted g elements dense)
