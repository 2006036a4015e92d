-- ===== src/Algo/Sssp/Shortest.antt =====
-- crates/oxgraph-algo/src/sssp.rs: what `shortest_path_lengths` returns.
use oxgraph.Prelude.{
  ℕ, zero, suc, ◌<◌, ◌≤◌, ◌≡◌, ap, sym, ◌∙◌, Bool, true, some, none, List, [], ◌∷◌, ==_refl, arith,
}
use mathlib.Core.Option.{Option}
use oxgraph.Algo.Topology.{Topology}
use oxgraph.Algo.Sssp.Entries.{times, near, near_le-times}
use oxgraph.Algo.Sssp.Visit.{Reach, AllReach}

module _ {E : Type 0} (g : Topology E) (listed : ℕ → Bool) (source : E) where
  -- Each element is reached at its distance, and by no shorter walk.
  abbrev pub AllShortest : List (E × ℕ) → Type 0
  AllShortest [] = Unit
  AllShortest ((v, d) ∷ xs) =
      Reach g listed source d v × ((n : ℕ) → Reach g listed source n v → d ≤ n) × AllShortest xs

  pub Reach-listed : (n : ℕ) (v : E) → Reach g listed source n v → listed (g.element_index v) ≡ true
  Reach-listed zero v r = r.1
  Reach-listed (suc n) v (u, r, entry, at) = at

  pub Reach-source :
      (n : ℕ) (v : E) → Reach g listed source n v → listed (g.element_index source) ≡ true
  Reach-source zero v (e, at) = ap listed (sym e) ∙ at
  Reach-source (suc n) v (u, r, entry, at) = Reach-source n u r

  pub all_shortest :
      (xs : List (E × ℕ))
      → AllReach g listed source xs
      → ((v : E) (n : ℕ)
          → 0 < times g (g.element_index v) xs
          → Reach g listed source n v
          → 0 < near g (g.element_index v) n xs)
      → ((i : ℕ) → times g i xs ≤ 1)
      → AllShortest xs
  all_shortest [] a found once = tt
  all_shortest ((x, d) ∷ xs) (r, a) found once =
      let i = g.element_index x in
      let own = ==_refl i in
      let single = once i in
      (
        r,
        (λ n walk.
            let p = found x n (ground arith) walk in
            let le = near_le-times g i n xs in ground arith),
        all_shortest xs a
            (λ v n h walk.
              let j = g.element_index v in
              let p = found v n (omega arith) walk in let most = once j in ground arith)
            (λ j. let most = once j in omega arith),
      )

-- The answer for a source: the shortest distance of each element that is reached, once.
abbrev pub Measured :
    {E : Type 0} → Topology E → (listed : ℕ → Bool) → (source : E) → Option (List (E × ℕ)) → Type 0
Measured g listed source none = ⊥
Measured g listed source (some distances) =
    AllShortest g listed source distances
    × ((n : ℕ) (v : _) → Reach g listed source n v → 0 < times g (g.element_index v) distances)
    × ((i : ℕ) → times g i distances ≤ 1)
