-- ===== src/Algo/Sssp/Rounds.antt =====
-- crates/oxgraph-algo/src/sssp.rs: the loop over the queue.
use oxgraph.Prelude.{
  ℕ, zero, suc, ◌+◌, ◌<◌, ◌≤◌, ◌≡◌, refl, Bool, true, false, some, List, [], ◌∷◌, ◌++◌, length,
  length-append, get_or, if◌then◌else◌, arith,
}
use oxgraph.Algo.Topology.{Topology, count}
use mathlib.Core.Option
use oxgraph.Algo.Toposort.Total.{is_member}
use oxgraph.Algo.Sssp.{Search, search}
use oxgraph.Algo.Sssp.Entries.{
  trues, trues_le, times, near, times-append, near-append, near_all, Ascending, Ascending-wider,
  Ascending-Under, Under, Under-snoc, Under-wider,
}
use oxgraph.Algo.Sssp.Visit.{AllReach, AllReach-snoc, IsVisit, Visited, visit-Visited}

module _ {E : Type 0} (g : Topology E) (member : List Bool) where
  -- The targets of the nodes at distance `d` are found up to `d + 1`; `found` counts the entries.
  abbrev pub AllClosed : (found : ℕ → ℕ → ℕ) → List (E × ℕ) → Type 0
  AllClosed found [] = Unit
  AllClosed found ((x, d) ∷ xs) =
      ((i : ℕ)
        → is_member g member i ≡ true
        → 0 < count g i (g.element_successors x)
        → 0 < found i (suc d))
      × AllClosed found xs

  AllClosed-snoc :
      (found more : ℕ → ℕ → ℕ) (xs : List (E × ℕ)) (x : E) (d : ℕ)
      → ((i k : ℕ) → found i k ≤ more i k)
      → AllClosed found xs
      → ((i : ℕ)
          → is_member g member i ≡ true
          → 0 < count g i (g.element_successors x)
          → 0 < more i (suc d))
      → AllClosed more (xs ++ (x, d) ∷ [])
  AllClosed-snoc found more [] x d le c own = (own, tt)
  AllClosed-snoc found more ((y, e) ∷ xs) x d le (c, cs) own = (
    (λ i t h. let l = le i (suc e) in let p = c i t h in omega arith),
    AllClosed-snoc found more xs x d le cs own,
  )

module _ {E : Type 0} (g : Topology E) (member : List Bool) (source : E) where
  abbrev both : List (E × ℕ) → List (E × ℕ) → ℕ → ℕ → ℕ
  both popped queue i k = near g i k popped + near g i k queue

  -- What holds before each round; `lo` is the distance of the node taken last.
  pub record IsSearch (lo : ℕ) (visited : List Bool) (queue popped : List (E × ℕ)) : Type 0 where
    pub size : length visited ≡ g.element_bound
    pub accounted : length popped + length queue ≡ trues visited
    pub once :
        (i : ℕ) → times g i popped + times g i queue ≡ (if get_or visited i false then 1 else 0)
    pub waiting : AllReach g (is_member g member) source queue
    pub reached : AllReach g (is_member g member) source popped
    pub rising : Ascending g lo (suc lo) queue
    pub under : Under g (suc lo) popped
    pub closed : AllClosed g member (both popped queue) popped
    pub origin : 0 < both popped queue (g.element_index source) 0

  module _ (lo : ℕ) (visited : List Bool) (u : E) (d : ℕ) (queue popped : List (E × ℕ))
      (r : IsSearch lo visited ((u, d) ∷ queue) popped) where
    abbrev taken : List (E × ℕ)
    taken = popped ++ (u, d) ∷ []

    taken-IsVisit :
        IsVisit g member source taken u d r.waiting.0 (record { visited = visited; queue = queue })
    taken-IsVisit =
        let low = r.rising.0 in
        record {
          size = r.size;
          accounted = omega (arith, r.accounted, length-append popped ((u, d) ∷ []));
          once = λ i. omega (arith, r.once i, times-append g i popped ((u, d) ∷ []));
          reached = r.waiting.1;
          rising = Ascending-wider g d (suc lo) (suc d) queue (omega arith) r.rising.2;
        }

    round-IsSearch :
        (t : Search E)
        → Visited g member source taken u d r.waiting.0
            (g.element_successors u)
            (record { visited = visited; queue = queue })
            t
        → IsSearch d t.visited t.queue taken
    round-IsSearch t w =
        let low = r.rising.0 in
        let v = w.valid in
        let more : (i k : ℕ) → both popped ((u, d) ∷ queue) i k ≤ both taken t.queue i k =
          λ i k. omega (arith, w.grown i k, near-append g i k popped ((u, d) ∷ [])) in
        let under_taken =
          Under-snoc g (suc d) d popped u
            (Under-wider g (suc lo) (suc d) popped (omega arith) r.under) (omega arith) in
        let own : (i : ℕ)
            → is_member g member i ≡ true
            → 0 < count g i (g.element_successors u)
            → 0 < both taken t.queue i (suc d) =
          λ i at h.
            let flagged = w.seen i at h in
            ground (
              arith,
              v.once i,
              near_all g i (suc d) taken under_taken,
              near_all g i (suc d) t.queue (Ascending-Under g d (suc d) t.queue v.rising),
            ) in
        record {
          size = v.size;
          accounted = v.accounted;
          once = v.once;
          waiting = v.reached;
          reached = AllReach-snoc g (is_member g member) source popped u d r.reached r.waiting.0;
          rising = v.rising;
          under = under_taken;
          closed =
              AllClosed-snoc g member (both popped ((u, d) ∷ queue)) (both taken t.queue) popped u d
                more r.closed own;
          origin = omega (arith, r.origin, more (g.element_index source) 0);
        }

  -- With a round for each index left, the loop ends with an empty queue.
  pub search_lem :
      (fuel lo : ℕ) (visited : List Bool) (queue popped : List (E × ℕ))
      → length member ≡ g.element_bound
      → IsSearch lo visited queue popped
      → g.element_bound < fuel + length popped
      → (last : ℕ) × (flags : List Bool) × (out : List (E × ℕ)) × (search g fuel member visited
            queue popped
          ≡ some out)
        × IsSearch last flags [] out
  unfolding search Option.bind
  search_lem zero lo visited queue popped flags r enough =
      absurd (omega (arith, r.accounted, r.size, trues_le visited))
  search_lem (suc fuel) lo visited [] popped flags r enough = (lo, visited, popped, refl, r)
  search_lem (suc fuel) lo visited ((u, d) ∷ queue) popped flags r enough =
      let s : Search E = record { visited = visited; queue = queue } in
      let (t, run, w) =
        visit-Visited g member source (taken lo visited u d queue popped r) u d r.waiting.0
          (g.element_successors u) s flags (taken-IsVisit lo visited u d queue popped r)
          (λ i h. h) in
      let (last, end, out, ends, searched) =
        search_lem fuel d t.visited t.queue (popped ++ (u, d) ∷ []) flags
          (round-IsSearch lo visited u d queue popped r t w)
          (omega (arith, length-append popped ((u, d) ∷ []))) in
      (last, end, out, rw run ends, searched)
