-- ===== src/Algo/Toposort/Start.antt =====
-- crates/oxgraph-algo/src/toposort.rs: the nodes, the indegrees and the queue before the main loop.
use oxgraph.Prelude.{
  ℕ, zero, suc, ◌+◌, ◌<◌, ◌≡◌, refl, ◌∙◌, Bool, true, false, not, ◌&&◌, Bool-cases, inl, inr, List,
  [], ◌∷◌, ◌++◌, length, get_or, set, length-set, ltb, ◌==◌, if◌then◌else◌, arith, append-nil,
  append_assoc, replicate, length-replicate,
}
use oxgraph.Algo.Topology.{Topology, count, entries}
use oxgraph.Algo.Topology.Counting.{count-append}
use oxgraph.Algo.Toposort.Total.{collected, is_member, tallied, tallied_all, sources_of}

pub get_or-set :
    {A : Type 0} (xs : List A) (i j : ℕ) (v d : A)
    → i < length xs
    → get_or (set xs i v) j d ≡ (if i == j then v else get_or xs j d)
get_or-set [] i j v d h = absurd (omega arith)
get_or-set (x ∷ xs) zero zero v d h = refl
get_or-set (x ∷ xs) zero (suc j) v d h = ground arith
get_or-set (x ∷ xs) (suc i) zero v d h = ground arith
get_or-set (x ∷ xs) (suc i) (suc j) v d h = get_or-set xs i j v d (omega arith) ∙ ground arith

pub get_or-replicate : {A : Type 0} (n i : ℕ) (d : A) → get_or (replicate n d) i d ≡ d
get_or-replicate zero i d = refl
get_or-replicate (suc n) zero d = refl
get_or-replicate (suc n) (suc i) d = get_or-replicate n i d

module _ {E : Type 0} (g : Topology E) where
  -- The flags and the nodes once some elements are taken.
  pub record IsCollected (taken : List E) (member : List Bool) (nodes : List E) : Type 0 where
    pub size : length member ≡ g.element_bound
    pub flagged : (i : ℕ) → count g i nodes ≡ (if get_or member i false then 1 else 0)
    pub listed :
        (i : ℕ) → get_or member i false ≡ (ltb i g.element_bound && ltb 0 (count g i taken))

  collect_step :
      (taken : List E) (member : List Bool) (nodes : List E) (x : E)
      → IsCollected taken member nodes
      → (fresh : Bool)
      → fresh
        ≡ (ltb (g.element_index x) g.element_bound && not (get_or member (g.element_index x) false))
      → IsCollected
          (taken ++ x ∷ [])
          (if fresh then set member (g.element_index x) true else member)
          (if fresh then nodes ++ x ∷ [] else nodes)
  collect_step taken member nodes x c true e =
      let inside : g.element_index x < length member = let size = c.size in ground arith in
      record {
        size = length-set member (g.element_index x) true ∙ c.size;
        flagged = λ i. ground (
          arith,
          get_or-set member (g.element_index x) i true false inside,
          c.flagged i,
          c.listed i,
          count-append g i nodes (x ∷ []),
        );
        listed = λ i. ground (
          arith,
          get_or-set member (g.element_index x) i true false inside,
          c.listed i,
          count-append g i taken (x ∷ []),
        );
      }
  collect_step taken member nodes x c false e = record {
    size = c.size;
    flagged = c.flagged;
    listed = λ i.
        ground (arith, c.listed i, c.listed (g.element_index x), count-append g i taken (x ∷ []));
  }

  collect_from :
      (elements taken : List E) (member : List Bool) (nodes : List E)
      → IsCollected taken member nodes
      → IsCollected
          (taken ++ elements)
          (collected g elements member nodes).0
          (collected g elements member nodes).1
  unfolding collected
  collect_from [] taken member nodes c = rw (append-nil taken) c
  collect_from (x ∷ elements) taken member nodes c =
      let fresh =
        ltb (g.element_index x) g.element_bound && not (get_or member (g.element_index x) false) in
      rw⁻¹ (append_assoc taken (x ∷ []) elements) (
        collect_from elements (taken ++ x ∷ [])
          (if fresh then set member (g.element_index x) true else member)
          (if fresh then nodes ++ x ∷ [] else nodes)
          (collect_step taken member nodes x c fresh refl))

  pub collected-IsCollected :
      (elements : List E)
      → IsCollected elements
          (collected g elements (replicate g.element_bound false) []).0
          (collected g elements (replicate g.element_bound false) []).1
  collected-IsCollected elements =
      let none_yet = λ (i : ℕ). get_or-replicate g.element_bound i false in
      collect_from elements [] (replicate g.element_bound false) [] (record {
        size = length-replicate g.element_bound false;
        flagged = λ i. rw (none_yet i) refl;
        listed = λ i. ground (arith, none_yet i);
      })

  module _ (member : List Bool) where
    -- A successor that counts adds one to its target.
    tally_lem :
        (successors : List E) (indegree : List ℕ)
        → length indegree ≡ g.element_bound
        → (length (tallied g member successors indegree) ≡ g.element_bound)
          × ((i : ℕ)
              → is_member g member i ≡ true
              → get_or (tallied g member successors indegree) i 0
                ≡ get_or indegree i 0 + count g i successors)
    unfolding tallied
    tally_lem [] indegree size = (size, λ i h. omega arith)
    tally_lem (x ∷ successors) indegree size =
        let target = g.element_index x in
        let added = set indegree target (suc (get_or indegree target 0)) in
        elim (Bool-cases (is_member g member target)) [
          | inl e ↦
              let ih =
                tally_lem successors added
                  (length-set indegree target (suc (get_or indegree target 0)) ∙ size) in
              let inside : target < length indegree = ground arith in
              rw e (
                ih.0,
                λ i h. ground (
                  arith,
                  ih.1 i h,
                  get_or-set indegree target i (suc (get_or indegree target 0)) 0 inside,
                ),
              )
          | inr e ↦
              let ih = tally_lem successors indegree size in
              rw e (ih.0, λ i h. ground (arith, ih.1 i h))
        ]

    pub tally_all_lem :
        (nodes : List E) (indegree : List ℕ)
        → length indegree ≡ g.element_bound
        → (length (tallied_all g member nodes indegree) ≡ g.element_bound)
          × ((i : ℕ)
              → is_member g member i ≡ true
              → get_or (tallied_all g member nodes indegree) i 0
                ≡ get_or indegree i 0 + entries g i nodes)
    unfolding tallied_all
    tally_all_lem [] indegree size = (size, λ i h. omega arith)
    tally_all_lem (x ∷ nodes) indegree size =
        let one = tally_lem (g.element_successors x) indegree size in
        let ih = tally_all_lem nodes (tallied g member (g.element_successors x) indegree) one.0 in
        (ih.0, λ i h. omega (arith, ih.1 i h, one.1 i h))

  pub count-sources_of :
      (indegree : List ℕ) (i : ℕ) (nodes : List E)
      → count g i (sources_of g indegree nodes)
        ≡ (if get_or indegree i 0 == 0 then count g i nodes else 0)
  unfolding sources_of
  count-sources_of indegree i [] = ground arith
  count-sources_of indegree i (x ∷ nodes) = ground (arith, count-sources_of indegree i nodes)
