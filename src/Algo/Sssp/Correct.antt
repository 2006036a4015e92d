-- ===== src/Algo/Sssp/Correct.antt =====
-- crates/oxgraph-algo/src/sssp.rs: `shortest_path_lengths` on any elements of a dense topology.
use oxgraph.Prelude.{
  ℕ, zero, suc, ◌+◌, ◌<◌, ◌≤◌, ◌≡◌, refl, ◌∙◌, subst, Bool, true, false, ◌&&◌, ◌||◌, Bool-cases,
  inl, inr, some, List, [], ◌∷◌, length, length-set, length-replicate, replicate, set, get_or,
  set_elem?-eq-set, leb, ltb, ◌==◌, arith,
}
use mathlib.Core.Option
use mathlib.Core.Path.{fun_ext}
use oxgraph.Algo.Topology.{Topology, IsDense, count}
use oxgraph.Algo.Toposort.Total.{is_member, is_target_eq}
use oxgraph.Algo.Toposort.Start.{get_or-set, get_or-replicate}
use oxgraph.Algo.Sssp.{mark, shortest_path_lengths}
use oxgraph.Algo.Sssp.Entries.{trues-set, trues-replicate, times, near, near_le-times, near_mono}
use oxgraph.Algo.Sssp.Visit.{Reach}
use oxgraph.Algo.Sssp.Rounds.{AllClosed, IsSearch, search_lem}
use oxgraph.Algo.Sssp.Shortest.{Measured, Reach-listed, Reach-source, all_shortest}

module _ {E : Type 0} (g : Topology E) where
  -- The elements that are asked for.
  abbrev pub requested : List E → ℕ → Bool
  requested elements i = ltb i g.element_bound && ltb 0 (count g i elements)

  -- The loop over the elements does not panic.
  mark_lem :
      (elements : List E) (member : List Bool)
      → length member ≡ g.element_bound
      → (flags : List Bool) × (mark g elements member ≡ some flags)
        × (length flags ≡ g.element_bound)
        × ((i : ℕ) → get_or flags i false ≡ (get_or member i false || requested elements i))
  unfolding mark Option.bind
  mark_lem [] member size = (member, refl, size, λ i. ground arith)
  mark_lem (x ∷ elements) member size =
      let index = g.element_index x in
      elim (Bool-cases (ltb index g.element_bound)) [
        | inl e ↦
            let (flags, run, flags_size, flagged) =
              mark_lem elements (set member index true) (length-set member index true ∙ size) in
            let inside : index < length member = ground arith in
            (
              flags,
              rw (e, set_elem?-eq-set member index true inside) run,
              flags_size,
              λ i. ground (arith, flagged i, get_or-set member index i true false inside),
            )
        | inr e ↦
            let (flags, run, flags_size, flagged) = mark_lem elements member size in
            (flags, rw e run, flags_size, λ i. ground (arith, flagged i))
      ]

  module _ (dense : IsDense g) (member : List Bool) (source : E) where
    -- A target of a node that is found is found one further.
    closed_near :
        (found : ℕ → ℕ → ℕ) (xs : List (E × ℕ)) (u : E) (n i : ℕ)
        → ((k m : ℕ) → k ≤ m → found i k ≤ found i m)
        → AllClosed g member found xs
        → 0 < near g (g.element_index u) n xs
        → g.element_index u < g.element_bound
        → is_member g member i ≡ true
        → 0 < count g i (g.element_successors u)
        → 0 < found i (suc n)
    closed_near found [] u n i mono c h inside at entry = absurd (omega arith)
    closed_near found ((x, d) ∷ xs) u n i mono (c, cs) h inside at entry =
        elim (Bool-cases (g.element_index x == g.element_index u && leb d n)) [
          | inl e ↦
              let same : u ≡ x = dense.distinct u x inside (ground arith) in
              let p =
                c i at (subst (λ (y : E). 0 < count g i (g.element_successors y)) same entry) in
              let further = mono (suc d) (suc n) (ground arith) in omega arith
          | inr e ↦ closed_near found xs u n i mono cs (ground arith) inside at entry
        ]

    module _ (lo : ℕ) (flags : List Bool) (out : List (E × ℕ))
        (r : IsSearch g member source lo flags [] out) where
      walk_near :
          (n : ℕ) (v : E)
          → Reach g (is_member g member) source n v
          → 0 < near g (g.element_index v) n out
      walk_near zero v (same, at) = rw same (omega (arith, r.origin))
      walk_near (suc n) v (u, walk, entry, at) =
          let inside : g.element_index u < g.element_bound =
            let l = Reach-listed g (is_member g member) source n u walk in ground arith in
          let p =
            closed_near (λ i k. near g i k out + near g i k []) out u n (g.element_index v)
              (λ k m le. omega (arith, near_mono g (g.element_index v) k m out le)) r.closed
              (walk_near n u walk) inside at entry in
          omega arith

      search-Measured : Measured g (is_member g member) source (some out)
      search-Measured =
          let single : (i : ℕ) → times g i out ≤ 1 = λ i. ground (arith, r.once i) in
          (
            all_shortest g (is_member g member) source out r.reached
                (λ v n h walk. walk_near n v walk) single,
            (λ n v walk.
                omega (arith, walk_near n v walk, near_le-times g (g.element_index v) n out)),
            single,
          )

  module _ (source : E) (elements : List E) (flags : List Bool)
      (ran : mark g elements (replicate g.element_bound false) ≡ some flags)
      (size : length flags ≡ g.element_bound)
      (flagged : (i : ℕ)
        → get_or flags i false
          ≡ (get_or (replicate g.element_bound false) i false || requested elements i)) where
    marked : (i : ℕ) → is_member g flags i ≡ requested elements i
    marked i = ground (arith, flagged i, get_or-replicate g.element_bound i false)

    first-IsSearch :
        is_member g flags (g.element_index source) ≡ true
        → IsSearch g flags source 0
            (set (replicate g.element_bound false) (g.element_index source) true)
            ((source, 0) ∷ [])
            []
    first-IsSearch at =
        let i = g.element_index source in
        let blank = replicate g.element_bound false in
        let size = length-replicate g.element_bound false in
        let inside : i < length blank = ground arith in
        let none_yet = λ (j : ℕ). get_or-replicate g.element_bound j false in
        record {
          size = length-set blank i true ∙ size;
          accounted =
              omega (arith, trues-set blank i inside (none_yet i), trues-replicate g.element_bound);
          once = λ j. ground (arith, none_yet j, get_or-set blank i j true false inside);
          waiting = ((refl, at), tt);
          reached = tt;
          rising = (omega arith, omega arith, tt);
          under = tt;
          closed = tt;
          origin = ground arith;
        }

    lengths-Measured :
        IsDense g → Measured g (is_member g flags) source (shortest_path_lengths g source elements)
    unfolding shortest_path_lengths Option.bind
    lengths-Measured dense =
        let i = g.element_index source in
        let listed = is_target_eq g flags i size in
        elim (Bool-cases (is_member g flags i)) [
          | inl at ↦
              let blank_size = length-replicate g.element_bound false in
              let inside : i < length (replicate g.element_bound false) = ground arith in
              let (lo, seen, out, same, r) =
                search_lem g flags source (suc g.element_bound) 0
                  (set (replicate g.element_bound false) i true) ((source, 0) ∷ []) [] size
                  (first-IsSearch at) (omega arith) in
              rw
                (
                  ran,
                  listed,
                  at,
                  set_elem?-eq-set (replicate g.element_bound false) i true inside,
                  same,
                )
                (search-Measured dense flags source lo seen out r)
          | inr off ↦
              rw (ran, listed, off)
                (
                  tt,
                  (λ n v walk.
                      absurd (let on = Reach-source g (is_member g flags) source n v walk in cc)),
                  λ i. omega arith,
                )
        ]

  -- `shortest_path_lengths` on a dense topology ends without a panic, and returns each requested element that is
  -- reached from the source through requested elements, once, with the number of entries on the
  -- shortest such walk. For a source that is not requested it returns nothing, as no element is
  -- then reached.
  pub shortest_path_lengths-Measured :
      (source : E) (elements : List E)
      → IsDense g
      → Measured g (requested elements) source (shortest_path_lengths g source elements)
  shortest_path_lengths-Measured source elements dense =
      let (flags, ran, size, flagged) =
        mark_lem elements (replicate g.element_bound false)
          (length-replicate g.element_bound false) in
      subst (λ f. Measured g f source (shortest_path_lengths g source elements))
        (fun_ext (marked source elements flags ran size flagged))
        (lengths-Measured source elements flags ran size flagged dense)
