-- ===== src/Algo/Topology/Counting.antt =====
-- crates/oxgraph-topology/src/lib.rs: lists of elements, counted by their dense index.
use oxgraph.Prelude.{
  ℕ, suc, ◌+◌, ◌<◌, ◌≤◌, ◌≡◌, refl, ap, sym, ◌∙◌, ◌==◌, ==_refl, ==_iff, Bool-cases, inl, inr, List,
  [], ◌∷◌, ◌++◌, length, if◌then◌else◌, arith,
}
use oxgraph.Algo.Topology.{Topology, IsDense, count, entries}

module _ {E : Type 0} (g : Topology E) where
  pub count-append : (i : ℕ) (xs ys : List E) → count g i (xs ++ ys) ≡ count g i xs + count g i ys
  count-append i [] ys = omega arith
  count-append i (x ∷ xs) ys = omega (arith, count-append i xs ys)

  pub entries-append :
      (i : ℕ) (xs ys : List E) → entries g i (xs ++ ys) ≡ entries g i xs + entries g i ys
  entries-append i [] ys = omega arith
  entries-append i (x ∷ xs) ys = omega (arith, entries-append i xs ys)

  -- The list without one element of index `i`.
  pub record Without (i : ℕ) (xs : List E) : Type 0 where
    pub taken : E
    pub rest : List E
    pub index_of : g.element_index taken ≡ i
    pub same_count : (j : ℕ) → count g j xs ≡ count g j (taken ∷ rest)
    pub same_entries : (j : ℕ) → entries g j xs ≡ entries g j (taken ∷ rest)
    pub same_length : length xs ≡ suc (length rest)

  pub without : (i : ℕ) (xs : List E) → 0 < count g i xs → Without i xs
  without i [] h = absurd (omega arith)
  without i (x ∷ xs) h = elim (Bool-cases (g.element_index x == i)) [
    | inl e ↦ record {
      taken = x;
      rest = xs;
      index_of = (==_iff (g.element_index x) i).0 e;
      same_count = λ j. refl;
      same_entries = λ j. refl;
      same_length = refl;
    }
    | inr e ↦
        let w = without i xs (ground arith) in
        record {
          taken = w.taken;
          rest = x ∷ w.rest;
          index_of = w.index_of;
          same_count = λ j. omega (arith, w.same_count j);
          same_entries = λ j. omega (arith, w.same_entries j);
          same_length = ap suc w.same_length;
        }
  ]

  module _ (dense : IsDense g) where
    -- A list that another counts no less of has no more entries, and is no longer.
    pub entries_le :
        (i : ℕ) (xs ys : List E)
        → ((j : ℕ) → count g j xs ≤ count g j ys)
        → ((j : ℕ) → 0 < count g j xs → j < g.element_bound)
        → (entries g i xs ≤ entries g i ys) × (length xs ≤ length ys)
    entries_le i [] ys le below = (omega arith, omega arith)
    entries_le i (x ∷ xs) ys le below =
        let at = le (g.element_index x) in
        let own = ==_refl (g.element_index x) in
        let here : 0 < count g (g.element_index x) ys = ground arith in
        let w = without (g.element_index x) ys here in
        let inside : g.element_index x < g.element_bound =
          below (g.element_index x) (ground arith) in
        let same : x ≡ w.taken = dense.distinct x w.taken inside (sym w.index_of) in
        let ih =
          entries_le i xs w.rest
            (λ j.
              let c : count g j ys ≡ (if g.element_index x == j then 1 else 0) + count g j w.rest =
                w.same_count j
                ∙ ap (λ (n : ℕ). (if n == j then 1 else 0) + count g j w.rest) w.index_of in
              omega (arith, le j))
            (λ j h. below j (omega arith)) in
        let less = ih.0 in
        let shorter = ih.1 in
        let counted : count g i (g.element_successors x)
            ≡ count g i (g.element_successors w.taken) =
          ap (λ (y : E). count g i (g.element_successors y)) same in
        (omega (arith, w.same_entries i), omega (arith, w.same_length))
