-- ===== src/Csr/Visits.antt =====
-- crates/oxgraph-csr/src/lib.rs: which words the loop of `for_each_out_target` shows its visitor.
use oxgraph.Prelude.{
  ℕ, zero, suc, ◌-◌, ◌≤◌, ◌<◌, ◌≡◌, refl, ap, Bool, Bool-cases, true, false, inl, inr, List, [],
  ◌∷◌, length, arith, take,
}
use oxgraph.Layout.Integrity.{◌!◌}
use oxgraph.Csr.{visit_loop}

-- The states of a visitor that goes through all the words.
abbrev pub visited {ℓ} : {S : Type ℓ} → (S → ℕ → S × Bool) → S → List ℕ → S
visited visit s [] = s
visited visit s (word ∷ words) = visited visit (visit s word).0 words

-- What the visitor answers at word `j`, after the words before it.
abbrev pub answer {ℓ} : {S : Type ℓ} → (S → ℕ → S × Bool) → S → List ℕ → ℕ → Bool
answer visit s words j = (visit (visited visit s (take j words)) (words ! j)).1

-- The visitor saw `seen` words from the front on, and no more: only its last answer can be `true`,
-- and the walk reports whether it was; a walk that was not stopped saw all the words.
pub record IsVisited {S : Type 0} (visit : S → ℕ → S × Bool) (s : S) (words : List ℕ)
    (end : S × Bool) : Type 0 where
  pub seen : ℕ
  pub within : seen ≤ length words
  pub state : end.0 ≡ visited visit s (take seen words)
  pub went_on : (j : ℕ) → suc j < seen → answer visit s words j ≡ false
  pub stopped : end.1 ≡ true → (j : ℕ) × (seen ≡ suc j) × (answer visit s words j ≡ true)
  pub passed :
      end.1 ≡ false → (seen ≡ length words) × ((j : ℕ) → j < seen → answer visit s words j ≡ false)

-- No word before `seen` stops the visitor, if the first does not and none of those after it.
went_on-cons :
    {S : Type 0} (visit : S → ℕ → S × Bool) (s : S) (word : ℕ) (words : List ℕ) (seen : ℕ)
    → (visit s word).1 ≡ false
    → ((j : ℕ) → j < seen → answer visit (visit s word).0 words j ≡ false)
    → (j : ℕ) → j < suc seen
    → answer visit s (word ∷ words) j ≡ false
went_on-cons visit s word words seen e after zero h = e
went_on-cons visit s word words seen e after (suc j) h = after j (omega arith)

pub visit_loop-IsVisited :
    {S : Type 0} (visit : S → ℕ → S × Bool) (s : S) (words : List ℕ)
    → IsVisited visit s words (visit_loop visit s words)
unfolding visit_loop
visit_loop-IsVisited visit s [] = record {
  seen = 0;
  within = omega arith;
  state = refl;
  went_on = λ j h. absurd (omega arith);
  stopped = λ e. absurd cc;
  passed = λ e. (refl, λ j h. absurd (omega arith));
}
visit_loop-IsVisited visit s (word ∷ words) = elim (Bool-cases ((visit s word).1)) [
  | inl e ↦ rw e (record {
    seen = 1;
    within = omega arith;
    state = refl;
    went_on = λ j h. absurd (omega arith);
    stopped = λ _. (0, refl, e);
    passed = λ n. absurd cc;
  })
  | inr e ↦
      let r = visit_loop-IsVisited visit (visit s word).0 words in
      rw e (record {
        seen = suc r.seen;
        within = omega (arith, r.within);
        state = r.state;
        went_on = λ j h.
            went_on-cons visit s word words (r.seen - 1) e (λ i lt. r.went_on i (omega arith)) j
              (omega arith);
        stopped = λ t. let (j, same, told) = r.stopped t in (suc j, ap suc same, told);
        passed = λ n.
            let (all, rest) = r.passed n in
            (ap suc all, went_on-cons visit s word words r.seen e rest);
      })
]
