-- ===== src/Db/Index/Postings.antt =====
-- crates/oxgraph-db/src/index.rs: what the postings hold, as functions of the key and the member.
use oxgraph.Prelude.{
  ◌≡◌, refl, inl, inr, Bool, true, false, not, ◌&&◌, ◌||◌, Bool-cases, Option, Option-cases, List,
  [], ◌∷◌, arith,
}
use oxgraph.Db.Map.{Ord, Map, get, set_insert}
use oxgraph.Db.Map.Laws.{update, get-insert, get-remove}
use oxgraph.Db.Index.{
  set_contains, set_remove, set_extend, set_remove_all, members_of, merge_posting, or_removed,
  remove_posting, add_posting,
}

module _ {M : Type 0} ⦃m : Ord M⦄ where
  contains_empty : (x : M) → set_contains x [] ≡ false
  unfolding set_contains
  contains_empty x = refl

  set_contains-set_insert :
      (x q : M) (s : List M)
      → set_contains q (set_insert x s) ≡ update x true (λ q. set_contains q s) q
  unfolding set_contains set_insert update
  set_contains-set_insert x q [] = ground arith
  set_contains-set_insert x q (y ∷ ys) = ground (
    arith,
    set_contains-set_insert x q ys,
    m.eq_of_cmp q x,
    m.eq_of_cmp x y,
    m.eq_of_cmp q y,
    m.cmp_refl,
  )

  set_contains-set_remove :
      (x q : M) (s : List M)
      → set_contains q (set_remove x s) ≡ update x false (λ q. set_contains q s) q
  unfolding set_contains set_remove update
  set_contains-set_remove x q [] = ground arith
  set_contains-set_remove x q (y ∷ ys) = ground (
    arith,
    set_contains-set_remove x q ys,
    m.eq_of_cmp q x,
    m.eq_of_cmp x y,
    m.eq_of_cmp q y,
    m.cmp_refl,
  )

  set_contains-set_extend :
      (q : M) (xs s : List M)
      → set_contains q (set_extend xs s) ≡ (set_contains q xs || set_contains q s)
  unfolding set_contains set_extend update
  set_contains-set_extend q [] s = refl
  set_contains-set_extend q (x ∷ xs) s =
      ground (arith, set_contains-set_extend q xs (set_insert x s), set_contains-set_insert x q s)

  set_contains-set_remove_all :
      (q : M) (xs s : List M)
      → set_contains q (set_remove_all xs s) ≡ (set_contains q s && not (set_contains q xs))
  unfolding set_contains set_remove_all update
  set_contains-set_remove_all q [] s = ground arith
  set_contains-set_remove_all q (x ∷ xs) s =
      ground
        (arith, set_contains-set_remove_all q xs (set_remove x s), set_contains-set_remove x q s)

  -- A member is of the base or added, and not removed.
  pub set_contains-merge_posting :
      (q : M) (base added removed : Option (List M))
      → set_contains q (merge_posting base added removed) ≡ (
          (set_contains q (members_of base) || set_contains q (members_of added))
          && not (set_contains q (members_of removed)))
  unfolding merge_posting set_contains
  set_contains-merge_posting q base added removed =
      let kept = set_extend (members_of base) [] in
      ground (
        arith,
        set_contains-set_remove_all q (members_of removed) (set_extend (members_of added) kept),
        set_contains-set_extend q (members_of added) kept,
        set_contains-set_extend q (members_of base) [],
      )

module _ {K M : Type 0} ⦃k : Ord K⦄ ⦃m : Ord M⦄ where
  abbrev pub posted : Map K (List M) → K → M → Bool
  posted map key member = set_contains member (members_of (get key map))

  pub posted-add_posting :
      (map : Map K (List M)) (key : K) (member : M) (q : K) (x : M)
      → posted (add_posting map key member) q x
        ≡ update key (update member true (posted map key) x) (λ q. posted map q x) q
  unfolding add_posting update
  posted-add_posting map key member q x =
      let there = members_of (get key map) in
      ground (
        arith,
        get-insert key q (set_insert member there) map,
        set_contains-set_insert member x there,
      )

  posted-or_removed :
      (rest : List M) (map : Map K (List M)) (key q : K) (x : M)
      → posted (or_removed key rest map) q x
        ≡ update key (set_contains x rest) (λ q. posted map q x) q
  unfolding update
  posted-or_removed [] map key q x = ground (arith, get-remove key q map, contains_empty x)
  posted-or_removed (y ∷ rest) map key q x = ground (arith, get-insert key q (y ∷ rest) map)

  pub posted-remove_posting :
      (map : Map K (List M)) (key : K) (member : M) (q : K) (x : M)
      → posted (remove_posting map key member) q x
        ≡ update key (update member false (posted map key) x) (λ q. posted map q x) q
  unfolding remove_posting update
  posted-remove_posting map key member q x = elim (Option-cases (get key map)) [
    | inl e ↦ rw (remove_posting, e) (ground (arith, e, k.eq_of_cmp q key, contains_empty x))
    | inr (there, e) ↦ elim (Bool-cases (set_contains member there)) [
      | inl inside ↦
          rw (remove_posting, e, inside)
            (ground (
              arith,
              e,
              posted-or_removed (set_remove member there) map key q x,
              set_contains-set_remove member x there,
            ))
      | inr outside ↦
          rw (remove_posting, e, outside)
            (ground (arith, e, k.eq_of_cmp q key, m.eq_of_cmp x member, outside))
    ]
  ]
