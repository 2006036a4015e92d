-- ===== src/Db/Map/Laws.antt =====
-- The maps of crates/oxgraph-db as functions of their keys.
use Prim.Native.Nat.Ordering.{lt, eq, gt}
use oxgraph.Prelude.{◌≡◌, refl, none, some, [], ◌∷◌, arith}
use oxgraph.Db.Map.{Ord, Map, get, insert, remove}

-- The value at a key, and elsewhere what the function has.
unfoldable pub update {ℓ κ} : {K : Type ℓ} {V : Type κ} ⦃o : Ord K⦄ → K → V → (K → V) → K → V
update ⦃o⦄ k v f q = elim (o.cmp q k) [ eq ↦ v | lt ↦ f q | gt ↦ f q ]

module _ {ℓ κ} {K : Type ℓ} {V : Type κ} ⦃o : Ord K⦄ where
  pub get-insert :
      (k q : K) (v : V) (m : Map K V) → get q (insert k v m) ≡ update k (some v) (λ q. get q m) q
  unfolding get insert update
  get-insert k q v [] = ground arith
  get-insert k q v ((p, u) ∷ m) =
      ground
        (arith, get-insert k q v m, o.eq_of_cmp q k, o.eq_of_cmp k p, o.eq_of_cmp q p, o.cmp_refl)

  pub get-remove : (k q : K) (m : Map K V) → get q (remove k m) ≡ update k none (λ q. get q m) q
  unfolding get remove update
  get-remove k q [] = ground arith
  get-remove k q ((p, u) ∷ m) =
      ground
        (arith, get-remove k q m, o.eq_of_cmp q k, o.eq_of_cmp k p, o.eq_of_cmp q p, o.cmp_refl)

module _ {ℓ κ} {K : Type ℓ} {V : Type κ} ⦃o : Ord K⦄ where
  pub update_here : (k : K) (v : V) (f : K → V) → update k v f k ≡ v
  unfolding update
  update_here k v f = rw (o.cmp_refl k, update) refl

  -- Setting what is there.
  pub update_same : (k q : K) (v : V) (f : K → V) → f k ≡ v → update k v f q ≡ f q
  unfolding update
  update_same k q v f h = ground (arith, o.eq_of_cmp q k, h)
