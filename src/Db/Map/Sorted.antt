-- ===== src/Db/Map/Sorted.antt =====
-- The maps of crates/oxgraph-db with number keys, each key once and in ascending order.
use oxgraph.Prelude.{ℕ, ◌<◌, ◌≡◌, refl, none, [], ◌∷◌, arith}
use oxgraph.Db.Map.{Map, get, insert, nat_ord}

module _ {V : Type 0} where
  abbrev pub AllAbove : ℕ → Map ℕ V → Type 0
  AllAbove k [] = Unit
  AllAbove k (e ∷ m) = (k < e.0) × AllAbove k m

  abbrev pub IsSorted : Map ℕ V → Type 0
  IsSorted [] = Unit
  IsSorted (e ∷ m) = AllAbove e.0 m × IsSorted m

  AllAbove-lt : (j k : ℕ) (m : Map ℕ V) → j < k → AllAbove k m → AllAbove j m
  AllAbove-lt j k [] less h = tt
  AllAbove-lt j k (e ∷ m) less h = (omega (arith, h.0), AllAbove-lt j k m less h.1)

  pub get_above : (k : ℕ) (m : Map ℕ V) → AllAbove k m → get k m ≡ none
  unfolding get nat_ord
  get_above k [] h = refl
  get_above k ((q, v) ∷ m) h = ground (arith, get_above k m h.1, h.0)

  AllAbove-insert :
      (j k : ℕ) (v : V) (m : Map ℕ V) → j < k → AllAbove j m → AllAbove j (insert k v m)
  unfolding insert nat_ord
  AllAbove-insert j k v [] less h = (less, tt)
  AllAbove-insert j k v ((q, u) ∷ m) less h =
      ground (arith, AllAbove-insert j k v m less h.1, h.0, h.1, less)

  pub insert-IsSorted : (k : ℕ) (v : V) (m : Map ℕ V) → IsSorted m → IsSorted (insert k v m)
  unfolding insert nat_ord
  insert-IsSorted k v [] h = (tt, tt)
  insert-IsSorted k v ((q, u) ∷ m) h =
      ground
        (arith, insert-IsSorted k v m h.1, AllAbove-insert q k v m, AllAbove-lt k q m, h.0, h.1)
