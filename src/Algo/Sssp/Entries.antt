-- ===== src/Algo/Sssp/Entries.antt =====
-- crates/oxgraph-algo/src/sssp.rs: lists of elements with their distances.
use oxgraph.Prelude.{
  ℕ, zero, suc, ◌+◌, ◌<◌, ◌≤◌, ◌≡◌, refl, Bool, true, false, ◌&&◌, List, [], ◌∷◌, ◌++◌, length,
  get_or, set, replicate, leb, ◌==◌, if◌then◌else◌, arith,
}
use oxgraph.Algo.Topology.{Topology}

-- The flags that are set.
abbrev pub trues : List Bool → ℕ
trues [] = 0
trues (b ∷ bs) = (if b then 1 else 0) + trues bs

pub trues_le : (bs : List Bool) → trues bs ≤ length bs
trues_le [] = omega arith
trues_le (b ∷ bs) = ground (arith, trues_le bs)

pub trues-replicate : (n : ℕ) → trues (replicate n false) ≡ 0
trues-replicate zero = refl
trues-replicate (suc n) = omega (arith, trues-replicate n)

pub trues-set :
    (bs : List Bool) (i : ℕ)
    → i < length bs
    → get_or bs i false ≡ false
    → trues (set bs i true) ≡ suc (trues bs)
trues-set [] i h e = absurd (omega arith)
trues-set (b ∷ bs) zero h e = ground arith
trues-set (b ∷ bs) (suc i) h e = ground (arith, trues-set bs i (omega arith) e)

module _ {E : Type 0} (g : Topology E) where
  -- The entries of index `i`, at all distances and up to `k`.
  abbrev pub times : ℕ → List (E × ℕ) → ℕ
  times i [] = 0
  times i ((x, d) ∷ xs) = (if g.element_index x == i then 1 else 0) + times i xs

  abbrev pub near : ℕ → ℕ → List (E × ℕ) → ℕ
  near i k [] = 0
  near i k ((x, d) ∷ xs) = (if g.element_index x == i && leb d k then 1 else 0) + near i k xs

  pub times-append : (i : ℕ) (xs ys : List (E × ℕ)) → times i (xs ++ ys) ≡ times i xs + times i ys
  times-append i [] ys = omega arith
  times-append i ((x, d) ∷ xs) ys = omega (arith, times-append i xs ys)

  pub near-append :
      (i k : ℕ) (xs ys : List (E × ℕ)) → near i k (xs ++ ys) ≡ near i k xs + near i k ys
  near-append i k [] ys = omega arith
  near-append i k ((x, d) ∷ xs) ys = omega (arith, near-append i k xs ys)

  pub near_le-times : (i k : ℕ) (xs : List (E × ℕ)) → near i k xs ≤ times i xs
  near_le-times i k [] = omega arith
  near_le-times i k ((x, d) ∷ xs) = ground (arith, near_le-times i k xs)

  pub near_mono : (i k n : ℕ) (xs : List (E × ℕ)) → k ≤ n → near i k xs ≤ near i n xs
  near_mono i k n [] h = omega arith
  near_mono i k n ((x, d) ∷ xs) h = ground (arith, near_mono i k n xs h)

  -- Distances that ascend from `lo`, none above `hi`.
  abbrev pub Ascending : ℕ → ℕ → List (E × ℕ) → Type 0
  Ascending lo hi [] = Unit
  Ascending lo hi ((x, d) ∷ xs) = (lo ≤ d) × (d ≤ hi) × Ascending d hi xs

  pub Ascending-snoc :
      (lo hi : ℕ) (xs : List (E × ℕ)) (x : E)
      → lo ≤ hi
      → Ascending lo hi xs
      → Ascending lo hi (xs ++ (x, hi) ∷ [])
  Ascending-snoc lo hi [] x h a = (h, omega arith, tt)
  Ascending-snoc lo hi ((y, d) ∷ xs) x h (low, high, a) =
      (low, high, Ascending-snoc d hi xs x high a)

  pub Ascending-wider :
      (lo hi top : ℕ) (xs : List (E × ℕ)) → hi ≤ top → Ascending lo hi xs → Ascending lo top xs
  Ascending-wider lo hi top [] h a = tt
  Ascending-wider lo hi top ((y, d) ∷ xs) h (low, high, a) =
      (low, omega arith, Ascending-wider d hi top xs h a)

  -- No distance is above `hi`.
  abbrev pub Under : ℕ → List (E × ℕ) → Type 0
  Under hi [] = Unit
  Under hi ((x, d) ∷ xs) = (d ≤ hi) × Under hi xs

  pub Under-snoc :
      (hi d : ℕ) (xs : List (E × ℕ)) (x : E) → Under hi xs → d ≤ hi → Under hi (xs ++ (x, d) ∷ [])
  Under-snoc hi d [] x u h = (h, tt)
  Under-snoc hi d ((y, e) ∷ xs) x (low, u) h = (low, Under-snoc hi d xs x u h)

  pub Under-wider : (hi top : ℕ) (xs : List (E × ℕ)) → hi ≤ top → Under hi xs → Under top xs
  Under-wider hi top [] h u = tt
  Under-wider hi top ((y, e) ∷ xs) h (low, u) = (omega arith, Under-wider hi top xs h u)

  pub Ascending-Under : (lo hi : ℕ) (xs : List (E × ℕ)) → Ascending lo hi xs → Under hi xs
  Ascending-Under lo hi [] a = tt
  Ascending-Under lo hi ((x, d) ∷ xs) (low, high, a) = (high, Ascending-Under d hi xs a)

  pub near_all : (i k : ℕ) (xs : List (E × ℕ)) → Under k xs → near i k xs ≡ times i xs
  near_all i k [] u = refl
  near_all i k ((x, d) ∷ xs) (low, u) = ground (arith, near_all i k xs u)
