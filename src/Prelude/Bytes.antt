-- ===== src/Prelude/Bytes.antt =====
-- Bytes in memory: little-endian words, slices of a buffer and copies into one. A byte is a number
-- below 256.
use Prim.Native.Nat.{ℕ, zero, suc, ◌+◌, ◌*◌, ◌/◌, ◌%◌, ◌^◌, ◌<◌}
use native.Mathlib.Nat.{pow-suc}
use mathlib.Core.Path.{◌≡◌, refl, ap}
use mathlib.Core.List.{List, [], ◌∷◌, ◌++◌}
use native.Mathlib.Omega.{arith}
use oxgraph.Prelude.Lists.{length, take, drop, take-append, drop-append}

-- `to_le_bytes` of a word of `n` bytes, and the word that bytes hold.
unfoldable pub le_bytes : ℕ → ℕ → List ℕ
le_bytes zero value = []
le_bytes (suc n) value = (value % 256) ∷ le_bytes n (value / 256)

unfoldable pub le_value : List ℕ → ℕ
le_value [] = 0
le_value (b ∷ bs) = b + 256 * le_value bs

pub length-le_bytes : (n value : ℕ) → length (le_bytes n value) ≡ n
unfolding le_bytes
length-le_bytes zero value = refl
length-le_bytes (suc n) value = ap suc (length-le_bytes n (value / 256))

pub le_value-le_bytes : (n value : ℕ) → value < 256 ^ n → le_value (le_bytes n value) ≡ value
unfolding le_bytes le_value
le_value-le_bytes zero value h = omega arith
le_value-le_bytes (suc n) value h =
    let fits : value / 256 < 256 ^ n = omega (arith, pow-suc 256 n) in
    omega (arith, le_value-le_bytes n (value / 256) fits)

-- bytes[start .. start + len], for a range inside the bytes.
abbrev pub slice {ℓ} : {A : Type ℓ} → List A → ℕ → ℕ → List A
slice bytes start len = take len (drop start bytes)

-- bytes[start .. start + len].copy_from_slice(piece), for a range inside the bytes.
unfoldable pub splice {ℓ} : {A : Type ℓ} → List A → ℕ → List A → List A
splice bytes start piece = take start bytes ++ (piece ++ drop (start + length piece) bytes)

-- The first word of a run of bytes, and what follows it.
pub le_take : (n value : ℕ) (rest : List ℕ) → take n (le_bytes n value ++ rest) ≡ le_bytes n value
le_take n value rest = take-append n (le_bytes n value) rest (length-le_bytes n value)

pub le_drop : (n value : ℕ) (rest : List ℕ) → drop n (le_bytes n value ++ rest) ≡ rest
le_drop n value rest = drop-append n (le_bytes n value) rest (length-le_bytes n value)
