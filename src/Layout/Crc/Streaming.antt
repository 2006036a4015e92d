-- ===== src/Layout/Crc/Streaming.antt =====
-- crates/oxgraph-layout-util/src/lib.rs: `crc32c_append` piece by piece.
use Prim.Native.Nat.{bit_xor, bit_xor-bitwise, digits, differ}
use native.Mathlib.Nat.{pow-suc}
use oxgraph.Prelude.{
  ℕ, zero, suc, ◌+◌, ◌/◌, ◌%◌, ◌^◌, ◌≤◌, ◌<◌, ◌≡◌, refl, List, [], ◌∷◌, ◌++◌, get_or, arith, inl,
  inr, Bool-cases, ◌==◌,
}
use oxgraph.Layout.Crc.{
  table_step, table_bits, table_loop, crc32c_table, complement, crc_step, crc_loop, crc32c_append,
}

differ_bit : (a b : ℕ) → a < 2 → b < 2 → differ a b < 2
differ_bit zero b h j = j
differ_bit (suc a) zero h j = h
differ_bit (suc a) (suc b) h j = let e : a ≡ 0 = omega arith in rw e (omega arith)

digits-lt : (k n a b : ℕ) → a < 2 ^ k → b < 2 ^ k → digits (λ d. d) differ n a b < 2 ^ k
digits-lt k zero a b h j = j
digits-lt k (suc n) zero b h j = j
digits-lt zero (suc n) (suc a) b h j = absurd (omega arith)
digits-lt (suc k) (suc n) (suc a) b h j = omega (
  arith,
  pow-suc 2 k,
  differ_bit (suc a % 2) (b % 2),
  digits-lt k n (suc a / 2) (b / 2) (omega (arith, pow-suc 2 k)) (omega (arith, pow-suc 2 k)),
)

-- Exclusive or stays within the width of its operands.
pub bit_xor-lt : (k a b : ℕ) → a < 2 ^ k → b < 2 ^ k → bit_xor a b < 2 ^ k
bit_xor-lt k a b h j = rw (bit_xor-bitwise a b) (digits-lt k a a b h j)

table_step-lt : (crc : ℕ) → crc < 2 ^ 32 → table_step crc < 2 ^ 32
unfolding table_step
table_step-lt crc h = elim (Bool-cases (crc % 2 == 0)) [
  | inl even ↦
      let e : crc % 2 ≡ 0 = ground arith in
      rw e (bit_xor-lt 32 (crc / 2) 0 (omega arith) (omega arith))
  | inr odd ↦
      let e : crc % 2 ≡ 1 = ground arith in
      rw e (bit_xor-lt 32 (crc / 2) 0x82f6_3b78 (omega arith) (omega arith))
]

table_bits-lt : (bits crc : ℕ) → crc < 2 ^ 32 → table_bits bits crc < 2 ^ 32
unfolding table_bits
table_bits-lt zero crc h = h
table_bits-lt (suc bits) crc h = table_bits-lt bits (table_step crc) (table_step-lt crc h)

table_loop-lt : (n seed i : ℕ) → seed + n ≤ 2 ^ 32 → get_or (table_loop n seed) i 0 < 2 ^ 32
unfolding table_loop
table_loop-lt zero seed i h = omega arith
table_loop-lt (suc n) seed zero h = table_bits-lt 8 seed (omega arith)
table_loop-lt (suc n) seed (suc i) h = table_loop-lt n (suc seed) i (omega arith)

crc_step-lt : (state byte : ℕ) → state < 2 ^ 32 → crc_step state byte < 2 ^ 32
unfolding crc_step crc32c_table
crc_step-lt state byte h =
    bit_xor-lt 32 (state / 256) _ (omega arith) (table_loop-lt 256 0 _ (omega arith))

crc_loop-lt : (state : ℕ) (bytes : List ℕ) → state < 2 ^ 32 → crc_loop state bytes < 2 ^ 32
unfolding crc_loop
crc_loop-lt state [] h = h
crc_loop-lt state (byte ∷ bytes) h =
    crc_loop-lt (crc_step state byte) bytes (crc_step-lt state byte h)

crc_loop-append :
    (state : ℕ) (xs ys : List ℕ) → crc_loop state (xs ++ ys) ≡ crc_loop (crc_loop state xs) ys
unfolding crc_loop
crc_loop-append state [] ys = refl
crc_loop-append state (x ∷ xs) ys = crc_loop-append (crc_step state x) xs ys

-- The result is again a 32-bit word.
pub crc32c_append-lt : (crc : ℕ) (bytes : List ℕ) → crc32c_append crc bytes < 2 ^ 32
unfolding crc32c_append
crc32c_append-lt crc bytes = omega arith

-- The continuation law: a checksum continued over a second piece is that of both pieces together.
pub crc32c_append-append :
    (crc : ℕ) (xs ys : List ℕ)
    → crc32c_append (crc32c_append crc xs) ys ≡ crc32c_append crc (xs ++ ys)
unfolding crc32c_append
crc32c_append-append crc xs ys =
    let small = crc_loop-lt (complement crc) xs (omega arith) in
    let twice : complement (complement (crc_loop (complement crc) xs))
        ≡ crc_loop (complement crc) xs =
      omega arith in
    rw (twice, crc_loop-append (complement crc) xs ys)

check_vector :
    crc32c_append 0 (0x31 ∷ 0x32 ∷ 0x33 ∷ 0x34 ∷ 0x35 ∷ 0x36 ∷ 0x37 ∷ 0x38 ∷ 0x39 ∷ [])
    ≡ 0xe306_9283
unfolding crc32c_append crc_loop crc_step crc32c_table table_loop table_bits table_step
check_vector = refl
