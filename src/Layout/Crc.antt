-- ===== src/Layout/Crc.antt =====
-- crates/oxgraph-layout-util/src/lib.rs: CRC-32C (Castagnoli), byte at a time from a table.
pub mod Streaming
use Prim.Native.Nat.{bit_xor, bit_and}
use oxgraph.Prelude.{ℕ, zero, suc, ◌+◌, ◌-◌, ◌/◌, ◌%◌, List, [], ◌∷◌, get_or}

-- The body of the inner loop of `build_crc32c_table`; the mask is `(crc & 1).wrapping_neg()`.
unfoldable pub table_step : ℕ → ℕ
table_step crc = bit_xor (crc / 2) (bit_and 0x82f6_3b78 ((0x1_0000_0000 - crc % 2) % 0x1_0000_0000))

unfoldable pub table_bits : ℕ → ℕ → ℕ
table_bits zero crc = crc
table_bits (suc bits) crc = table_bits bits (table_step crc)

-- The entries for the `n` seeds from `seed` on.
unfoldable pub table_loop : ℕ → ℕ → List ℕ
table_loop zero seed = []
table_loop (suc n) seed = table_bits 8 seed ∷ table_loop n (suc seed)

unfoldable pub crc32c_table : List ℕ
crc32c_table = table_loop 256 0

-- `!state` on `u32`.
abbrev pub complement : ℕ → ℕ
complement state = 0xffff_ffff - state

unfoldable pub crc_step : ℕ → ℕ → ℕ
crc_step state byte = bit_xor (state / 256) (get_or crc32c_table (bit_xor (state % 256) byte) 0)

unfoldable pub crc_loop : ℕ → List ℕ → ℕ
crc_loop state [] = state
crc_loop state (byte ∷ bytes) = crc_loop (crc_step state byte) bytes

unfoldable pub crc32c_append : ℕ → List ℕ → ℕ
crc32c_append crc bytes = complement (crc_loop (complement crc) bytes)
