-- ===== src/Layout/Width.antt =====
-- crates/oxgraph-layout-util/src/lib.rs: the sealed index widths and their conversions. A value of
-- an index type, and a storage word, is the number that it holds.
use oxgraph.Prelude.{ℕ, ◌+◌, Option, none, some, leb, if◌then◌else◌}

-- The types that implement `LayoutIndex`.
pub data Width : Type 0 where
  u16 u32 u64 usize : Width

module _ (usize_max : ℕ) where
  -- The largest value of the width.
  abbrev pub max_value : Width → ℕ
  max_value u16 = 0xffff
  max_value u32 = 0xffff_ffff
  max_value u64 = 0xffff_ffff_ffff_ffff
  max_value usize = usize_max

  -- `LayoutIndex::to_usize` and `ZerocopyWord::read_as_usize`.
  abbrev pub to_usize : ℕ → Option ℕ
  to_usize value = if leb value usize_max then some value else none

  -- `LayoutIndex::from_usize`.
  abbrev pub from_usize : Width → ℕ → Option ℕ
  from_usize width value = if leb value (max_value width) then some value else none

  -- `usize::checked_add`.
  abbrev pub checked_add : ℕ → ℕ → Option ℕ
  checked_add a b = if leb (a + b) usize_max then some (a + b) else none
