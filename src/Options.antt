-- ===== src/Options.antt =====
-- LLVM_SCUDO_MTE/options.h: the allocator's options in one 32-bit word. `AtomicOptions` updates the
-- word by single atomic operations; the loop of `setFillContentsMode` repeats a compare-exchange
-- until no other thread interferes, so it is one update too.
pub mod Laws
use riscv_mte.Base.{
  ℕ, ◌+◌, ◌-◌, ◌*◌, ◌/◌, ◌%◌, ◌^◌, Bool, ◌&&◌, bit_and, bit_or, ◌==◌, ◌!=◌, shr, u32,
}
use riscv_mte.Memtag.{allocator_supports_memory_tagging}

pub data OptionBit : Type 0 where
  may_return_null : OptionBit
  fill_contents_0of2 : OptionBit
  fill_contents_1of2 : OptionBit
  dealloc_type_mismatch : OptionBit
  delete_size_mismatch : OptionBit
  track_allocation_stacks : OptionBit
  use_odd_even_tags : OptionBit
  use_memory_tagging : OptionBit
  add_large_allocation_slack : OptionBit

abbrev pub index : OptionBit → ℕ
index may_return_null = 0
index fill_contents_0of2 = 1
index fill_contents_1of2 = 2
index dealloc_type_mismatch = 3
index delete_size_mismatch = 4
index track_allocation_stacks = 5
index use_odd_even_tags = 6
index use_memory_tagging = 7
index add_large_allocation_slack = 8

pub data FillContentsMode : Type 0 where
  no_fill zero_fill pattern_or_zero_fill : FillContentsMode

abbrev pub mode_code : FillContentsMode → ℕ
mode_code no_fill = 0
mode_code zero_fill = 1
mode_code pattern_or_zero_fill = 2

-- The complement of a 32-bit word.
abbrev pub not32 : ℕ → ℕ
not32 x = 2 ^ 32 - 1 - x

unfoldable pub get : ℕ → OptionBit → Bool
get val opt = bit_and val (2 ^ index opt) != 0

-- The code of the mode.
unfoldable pub get_fill_contents_mode : ℕ → ℕ
get_fill_contents_mode val = bit_and (shr val (index fill_contents_0of2)) 3

unfoldable pub clear : ℕ → OptionBit → ℕ
clear val opt = bit_and val (not32 (2 ^ index opt))

unfoldable pub set : ℕ → OptionBit → ℕ
set val opt = bit_or val (2 ^ index opt)

unfoldable pub set_fill_contents_mode : ℕ → FillContentsMode → ℕ
set_fill_contents_mode val mode =
    bit_or (bit_and val (not32 (3 * 2 ^ index fill_contents_0of2)))
      (mode_code mode * 2 ^ index fill_contents_0of2)

-- `useMemoryTagging<Config>(Options)`.
unfoldable pub does_use_memory_tagging : Bool → ℕ → Bool
does_use_memory_tagging may_support val =
    allocator_supports_memory_tagging may_support && get val use_memory_tagging
