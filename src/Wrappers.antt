-- ===== src/Wrappers.antt =====
-- LLVM_SCUDO_MTE/wrappers_c_checks.h: the checks of the C wrappers' arguments. A check returns true
-- on failure. The compiler's overflowing multiplication is part of the language.
pub mod Checks
use riscv_mte.Base.{
  ℕ, ◌*◌, ◌/◌, ◌^◌, Bool, false, not, ◌||◌, leb, ltb, ◌==◌, ◌!=◌, if◌then◌else◌, u64_mod, mul64,
}
use riscv_mte.Common.{is_power_of_two, is_aligned, round_up}

unfoldable pub check_aligned_alloc_alignment_and_size : ℕ → ℕ → Bool
check_aligned_alloc_alignment_and_size alignment size =
    not (is_power_of_two alignment) || not (is_aligned size alignment)

unfoldable pub check_posix_memalign_alignment : ℕ → Bool
check_posix_memalign_alignment alignment =
    not (is_power_of_two alignment) || not (is_aligned alignment 8)

-- The branch that multiplies with the built-in: whether it overflows, and the product.
unfoldable pub check_for_calloc_overflow : ℕ → ℕ → Bool × ℕ
check_for_calloc_overflow size n = (leb u64_mod (size * n), mul64 size n)

-- The branch that divides.
unfoldable pub check_for_calloc_overflow_fallback : ℕ → ℕ → Bool × ℕ
check_for_calloc_overflow_fallback size n =
    let product = mul64 size n in ((if size == 0 then false else product / size != n), product)

unfoldable pub check_for_pvalloc_overflow : ℕ → ℕ → Bool
check_for_pvalloc_overflow size page_size = ltb (round_up size page_size) size
