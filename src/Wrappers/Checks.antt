-- ===== src/Wrappers/Checks.antt =====
-- checkForCallocOverflow and checkForPvallocOverflow of LLVM_SCUDO_MTE/wrappers_c_checks.h.
use native.Mathlib.Decide.{dec_lt}
use native.Mathlib.Nat.{mul-div_right, div-lt_iff_lt-mul, div-eq_of_lt}
use riscv_mte.Base.{
  ℕ, zero, suc, ◌+◌, ◌-◌, ◌*◌, ◌/◌, ◌<◌, ◌≡◌, ◌↔◌, ap, ◌∙◌, Bool, true, false, arith, leb, ◌==◌,
  ◌!=◌, if◌then◌else◌, u64_mod, mul64, mul64_eq, add64, sub64, bit_and, not64,
}
use riscv_mte.Common.{is_power_of_two, round_up}
use riscv_mte.Common.Align.{mask_down, round_up_lem}
use riscv_mte.Wrappers.{
  check_for_calloc_overflow, check_for_calloc_overflow_fallback, check_for_pvalloc_overflow,
}

-- The division finds an overflow.
division_flag :
    (size n : ℕ)
    → n < u64_mod
    → (if size == 0 then false else mul64 size n / size != n) ≡ leb u64_mod (size * n)
division_flag zero n h = let none : 0 * n ≡ 0 = omega arith in ground arith
division_flag (suc k) n h = elim (dec_lt (suc k * n) u64_mod) [
  | yes fits ↦
      let quotient : mul64 (suc k) n / suc k ≡ n =
        ap (λ (t : ℕ). t / suc k) (mul64_eq (suc k) n fits) ∙ mul-div_right n (omega arith) in
      ground (arith, quotient)
  | no over ↦
      let wraps : mul64 (suc k) n < n * suc k = unfold mul64 in omega arith in
      let smaller : mul64 (suc k) n / suc k < n = (div-lt_iff_lt-mul (omega arith)).1 wraps in
      ground (arith, smaller)
]

-- The branch of `checkForCallocOverflow` that divides agrees with the one that multiplies with an
-- overflow check, in its answer and in the product, for a number of elements below 2 ^ 64.
pub check_for_calloc_overflow-eq-fallback :
    (size n : ℕ)
    → n < u64_mod
    → check_for_calloc_overflow_fallback size n ≡ check_for_calloc_overflow size n
unfolding check_for_calloc_overflow check_for_calloc_overflow_fallback
check_for_calloc_overflow-eq-fallback size n h =
    ap (λ (failed : Bool). (failed, mul64 size n)) (division_flag size n h)

-- A size whose rounding wraps around rounds to 0.
round_up-wraps :
    (size page : ℕ)
    → is_power_of_two page ≡ true
    → page < u64_mod
    → size < u64_mod
    → u64_mod < size + page
    → round_up size page ≡ 0
unfolding round_up
round_up-wraps size page power fits h wraps =
    let sum : sub64 (add64 size page) 1 ≡ size + page - 1 - u64_mod =
      unfold add64 sub64 in omega arith in
    ap (λ (t : ℕ). bit_and t (not64 (sub64 page 1))) sum
    ∙ mask_down size page power fits (size + page - 1 - u64_mod) (omega arith)
    ∙ ap (λ (t : ℕ). t * page) (div-eq_of_lt (omega arith))
    ∙ omega arith

-- For a page size that is a power of two below 2 ^ 64, and a size below 2 ^ 64,
-- `checkForPvallocOverflow` answers true exactly if the sum of both is above 2 ^ 64, where no
-- multiple of the page size from the size on fits a word.
pub check_for_pvalloc_overflow_iff :
    (size page : ℕ)
    → is_power_of_two page ≡ true
    → page < u64_mod
    → size < u64_mod
    → (check_for_pvalloc_overflow size page ≡ true) ↔ (u64_mod < size + page)
unfolding check_for_pvalloc_overflow
check_for_pvalloc_overflow_iff size page power fits h = elim (dec_lt u64_mod (size + page)) [
  | yes wraps ↦
      let zero_size = round_up-wraps size page power fits h wraps in
      ((λ e. wraps), λ le. ground (arith, zero_size))
  | no within ↦
      let (above, _, _) = round_up_lem size page power fits (omega arith) in
      ((λ e. absurd (ground (arith, above))), λ lt. absurd (within lt))
]
