-- ===== src/Common/Percent.antt =====
-- computePercentage of LLVM_SCUDO_MTE/common.h.
use native.Mathlib.Nat.{mod-lt, div-lt_iff_lt-mul, le-div_iff_mul-le}
use riscv_mte.Base.{
  ℕ, ◌+◌, ◌*◌, ◌/◌, ◌%◌, ◌^◌, ◌≤◌, ◌<◌, ◌≡◌, refl, ◌↔◌, false, arith, ◌==◌, add64_eq, mul64_eq,
}
use riscv_mte.Common.{compute_percentage}

-- Without an overflow the parts are the quotient and the rounded remainder.
parts :
    (n d : ℕ)
    → 0 < d
    → n * 100 < 2 ^ 56
    → d < 2 ^ 56
    → compute_percentage n d ≡ (n * 100 / d, (n * 100 % d * 100 + d / 2) / d)
unfolding compute_percentage
parts n d pos h k =
    let remainder : n * 100 % d < d = mod-lt (n * 100) pos in
    let not_zero : (d == 0) ≡ false = ground arith in
    rw (
      not_zero,
      mul64_eq n 100 (omega arith),
      mul64_eq (n * 100 % d) 100 (omega arith),
      add64_eq (n * 100 % d * 100) (d / 2) (omega arith),
    )

-- For a denominator that is not 0 and, like 100 times the numerator, below 2 ^ 56,
-- `computePercentage` gives the quotient for the integral part and at most 100 hundredths for the
-- fractional part, and exactly 100 of them, with no carry into the integral part, if the remainder
-- rounds up to the whole denominator.
pub fractional_carry :
    (n d : ℕ)
    → 0 < d
    → n * 100 < 2 ^ 56
    → d < 2 ^ 56
    → ((compute_percentage n d).0 ≡ n * 100 / d)
      × ((compute_percentage n d).1 ≤ 100)
      × (((compute_percentage n d).1 ≡ 100) ↔ (100 * d ≤ n * 100 % d * 100 + d / 2))
fractional_carry n d pos h k =
    let remainder : n * 100 % d < d = mod-lt (n * 100) pos in
    let below : (n * 100 % d * 100 + d / 2) / d < 101 = (div-lt_iff_lt-mul pos).1 (omega arith) in
    let reaches = le-div_iff_mul-le {x = 100} {y = n * 100 % d * 100 + d / 2} pos in
    rw (parts n d pos h k)
      (refl, omega arith, ((λ e. reaches.0 (omega arith)), λ le. omega (arith, reaches.1 le)))
