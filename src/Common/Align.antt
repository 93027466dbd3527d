-- ===== src/Common/Align.antt =====
-- `isPowerOfTwo`, and the rounding and alignment functions as arithmetic.
use native.Mathlib.Nat.{one-le-pow, div-mul-le_self, mul-mod_left, lt-div-mul-add}
use riscv_mte.Base.{
  ℕ, ◌+◌, ◌-◌, ◌*◌, ◌/◌, ◌%◌, ◌^◌, ◌≤◌, ◌<◌, ◌≡◌, refl, sym, ap, ◌∙◌, ◌↔◌, true, arith, bit_and,
  ◌==◌, u64_mod, add64, sub64, mul64, not64, sub64_eq, mul64_eq,
}
use riscv_mte.Bits.{
  bit_and-pred_of_two_pow, two_pow_of_bit_and-pred, bit_and-low_mask, bit_and-high_mask,
  exponent_of_lt, two_pow_lt,
}
use riscv_mte.Common.{
  is_power_of_two, round_up, round_up_slow, round_down, round_down_slow, is_aligned,
  is_aligned_slow,
}

-- `isPowerOfTwo` answers true exactly for the powers of two, for a number below 2 ^ 64.
pub is_power_of_two_iff :
    (x : ℕ) → x < u64_mod → (is_power_of_two x ≡ true) ↔ ((k : ℕ) × (x ≡ 2 ^ k))
unfolding is_power_of_two
is_power_of_two_iff x fits = (
  λ h. two_pow_of_bit_and-pred x (ground arith) (ground (arith, sub64_eq x 1)),
  λ (k, e). ground (
    arith,
    one-le-pow k 2,
    sub64_eq x 1,
    bit_and-pred_of_two_pow k,
    ap (λ (t : ℕ). bit_and t (t - 1)) e,
  ),
)

pub two_pow-is_power_of_two : (k : ℕ) → k < 64 → is_power_of_two (2 ^ k) ≡ true
two_pow-is_power_of_two k h = (is_power_of_two_iff (2 ^ k) (two_pow_lt k 64 h)).1 (k, refl)

-- The facts that a power of two below 2 ^ 64 gives: its exponent, and that it is positive.
pub exponent : (b : ℕ) → is_power_of_two b ≡ true → b < u64_mod → (k : ℕ) × (b ≡ 2 ^ k) × (k < 64)
exponent b h fits =
    let (k, e) = (is_power_of_two_iff b fits).0 h in (k, e, exponent_of_lt k 64 (omega arith))

module _ (x b : ℕ) (power : is_power_of_two b ≡ true) (b_fits : b < u64_mod) where
  pos : 0 < b
  pos = let (k, e, lt) = exponent b power b_fits in omega (arith, one-le-pow k 2)

  -- Clearing the bits below `b`.
  pub mask_down : (y : ℕ) → y < u64_mod → bit_and y (not64 (sub64 b 1)) ≡ y / b * b
  mask_down y fits =
      let (k, e, lt) = exponent b power b_fits in
      ap (bit_and y) (omega (arith, sub64_eq b 1 pos b_fits, pos, e))
      ∙ bit_and-high_mask k 64 y (omega arith) fits
      ∙ ap (λ (t : ℕ). y / t * t) (sym e)

  mask_low : bit_and x (sub64 b 1) ≡ x % b
  mask_low =
      let (k, e, lt) = exponent b power b_fits in
      ap (bit_and x) (sub64_eq b 1 pos b_fits ∙ ap (λ (t : ℕ). t - 1) e)
      ∙ bit_and-low_mask k x
      ∙ ap (λ (t : ℕ). x % t) (sym e)

  pub is_aligned_lem : is_aligned x b ≡ is_aligned_slow x b
  unfolding is_aligned is_aligned_slow
  is_aligned_lem = ap (λ (t : ℕ). t == 0) mask_low

  pub round_down-eq : x < u64_mod → round_down x b ≡ x / b * b
  unfolding round_down
  round_down-eq fits = mask_down x fits

  -- The sum wraps at most to zero, and the subtraction undoes that.
  last_byte : x + b ≤ u64_mod → sub64 (add64 x b) 1 ≡ x + b - 1
  unfolding add64 sub64
  last_byte fits = omega (arith, pos)

  pub round_up-eq : x + b ≤ u64_mod → round_up x b ≡ (x + b - 1) / b * b
  unfolding round_up
  round_up-eq fits =
      ap (λ (t : ℕ). bit_and t (not64 (sub64 b 1))) (last_byte fits)
      ∙ mask_down (x + b - 1) (omega (arith, pos))

  -- For a boundary that is a power of two below 2 ^ 64, and a number whose sum with the boundary
  -- does not exceed 2 ^ 64, `roundUp` gives a multiple of the boundary that is not below the number
  -- and less than a boundary above it.
  pub round_up_lem :
      x + b ≤ u64_mod → (x ≤ round_up x b) × (round_up x b < x + b) × (round_up x b % b ≡ 0)
  round_up_lem fits = rw (round_up-eq fits) (
    omega (arith, lt-div-mul-add {a = x + b - 1} pos),
    omega (arith, div-mul-le_self (x + b - 1) b, pos),
    mul-mod_left ((x + b - 1) / b) b,
  )

  -- For a boundary that is a power of two below 2 ^ 64, and a number below 2 ^ 64, `roundDown`
  -- gives a multiple of the boundary that is not above the number and less than a boundary below
  -- it.
  pub round_down_lem :
      x < u64_mod → (round_down x b ≤ x) × (x < round_down x b + b) × (round_down x b % b ≡ 0)
  round_down_lem fits =
      rw (round_down-eq fits) (div-mul-le_self x b, lt-div-mul-add pos, mul-mod_left (x / b) b)

  -- For a boundary that is a power of two below 2 ^ 64, and a number whose sum with the boundary
  -- does not exceed 2 ^ 64, `roundUp` agrees with `roundUpSlow`, which divides and multiplies.
  pub round_up-eq-slow : x + b ≤ u64_mod → round_up x b ≡ round_up_slow x b
  unfolding round_up_slow
  round_up-eq-slow fits =
      round_up-eq fits
      ∙ sym (mul64_eq ((x + b - 1) / b) b (omega (arith, div-mul-le_self (x + b - 1) b, pos)))
      ∙ ap (λ (t : ℕ). mul64 (t / b) b) (sym (last_byte fits))

  pub round_down-eq-slow : x < u64_mod → round_down x b ≡ round_down_slow x b
  unfolding round_down_slow
  round_down-eq-slow fits =
      round_down-eq fits ∙ sym (mul64_eq (x / b) b (omega (arith, div-mul-le_self x b)))
