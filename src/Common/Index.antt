-- ===== src/Common/Index.antt =====
-- Bit indices: the highest and the lowest set bit, the logarithm of a power of two, and the next
-- power of two.
use native.Mathlib.Nat.{pow-suc, one-mul}
use riscv_mte.Base.{
  ℕ, zero, suc, ◌+◌, ◌-◌, ◌*◌, ◌/◌, ◌%◌, ◌^◌, ◌≤◌, ◌<◌, ◌≡◌, refl, ap, ◌∙◌, true, false, arith, inl,
  inr, Bool-cases, ◌==◌, u64_mod, word_size, add64, sub64, shl64, add64_eq, shl64_eq,
}
use riscv_mte.Bits.{exponent_of_lt, two_pow_lt, div-two-pow-suc, mod-two-pow-suc}
use riscv_mte.Common.{
  is_power_of_two, leading_zeros, trailing_zeros, get_most_significant_set_bit_index,
  round_up_power_of_two, get_least_significant_set_bit_index, get_log2,
}
use riscv_mte.Common.Align.{two_pow-is_power_of_two}

-- The number of leading zeros places the number between two powers of two.
leading_zeros_bounds :
    (w x : ℕ)
    → 0 < x
    → x < 2 ^ w
    → (leading_zeros w x < w)
      × (2 ^ (w - 1 - leading_zeros w x) ≤ x)
      × (x < 2 ^ (w - leading_zeros w x))
unfolding leading_zeros
leading_zeros_bounds zero x pos h = absurd (omega arith)
leading_zeros_bounds (suc w) x pos h = ground (arith, leading_zeros_bounds w x)

-- For a number that is not 0 and below 2 ^ 64, `getMostSignificantSetBitIndex` is below 64 and is
-- the number's logarithm: 2 to the power of the index is not above the number, and the next power
-- of two is above it.
pub most_significant_bounds :
    (x : ℕ)
    → 0 < x
    → x < u64_mod
    → (get_most_significant_set_bit_index x < 64)
      × (2 ^ get_most_significant_set_bit_index x ≤ x)
      × (x < 2 ^ (get_most_significant_set_bit_index x + 1))
unfolding get_most_significant_set_bit_index
most_significant_bounds x pos h =
    let (fewer, low, high) = leading_zeros_bounds 64 x pos h in
    rw (index fewer) (omega arith, low, rw (next fewer) high)
  where
    index :
        leading_zeros 64 x < 64
        → sub64 (sub64 word_size 1) (leading_zeros word_size x) ≡ 64 - 1 - leading_zeros 64 x
    index fewer = unfold sub64 in omega arith

    next : leading_zeros 64 x < 64 → 64 - 1 - leading_zeros 64 x + 1 ≡ 64 - leading_zeros 64 x
    next fewer = omega arith

-- Where the size is no power of two, the next one is above it, and fits.
next_power :
    (size : ℕ)
    → 0 < size
    → size ≤ 2 ^ 63
    → is_power_of_two size ≡ false
    → (is_power_of_two (shl64 1 (add64 (get_most_significant_set_bit_index size) 1)) ≡ true)
      × (size ≤ shl64 1 (add64 (get_most_significant_set_bit_index size) 1))
      × (shl64 1 (add64 (get_most_significant_set_bit_index size) 1) < 2 * size)
next_power size pos h other =
    let m = get_most_significant_set_bit_index size in
    let (m_fits, low, high) = most_significant_bounds size pos (omega arith) in
    let above : 2 ^ m < size =
      ground (arith, ap is_power_of_two {x = size} {y = 2 ^ m}, two_pow-is_power_of_two m m_fits) in
    let m_lt = exponent_of_lt m 63 (omega arith) in
    let value : shl64 1 (add64 m 1) ≡ 2 ^ (m + 1) =
      ap (shl64 1) (add64_eq m 1 (omega arith))
      ∙ shl64_eq 1 (m + 1) (omega (arith, two_pow_lt (m + 1) 64 (omega arith)))
      ∙ one-mul (2 ^ (m + 1)) in
    let twice : 2 ^ (m + 1) ≡ 2 ^ m * 2 = ap (λ (t : ℕ). 2 ^ t) (omega arith) ∙ pow-suc 2 m in
    rw value (two_pow-is_power_of_two (m + 1) (omega arith), omega arith, omega arith)

-- For a size from 1 to 2 ^ 63, `roundUpPowerOfTwo` gives a power of two that is not below the size
-- and less than twice the size.
pub round_up_power_of_two_lem :
    (size : ℕ)
    → 0 < size
    → size ≤ 2 ^ 63
    → (is_power_of_two (round_up_power_of_two size) ≡ true)
      × (size ≤ round_up_power_of_two size)
      × (round_up_power_of_two size < 2 * size)
unfolding round_up_power_of_two
round_up_power_of_two_lem size pos h = elim (Bool-cases (is_power_of_two size)) [
  | inl power ↦ rw power (power, omega arith, omega arith)
  | inr other ↦ rw other (next_power size pos h other)
]

pub trailing_zeros_lem :
    (w x : ℕ)
    → 0 < x
    → x < 2 ^ w
    → (trailing_zeros w x < w)
      × (x / 2 ^ trailing_zeros w x % 2 ≡ 1)
      × (x % 2 ^ trailing_zeros w x ≡ 0)
unfolding trailing_zeros
trailing_zeros_lem zero x pos h = absurd (omega arith)
trailing_zeros_lem (suc w) x pos h = elim (Bool-cases (x % 2 == 1)) [
  | inl odd ↦ rw odd (omega arith, ground arith, omega arith)
  | inr even ↦
      let halved : x % 2 ≡ 0 = ground arith in
      let (fewer, top, rest) =
        trailing_zeros_lem w (x / 2) (omega arith) (omega (arith, pow-suc 2 w)) in
      rw even (
        omega arith,
        ap (λ (t : ℕ). t % 2) (div-two-pow-suc x (trailing_zeros w (x / 2))) ∙ top,
        omega (arith, mod-two-pow-suc x (trailing_zeros w (x / 2))),
      )
]

-- For a number that is not 0 and below 2 ^ 64, `getLeastSignificantSetBitIndex` is below 64, the
-- bit at the index is set, and all bits below it are clear.
pub least_significant_lem :
    (x : ℕ)
    → 0 < x
    → x < u64_mod
    → (get_least_significant_set_bit_index x < 64)
      × (x / 2 ^ get_least_significant_set_bit_index x % 2 ≡ 1)
      × (x % 2 ^ get_least_significant_set_bit_index x ≡ 0)
unfolding get_least_significant_set_bit_index
least_significant_lem x pos h = trailing_zeros_lem 64 x pos h

-- The power with the number of trailing zeros of 2 ^ k for its exponent is 2 ^ k.
trailing_zeros-two_pow : (w k : ℕ) → k < w → trailing_zeros w (2 ^ k) ≡ k
unfolding trailing_zeros
trailing_zeros-two_pow zero k h = absurd (omega arith)
trailing_zeros-two_pow (suc w) zero h = refl
trailing_zeros-two_pow (suc w) (suc k) h =
    let halved : 2 ^ suc k / 2 ≡ 2 ^ k = omega (arith, pow-suc 2 k) in
    ground
      (arith, pow-suc 2 k, ap (trailing_zeros w) halved, trailing_zeros-two_pow w k (omega arith))

-- `getLog2` of 2 to the power of an exponent below 64 is the exponent.
pub get_log2-two_pow : (k : ℕ) → k < 64 → get_log2 (2 ^ k) ≡ k
unfolding get_log2 get_least_significant_set_bit_index
get_log2-two_pow k h = trailing_zeros-two_pow 64 k h
