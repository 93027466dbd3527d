-- ===== src/Release/PageMap/Reset.antt =====
-- `reset` of RegionPageMap of LLVM_SCUDO_MTE/release.h.
use native.Mathlib.Nat.{
  one-le-pow, div-add-mod', pow-le-pow_right, mul-le-mul_right, mul-le-mul_left, one-mul,
  div-le_self,
}
use riscv_mte.Base.{
  ℕ, ◌+◌, ◌-◌, ◌*◌, ◌/◌, ◌^◌, ◌≤◌, ◌<◌, ◌≡◌, refl, sym, ap, ◌∙◌, arith, u64_mod, add64, add64_eq,
  shl64, shl64_eq, all_ones, sub64, sub64_eq, quotient_lem,
}
use riscv_mte.Bits.{two_pow_add, exponent_of_lt}
use riscv_mte.Common.{get_most_significant_set_bit_index, round_up_power_of_two, round_up}
use riscv_mte.Common.Align.{exponent, round_up_lem, two_pow-is_power_of_two}
use riscv_mte.Common.Index.{most_significant_bounds, round_up_power_of_two_lem, get_log2-two_pow}
use riscv_mte.Release.PageMap.{reset, layout}
use riscv_mte.Release.PageMap.Counters.{IsLayout}

module _ (max_value : ℕ) (pos : 0 < max_value) (small : max_value < u64_mod) where
  abbrev counter_bits : ℕ
  counter_bits = round_up_power_of_two (add64 (get_most_significant_set_bit_index max_value) 1)

  -- The size of a counter is a power of two of at most 64 bits, and holds the greatest value.
  counter_bits_lem : (k : ℕ) × (counter_bits ≡ 2 ^ k) × (k ≤ 6) × (max_value < 2 ^ 2 ^ k)
  counter_bits_lem =
      let msb = get_most_significant_set_bit_index max_value in
      let (lt, low, high) = most_significant_bounds max_value pos small in
      let size : add64 msb 1 ≡ msb + 1 = add64_eq msb 1 (omega arith) in
      let (power, le, twice) = round_up_power_of_two_lem (msb + 1) (omega arith) (omega arith) in
      let (k, e, k_lt) = exponent (round_up_power_of_two (msb + 1)) power (omega arith) in
      let le6 : k < 7 = exponent_of_lt k 7 (omega arith) in
      let wide : 2 ^ (msb + 1) ≤ 2 ^ 2 ^ k =
        pow-le-pow_right (omega arith) {i = msb + 1} (omega arith) in
      (k, ap round_up_power_of_two size ∙ e, omega arith, omega arith)

module _ (regions counters : ℕ) (fits : regions * (counters + 64) < u64_mod)
    (some_region : 0 < regions) where
  counters_fit : counters + 64 < u64_mod
  counters_fit =
      let le : 1 * (counters + 64) ≤ regions * (counters + 64) =
        mul-le-mul_right {m = 1} {n = regions} (counters + 64) some_region in
      omega arith

  -- The words of a region.
  module _ (r : ℕ) (le : r ≤ 6) where
    power_le : 2 ^ r ≤ 64
    power_le = pow-le-pow_right {n = 2} (omega arith) {j = 6} le

    abbrev boundary : ℕ
    boundary = 2 ^ r

    abbrev rounded : ℕ
    rounded = round_up counters (shl64 1 r)

    boundary_eq : shl64 1 r ≡ boundary
    boundary_eq = shl64_eq 1 r (omega (arith, power_le)) ∙ one-mul (2 ^ r)

    words_lem : (counters ≤ rounded / 2 ^ r * 2 ^ r) × (rounded / 2 ^ r ≤ counters + 64)
    words_lem =
        let power = two_pow-is_power_of_two r (omega arith) in
        let (low, high, divides) =
          round_up_lem counters boundary power (omega (arith, power_le))
            (omega (arith, counters_fit, power_le)) in
        rw boundary_eq (
          omega (arith, low, divides, div-add-mod' (round_up counters boundary) boundary),
          omega (
            arith,
            high,
            counters_fit,
            power_le,
            div-le_self (round_up counters boundary) boundary,
          ),
        )

  module _ (k : ℕ) (le : k ≤ 6) where
    ratio_eq : 64 / 2 ^ k ≡ 2 ^ (6 - k)
    ratio_eq =
        let whole : ◌≡◌ {A = ℕ} 64 (2 ^ (6 - k) * 2 ^ k + 0) =
          ap (λ (t : ℕ). 2 ^ t) {x = 6} {y = 6 - k + k} (omega arith)
          ∙ two_pow_add (6 - k) k
          ∙ omega arith in
        ap (λ (t : ℕ). t / 2 ^ k) whole
        ∙ quotient_lem (2 ^ (6 - k)) (2 ^ k) 0 (one-le-pow k 2 (omega arith))

    mask_eq : all_ones / 2 ^ sub64 64 (2 ^ k) ≡ 2 ^ 2 ^ k - 1
    mask_eq =
        let c = 2 ^ k in
        let rest = 64 - c in
        let product : 2 ^ c * 2 ^ rest ≡ u64_mod =
          sym (two_pow_add c rest)
          ∙ ap (λ (t : ℕ). 2 ^ t) {y = 64} (omega (arith, power_le k le)) in
        let back : 2 ^ c - 1 + 1 ≡ 2 ^ c = omega (arith, one-le-pow c 2) in
        let split : all_ones ≡ (2 ^ c - 1) * 2 ^ rest + (2 ^ rest - 1) =
          omega (arith, product, ap (λ (t : ℕ). t * 2 ^ rest) back, one-le-pow rest 2) in
        ap (λ (t : ℕ). all_ones / 2 ^ t) (sub64_eq 64 c (power_le k le) (omega arith))
        ∙ ap (λ (t : ℕ). t / 2 ^ rest) split
        ∙ quotient_lem (2 ^ c - 1) (2 ^ rest) (2 ^ rest - 1) (omega (arith, one-le-pow rest 2))

    layout-IsLayout : IsLayout (layout regions counters (2 ^ k))
    unfolding layout
    layout-IsLayout =
        let (enough, few) = words_lem (6 - k) (omega arith) in
        rw (get_log2-two_pow k (omega arith)) (
          rw ratio_eq (
            rw (get_log2-two_pow (6 - k) (omega arith)) (record {
              log_le = le;
              mask_eq = mask_eq;
              ratio_eq = refl;
              offset_mask_eq =
                  sub64_eq (2 ^ (6 - k)) 1 (one-le-pow (6 - k) 2 (omega arith))
                    (omega (arith, power_le (6 - k) (omega arith)));
              room = enough;
              fits = omega (arith, fits, mul-le-mul_left regions few);
            })))

    layout-counter_mask : (layout regions counters (2 ^ k)).counter_mask ≡ 2 ^ 2 ^ k - 1
    unfolding layout
    layout-counter_mask = mask_eq

  -- For a positive greatest value below 2 ^ 64, at least one region, and regions * (counters + 64)
  -- below 2 ^ 64, `reset` gives counters of 1, 2, 4 up to 64 bits side by side in the words, words
  -- enough for the counters of every region (IsLayout), and a mask that is not below the greatest
  -- value.
  pub reset-IsLayout :
      (max_value : ℕ)
      → 0 < max_value
      → max_value < u64_mod
      → IsLayout (reset regions counters max_value)
        × (max_value ≤ (reset regions counters max_value).counter_mask)
  unfolding reset
  reset-IsLayout max_value pos small =
      let (k, e, le, holds) = counter_bits_lem max_value pos small in
      rw e (layout-IsLayout k le, omega (arith, layout-counter_mask k le))
