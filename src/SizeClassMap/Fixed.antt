-- ===== src/SizeClassMap/Fixed.antt =====
-- `FixedSizeClassMap` for every configuration whose constants fit: the values of its constants, and
-- the sizes of its classes.
pub mod Lookup
pub mod Inverse
use native.Mathlib.Nat.{
  mul-le-mul_right, one-le-pow, one-mul, pow-le-pow_right, mul-div_cancel, mul-div_right, mul_comm,
  div-mul-le_self, div-le_of_le-mul, le_trans,
}
use riscv_mte.Base.{
  ℕ, zero, suc, ◌+◌, ◌-◌, ◌*◌, ◌/◌, ◌%◌, ◌^◌, ◌≤◌, ◌<◌, ◌≡◌, refl, sym, ap, ◌∙◌, true, false, arith,
  u64_mod, bit_and, leb, ltb, if◌then◌else◌, add64, sub64, mul64, shl64, shr, u8, add64_eq,
  sub64_eq, mul64_eq, shl64_eq,
}
use riscv_mte.Bits.{two_pow_add, bit_and-low_mask}
use riscv_mte.SizeClassMap.Geometry.{
  step_size, step_size-eq, spacing, step_size-parts, step_size_mono, step_size-top, step_size-suc,
  spacing-pos,
}
use riscv_mte.SizeClassMap.{
  Config, min_size, mid_size, mid_class, low_width, low_mask, max_size, num_classes,
  largest_class_id, get_size_by_class_id,
}

-- What the template asks of a configuration, with 2 ^ 40 for a bound of the sizes.
pub record IsValid (c : Config) : Type 0 where
  pub some_bits : 0 < c.num_bits
  pub few_bits : c.num_bits ≤ 64
  pub bits_fit : c.num_bits ≤ c.mid_size_log + 1
  pub min_le : c.min_size_log ≤ c.mid_size_log
  pub mid_le : c.mid_size_log ≤ c.max_size_log
  pub max_le : c.max_size_log ≤ 40
  pub delta_le : c.size_delta ≤ 2 ^ 40
  pub classes_le :
      2 ^ (c.mid_size_log - c.min_size_log)
        + (c.max_size_log - c.mid_size_log) * 2 ^ (c.num_bits - 1)
        + 1
      ≤ 256

module _ (c : Config) (v : IsValid c) where
  -- The number of classes up to `MidSize`, of the steps behind it, and of the low bits.
  pub linear_classes : ℕ
  linear_classes = 2 ^ (c.mid_size_log - c.min_size_log)

  pub low_bits : ℕ
  low_bits = c.num_bits - 1

  pub steps : ℕ
  steps = (c.max_size_log - c.mid_size_log) * 2 ^ low_bits

  pub steps-eq : steps ≡ (c.max_size_log - c.mid_size_log) * 2 ^ low_bits
  unfolding steps
  steps-eq = refl

  pub two_pow_le_bound : (k : ℕ) → k ≤ c.max_size_log → 2 ^ k ≤ 2 ^ 40
  two_pow_le_bound k h = pow-le-pow_right {n = 2} (omega arith) {j = 40} (omega (arith, v.max_le))

  pub low_width-eq : low_width c ≡ low_bits
  unfolding low_width low_bits
  low_width-eq = omega (arith, sub64_eq c.num_bits 1 v.some_bits, v.few_bits)

  shl64-one : (k : ℕ) → k ≤ c.max_size_log → shl64 1 k ≡ 2 ^ k
  shl64-one k h = shl64_eq 1 k (omega (arith, two_pow_le_bound k h)) ∙ one-mul (2 ^ k)

  pub min_size-eq : min_size c ≡ 2 ^ c.min_size_log
  unfolding min_size
  min_size-eq = shl64-one c.min_size_log (omega arith)

  pub mid_size-eq : mid_size c ≡ 2 ^ c.mid_size_log
  unfolding mid_size
  mid_size-eq = shl64-one c.mid_size_log (omega arith)

  pub min_pos : 0 < 2 ^ c.min_size_log
  min_pos = one-le-pow c.min_size_log 2 (omega arith)

  pub mid-split : 2 ^ c.mid_size_log ≡ linear_classes * 2 ^ c.min_size_log
  unfolding linear_classes
  mid-split =
      ap (λ (t : ℕ). 2 ^ t) (omega arith)
      ∙ two_pow_add (c.mid_size_log - c.min_size_log) c.min_size_log

  pub mid_class-eq : mid_class c ≡ linear_classes
  unfolding mid_class
  mid_class-eq =
      rw (mid_size-eq, min_size-eq, mid-split)
        (mul-div_cancel linear_classes (one-le-pow c.min_size_log 2 (omega arith)))

  pub max_size-eq : max_size c ≡ 2 ^ c.max_size_log + c.size_delta
  unfolding max_size
  max_size-eq =
      rw (shl64-one c.max_size_log (omega arith)) (
        add64_eq (2 ^ c.max_size_log) c.size_delta (omega (arith, two_pow_le_bound c.max_size_log)))

  low_bits-lt : 2 ^ low_bits ≤ 2 ^ 40
  low_bits-lt = two_pow_le_bound low_bits (unfold low_bits in omega arith)

  pub low_mask-eq : low_mask c ≡ 2 ^ low_bits - 1
  unfolding low_mask
  low_mask-eq =
      rw (low_width-eq, shl64-one low_bits (unfold low_bits in omega arith))
        (sub64_eq (2 ^ low_bits) 1 (one-le-pow low_bits 2 (omega arith))
          (omega (arith, low_bits-lt)))

  pub few : linear_classes + steps + 1 ≤ 256
  unfolding linear_classes steps low_bits
  few = v.classes_le

  pub bits_le : low_bits ≤ c.mid_size_log
  unfolding low_bits
  bits_le = omega (arith, v.bits_fit)

  pub num_classes-eq : num_classes c ≡ linear_classes + steps + 1
  unfolding num_classes steps
  num_classes-eq =
      rw
        (
          mid_class-eq,
          low_width-eq,
          sub64_eq c.max_size_log c.mid_size_log v.mid_le (omega (arith, v.max_le)),
        )
        (rw (shl64_eq (c.max_size_log - c.mid_size_log) low_bits (omega (arith, few))) (
          rw (add64_eq linear_classes steps (omega (arith, few)))
            (add64_eq (linear_classes + steps) 1 (omega (arith, few)))))

  -- The smaller classes lie `MinSize` bytes apart.
  linear-le : (id : ℕ) → id ≤ linear_classes → id * 2 ^ c.min_size_log ≤ 2 ^ c.mid_size_log
  linear-le id h = rw mid-split (mul-le-mul_right (2 ^ c.min_size_log) h)

  pub size-linear :
      (id : ℕ)
      → id ≤ linear_classes
      → get_size_by_class_id c id ≡ id * 2 ^ c.min_size_log + c.size_delta
  unfolding get_size_by_class_id
  size-linear id h =
      let small : leb id (mid_class c) ≡ true = rw mid_class-eq (ground arith) in
      let fits : 2 ^ c.mid_size_log ≤ 2 ^ 40 = two_pow_le_bound c.mid_size_log v.mid_le in
      rw (small, shl64_eq id c.min_size_log (omega (arith, linear-le id h)))
        (add64_eq (id * 2 ^ c.min_size_log) c.size_delta
          (omega (arith, linear-le id h, v.delta_le)))

  -- The size of the last step is `MaxSize`.
  pub step_size-last : step_size low_bits c.mid_size_log steps ≡ 2 ^ c.max_size_log
  unfolding steps
  step_size-last =
      step_size-top low_bits c.mid_size_log (c.max_size_log - c.mid_size_log) bits_le
      ∙ ap (λ (t : ℕ). 2 ^ t) (omega (arith, v.mid_le))

  pub step_size-le : (j : ℕ) → j ≤ steps → step_size low_bits c.mid_size_log j ≤ 2 ^ 40
  step_size-le j h = omega (
    arith,
    step_size_mono low_bits c.mid_size_log j steps h,
    step_size-last,
    two_pow_le_bound c.max_size_log,
  )

  -- The code's sum for a step, whose leading bit is `t`.
  step-arithmetic :
      (j : ℕ)
      → j ≤ steps
      → add64
          (add64 (shl64 (2 ^ c.mid_size_log) (j / 2 ^ low_bits)) (
            mul64
              (shl64 (2 ^ c.mid_size_log) (j / 2 ^ low_bits) / 2 ^ low_bits)
              (j % 2 ^ low_bits)))
          c.size_delta
        ≡ step_size low_bits c.mid_size_log j + c.size_delta
  step-arithmetic j h =
      let p = 2 ^ low_bits in
      let a = j / p in
      let r = j % p in
      let e = 2 ^ (a + (c.mid_size_log - low_bits)) in
      let size = step_size-eq low_bits c.mid_size_log j in
      let bound = step_size-le j h in
      let lead : 2 ^ c.mid_size_log * 2 ^ a ≡ p * e =
        sym (two_pow_add c.mid_size_log a)
        ∙ ap (λ (t : ℕ). 2 ^ t) (omega (arith, bits_le))
        ∙ two_pow_add low_bits (a + (c.mid_size_log - low_bits)) in
      let quotient : p * e / p ≡ e = mul-div_right e (one-le-pow low_bits 2 (omega arith)) in
      rw
        (
          shl64_eq (2 ^ c.mid_size_log) a (omega (arith, lead)),
          lead,
          quotient,
          mul64_eq e r (omega arith),
          add64_eq (p * e) (e * r) (omega arith),
        )
        (add64_eq (p * e + e * r) c.size_delta (omega (arith, v.delta_le)) ∙ omega arith)

  -- The larger classes are the steps.
  pub size-step :
      (j : ℕ)
      → 0 < j
      → j ≤ steps
      → get_size_by_class_id c (linear_classes + j)
        ≡ step_size low_bits c.mid_size_log j + c.size_delta
  unfolding get_size_by_class_id
  size-step j pos h =
      let large : leb (linear_classes + j) (mid_class c) ≡ false = rw mid_class-eq (ground arith) in
      let rest : sub64 (linear_classes + j) (mid_class c) ≡ j = rw mid_class-eq (
        sub64_eq (linear_classes + j) linear_classes (omega arith) (omega (arith, few))
        ∙ omega arith) in
      rw (large, rest, low_width-eq, mid_size-eq, low_mask-eq, bit_and-low_mask low_bits j)
        (step-arithmetic j h)

  pub num_classes-le : num_classes c ≤ 256
  unfolding linear_classes steps low_bits
  num_classes-le = omega (arith, num_classes-eq, v.classes_le)
