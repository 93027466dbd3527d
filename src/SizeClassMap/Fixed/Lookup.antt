-- ===== src/SizeClassMap/Fixed/Lookup.antt =====
-- getClassIdBySize of LLVM_SCUDO_MTE/size_class_map.h.
use native.Mathlib.Nat.{
  one-le-pow, pow-suc, div-mul-le_self, lt-div-mul-add, div-lt_iff_lt-mul, le-div_iff_mul-le,
  div-le_self, mul-le-mul_right,
}
use mathlib.Core.Path.{subst}
use riscv_mte.Base.{
  ℕ, zero, suc, ◌+◌, ◌-◌, ◌*◌, ◌/◌, ◌^◌, ◌≤◌, ◌<◌, ◌≡◌, refl, ap, leb→le, ◌∙◌, ◌⊎◌, inl, inr, arith,
  Bool-cases, leb, if◌then◌else◌, add64, sub64, shl64, shr, add64_eq, sub64_eq, shl64_eq,
}
use riscv_mte.Bits.{two_pow_add, exponent_of_lt}
use riscv_mte.Common.{get_most_significant_set_bit_index}
use riscv_mte.Common.Index.{most_significant_bounds}
use riscv_mte.SizeClassMap.Geometry.{
  step_size, spacing, spacing-parts, step_size-parts, step_size-suc,
}
use riscv_mte.SizeClassMap.{
  Config, scaled_log2, min_size, mid_size, mid_class, low_width, max_size, num_classes,
  get_size_by_class_id, get_class_id_by_size,
}
use riscv_mte.SizeClassMap.Fixed.{
  IsValid, linear_classes, low_bits, steps, low_width-eq, min_size-eq, mid_size-eq, mid_class-eq,
  mid-split, num_classes-eq, max_size-eq, size-linear, size-step, few, bits_le, steps-eq,
  two_pow_le_bound,
}

module _ (c : Config) (v : IsValid c) where
  -- Where a size lies among the steps.
  record IsStep (x j : ℕ) : Type 0 where
    in_range : j < steps c v
    above : step_size (low_bits c v) c.mid_size_log j ≤ x
    below : x < step_size (low_bits c v) c.mid_size_log (j + 1)

  -- The step of a number by its leading bit `l` and the bits behind it.
  IsStep-of_bits :
      (x l : ℕ)
      → c.mid_size_log ≤ l
      → l < c.max_size_log
      → 2 ^ l ≤ x
      → x < 2 ^ (l + 1)
      → (2 ^ low_bits c v ≤ x / 2 ^ (l - low_bits c v))
        × IsStep x (
            (l - c.mid_size_log) * 2 ^ low_bits c v
            + (x / 2 ^ (l - low_bits c v) - 2 ^ low_bits c v))
  IsStep-of_bits x l mid_le lt low high =
      let s = low_bits c v in
      let e = 2 ^ (l - s) in
      let q = x / e in
      let e_pos : 0 < e = one-le-pow (l - s) 2 (omega arith) in
      let lead : 2 ^ l ≡ 2 ^ s * e =
        ap (λ (t : ℕ). 2 ^ t) (omega (arith, bits_le c v)) ∙ two_pow_add s (l - s) in
      let next : 2 ^ (l + 1) ≡ 2 ^ l * 2 = ap (λ (t : ℕ). 2 ^ t) (omega arith) ∙ pow-suc 2 l in
      let q_low : 2 ^ s ≤ q = (le-div_iff_mul-le e_pos).1 (omega arith) in
      let q_high : q < 2 * 2 ^ s = (div-lt_iff_lt-mul e_pos).1 (omega arith) in
      let a = l - c.mid_size_log in
      let j = a * 2 ^ s + (q - 2 ^ s) in
      let same : 2 ^ (a + (c.mid_size_log - s)) ≡ e =
        ap (λ (t : ℕ). 2 ^ t) (omega (arith, bits_le c v)) in
      let size : step_size s c.mid_size_log j ≡ q * e =
        step_size-parts s c.mid_size_log a (q - 2 ^ s) (omega arith)
        ∙ ap (λ (t : ℕ). (2 ^ s + (q - 2 ^ s)) * t) same
        ∙ ap (λ (t : ℕ). t * e) (omega arith) in
      let apart : spacing s c.mid_size_log j ≡ e =
        spacing-parts s c.mid_size_log a (q - 2 ^ s) (omega arith) ∙ same in
      (
        q_low,
        record {
          in_range = omega (
            arith,
            mul-le-mul_right {m = a + 1} {n = c.max_size_log - c.mid_size_log} (2 ^ s)
                (omega arith),
            steps-eq c v,
          );
          above = omega (arith, div-mul-le_self x e);
          below = omega (arith, step_size-suc s c.mid_size_log j, lt-div-mul-add {a = x} e_pos);
        },
      )

  -- The number that `scaledLog2` gives for a size behind `MidSize` is its step.
  scaled_log2-IsStep :
      (x : ℕ)
      → 2 ^ c.mid_size_log ≤ x
      → x < 2 ^ c.max_size_log
      → IsStep x (scaled_log2 x c.mid_size_log (low_bits c v))
  unfolding scaled_log2
  scaled_log2-IsStep x low high =
      let s = low_bits c v in
      let l = get_most_significant_set_bit_index x in
      let top : 2 ^ c.max_size_log ≤ 2 ^ 40 = two_pow_le_bound c v c.max_size_log (omega arith) in
      let (l_fits, l_low, l_high) =
        most_significant_bounds x (omega (arith, one-le-pow c.mid_size_log 2)) (omega arith) in
      let l_lt : l < c.max_size_log = exponent_of_lt l c.max_size_log (omega arith) in
      let l_ge : c.mid_size_log < l + 1 = exponent_of_lt c.mid_size_log (l + 1) (omega arith) in
      let (q_low, is) = IsStep-of_bits x l (omega arith) l_lt l_low l_high in
      let q = x / 2 ^ (l - s) in
      let a = l - c.mid_size_log in
      let j_small : a * 2 ^ s + (q - 2 ^ s) < 256 = omega (arith, is.in_range, few c v) in
      let low_part : sub64 (shr x (sub64 l s)) (2 ^ s) ≡ q - 2 ^ s =
        ap (λ (t : ℕ). sub64 (shr x t) (2 ^ s))
          (sub64_eq l s (omega (arith, bits_le c v)) (omega arith))
        ∙ sub64_eq q (2 ^ s) q_low (omega (arith, div-le_self x (2 ^ (l - s)))) in
      let high_part : shl64 (sub64 l c.mid_size_log) s ≡ a * 2 ^ s =
        ap (λ (t : ℕ). shl64 t s) (sub64_eq l c.mid_size_log (omega arith) (omega arith))
        ∙ shl64_eq a s (omega arith) in
      let sum : add64 (q - 2 ^ s) (a * 2 ^ s) ≡ a * 2 ^ s + (q - 2 ^ s) =
        add64_eq (q - 2 ^ s) (a * 2 ^ s) (omega arith) ∙ omega arith in
      rw (low_part, high_part, sum) is

  -- The class is the smallest one that fits the size: it is in range, the size fits it, and does not
  -- fit the class below.
  pub record IsSmallestClass (size id : ℕ) : Type 0 where
    pub some_class : 0 < id
    pub in_range : id < num_classes c
    pub fits : size ≤ get_size_by_class_id c id
    pub tight : (id ≡ 1) ⊎ (get_size_by_class_id c (id - 1) < size)

  linear_pos : 0 < linear_classes c v
  linear_pos = unfold linear_classes in one-le-pow (c.mid_size_log - c.min_size_log) 2 (omega arith)

  smallest_first : (size : ℕ) → size ≤ c.size_delta + 2 ^ c.min_size_log → IsSmallestClass size 1
  smallest_first size h = record {
    some_class = omega arith;
    in_range = omega (arith, num_classes-eq c v, linear_pos);
    fits = omega (arith, size-linear c v 1 linear_pos);
    tight = inl refl;
  }

  -- A size up to `MidSize` is rounded up to a multiple of `MinSize`.
  smallest_linear :
      (rest : ℕ)
      → 0 < rest
      → rest ≤ 2 ^ c.mid_size_log
      → IsSmallestClass (rest + c.size_delta) ((rest + 2 ^ c.min_size_log - 1) / 2 ^ c.min_size_log)
  smallest_linear rest pos h =
      let m = 2 ^ c.min_size_log in
      let m_pos : 0 < m = one-le-pow c.min_size_log 2 (omega arith) in
      let id = (rest + m - 1) / m in
      let down = div-mul-le_self (rest + m - 1) m in
      let up = lt-div-mul-add {a = rest + m - 1} m_pos in
      let id_le : id ≤ linear_classes c v =
        let below : id < linear_classes c v + 1 =
          (div-lt_iff_lt-mul m_pos).1 (omega (arith, mid-split c v)) in
        omega arith in
      let id_pos : 0 < id = (le-div_iff_mul-le m_pos).1 (omega arith) in
      let pred : (id - 1) * m + m ≡ id * m =
        omega (arith, ap (λ (t : ℕ). t * m) {x = id} {y = id - 1 + 1} (omega arith)) in
      record {
        some_class = id_pos;
        in_range = omega (arith, num_classes-eq c v);
        fits = omega (arith, size-linear c v id id_le);
        tight = inr (omega (arith, size-linear c v (id - 1) (omega arith)));
      }

  -- A larger size is in the class behind its step.
  smallest_step :
      (x j : ℕ)
      → 2 ^ c.mid_size_log ≤ x
      → IsStep x j
      → IsSmallestClass (suc x + c.size_delta) (linear_classes c v + (j + 1))
  smallest_step x zero low is = record {
    some_class = omega arith;
    in_range = omega (arith, num_classes-eq c v, is.in_range);
    fits = omega (arith, size-step c v 1 (omega arith) is.in_range, is.below);
    tight = inr (
        omega (
          arith,
          size-linear c v (linear_classes c v) (omega arith),
          mid-split c v,
          ap (get_size_by_class_id c) {x = linear_classes c v + (0 + 1) - 1}
              {y = linear_classes c v} (omega arith),
        ));
  }
  smallest_step x (suc j) low is = record {
    some_class = omega arith;
    in_range = omega (arith, num_classes-eq c v, is.in_range);
    fits =
        omega
          (arith, size-step c v (suc j + 1) (omega arith) (omega (arith, is.in_range)), is.below);
    tight = inr (
        omega (
          arith,
          is.above,
          size-step c v (suc j) (omega arith) (omega (arith, is.in_range)),
          ap (get_size_by_class_id c) {x = linear_classes c v + (suc j + 1) - 1}
              {y = linear_classes c v + suc j} (omega arith),
        ));
  }

  top_fits : 2 ^ c.max_size_log ≤ 2 ^ 40
  top_fits = two_pow_le_bound c v c.max_size_log (omega arith)

  min_fits : 2 ^ c.min_size_log ≤ 2 ^ 40
  min_fits = two_pow_le_bound c v c.min_size_log (omega (arith, v.min_le, v.mid_le))

  -- The class of a size behind the first class, without its delta.
  abbrev rest_class : ℕ → ℕ
  rest_class rest =
      if leb rest (mid_size c)
      then shr (sub64 (add64 rest (min_size c)) 1) c.min_size_log
      else add64 (add64 (mid_class c) 1) (scaled_log2 (sub64 rest 1) c.mid_size_log (low_width c))

  smallest_rest :
      (rest : ℕ)
      → 0 < rest
      → rest ≤ 2 ^ c.max_size_log
      → IsSmallestClass (rest + c.size_delta) (rest_class rest)
  smallest_rest rest pos h = elim (Bool-cases (leb rest (mid_size c))) [
    | inl small ↦
        let le : rest ≤ 2 ^ c.mid_size_log =
          rw (mid_size-eq c v) at (leb→le rest (mid_size c) small) in
        let m = 2 ^ c.min_size_log in
        let sum : sub64 (add64 rest (min_size c)) 1 ≡ rest + m - 1 =
          ap (λ (t : ℕ). sub64 (add64 rest t) 1) (min_size-eq c v)
          ∙ ap (λ (t : ℕ). sub64 t 1) (add64_eq rest m (omega (arith, top_fits, min_fits)))
          ∙ sub64_eq (rest + m) 1 (omega arith) (omega (arith, top_fits, min_fits)) in
        rw (small, sum) (smallest_linear rest pos le)
    | inr large ↦
        let gt : 2 ^ c.mid_size_log < rest = ground (arith, mid_size-eq c v) in
        let last : sub64 rest 1 ≡ rest - 1 = sub64_eq rest 1 pos (omega (arith, top_fits)) in
        let is = scaled_log2-IsStep (rest - 1) (omega arith) (omega arith) in
        let j = scaled_log2 (rest - 1) c.mid_size_log (low_bits c v) in
        let id : add64 (add64 (mid_class c) 1) j ≡ linear_classes c v + (j + 1) =
          ap (λ (t : ℕ). add64 (add64 t 1) j) (mid_class-eq c v)
          ∙ ap (λ (t : ℕ). add64 t j) (add64_eq (linear_classes c v) 1 (omega (arith, few c v)))
          ∙ add64_eq (linear_classes c v + 1) j (omega (arith, few c v, is.in_range))
          ∙ omega arith in
        let whole : suc (rest - 1) + c.size_delta ≡ rest + c.size_delta = omega arith in
        rw (large, last, low_width-eq c v, id)
          (subst (λ (t : ℕ). IsSmallestClass t (linear_classes c v + (j + 1))) whole
            (smallest_step (rest - 1) j (omega arith) is))
  ]

  -- For every configuration whose constants fit (IsValid): for every size up to `MaxSize`,
  -- `getClassIdBySize` answers with the smallest class that fits: a class from 1 up to the last
  -- one, whose size is not below the size asked for, and, if there is a class from 1 on below it,
  -- that one is too small.
  pub class_id_smallest :
      (size : ℕ) → size ≤ max_size c → IsSmallestClass size (get_class_id_by_size c size)
  unfolding get_class_id_by_size
  class_id_smallest size h =
      let first : add64 c.size_delta (2 ^ c.min_size_log) ≡ c.size_delta + 2 ^ c.min_size_log =
        add64_eq c.size_delta (2 ^ c.min_size_log) (omega (arith, min_fits, v.delta_le)) in
      elim (Bool-cases (leb size (add64 c.size_delta (2 ^ c.min_size_log)))) [
        | inl small ↦ rw small (smallest_first size (rw first at (leb→le size _ small)))
        | inr large ↦
            let gt : c.size_delta + 2 ^ c.min_size_log < size = ground (arith, first) in
            let le : size ≤ 2 ^ c.max_size_log + c.size_delta = rw (max_size-eq c v) at h in
            let rest : sub64 size c.size_delta ≡ size - c.size_delta =
              sub64_eq size c.size_delta (omega arith) (omega (arith, top_fits, v.delta_le)) in
            let whole : size - c.size_delta + c.size_delta ≡ size = omega arith in
            rw (large, rest)
              (subst (λ (t : ℕ). IsSmallestClass t (rest_class (size - c.size_delta))) whole
                (smallest_rest (size - c.size_delta) (omega arith) (omega arith)))
      ]
