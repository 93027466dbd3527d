-- ===== src/SizeClassMap/Fixed/Inverse.antt =====
-- getSizeByClassId of LLVM_SCUDO_MTE/size_class_map.h from one class to the next, and back.
use native.Mathlib.Decide.{dec_lt}
use riscv_mte.Base.{ℕ, zero, suc, ◌+◌, ◌-◌, ◌^◌, ◌≤◌, ◌<◌, ◌≡◌, ap, ◌∙◌, inl, inr, arith}
use riscv_mte.SizeClassMap.Geometry.{step_size, step_size-suc, step_size-top, spacing-pos}
use riscv_mte.SizeClassMap.{
  Config, max_size, num_classes, get_size_by_class_id, get_class_id_by_size,
}
use riscv_mte.SizeClassMap.Fixed.{
  IsValid, linear_classes, low_bits, steps, mid-split, num_classes-eq, max_size-eq, size-linear,
  size-step, bits_le, step_size-last, min_pos,
}
use riscv_mte.SizeClassMap.Fixed.Lookup.{IsSmallestClass, class_id_smallest}

module _ (c : Config) (v : IsValid c) where
  -- From the class of `MidSize` on the classes are the steps.
  size-from_mid :
      (j : ℕ)
      → j ≤ steps c v
      → get_size_by_class_id c (linear_classes c v + j)
        ≡ step_size (low_bits c v) c.mid_size_log j + c.size_delta
  size-from_mid zero h =
      let first : step_size (low_bits c v) c.mid_size_log 0 ≡ 2 ^ c.mid_size_log =
        ap (step_size (low_bits c v) c.mid_size_log) {x = 0} (omega arith)
        ∙ step_size-top (low_bits c v) c.mid_size_log 0 (bits_le c v)
        ∙ ap (λ (t : ℕ). 2 ^ t) (omega arith) in
      omega (
        arith,
        size-linear c v (linear_classes c v) (omega arith),
        mid-split c v,
        ap (get_size_by_class_id c) {x = linear_classes c v + 0} {y = linear_classes c v}
            (omega arith),
      )
  size-from_mid (suc j) h = size-step c v (suc j) (omega arith) h

  -- For every configuration whose constants fit (IsValid): the sizes of the classes increase
  -- strictly, up to the last class.
  pub size-lt-suc :
      (id : ℕ)
      → suc id < num_classes c
      → get_size_by_class_id c id < get_size_by_class_id c (suc id)
  size-lt-suc id h = elim (dec_lt id (linear_classes c v)) [
    | yes lt ↦
        omega (arith, size-linear c v id (omega arith), size-linear c v (suc id) lt, min_pos c v)
    | no ge ↦
        let j = id - linear_classes c v in
        let j_lt : j + 1 ≤ steps c v = omega (arith, num_classes-eq c v) in
        omega (
          arith,
          size-from_mid j (omega arith),
          size-from_mid (j + 1) j_lt,
          step_size-suc (low_bits c v) c.mid_size_log j,
          spacing-pos (low_bits c v) c.mid_size_log j,
          ap (get_size_by_class_id c) {x = linear_classes c v + j} {y = id} (omega arith),
          ap (get_size_by_class_id c) {x = linear_classes c v + (j + 1)} {y = suc id} (omega arith),
        )
  ]

  size-mono_add :
      (d id : ℕ)
      → id + d < num_classes c
      → get_size_by_class_id c id ≤ get_size_by_class_id c (id + d)
  size-mono_add zero id h =
      omega (arith, ap (get_size_by_class_id c) {x = id + 0} {y = id} (omega arith))
  size-mono_add (suc d) id h = omega (
    arith,
    size-mono_add d id (omega arith),
    size-lt-suc (id + d) (omega arith),
    ap (get_size_by_class_id c) {x = id + suc d} {y = suc (id + d)} (omega arith),
  )

  pub size_mono :
      (id other : ℕ)
      → id ≤ other
      → other < num_classes c
      → get_size_by_class_id c id ≤ get_size_by_class_id c other
  size_mono id other le h = omega (
    arith,
    size-mono_add (other - id) id (omega arith),
    ap (get_size_by_class_id c) {x = id + (other - id)} {y = other} (omega arith),
  )

  -- For every configuration whose constants fit (IsValid): no class is larger than `MaxSize`.
  pub size-le-max_size : (id : ℕ) → id < num_classes c → get_size_by_class_id c id ≤ max_size c
  size-le-max_size id h = omega (
    arith,
    size_mono id (linear_classes c v + steps c v) (omega (arith, num_classes-eq c v))
        (omega (arith, num_classes-eq c v)),
    size-from_mid (steps c v) (omega arith),
    step_size-last c v,
    max_size-eq c v,
  )

  -- The smallest class that fits a size is unique.
  pub smallest_unique :
      (size a b : ℕ)
      → IsSmallestClass c v size a
      → size ≤ get_size_by_class_id c b
      → 0 < b
      → b < num_classes c
      → a ≤ b
  smallest_unique size a b is fits pos h = elim (dec_lt b a) [
    | no le ↦ omega arith
    | yes lt ↦ elim is.tight [
      | inl first ↦ absurd (omega arith)
      | inr tight ↦
          absurd (omega (arith, size_mono b (a - 1) (omega arith) (omega (arith, is.in_range))))
    ]
  ]

  -- For every configuration whose constants fit (IsValid): `getClassIdBySize` of the size of a
  -- class gives the class back, for every class but the batch class 0.
  pub class_id-size :
      (id : ℕ)
      → 0 < id
      → id < num_classes c
      → get_class_id_by_size c (get_size_by_class_id c id) ≡ id
  class_id-size id pos h =
      let size = get_size_by_class_id c id in
      let is = class_id_smallest c v size (size-le-max_size id h) in
      let found = get_class_id_by_size c size in
      let le : found ≤ id = smallest_unique size found id is (omega arith) pos h in
      elim (dec_lt found id) [
        | no ge ↦ omega arith
        | yes lt ↦ absurd (
            omega (
              arith,
              is.fits,
              size_mono found (id - 1) (omega arith) (omega arith),
              size-lt-suc (id - 1) (omega arith),
              ap (get_size_by_class_id c) {x = suc (id - 1)} {y = id} (omega arith),
            ))
      ]
