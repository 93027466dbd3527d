-- ===== src/SizeClassMap/Geometry.antt =====
-- The sizes behind `MidSize` as plain arithmetic: the j-th step has the `s` bits of j % 2^s below a
-- leading bit, and is scaled by a power of two that grows with j / 2^s.
use native.Mathlib.Decide.{dec_lt}
use native.Mathlib.Nat.{one-le-pow, pow-suc, mod-lt, div-add-mod', add-zero}
use riscv_mte.Base.{
  quotient_lem, remainder_lem, ℕ, zero, suc, ◌+◌, ◌-◌, ◌*◌, ◌/◌, ◌%◌, ◌^◌, ◌≤◌, ◌<◌, ◌≡◌, sym, ap,
  ◌∙◌, arith,
}
use riscv_mte.Bits.{two_pow_add}

module _ (s mid : ℕ) where
  -- The spacing of the sizes at the j-th step.
  pub spacing : ℕ → ℕ
  spacing j = 2 ^ (j / 2 ^ s + (mid - s))

  pub step_size : ℕ → ℕ
  step_size j = (2 ^ s + j % 2 ^ s) * 2 ^ (j / 2 ^ s + (mid - s))

  pub step_size-eq :
      (j : ℕ)
      → step_size j ≡ 2 ^ s * 2 ^ (j / 2 ^ s + (mid - s)) + j % 2 ^ s * 2 ^ (j / 2 ^ s + (mid - s))
  unfolding step_size
  step_size-eq j = omega arith

  low_pos : 0 < 2 ^ s
  low_pos = one-le-pow s 2 (omega arith)

  -- The decomposition of a number behind the next one.
  next_same :
      (j : ℕ)
      → j % 2 ^ s + 1 < 2 ^ s
      → ((j + 1) / 2 ^ s ≡ j / 2 ^ s) × ((j + 1) % 2 ^ s ≡ j % 2 ^ s + 1)
  next_same j h =
      let sum : j + 1 ≡ j / 2 ^ s * 2 ^ s + (j % 2 ^ s + 1) =
        omega (arith, div-add-mod' j (2 ^ s)) in
      (
        ap (λ (t : ℕ). t / 2 ^ s) sum ∙ quotient_lem (j / 2 ^ s) (2 ^ s) (j % 2 ^ s + 1) h,
        ap (λ (t : ℕ). t % 2 ^ s) sum ∙ remainder_lem (j / 2 ^ s) (2 ^ s) (j % 2 ^ s + 1) h,
      )

  next_carry :
      (j : ℕ) → j % 2 ^ s + 1 ≡ 2 ^ s → ((j + 1) / 2 ^ s ≡ suc (j / 2 ^ s)) × ((j + 1) % 2 ^ s ≡ 0)
  next_carry j h =
      let sum : j + 1 ≡ (j / 2 ^ s + 1) * 2 ^ s + 0 = omega (arith, div-add-mod' j (2 ^ s)) in
      (
        ap (λ (t : ℕ). t / 2 ^ s) sum
            ∙ quotient_lem (j / 2 ^ s + 1) (2 ^ s) 0 low_pos
            ∙ omega arith,
        ap (λ (t : ℕ). t % 2 ^ s) sum ∙ remainder_lem (j / 2 ^ s + 1) (2 ^ s) 0 low_pos,
      )

  pub step_size-suc : (j : ℕ) → step_size (j + 1) ≡ step_size j + spacing j
  unfolding step_size spacing
  step_size-suc j = elim (dec_lt (j % 2 ^ s + 1) (2 ^ s)) [
    | yes h ↦ let (q, r) = next_same j h in rw (q, r) (omega arith)
    | no h ↦
        let carry : j % 2 ^ s + 1 ≡ 2 ^ s = omega (arith, mod-lt j low_pos) in
        let (q, r) = next_carry j carry in
        let e = j / 2 ^ s + (mid - s) in
        let doubled : 2 ^ (suc (j / 2 ^ s) + (mid - s)) ≡ 2 ^ e * 2 =
          ap (λ (t : ℕ). 2 ^ t) (omega arith) ∙ pow-suc 2 e in
        rw (q, r, doubled) (omega (arith, ap (λ (t : ℕ). t * 2 ^ e) carry))
  ]

  -- A step given by its two parts.
  pub step_size-parts :
      (a r : ℕ) → r < 2 ^ s → step_size (a * 2 ^ s + r) ≡ (2 ^ s + r) * 2 ^ (a + (mid - s))
  unfolding step_size
  step_size-parts a r h = rw (quotient_lem a (2 ^ s) r h, remainder_lem a (2 ^ s) r h)

  pub spacing-parts : (a r : ℕ) → r < 2 ^ s → spacing (a * 2 ^ s + r) ≡ 2 ^ (a + (mid - s))
  unfolding spacing
  spacing-parts a r h = rw (quotient_lem a (2 ^ s) r h)

  pub spacing-pos : (j : ℕ) → 0 < spacing j
  unfolding spacing
  spacing-pos j = one-le-pow (j / 2 ^ s + (mid - s)) 2 (omega arith)

  step_size_mono_add : (d j : ℕ) → step_size j ≤ step_size (j + d)
  step_size_mono_add zero j = rw add-zero (omega arith)
  step_size_mono_add (suc d) j =
      let next : step_size (j + suc d) ≡ step_size (j + d) + spacing (j + d) =
        ap step_size (omega arith) ∙ step_size-suc (j + d) in
      omega (arith, step_size_mono_add d j)

  pub step_size_mono : (j k : ℕ) → j ≤ k → step_size j ≤ step_size k
  step_size_mono j k h = rw (← sum) (step_size_mono_add (k - j) j)
    where
      sum : j + (k - j) ≡ k
      sum = omega arith

  -- The steps of one leading bit end at twice the size.
  pub step_size-top : (a : ℕ) → s ≤ mid → step_size (a * 2 ^ s) ≡ 2 ^ (a + mid)
  step_size-top a h =
      ap step_size (omega arith)
      ∙ step_size-parts a 0 low_pos
      ∙ ap (λ (t : ℕ). t * 2 ^ (a + (mid - s))) (add-zero (2 ^ s))
      ∙ sym (two_pow_add s (a + (mid - s)))
      ∙ ap (λ (t : ℕ). 2 ^ t) (omega arith)
