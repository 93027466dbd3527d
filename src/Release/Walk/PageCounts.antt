-- ===== src/Release/Walk/PageCounts.antt =====
-- The number of blocks that PageReleaseContext of LLVM_SCUDO_MTE/release.h fixes for the pages.
use native.Mathlib.Nat.{
  div-add-mod', mod-lt, mul-le-mul_right, one-le-pow, div-le_self, div-eq_of_lt,
}
use riscv_mte.Base.{
  ℕ, ◌+◌, ◌-◌, ◌*◌, ◌/◌, ◌%◌, ◌^◌, ◌≤◌, ◌<◌, ◌≡◌, refl, sym, ap, ◌∙◌, arith, ◌==◌, leb, bit_and,
  add64, add64_eq, sub64, sub64_eq, ◌⊎◌, inl, inr, Bool-cases, Bool, true, false,
}
use riscv_mte.Bits.{bit_and-low_mask, two_pow_lt}
use riscv_mte.Release.Context.{block_counts}
use riscv_mte.Release.Walk.PageBlocks.{
  end_on_page, blocks_on_page, ceiling_lem, not_above, below_of_product, blocks_on_page_same,
}

module _ (page_size_log b : ℕ) (pos : 0 < b) (log_lt : page_size_log < 63) (fits : b < 2 ^ 63) where
  abbrev ps : ℕ
  ps = 2 ^ page_size_log

  ps_lem : (0 < ps) × (ps < 2 ^ 63)
  ps_lem = (one-le-pow page_size_log 2 (omega arith), two_pow_lt page_size_log 63 log_lt)

  -- A decomposition of a page, where every page has as many blocks.
  page_split :
      (n : ℕ)
      → block_counts ps b ≡ (n, true)
      → (q : ℕ) × (r : ℕ) × (t : ℕ) × (0 < r) × (ps ≡ q * b + r) × (b ≡ r * t) × (n ≡ q + 1)
  unfolding block_counts
  page_split n e = elim (Bool-cases (leb b ps)) [
    | inl small ↦ elim (Bool-cases (ps % b == 0)) [
      | inl whole ↦
          let value : block_counts ps b ≡ (ps / b, true) =
            rw (small, block_counts) (rw whole refl) in
          let n_eq : n ≡ ps / b = ap (λ (p : ℕ × Bool). p.0) (sym e ∙ value) in
          let divides : ps % b ≡ 0 = ground arith in
          let some_block : 0 < ps / b = not_above (λ le.
            omega
              (arith, div-add-mod' ps b, mul-le-mul_right {m = ps / b} {n = 0} b le, ps_lem.0)) in
          let back : ps / b - 1 + 1 ≡ ps / b = omega arith in
          (
            ps / b - 1,
            b,
            1,
            pos,
            omega (arith, div-add-mod' ps b, ap (λ (x : ℕ). x * b) back),
            omega arith,
            omega arith,
          )
      | inr rest ↦ elim (Bool-cases (b % (ps % b) == 0)) [
        | inl even ↦
            let value : block_counts ps b ≡ (add64 (ps / b) 1, true) =
              rw (small, block_counts) (rw rest (rw even refl)) in
            let n_eq : n ≡ add64 (ps / b) 1 = ap (λ (p : ℕ × Bool). p.0) (sym e ∙ value) in
            let divides : b % (ps % b) ≡ 0 = ground arith in
            (
              ps / b,
              ps % b,
              b / (ps % b),
              ground arith,
              omega (arith, div-add-mod' ps b),
              omega (arith, div-add-mod' b (ps % b)),
              n_eq ∙ add64_eq (ps / b) 1 (omega (arith, div-le_self ps b, ps_lem.1)),
            )
        | inr uneven ↦
            let value : block_counts ps b ≡ (add64 (ps / b) 2, false) =
              rw (small, block_counts) (rw rest (rw uneven refl)) in
            let wrong : true ≡ false = ap (λ (p : ℕ × Bool). p.1) (sym e ∙ value) in absurd (cc)
      ]
    ]
    | inr large ↦ elim (Bool-cases (bit_and b (sub64 ps 1) == 0)) [
      | inl even ↦
          let value : block_counts ps b ≡ (1, true) = rw (large, block_counts) (rw even refl) in
          let n_eq : n ≡ 1 = ap (λ (p : ℕ × Bool). p.0) (sym e ∙ value) in
          let mask : bit_and b (sub64 ps 1) ≡ b % ps =
            ap (bit_and b) (sub64_eq ps 1 (omega (arith, ps_lem.0)) (omega (arith, ps_lem.1)))
            ∙ bit_and-low_mask page_size_log b in
          let divides : b % ps ≡ 0 = sym mask ∙ ground arith in
          (0, ps, b / ps, ps_lem.0, omega arith, omega (arith, div-add-mod' b ps), n_eq)
      | inr uneven ↦
          let value : block_counts ps b ≡ (2, false) = rw (large, block_counts) (rw uneven refl) in
          let wrong : true ≡ false = ap (λ (p : ℕ × Bool). p.1) (sym e ∙ value) in absurd (cc)
    ]
  ]

  -- For pages of a power of two below 2 ^ 63 of bytes, and blocks of fewer than 2 ^ 63 bytes, if
  -- the context fixes one number of blocks for all pages, it is the number of blocks that touch the
  -- page, for every page.
  pub block_counts-blocks_on_page :
      (n j : ℕ) → block_counts ps b ≡ (n, true) → blocks_on_page ps b (j * ps) ≡ n
  block_counts-blocks_on_page n j e =
      let (q, r, t, r_pos, split, multiple, n_eq) = page_split n e in
      ap (λ (x : ℕ). blocks_on_page x b (j * x)) split
      ∙ blocks_on_page_same b pos q r t j r_pos multiple
      ∙ sym n_eq

  -- Where the numbers differ, the context has the quotient and two more.
  block_counts_cases :
      ((n : ℕ) × (block_counts ps b ≡ (n, true))) ⊎ (block_counts ps b ≡ (ps / b + 2, false))
  unfolding block_counts
  block_counts_cases = elim (Bool-cases (leb b ps)) [
    | inl small ↦ elim (Bool-cases (ps % b == 0)) [
      | inl whole ↦ inl (ps / b, rw (small, block_counts) (rw whole refl))
      | inr rest ↦ elim (Bool-cases (b % (ps % b) == 0)) [
        | inl even ↦ inl (add64 (ps / b) 1, rw (small, block_counts) (rw rest (rw even refl)))
        | inr uneven ↦
            let sum : add64 (ps / b) 2 ≡ ps / b + 2 =
              add64_eq (ps / b) 2 (omega (arith, div-le_self ps b, ps_lem.1)) in
            inr (rw (small, block_counts) (rw rest (rw uneven (ap (λ (x : ℕ). (x, false)) sum))))
      ]
    ]
    | inr large ↦ elim (Bool-cases (bit_and b (sub64 ps 1) == 0)) [
      | inl even ↦ inl (1, rw (large, block_counts) (rw even refl))
      | inr uneven ↦
          let none : ps / b ≡ 0 = div-eq_of_lt (ground (arith, large)) in
          inr (
            rw (large, block_counts)
              (rw uneven
                (ap (λ (x : ℕ). (x, false)) {x = 2} {y = ps / b + 2} (omega (arith, none)))))
    ]
  ]

  few_blocks : (a : ℕ) → blocks_on_page ps b a ≤ ps / b + 2
  few_blocks a =
      let f = a / b in
      let top = end_on_page ps b a in
      below_of_product (λ le. omega (
        arith,
        mul-le-mul_right {m = f + (ps / b + 3)} {n = top} b (omega arith),
        (ceiling_lem b pos (a + ps)).1,
        div-add-mod' a b,
        mod-lt a pos,
        div-add-mod' ps b,
        mod-lt ps pos,
      ))

  pub blocks_on_page-le :
      (n j : ℕ) (s : Bool) → block_counts ps b ≡ (n, s) → blocks_on_page ps b (j * ps) ≤ n
  blocks_on_page-le n j s e = elim block_counts_cases [
    | inl (n', e') ↦
        let same : n' ≡ n = ap (λ (p : ℕ × Bool). p.0) (sym e' ∙ e) in
        omega (arith, block_counts-blocks_on_page n' j e', same)
    | inr e' ↦
        let same : ps / b + 2 ≡ n = ap (λ (p : ℕ × Bool). p.0) (sym e' ∙ e) in
        omega (arith, few_blocks (j * ps), same)
  ]

  pub block_counts_bounds :
      (n : ℕ) (s : Bool) → block_counts ps b ≡ (n, s) → (0 < n) × (n ≤ ps / b + 2)
  block_counts_bounds n s e = elim block_counts_cases [
    | inl (n', e') ↦
        let same : n' ≡ n = ap (λ (p : ℕ × Bool). p.0) (sym e' ∙ e) in
        let (q, r, t, r_pos, split, multiple, n_eq) = page_split n' e' in
        (
          omega (arith, same, n_eq),
          omega (arith, same, block_counts-blocks_on_page n' 0 e', few_blocks (0 * ps)),
        )
    | inr e' ↦
        let same : ps / b + 2 ≡ n = ap (λ (p : ℕ × Bool). p.0) (sym e' ∙ e) in
        (omega (arith, same), omega (arith, same))
  ]
