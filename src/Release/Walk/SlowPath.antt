-- ===== src/Release/Walk/SlowPath.antt =====
-- The slow path of releaseFreeMemoryToOS of LLVM_SCUDO_MTE/release.h, page by page.
use native.Mathlib.Decide.{dec_lt}
use native.Mathlib.Nat.{div-add-mod', mod-lt, mul-le-mul_right, mul-le-mul_left}
use riscv_mte.Base.{
  ℕ, ◌+◌, ◌-◌, ◌*◌, ◌/◌, ◌≤◌, ◌<◌, ◌≡◌, refl, sym, ap, ◌∙◌, arith, ltb, if◌then◌else◌, u64_mod,
  add64, add64_eq, mul64, mul64_eq, ◌⊎◌, inl, inr, Bool-cases, ltb→lt,
}
use riscv_mte.Release.Walk.{Boundaries, whole_blocks, blocks_on_next_page}
use riscv_mte.Release.Walk.PageBlocks.{
  blocks_on_page, ceiling, ceiling_lem, ceiling_unique, floor_unique, not_above,
}

-- The boundaries at a page's start: the first block that starts there or later.
abbrev pub boundaries_at : (b a : ℕ) → Boundaries
boundaries_at b a = record { prev_page_boundary = a; current_boundary = ceiling b a * b }

abbrev page_result : (blocks prev current : ℕ) → ℕ × Boundaries
page_result blocks prev current =
    (blocks, record { prev_page_boundary = prev; current_boundary = current })

page_result_eq :
    {n n' p p' c c' : ℕ} → n ≡ n' → p ≡ p' → c ≡ c' → page_result n p c ≡ page_result n' p' c'
page_result_eq e f g = λ i. page_result (e i) (f i) (g i)

module _ (ps b : ℕ) (pos : 0 < b) (page_pos : 0 < ps) where
  abbrev pn : ℕ
  pn = whole_blocks ps b

  whole_blocks_lem : ((pn * b ≤ ps) ⊎ ((pn ≡ 1) × (ps ≤ b))) × (ps < pn * b + b) × (0 < pn)
  unfolding whole_blocks
  whole_blocks_lem = elim (Bool-cases (ltb b ps)) [
    | inl small ↦ rw small (
        let e = div-add-mod' ps b in
        let lt : b < ps = ground arith in
        let positive : 0 < ps / b =
          not_above
            (λ le. omega (arith, e, mod-lt ps pos, mul-le-mul_right {m = ps / b} {n = 0} b le)) in
        (inl (omega (arith, e)), omega (arith, e, mod-lt ps pos), positive))
    | inr large ↦ rw large (inr (refl, ground arith), ground arith, omega arith)
  ]

  module _ (a : ℕ) (fits : a + ps + 2 * b < u64_mod) where
    abbrev m : ℕ
    m = ceiling b a

    -- The first block on the page is the one before if that crosses the page's start.
    floor_cases : ((m * b ≡ a) × (a / b ≡ m)) ⊎ ((a < m * b) × (a / b + 1 ≡ m))
    floor_cases =
        let (low, high) = ceiling_lem b pos a in
        elim (dec_lt a (m * b)) [
          | yes lt ↦
              let positive : 0 < m =
                not_above (λ le. omega (arith, mul-le-mul_right {m = m} {n = 0} b le)) in
              let back : (m - 1) * b + b ≡ m * b =
                omega (arith, ap (λ (x : ℕ). x * b) {x = m - 1 + 1} {y = m} (omega arith)) in
              inr (
                lt,
                omega (
                  arith,
                  floor_unique b pos a (m - 1) (omega (arith, back, high))
                      (omega (arith, back, lt)),
                ),
              )
          | no n ↦
              inl
                (omega (arith, low), floor_unique b pos a m (omega arith) (omega (arith, low, pos)))
        ]

    -- The number of blocks and the boundary behind the page, where `m'` is the next block.
    next_lem :
        (blocks m' : ℕ)
        → a + ps ≤ m' * b
        → m' * b < a + ps + b
        → blocks + a / b ≡ m'
        → page_result blocks (a + ps) (m' * b)
          ≡ page_result (blocks_on_page ps b a) (a + ps) (ceiling b (a + ps) * b)
    next_lem blocks m' low high sum =
        let e = ceiling_unique b pos (a + ps) m' low high in
        let difference : blocks ≡ m' - a / b = omega (arith, sum) in
        page_result_eq (difference ∙ ap (λ (x : ℕ). x - a / b) (sym e)) refl
          (ap (λ (x : ℕ). x * b) (sym e))

    page_end : add64 a ps ≡ a + ps
    page_end = add64_eq a ps (omega arith)

    -- Where a block starts on the page: the blocks that the first step counts, and its boundary.
    module _ (starts : m * b < a + ps) where
      abbrev first_blocks : ℕ
      first_blocks = if ltb a (m * b) then add64 pn 1 else pn

      pn_small : pn * b < ps + b
      pn_small = elim (whole_blocks_lem.0) [
        | inl le ↦ omega (arith, pos)
        | inr (one, le) ↦ ground (arith, one)
      ]

      next_pn : add64 pn 1 ≡ pn + 1
      next_pn = add64_eq pn 1 (omega (arith, pn_small, mul-le-mul_left {m = 1} {n = b} pn pos))

      first_blocks_lem : first_blocks + a / b ≡ m + pn
      first_blocks_lem = elim floor_cases [
        | inl (same, e) ↦ ground (arith, same, e)
        | inr (lt, e) ↦ ground (arith, lt, e, next_pn)
      ]

      step_small : m * b + pn * b < a + ps + 2 * b
      step_small =
          let (low, high) = ceiling_lem b pos a in
          elim (whole_blocks_lem.0) [
            | inl le ↦ omega (arith, high, le)
            | inr (one, le) ↦ ground (arith, one, starts)
          ]

      step_end : add64 (m * b) (mul64 pn b) ≡ m * b + pn * b
      step_end =
          ap (add64 (m * b)) (mul64_eq pn b (omega (arith, pn_small)))
          ∙ add64_eq (m * b) (pn * b) (omega (arith, step_small))

    counts_small : m + pn ≤ m * b + pn * b
    counts_small =
        omega (arith, mul-le-mul_left {m = 1} {n = b} m pos, mul-le-mul_left {m = 1} {n = b} pn pos)

    product_small : m * b < a + ps → m * b + pn * b < a + ps + b
    product_small starts = elim (whole_blocks_lem.0) [
      | inl le ↦ omega (arith, (ceiling_lem b pos a).1)
      | inr (one, le) ↦ ground (arith, one)
    ]

    -- A page inside of a block
    one_block : a + ps ≤ m * b → pn + a / b ≡ m
    one_block le =
        let high = (ceiling_lem b pos a).1 in
        let positive = whole_blocks_lem.2 in
        let one : pn ≡ 1 = elim (whole_blocks_lem.0) [
          | inl few ↦ absurd (omega (arith, high, mul-le-mul_right {m = 1} {n = pn} b positive))
          | inr (e, l) ↦ e
        ] in
        elim floor_cases [ inl (same, e) ↦ absurd (omega arith) | inr (lt, e) ↦ omega arith ]

    -- For positive sizes of pages and blocks whose sums do not wrap, at a page boundary the slow
    -- path of `releaseFreeMemoryToOS` counts the blocks that touch the page, and goes on with the
    -- boundaries of the next page.
    pub blocks_on_next_page-boundaries_at :
        blocks_on_next_page ps b (boundaries_at b a)
        ≡ (blocks_on_page ps b a, boundaries_at b (a + ps))
    unfolding blocks_on_next_page
    blocks_on_next_page-boundaries_at = elim (Bool-cases (ltb (m * b) (add64 a ps))) [
      | inl before ↦
          let starts : m * b < a + ps =
            omega (arith, page_end, ltb→lt (m * b) (add64 a ps) before) in
          elim (Bool-cases (ltb (add64 (m * b) (mul64 pn b)) (add64 a ps))) [
            | inl short ↦
                let lt : m * b + pn * b < a + ps = omega (
                  arith,
                  page_end,
                  step_end starts,
                  ltb→lt (add64 (m * b) (mul64 pn b)) (add64 a ps) short,
                ) in
                rw (before, blocks_on_next_page)
                  (rw short (
                    page_result_eq
                      (ap (λ (x : ℕ). add64 x 1) refl
                        ∙ add64_eq (first_blocks starts) 1
                            (omega (arith, first_blocks_lem starts, lt, counts_small)))
                      page_end
                      (ap (λ (x : ℕ). add64 x b) (step_end starts)
                        ∙ add64_eq (m * b + pn * b) b (omega arith)
                        ∙ omega arith)
                    ∙ next_lem (first_blocks starts + 1) (m + pn + 1)
                        (omega (arith, (ceiling_lem b pos a).0, whole_blocks_lem.1))
                        (omega (arith, lt)) (omega (arith, first_blocks_lem starts))))
            | inr long ↦
                let le : a + ps ≤ m * b + pn * b =
                  ground (arith, page_end, step_end starts, long) in
                rw (before, blocks_on_next_page)
                  (rw long (
                    page_result_eq refl page_end (step_end starts ∙ omega arith)
                    ∙ next_lem (first_blocks starts) (m + pn) (omega (arith, le))
                        (omega (arith, product_small starts)) (first_blocks_lem starts)))
          ]
      | inr behind ↦
          let le : a + ps ≤ m * b = ground (arith, page_end, behind) in
          rw (behind, blocks_on_next_page)
            (page_result_eq refl page_end refl
              ∙ next_lem pn m le (omega (arith, (ceiling_lem b pos a).1)) (one_block le))
    ]
