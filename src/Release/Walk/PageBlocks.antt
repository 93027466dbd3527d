-- ===== src/Release/Walk/PageBlocks.antt =====
-- The blocks on a page, for LLVM_SCUDO_MTE/release.h: the least multiples and the touched pages.
use native.Mathlib.Decide.{dec_lt}
use native.Mathlib.Nat.{div-add-mod', mod-lt, mul-le-mul_right}
use riscv_mte.Base.{
  ℕ, suc, ◌+◌, ◌-◌, ◌*◌, ◌/◌, ◌%◌, ◌≤◌, ◌<◌, ◌≡◌, ◌↔◌, ap, ◌∙◌, arith, quotient_lem,
}

-- The blocks of B bytes from address 0 on that touch the page of PS bytes at `a`: a block touches it
-- if it starts before the page's end and ends behind its start.
abbrev pub first_on_page : (b a : ℕ) → ℕ
first_on_page b a = a / b

abbrev pub end_on_page : (ps b a : ℕ) → ℕ
end_on_page ps b a = (a + ps + (b - 1)) / b

abbrev pub blocks_on_page : (ps b a : ℕ) → ℕ
blocks_on_page ps b a = end_on_page ps b a - first_on_page b a

-- The least multiple.
abbrev pub ceiling : (b a : ℕ) → ℕ
ceiling b a = (a + (b - 1)) / b

module _ (b : ℕ) (pos : 0 < b) where
  pub ceiling_lem : (a : ℕ) → (a ≤ ceiling b a * b) × (ceiling b a * b < a + b)
  ceiling_lem a =
      let e = div-add-mod' (a + (b - 1)) b in
      (omega (arith, e, mod-lt (a + (b - 1)) pos), omega (arith, e, pos))

  pub ceiling_unique : (a m : ℕ) → a ≤ m * b → m * b < a + b → ceiling b a ≡ m
  ceiling_unique a m low high =
      let split : a + (b - 1) ≡ m * b + (a + (b - 1) - m * b) = omega (arith, pos) in
      ap (λ (t : ℕ). t / b) split ∙ quotient_lem m b (a + (b - 1) - m * b) (omega (arith, pos))

  pub floor_unique : (a m : ℕ) → m * b ≤ a → a < m * b + b → a / b ≡ m
  floor_unique a m low high =
      let split : a ≡ m * b + (a - m * b) = omega arith in
      ap (λ (t : ℕ). t / b) split ∙ quotient_lem m b (a - m * b) (omega arith)

  -- If the page is some blocks and a rest, and the rest divides a block, each page has as many blocks.
  pub blocks_on_page_same :
      (q r t j : ℕ) → 0 < r → b ≡ r * t → blocks_on_page (q * b + r) b (j * (q * b + r)) ≡ q + 1
  blocks_on_page_same q r t j r_pos e =
      let u = j / t in
      let v = j % t in
      let t_pos : 0 < t = elim (dec_lt 0 t) [
        | yes p ↦ p
        | no n ↦ absurd (omega (arith, e, pos, ap (λ (x : ℕ). r * x) {x = t} {y = 0} (omega arith)))
      ] in
      let m = j * q + u in
      let split : j * (q * b + r) ≡ m * b + v * r =
        omega (arith, ap (λ (x : ℕ). x * r) (div-add-mod' j t), ap (λ (x : ℕ). u * x) e) in
      let room : v * r + r ≤ b =
        omega (arith, e, mul-le-mul_right {m = suc v} {n = t} r (omega (arith, mod-lt j t_pos))) in
      let low : j * (q * b + r) / b ≡ m =
        floor_unique (j * (q * b + r)) m (omega (arith, split)) (omega (arith, split, room)) in
      let high : ceiling b (j * (q * b + r) + (q * b + r)) ≡ m + q + 1 =
        ceiling_unique (j * (q * b + r) + (q * b + r)) (m + q + 1) (omega (arith, split, room))
          (omega (arith, split, r_pos)) in
      omega (arith, low, high)

pub not_above : {m n : ℕ} → (n ≤ m → ⊥) → m < n
not_above {m = m} {n = n} h = elim (dec_lt m n) [ yes p ↦ p | no q ↦ absurd (h (omega arith)) ]

pub below_of_product : {m n : ℕ} → (suc n ≤ m → ⊥) → m ≤ n
below_of_product {m = m} {n = n} h = elim (dec_lt n m) [ yes p ↦ absurd (h p) | no q ↦ omega arith ]

-- A block touches a page if it starts before the page's end and ends behind its start.
pub touches_iff :
    (ps b a k : ℕ)
    → 0 < b
    → ((k * b < a + ps) × (a < (k + 1) * b)) ↔ ((first_on_page b a ≤ k) × (k < end_on_page ps b a))
touches_iff ps b a k pos = (
  λ (starts, ends). (
    below_of_product
        (λ le. omega (arith, mul-le-mul_right {m = suc k} {n = a / b} b le, div-add-mod' a b)),
    not_above (λ le. omega (
      arith,
      mul-le-mul_right {m = end_on_page ps b a} {n = k} b le,
      (ceiling_lem b pos (a + ps)).0,
    )),
  ),
  λ (low, high). (
    omega (
      arith,
      (ceiling_lem b pos (a + ps)).1,
      mul-le-mul_right {m = suc k} {n = end_on_page ps b a} b high,
    ),
    omega (arith, div-add-mod' a b, mod-lt a pos, mul-le-mul_right {m = a / b} {n = k} b low),
  ),
)
