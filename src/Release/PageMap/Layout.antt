-- ===== src/Release/PageMap/Layout.antt =====
-- The layout of RegionPageMap of LLVM_SCUDO_MTE/release.h: the digits of the words.
use native.Mathlib.Nat.{
  pow-suc, pow-zero, zero-mul, zero-add, one-le-pow, div-div-eq-div-mul, add-mul-div_right,
  add-mul-mod_self_left, mul-one, div-add-mod', mul_comm,
}
use riscv_mte.Base.{
  quotient_lem, remainder_lem, ℕ, zero, suc, ◌+◌, ◌*◌, ◌/◌, ◌%◌, ◌^◌, ◌<◌, ◌≡◌, sym, ap, ◌∙◌, arith,
}
use riscv_mte.Bits.{two_pow_add}

-- The digit of a word at a position, in the base `b`.
abbrev pub digit : (b w k : ℕ) → ℕ
digit b w k = w / b ^ k % b

pub pow-pow : (c k : ℕ) → 2 ^ (k * c) ≡ (2 ^ c) ^ k
pow-pow c zero = ap (λ (t : ℕ). 2 ^ t) (zero-mul c) ∙ sym (pow-zero (2 ^ c))
pow-pow c (suc k) =
    ap (λ (t : ℕ). 2 ^ t) (omega arith)
    ∙ two_pow_add (k * c) c
    ∙ ap (λ (t : ℕ). t * 2 ^ c) (pow-pow c k)
    ∙ sym (pow-suc (2 ^ c) k)

module _ (b : ℕ) (big : 1 < b) where
  pow_split : (j d : ℕ) → b ^ (j + d) ≡ b ^ d * b ^ j
  pow_split zero d =
      ap (λ (t : ℕ). b ^ t) (zero-add d)
      ∙ sym (mul-one (b ^ d))
      ∙ ap (λ (t : ℕ). b ^ d * t) (sym (pow-zero b))
  pow_split (suc j) d =
      let down : suc j + d ≡ suc (j + d) = omega arith in
      ap (λ (t : ℕ). b ^ t) down
      ∙ pow-suc b (j + d)
      ∙ omega
          (arith, ap (λ (t : ℕ). t * b) (pow_split j d), ap (λ (t : ℕ). b ^ d * t) (pow-suc b j))

  pos : (k : ℕ) → 0 < b ^ k
  pos k = one-le-pow k b (omega arith)

  -- What lies below a position is not changed by a sum above it.
  pub add-below : (w n j d : ℕ) → digit b (w + n * b ^ (j + suc d)) j ≡ digit b w j
  add-below w n j d =
      let split : w + n * b ^ (j + suc d) ≡ w + n * b ^ d * b * b ^ j = omega (
        arith,
        ap (λ (t : ℕ). n * t) (pow_split j (suc d)),
        ap (λ (t : ℕ). n * (t * b ^ j)) (pow-suc b d),
      ) in
      ap (λ (t : ℕ). t / b ^ j % b) split
      ∙ ap (λ (t : ℕ). t % b) (add-mul-div_right w (n * b ^ d * b) (pos j))
      ∙ ap (λ (t : ℕ). (w / b ^ j + t) % b) (mul_comm (n * b ^ d) b)
      ∙ add-mul-mod_self_left (w / b ^ j) b (n * b ^ d)

  quotient_of_sum : (w n k : ℕ) → (w + n * b ^ k) / b ^ k ≡ w / b ^ k / b * b + (digit b w k + n)
  quotient_of_sum w n k = add-mul-div_right w n (pos k) ∙ omega (arith, div-add-mod' (w / b ^ k) b)

  pub add-at : (w n k : ℕ) → digit b w k + n < b → digit b (w + n * b ^ k) k ≡ digit b w k + n
  add-at w n k h =
      ap (λ (t : ℕ). t % b) (quotient_of_sum w n k)
      ∙ remainder_lem (w / b ^ k / b) b (digit b w k + n) h

  div-pow-suc : (w k d : ℕ) → w / b ^ (suc k + d) ≡ w / b ^ k / b / b ^ d
  div-pow-suc w k d =
      ap (λ (t : ℕ). w / t) (pow_split (suc k) d ∙ mul_comm (b ^ d) (b ^ suc k))
      ∙ sym (div-div-eq-div-mul w (b ^ suc k) (b ^ d))
      ∙ ap (λ (t : ℕ). w / t / b ^ d) (pow-suc b k)
      ∙ ap (λ (t : ℕ). t / b ^ d) (sym (div-div-eq-div-mul w (b ^ k) b))

  -- The word above a digit that grows without a carry.
  pub add-above :
      (w n k d : ℕ) → digit b w k + n < b → (w + n * b ^ k) / b ^ (suc k + d) ≡ w / b ^ (suc k + d)
  add-above w n k d h =
      div-pow-suc (w + n * b ^ k) k d
      ∙ ap (λ (t : ℕ). t / b / b ^ d) (quotient_of_sum w n k)
      ∙ ap (λ (t : ℕ). t / b ^ d) (quotient_lem (w / b ^ k / b) b (digit b w k + n) h)
      ∙ sym (div-pow-suc w k d)
