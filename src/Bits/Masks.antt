-- ===== src/Bits/Masks.antt =====
-- Masks of low bits, masks of high bits, and disjoint fields.
use Prim.Native.Nat.{
  ◌+◌, ◌-◌, ◌*◌, ◌/◌, ◌%◌, ◌^◌, ◌≤◌, ◌<◌, ℕ, zero, suc, bit_and, bit_or, bit_and-bitwise,
  bit_or-bitwise,
}
use mathlib.Core.Path.{◌≡◌, refl, sym, ap, ◌∙◌}
use mathlib.Core.WellFounded
use native.Mathlib.Nat.{
  pow-suc, pow-succ', one-le-pow, div-div-eq-div-mul, div-add-mod', mul-one, div-one, mod_self,
  add-zero, add-suc, mul_assoc, mod-eq_of_lt, div-lt_iff_lt-mul, pow-le-pow_right,
}
use native.Mathlib.Decide.{ℕ_discrete, dec_lt}
use native.Mathlib.Omega.{arith}
use riscv_mte.Base.{lt_wf}
use riscv_mte.Bits.Digit.{bit_and_digit, bit_or_digit}

-- Induction over the digits of a number.
pub by_halves : (P : ℕ → Type 0) → P 0 → ((a : ℕ) → 0 < a → P (a / 2) → P a) → (a : ℕ) → P a
by_halves P base step a = WellFounded.induction lt_wf {C = P} a body
  where
    body : (n : ℕ) → ((m : ℕ) → m < n → P m) → P n
    body zero ih = base
    body (suc n) ih = step (suc n) (omega arith) (ih (suc n / 2) (omega arith))

pub zero-bit_and : (b : ℕ) → bit_and 0 b ≡ 0
zero-bit_and b = simp bit_and-bitwise

pub zero-bit_or : (b : ℕ) → bit_or 0 b ≡ b
zero-bit_or b = simp bit_or-bitwise

pub bit_and-zero : (a : ℕ) → bit_and a 0 ≡ 0
bit_and-zero =
    by_halves (λ a. bit_and a 0 ≡ 0) refl (λ a pos ih. omega (arith, bit_and_digit a 0, ih))

pub bit_or-zero : (a : ℕ) → bit_or a 0 ≡ a
bit_or-zero = by_halves (λ a. bit_or a 0 ≡ a) refl (λ a pos ih. omega (arith, bit_or_digit a 0, ih))

pub bit_or_comm : (a b : ℕ) → bit_or a b ≡ bit_or b a
bit_or_comm =
    by_halves (λ a. (b : ℕ) → bit_or a b ≡ bit_or b a) (λ b. zero-bit_or b ∙ sym (bit_or-zero b))
      (λ a pos ih b. omega (arith, bit_or_digit a b, bit_or_digit b a, ih (b / 2)))

pub bit_and_comm : (a b : ℕ) → bit_and a b ≡ bit_and b a
bit_and_comm =
    by_halves (λ a. (b : ℕ) → bit_and a b ≡ bit_and b a)
      (λ b. zero-bit_and b ∙ sym (bit_and-zero b))
      (λ a pos ih b. omega (arith, bit_and_digit a b, bit_and_digit b a, ih (b / 2)))

pub bit_and_self : (a : ℕ) → bit_and a a ≡ a
bit_and_self =
    by_halves (λ a. bit_and a a ≡ a) refl (λ a pos ih. omega (arith, bit_and_digit a a, ih))

pub bit_and-one : (a : ℕ) → bit_and a 1 ≡ a % 2
bit_and-one a = omega (arith, bit_and_digit a 1, bit_and-zero (a / 2))

pub div-two-pow-suc : (x k : ℕ) → x / 2 ^ suc k ≡ x / 2 / 2 ^ k
div-two-pow-suc x k = ap (λ (t : ℕ). x / t) (pow-succ' 2 k) ∙ sym (div-div-eq-div-mul x 2 (2 ^ k))

pub shift-suc : (x k : ℕ) → x * 2 ^ suc k ≡ x * 2 ^ k + x * 2 ^ k
shift-suc x k = ap (λ (power : ℕ). x * power) (pow-suc 2 k) ∙ omega arith

pub mod-two-pow-suc : (x k : ℕ) → x % 2 ^ suc k ≡ x / 2 % 2 ^ k * 2 + x % 2
mod-two-pow-suc x k = omega (
  arith,
  div-add-mod' x (2 ^ suc k),
  div-add-mod' (x / 2) (2 ^ k),
  shift-suc (x / 2 ^ suc k) k,
  ap (λ (t : ℕ). t * 2 ^ k) (div-two-pow-suc x k),
)

half_mask : (k : ℕ) → (2 ^ suc k - 1) / 2 ≡ 2 ^ k - 1
half_mask k = omega (arith, pow-suc 2 k, one-le-pow k 2 (omega arith))

-- A mask of `k` ones keeps the low `k` bits.
pub bit_and-low_mask : (k x : ℕ) → bit_and x (2 ^ k - 1) ≡ x % 2 ^ k
bit_and-low_mask zero x = omega (arith, bit_and-zero x)
bit_and-low_mask (suc k) x = omega (
  arith,
  pow-suc 2 k,
  one-le-pow k 2,
  bit_and_digit x (2 ^ suc k - 1),
  ap (bit_and (x / 2)) (half_mask k),
  bit_and-low_mask k (x / 2),
  mod-two-pow-suc x k,
)

half_shifted : (m k : ℕ) → m * 2 ^ suc k / 2 ≡ m * 2 ^ k
half_shifted m k = omega (arith, shift-suc m k)

-- A mask whose low `k` bits are zero clears those bits.
pub bit_and-shifted_mask : (k x m : ℕ) → bit_and x (m * 2 ^ k) ≡ bit_and (x / 2 ^ k) m * 2 ^ k
bit_and-shifted_mask zero x m = ground (arith, mul-one m, div-one x)
bit_and-shifted_mask (suc k) x m = omega (
  arith,
  bit_and_digit x (m * 2 ^ suc k),
  shift-suc m k,
  ap (bit_and (x / 2)) (half_shifted m k),
  bit_and-shifted_mask k (x / 2) m,
  ap (λ (t : ℕ). bit_and t m * 2 ^ suc k) (div-two-pow-suc x k),
  shift-suc (bit_and (x / 2 / 2 ^ k) m) k,
)

-- A number below `2 ^ k`, and one that is shifted left by `k`, share no bits.
pub bit_or_fields : (k high low : ℕ) → low < 2 ^ k → bit_or (high * 2 ^ k) low ≡ high * 2 ^ k + low
bit_or_fields zero high low h = ground (arith, bit_or-zero high)
bit_or_fields (suc k) high low h =
    let rest = bit_or_fields k high (low / 2) (omega (arith, pow-suc 2 k)) in
    omega (
      arith,
      rest,
      shift-suc high k,
      bit_or_digit (high * 2 ^ suc k) low,
      ap (λ (t : ℕ). bit_or t (low / 2)) (half_shifted high k),
      pow-suc 2 k,
    )

-- `x & (x - 1)` is zero for the powers of two alone.
pub bit_and-pred_of_two_pow : (k : ℕ) → bit_and (2 ^ k) (2 ^ k - 1) ≡ 0
bit_and-pred_of_two_pow k = bit_and-low_mask k (2 ^ k) ∙ mod_self (2 ^ k)

pub two_pow_of_bit_and-pred : (a : ℕ) → 0 < a → bit_and a (a - 1) ≡ 0 → (k : ℕ) × (a ≡ 2 ^ k)
two_pow_of_bit_and-pred =
    by_halves (λ a. 0 < a → bit_and a (a - 1) ≡ 0 → (k : ℕ) × (a ≡ 2 ^ k))
      (λ h e. absurd (omega arith)) halve
  where
    halve :
        (a : ℕ)
        → 0 < a
        → (0 < a / 2 → bit_and (a / 2) (a / 2 - 1) ≡ 0 → (k : ℕ) × (a / 2 ≡ 2 ^ k))
        → 0 < a
        → bit_and a (a - 1) ≡ 0
        → (k : ℕ) × (a ≡ 2 ^ k)
    halve a pos ih _ e = elim (ℕ_discrete (a % 2) 0) [
      | yes even ↦
          let same : (a - 1) / 2 ≡ a / 2 - 1 = omega arith in
          let (k, h) =
            ih (omega arith) (omega (arith, bit_and_digit a (a - 1), ap (bit_and (a / 2)) same)) in
          (suc k, omega (arith, pow-suc 2 k))
      | no odd ↦
          let same : (a - 1) / 2 ≡ a / 2 = omega arith in
          (
            0,
            omega (arith, bit_and_digit a (a - 1), ap (bit_and (a / 2)) same, bit_and_self (a / 2)),
          )
    ]

pub two_pow_add : (m k : ℕ) → 2 ^ (m + k) ≡ 2 ^ m * 2 ^ k
two_pow_add m zero = ap (λ (t : ℕ). 2 ^ t) (add-zero m) ∙ sym (mul-one (2 ^ m))
two_pow_add m (suc k) =
    ap (λ (t : ℕ). 2 ^ t) (add-suc m k)
    ∙ pow-suc 2 (m + k)
    ∙ ap (λ (t : ℕ). t * 2) (two_pow_add m k)
    ∙ mul_assoc (2 ^ m) (2 ^ k) 2
    ∙ ap (λ (t : ℕ). 2 ^ m * t) (sym (pow-suc 2 k))

-- The mask of all bits but the low `k` ones rounds down to a multiple of `2 ^ k`.
pub bit_and-high_mask :
    (k w x : ℕ) → k ≤ w → x < 2 ^ w → bit_and x (2 ^ w - 2 ^ k) ≡ x / 2 ^ k * 2 ^ k
bit_and-high_mask k w x le fits =
    ap (bit_and x) mask
    ∙ bit_and-shifted_mask k x (2 ^ (w - k) - 1)
    ∙ ap (λ (t : ℕ). t * 2 ^ k) (bit_and-low_mask (w - k) (x / 2 ^ k) ∙ mod-eq_of_lt quotient)
  where
    split : 2 ^ w ≡ 2 ^ (w - k) * 2 ^ k
    split = ap (λ (t : ℕ). 2 ^ t) (omega arith) ∙ two_pow_add (w - k) k

    positive : 2 ^ (w - k) ≡ 2 ^ (w - k) - 1 + 1
    positive = omega (arith, one-le-pow (w - k) 2)

    mask : 2 ^ w - 2 ^ k ≡ (2 ^ (w - k) - 1) * 2 ^ k
    mask = omega (arith, split, ap (λ (t : ℕ). t * 2 ^ k) positive)

    quotient : x / 2 ^ k < 2 ^ (w - k)
    quotient = (div-lt_iff_lt-mul (one-le-pow k 2 (omega arith))).1 (rw (← split) fits)

-- A power of two that fits a word has an exponent below the word's width.
pub exponent_of_lt : (k w : ℕ) → 2 ^ k < 2 ^ w → k < w
exponent_of_lt k w h = elim (dec_lt k w) [
  | yes p ↦ p
  | no p ↦
      let up : 2 ^ w ≤ 2 ^ k = pow-le-pow_right (omega arith) (omega arith) in absurd (omega arith)
]

pub two_pow_lt : (k w : ℕ) → k < w → 2 ^ k < 2 ^ w
two_pow_lt k w h =
    let up : 2 ^ suc k ≤ 2 ^ w = pow-le-pow_right (omega arith) h in
    omega (arith, pow-suc 2 k, one-le-pow k 2 (omega arith))
