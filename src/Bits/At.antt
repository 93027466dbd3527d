-- ===== src/Bits/At.antt =====
-- The bit of a number at a position, and the bit operations position by position.
use Prim.Native.Nat.{
  max, ◌+◌, ◌-◌, ◌/◌, ◌%◌, ◌^◌, ◌≤◌, ◌<◌, ℕ, zero, suc, min, bit_and, bit_or, bit_xor,
}
use mathlib.Core.Path.{◌≡◌, refl, sym, ap, ◌∙◌}
use mathlib.Core.Logic.{◌≢◌}
use native.Mathlib.Nat.{
  pow-suc, one-le-pow, div-eq_of_lt, div_self, zero-div, pow-le-pow_right, le_trans,
}
use native.Mathlib.Omega.{arith}
use riscv_mte.Bits.Digit.{bit_and_digit, bit_or_digit, bit_xor_digit}
use riscv_mte.Bits.Masks.{div-two-pow-suc}

abbrev pub bit : ℕ → ℕ → ℕ
bit x i = x / 2 ^ i % 2

bit-zero : (x : ℕ) → bit x 0 ≡ x % 2
bit-zero x = omega arith

bit-suc : (x i : ℕ) → bit x (suc i) ≡ bit (x / 2) i
bit-suc x i = ap (λ (t : ℕ). t % 2) (div-two-pow-suc x i)

pub bit-zero_word : (i : ℕ) → bit 0 i ≡ 0
bit-zero_word i = ap (λ (t : ℕ). t % 2) (zero-div (2 ^ i))

-- Two words with the same bits are equal.
pub bit_ext : (w a b : ℕ) → a < 2 ^ w → b < 2 ^ w → ((i : ℕ) → i < w → bit a i ≡ bit b i) → a ≡ b
bit_ext zero a b p q same = omega arith
bit_ext (suc w) a b p q same = omega (
  arith,
  bit_ext w (a / 2) (b / 2) (omega (arith, pow-suc 2 w)) (omega (arith, pow-suc 2 w))
      (λ i h. sym (bit-suc a i) ∙ same (suc i) (omega arith) ∙ bit-suc b i),
  same 0 (omega arith),
)

pub bit-bit_and : (i a b : ℕ) → bit (bit_and a b) i ≡ min (bit a i) (bit b i)
bit-bit_and zero a b = omega (arith, bit_and_digit a b)
bit-bit_and (suc i) a b = omega (
  arith,
  bit-suc (bit_and a b) i,
  bit-suc a i,
  bit-suc b i,
  bit-bit_and i (a / 2) (b / 2),
  ap (λ (t : ℕ). bit t i) halved,
)
  where
    halved : bit_and a b / 2 ≡ bit_and (a / 2) (b / 2)
    halved = omega (arith, bit_and_digit a b)

pub bit-bit_or : (i a b : ℕ) → bit (bit_or a b) i ≡ max (bit a i) (bit b i)
bit-bit_or zero a b = omega (arith, bit_or_digit a b)
bit-bit_or (suc i) a b = omega (
  arith,
  bit-suc (bit_or a b) i,
  bit-suc a i,
  bit-suc b i,
  bit-bit_or i (a / 2) (b / 2),
  ap (λ (t : ℕ). bit t i) halved,
)
  where
    halved : bit_or a b / 2 ≡ bit_or (a / 2) (b / 2)
    halved = omega (arith, bit_or_digit a b)

pub bit-bit_xor : (i a b : ℕ) → bit (bit_xor a b) i ≡ (bit a i + bit b i) % 2
bit-bit_xor zero a b = omega (arith, bit_xor_digit a b)
bit-bit_xor (suc i) a b = omega (
  arith,
  bit-suc (bit_xor a b) i,
  bit-suc a i,
  bit-suc b i,
  bit-bit_xor i (a / 2) (b / 2),
  ap (λ (t : ℕ). bit t i) halved,
)
  where
    halved : bit_xor a b / 2 ≡ bit_xor (a / 2) (b / 2)
    halved = omega (arith, bit_xor_digit a b)

-- The complement of a word of `w` bits.
pub bit-complement : (i w x : ℕ) → i < w → x < 2 ^ w → bit (2 ^ w - 1 - x) i ≡ 1 - bit x i
bit-complement i zero x h p = absurd (omega arith)
bit-complement zero (suc w) x h p = omega (arith, pow-suc 2 w, one-le-pow w 2)
bit-complement (suc i) (suc w) x h p = omega (
  arith,
  bit-suc (2 ^ suc w - 1 - x) i,
  bit-suc x i,
  bit-complement i w (x / 2) (omega arith) (omega (arith, pow-suc 2 w)),
  ap (λ (t : ℕ). bit t i) halved,
)
  where
    halved : (2 ^ suc w - 1 - x) / 2 ≡ 2 ^ w - 1 - x / 2
    halved = omega (arith, pow-suc 2 w)

pub bit-two_pow_self : (k : ℕ) → bit (2 ^ k) k ≡ 1
bit-two_pow_self k = ap (λ (t : ℕ). t % 2) (div_self (one-le-pow k 2 (omega arith)))

pub bit-two_pow_ne : (k i : ℕ) → k ≢ i → bit (2 ^ k) i ≡ 0
bit-two_pow_ne zero zero h = absurd (h refl)
bit-two_pow_ne zero (suc i) h = omega (arith, bit-suc 1 i, bit-zero_word i)
bit-two_pow_ne (suc k) zero h = omega (arith, pow-suc 2 k)
bit-two_pow_ne (suc k) (suc i) h = omega (
  arith,
  bit-suc (2 ^ suc k) i,
  bit-two_pow_ne k i (λ e. h (ap suc e)),
  ap (λ (t : ℕ). bit t i) halved,
)
  where
    halved : 2 ^ suc k / 2 ≡ 2 ^ k
    halved = omega (arith, pow-suc 2 k)

pub bit_of_small : (w i x : ℕ) → x < 2 ^ w → w ≤ i → bit x i ≡ 0
bit_of_small w i x fits le =
    ap (λ (t : ℕ). t % 2) (div-eq_of_lt (le_trans fits (pow-le-pow_right (omega arith) le)))
