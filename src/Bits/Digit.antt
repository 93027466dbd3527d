-- ===== src/Bits/Digit.antt =====
-- One equation for the lowest digit of each bit operation, from the recursion on binary digits
-- that the native operations stand for.
use Prim.Native.Nat.{
  max, ◌+◌, ◌*◌, ◌/◌, ◌%◌, ◌≤◌, ◌<◌, ℕ, zero, suc, min, digits, bitwise, bit_and-bitwise,
  bit_or-bitwise, bit_xor-bitwise, bit_and, bit_or, bit_xor, differ,
}
use mathlib.Core.Path.{◌≡◌, refl, ap, ◌∙◌}
use native.Mathlib.Nat.{le_refl}
use native.Mathlib.Omega.{arith}

module _ (left_end : ℕ → ℕ) (digit : ℕ → ℕ → ℕ) where
  -- Any fuel that covers the first number gives the same digits.
  fuel_irrelevant :
      (n k a b : ℕ) → a ≤ n → a ≤ k → digits left_end digit n a b ≡ digits left_end digit k a b
  fuel_irrelevant zero zero a b p q = refl
  fuel_irrelevant zero (suc k) zero b p q = refl
  fuel_irrelevant zero (suc k) (suc a) b p q = absurd (omega arith)
  fuel_irrelevant (suc n) zero zero b p q = refl
  fuel_irrelevant (suc n) zero (suc a) b p q = absurd (omega arith)
  fuel_irrelevant (suc n) (suc k) zero b p q = refl
  fuel_irrelevant (suc n) (suc k) (suc a) b p q =
      rw (fuel_irrelevant n k (suc a / 2) (b / 2) (omega arith) (omega arith))

  lowest_digit :
      (a b : ℕ)
      → bitwise left_end digit (suc a) b
        ≡ bitwise left_end digit (suc a / 2) (b / 2) * 2 + digit (suc a % 2) (b % 2)
  lowest_digit a b =
      omega (arith, fuel_irrelevant a (suc a / 2) (suc a / 2) (b / 2) (omega arith) (le_refl _))

pub bit_and_digit : (a b : ℕ) → bit_and a b ≡ bit_and (a / 2) (b / 2) * 2 + min (a % 2) (b % 2)
bit_and_digit zero b = simp bit_and-bitwise (omega arith)
bit_and_digit (suc a) b = simp bit_and-bitwise (lowest_digit (λ y. 0) min a b)

pub bit_or_digit : (a b : ℕ) → bit_or a b ≡ bit_or (a / 2) (b / 2) * 2 + max (a % 2) (b % 2)
bit_or_digit zero b = simp bit_or-bitwise (omega arith)
bit_or_digit (suc a) b = simp bit_or-bitwise (lowest_digit (λ y. y) max a b)

-- The exclusive or of two digits is the parity of their sum.
differ-parity : (x y : ℕ) → x < 2 → y < 2 → differ x y ≡ (x + y) % 2
differ-parity zero y p q = omega arith
differ-parity (suc zero) zero p q = refl
differ-parity (suc zero) (suc y) p q = omega arith
differ-parity (suc (suc x)) y p q = absurd (omega arith)

pub bit_xor_digit : (a b : ℕ) → bit_xor a b ≡ bit_xor (a / 2) (b / 2) * 2 + (a % 2 + b % 2) % 2
bit_xor_digit zero b = simp bit_xor-bitwise (omega arith)
bit_xor_digit (suc a) b = simp bit_xor-bitwise (
    lowest_digit (λ y. y) differ a b
    ∙ ap (λ (t : ℕ). bitwise (λ y. y) differ (suc a / 2) (b / 2) * 2 + t)
        (differ-parity (suc a % 2) (b % 2) (omega arith) (omega arith)))
