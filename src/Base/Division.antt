-- ===== src/Base/Division.antt =====
-- Quotients and remainders of native numbers from a decomposition, and the floor as a bound.
use native.Mathlib.Nat.{
  mul-add-div_right, mul-add-mod_self_right, div-eq_of_lt, mod-eq_of_lt, add-zero,
  le-div_iff_mul-le, div-mul-le_self,
}
use Prim.Native.Nat.{ℕ, ◌+◌, ◌*◌, ◌/◌, ◌%◌, ◌≤◌, ◌<◌}
use mathlib.Core.Path.{◌≡◌, ap, ◌∙◌}
use native.Mathlib.Omega.{arith}

pub quotient_lem : (a p r : ℕ) → r < p → (a * p + r) / p ≡ a
quotient_lem a p r h =
    mul-add-div_right (omega arith) a r ∙ ap (λ (t : ℕ). a + t) (div-eq_of_lt h) ∙ add-zero a

pub remainder_lem : (a p r : ℕ) → r < p → (a * p + r) % p ≡ r
remainder_lem a p r h = mul-add-mod_self_right a p r ∙ mod-eq_of_lt h

pub div_mono : (x y n : ℕ) → 0 < n → x ≤ y → x / n ≤ y / n
div_mono x y n pos le = (le-div_iff_mul-le pos).1 (omega (arith, div-mul-le_self x n))
