-- ===== src/Bits/Union.antt =====
-- The union with a mask, which fills a field of a word.
use native.Mathlib.Nat.{pow-suc, one-le-pow, mul-one, div-one}
use riscv_mte.Base.{ℕ, zero, suc, ◌+◌, ◌-◌, ◌*◌, ◌/◌, ◌%◌, ◌^◌, ◌≡◌, ap, arith, bit_or}
use riscv_mte.Bits.Digit.{bit_or_digit}
use riscv_mte.Bits.Masks.{mod-two-pow-suc, div-two-pow-suc, shift-suc, bit_or-zero}

pub bit_or-low_mask : (c y : ℕ) → bit_or y (2 ^ c - 1) ≡ y + (2 ^ c - 1 - y % 2 ^ c)
bit_or-low_mask zero y = omega (arith, bit_or-zero y)
bit_or-low_mask (suc c) y =
    let half : (2 ^ suc c - 1) / 2 ≡ 2 ^ c - 1 = omega (arith, pow-suc 2 c, one-le-pow c 2) in
    omega (
      arith,
      bit_or_digit y (2 ^ suc c - 1),
      ap (bit_or (y / 2)) half,
      bit_or-low_mask c (y / 2),
      mod-two-pow-suc y c,
      pow-suc 2 c,
      one-le-pow c 2,
    )

pub bit_or-shifted_mask :
    (k x m : ℕ) → bit_or x (m * 2 ^ k) ≡ bit_or (x / 2 ^ k) m * 2 ^ k + x % 2 ^ k
bit_or-shifted_mask zero x m =
    omega (arith, ap (λ (t : ℕ). bit_or t m) (div-one x), ap (bit_or x) (mul-one m))
bit_or-shifted_mask (suc k) x m =
    let half : m * 2 ^ suc k / 2 ≡ m * 2 ^ k = omega (arith, shift-suc m k) in
    omega (
      arith,
      bit_or_digit x (m * 2 ^ suc k),
      ap (bit_or (x / 2)) half,
      bit_or-shifted_mask k (x / 2) m,
      mod-two-pow-suc x k,
      shift-suc m k,
      ap (λ (t : ℕ). bit_or t m) (div-two-pow-suc x k),
      shift-suc (bit_or (x / 2 ^ suc k) m) k,
      ap (λ (t : ℕ). t * 2 ^ k) (ap (λ (t : ℕ). bit_or t m) (div-two-pow-suc x k)),
    )
