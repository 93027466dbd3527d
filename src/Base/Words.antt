-- ===== src/Base/Words.antt =====
-- Arithmetic of the unsigned machine words: `uptr` and `u64` have 64 bits, `u32` and `u16` fewer.
-- A result wraps around. Each operation has a lemma for the case where nothing wraps.
use Prim.Native.Nat.{ℕ, ◌+◌, ◌-◌, ◌*◌, ◌/◌, ◌%◌, ◌^◌, ◌≤◌, ◌<◌}
use mathlib.Core.Path.{◌≡◌}
use native.Mathlib.Nat.{mod-eq_of_lt}
use native.Mathlib.Omega.{arith}

abbrev pub word_size : ℕ
word_size = 64

abbrev pub u64_mod : ℕ
u64_mod = 2 ^ 64

abbrev pub u8 : ℕ → ℕ
u8 x = x % 2 ^ 8

abbrev pub u16 : ℕ → ℕ
u16 x = x % 2 ^ 16

abbrev pub u32 : ℕ → ℕ
u32 x = x % 2 ^ 32

-- `~0`, all ones.
abbrev pub all_ones : ℕ
all_ones = 2 ^ 64 - 1

unfoldable pub add64 : ℕ → ℕ → ℕ
add64 a b = (a + b) % u64_mod

unfoldable pub sub64 : ℕ → ℕ → ℕ
sub64 a b = (a + (u64_mod - b % u64_mod)) % u64_mod

unfoldable pub mul64 : ℕ → ℕ → ℕ
mul64 a b = a * b % u64_mod

unfoldable pub shl64 : ℕ → ℕ → ℕ
shl64 a k = a * 2 ^ k % u64_mod

-- A right shift of an unsigned word.
abbrev pub shr : ℕ → ℕ → ℕ
shr a k = a / 2 ^ k

-- `~x` of a 64-bit word.
abbrev pub not64 : ℕ → ℕ
not64 x = u64_mod - 1 - x

pub add64_eq : (a b : ℕ) → a + b < u64_mod → add64 a b ≡ a + b
unfolding add64
add64_eq a b h = mod-eq_of_lt h

pub sub64_eq : (a b : ℕ) → b ≤ a → a < u64_mod → sub64 a b ≡ a - b
unfolding sub64
sub64_eq a b h k = omega arith

pub mul64_eq : (a b : ℕ) → a * b < u64_mod → mul64 a b ≡ a * b
unfolding mul64
mul64_eq a b h = mod-eq_of_lt h

pub shl64_eq : (a k : ℕ) → a * 2 ^ k < u64_mod → shl64 a k ≡ a * 2 ^ k
unfolding shl64
shl64_eq a k h = mod-eq_of_lt h

pub add64-lt : (a b : ℕ) → add64 a b < u64_mod
unfolding add64
add64-lt a b = omega arith

pub sub64-lt : (a b : ℕ) → sub64 a b < u64_mod
unfolding sub64
sub64-lt a b = omega arith
