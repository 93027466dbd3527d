-- ===== src/Common.antt =====
-- LLVM_SCUDO_MTE/common.h: alignment, powers of two, bit indices, the pseudorandom generator with the
-- shuffle, and percentages. A debug check (`DCHECK`) is a precondition, so it is a hypothesis of the
-- theorems. The compiler's `__builtin_clzl` and `__builtin_ctzl` count zero bits of a word.
pub mod Align
pub mod Index
pub mod Shuffle
pub mod Percent
use riscv_mte.Base.{
  ℕ, zero, suc, ◌+◌, ◌*◌, ◌/◌, ◌%◌, ◌^◌, Bool, true, false, List, bit_and, bit_xor, ltb, leb, ◌==◌,
  if◌then◌else◌, word_size, u32, add64, sub64, mul64, shl64, shr, not64, get_or, set,
}

unfoldable pub is_power_of_two : ℕ → Bool
is_power_of_two x = if x == 0 then false else bit_and x (sub64 x 1) == 0

unfoldable pub round_up : ℕ → ℕ → ℕ
round_up x boundary = bit_and (sub64 (add64 x boundary) 1) (not64 (sub64 boundary 1))

unfoldable pub round_up_slow : ℕ → ℕ → ℕ
round_up_slow x boundary = mul64 (sub64 (add64 x boundary) 1 / boundary) boundary

unfoldable pub round_down : ℕ → ℕ → ℕ
round_down x boundary = bit_and x (not64 (sub64 boundary 1))

unfoldable pub round_down_slow : ℕ → ℕ → ℕ
round_down_slow x boundary = mul64 (x / boundary) boundary

unfoldable pub is_aligned : ℕ → ℕ → Bool
is_aligned x alignment = bit_and x (sub64 alignment 1) == 0

unfoldable pub is_aligned_slow : ℕ → ℕ → Bool
is_aligned_slow x alignment = x % alignment == 0

-- The zero bits above the highest set bit, of a word of `w` bits.
unfoldable pub leading_zeros : (w x : ℕ) → ℕ
leading_zeros zero x = 0
leading_zeros (suc w) x = if ltb x (2 ^ w) then suc (leading_zeros w x) else 0

-- The zero bits below the lowest set bit.
unfoldable pub trailing_zeros : (w x : ℕ) → ℕ
trailing_zeros zero x = 0
trailing_zeros (suc w) x = if x % 2 == 1 then 0 else suc (trailing_zeros w (x / 2))

unfoldable pub get_most_significant_set_bit_index : ℕ → ℕ
get_most_significant_set_bit_index x = sub64 (sub64 word_size 1) (leading_zeros word_size x)

unfoldable pub round_up_power_of_two : ℕ → ℕ
round_up_power_of_two size =
    if is_power_of_two size
    then size
    else shl64 1 (add64 (get_most_significant_set_bit_index size) 1)

unfoldable pub get_least_significant_set_bit_index : ℕ → ℕ
get_least_significant_set_bit_index x = trailing_zeros word_size x

unfoldable pub get_log2 : ℕ → ℕ
get_log2 x = get_least_significant_set_bit_index x

-- Xorshift on 32 bits. The result is also the next state.
unfoldable pub get_random_u32 : ℕ → ℕ
get_random_u32 state =
    let a = bit_xor state (u32 (state * 2 ^ 13)) in
    let b = bit_xor a (shr a 17) in bit_xor b (u32 (b * 2 ^ 5))

-- The next state, and a number below `n`.
unfoldable pub get_random_mod_n : ℕ → ℕ → ℕ × ℕ
get_random_mod_n state n = let next = get_random_u32 state in (next, next % n)

unfoldable pub swap : List ℕ → ℕ → ℕ → List ℕ
swap xs i j = set (set xs i (get_or xs j 0)) j (get_or xs i 0)

-- The loop of `shuffle` from index `i` down to 1.
unfoldable pub shuffle_loop : ℕ → List ℕ → ℕ → List ℕ × ℕ
shuffle_loop zero xs state = (xs, state)
shuffle_loop (suc i) xs state =
    let (next, j) = get_random_mod_n state (suc i + 1) in shuffle_loop i (swap xs (suc i) j) next

-- Shuffles the first `n` elements, and returns the array and the generator's state.
unfoldable pub shuffle : List ℕ → ℕ → ℕ → List ℕ × ℕ
shuffle xs n rand_state =
    if leb n 1 then (xs, rand_state) else shuffle_loop (sub64 n 1) xs rand_state

-- The integral and the fractional part, in hundredths.
unfoldable pub compute_percentage : ℕ → ℕ → ℕ × ℕ
compute_percentage numerator denominator = if denominator == 0 then (100, 0) else (
  mul64 numerator 100 / denominator,
  add64 (mul64 (mul64 numerator 100 % denominator) 100) (denominator / 2) / denominator,
)
