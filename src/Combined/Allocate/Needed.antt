-- ===== src/Combined/Allocate/Needed.antt =====
-- The size of a block and the chunk's place in it, in allocate of LLVM_SCUDO_MTE/combined.h.
use riscv_mte.Base.{
  ℕ, ◌+◌, ◌-◌, ◌*◌, ◌/◌, ◌%◌, ◌^◌, ◌≤◌, ◌<◌, ◌≡◌, ap, ◌∙◌, arith, true, ltb, if◌then◌else◌, add64,
  add64_eq,
}
use native.Mathlib.Nat.{div-add-mod', mod_self}
use riscv_mte.Bits.{two_pow_add, exponent_of_lt}
use riscv_mte.Common.{is_power_of_two, round_up}
use riscv_mte.Common.Align.{exponent, round_up_lem, two_pow-is_power_of_two}
use riscv_mte.Chunk.{header_size}
use riscv_mte.Combined.Allocate.{max_alignment, needed_size}

module _ (alignment : ℕ) (power : is_power_of_two alignment ≡ true) (low : 16 ≤ alignment)
    (high : alignment ≤ max_alignment) where
  -- A multiple of the alignment is a multiple of 16.
  multiple_of_16 : (x : ℕ) → x % alignment ≡ 0 → x % 16 ≡ 0
  multiple_of_16 x e =
      let (k, is, lt) = exponent alignment power (omega arith) in
      let k_large : 3 < k = exponent_of_lt 3 k (omega arith) in
      let split : alignment ≡ 2 ^ (k - 4) * 16 =
        is ∙ ap (λ (t : ℕ). 2 ^ t) {y = k - 4 + 4} (omega arith) ∙ two_pow_add (k - 4) 4 in
      let q = x / alignment in
      let whole : x ≡ q * 2 ^ (k - 4) * 16 =
        omega (arith, div-add-mod' x alignment, ap (λ (t : ℕ). q * t) split) in
      omega (arith, whole)

  alignment-16 : alignment % 16 ≡ 0
  alignment-16 = multiple_of_16 alignment (mod_self alignment)

  module _ (size block : ℕ) (small : size < 2 ^ 40) (aligned : block % 16 ≡ 0)
      (fits : block < 2 ^ 56) where
    abbrev pub user_ptr : ℕ
    user_ptr = round_up (add64 block header_size) alignment

    header_end : add64 block header_size ≡ block + 16
    header_end = add64_eq block 16 (omega arith)

    rounded_lem :
        (size ≤ round_up size 16) × (round_up size 16 < size + 16) × (round_up size 16 % 16 ≡ 0)
    rounded_lem =
        round_up_lem size 16 (two_pow-is_power_of_two 4 (omega arith)) (omega arith) (omega arith)

    needed_value :
        needed_size size alignment ≡ round_up size 16 + (if ltb 16 alignment then alignment else 16)
    unfolding needed_size
    needed_value =
        add64_eq (round_up size 16) (if ltb 16 alignment then alignment else 16)
          (ground (arith, rounded_lem.1, high))

    -- For an alignment that is a power of two from 16 to 2 ^ 24, a size below 2 ^ 40 and a block
    -- with an address below 2 ^ 56 that is a multiple of 16.
    pub user_ptr_lem :
        (block + 16 ≤ user_ptr)
        × (user_ptr + size ≤ block + needed_size size alignment)
        × (user_ptr % alignment ≡ 0)
        × (user_ptr % 16 ≡ 0)
    user_ptr_lem =
        let (le, lt, divides) =
          round_up_lem (add64 block header_size) alignment power (omega arith)
            (omega (arith, header_end)) in
        let by_16 : user_ptr % 16 ≡ 0 = multiple_of_16 user_ptr divides in
        (
          omega (arith, le, header_end),
          ground (
            arith, lt, header_end, by_16, alignment-16, needed_value, rounded_lem.0, rounded_lem.2,
          ),
          divides,
          by_16,
        )

    -- The needed size is the size and the alignment at most, rounded up.
    pub needed_size-lt : needed_size size alignment < size + 16 + alignment
    needed_size-lt = ground (arith, needed_value, rounded_lem.1, low)
