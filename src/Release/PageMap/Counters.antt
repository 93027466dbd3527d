-- ===== src/Release/PageMap/Counters.antt =====
-- The counters of RegionPageMap of LLVM_SCUDO_MTE/release.h: get, inc, incN and setAsAllCounted.
use native.Mathlib.Decide.{dec_lt}
use native.Mathlib.Nat.{one-le-pow, div-add-mod', mod-lt, mul-le-mul_right}
use riscv_mte.Base.{
  ℕ, suc, ◌+◌, ◌-◌, ◌*◌, ◌/◌, ◌%◌, ◌^◌, ◌≤◌, ◌<◌, ◌≡◌, sym, ap, ◌∙◌, arith, u64_mod, add64,
  add64_eq, mul64_eq, shl64, shl64_eq, bit_and, quotient_lem, remainder_lem,
}
use riscv_mte.Bits.{two_pow_add, bit_and-low_mask, two_pow_lt}
use riscv_mte.Release.PageMap.{RegionPageMap, Buffer, word_index, bit_offset, get_counter}
use riscv_mte.Release.PageMap.Layout.{digit, pow-pow}

-- A counter has 2 ^ `bits_log` bits, and the counters of all regions have words of their own.
pub record IsLayout (m : RegionPageMap) : Type 0 where
  pub log_le : m.counter_size_bits_log ≤ 6
  pub mask_eq : m.counter_mask ≡ 2 ^ (2 ^ m.counter_size_bits_log) - 1
  pub ratio_eq : m.packing_ratio_log ≡ 6 - m.counter_size_bits_log
  pub offset_mask_eq : m.bit_offset_mask ≡ 2 ^ m.packing_ratio_log - 1
  pub room : m.num_counters ≤ m.size_per_region * 2 ^ m.packing_ratio_log
  pub fits : m.regions * m.size_per_region < u64_mod

abbrev pub AreWords : Buffer → Type 0
AreWords words = (k : ℕ) → words k < u64_mod

module _ (m : RegionPageMap) (is : IsLayout m) where
  abbrev pub ratio : ℕ
  ratio = 2 ^ m.packing_ratio_log

  abbrev pub bits : ℕ
  bits = 2 ^ m.counter_size_bits_log

  -- The base of the digits.
  abbrev pub base : ℕ
  base = 2 ^ bits

  pub ratio_pos : 0 < ratio
  ratio_pos = one-le-pow m.packing_ratio_log 2 (omega arith)

  bits_pos : 0 < bits
  bits_pos = one-le-pow m.counter_size_bits_log 2 (omega arith)

  pub big : 1 < base
  big = two_pow_lt 0 bits bits_pos

  ratio-bits : ratio * bits ≡ 64
  ratio-bits =
      sym (two_pow_add m.packing_ratio_log m.counter_size_bits_log)
      ∙ ap (λ (t : ℕ). 2 ^ t) {y = 6} (omega (arith, is.ratio_eq, is.log_le))

  pub whole_word : base ^ ratio ≡ u64_mod
  whole_word = sym (pow-pow bits ratio) ∙ ap (λ (t : ℕ). 2 ^ t) ratio-bits

  pub place : (i : ℕ) → i % ratio < ratio
  place i = mod-lt i ratio_pos

  offset_eq : (i : ℕ) → bit_offset m i ≡ i % ratio * bits
  unfolding bit_offset
  offset_eq i =
      let low : bit_and i m.bit_offset_mask ≡ i % ratio =
        ap (bit_and i) is.offset_mask_eq ∙ bit_and-low_mask m.packing_ratio_log i in
      ap (λ (t : ℕ). shl64 t m.counter_size_bits_log) low
      ∙ shl64_eq (i % ratio) m.counter_size_bits_log (
          omega (
            arith,
            ratio-bits,
            mul-le-mul_right {m = i % ratio} {n = ratio} bits (omega (arith, place i)),
          ))

  pub scale : (i : ℕ) → 2 ^ bit_offset m i ≡ base ^ (i % ratio)
  scale i = ap (λ (t : ℕ). 2 ^ t) (offset_eq i) ∙ pow-pow bits (i % ratio)

  pub get_counter-digit :
      (region i : ℕ) (words : Buffer)
      → get_counter m region i words ≡ digit base (words (word_index m region i)) (i % ratio)
  unfolding get_counter
  get_counter-digit region i words =
      ap (bit_and (words (word_index m region i) / 2 ^ bit_offset m i)) is.mask_eq
      ∙ bit_and-low_mask bits (words (word_index m region i) / 2 ^ bit_offset m i)
      ∙ ap (λ (t : ℕ). words (word_index m region i) / t % base) (scale i)

  -- The word of a counter stands in the part of its region.
  quotient_lt : (i : ℕ) → i < m.num_counters → i / ratio < m.size_per_region
  quotient_lt i h = elim (dec_lt (i / ratio) m.size_per_region) [
    | yes p ↦ p
    | no n ↦
        let le : m.size_per_region * ratio ≤ i / ratio * ratio =
          mul-le-mul_right {m = m.size_per_region} {n = i / ratio} ratio (omega arith) in
        absurd (omega (arith, div-add-mod' i ratio, is.room))
  ]

  module _ (region i : ℕ) (h : region < m.regions) (h' : i < m.num_counters) where
    word_index-lt : region * m.size_per_region + i / ratio < u64_mod
    word_index-lt =
        let le : suc region * m.size_per_region ≤ m.regions * m.size_per_region =
          mul-le-mul_right {m = suc region} {n = m.regions} m.size_per_region h in
        omega (arith, quotient_lt i h', is.fits)

    word_index_eq : word_index m region i ≡ region * m.size_per_region + i / ratio
    unfolding word_index
    word_index_eq =
        ap (λ (t : ℕ). add64 t (i / ratio))
          (mul64_eq region m.size_per_region (omega (arith, word_index-lt)))
        ∙ add64_eq (region * m.size_per_region) (i / ratio) word_index-lt

  pub word_index_injective :
      (r i r' j : ℕ)
      → r < m.regions
      → i < m.num_counters
      → r' < m.regions
      → j < m.num_counters
      → word_index m r i ≡ word_index m r' j
      → (r ≡ r') × (i / ratio ≡ j / ratio)
  word_index_injective r i r' j a b a' b' e =
      let sum = sym (word_index_eq r i a b) ∙ e ∙ word_index_eq r' j a' b' in
      (
        sym (quotient_lem r m.size_per_region (i / ratio) (quotient_lt i b))
            ∙ ap (λ (t : ℕ). t / m.size_per_region) sum
            ∙ quotient_lem r' m.size_per_region (j / ratio) (quotient_lt j b'),
        sym (remainder_lem r m.size_per_region (i / ratio) (quotient_lt i b))
            ∙ ap (λ (t : ℕ). t % m.size_per_region) sum
            ∙ remainder_lem r' m.size_per_region (j / ratio) (quotient_lt j b'),
      )
