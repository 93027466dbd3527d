-- ===== src/Release/PageMap.antt =====
-- RegionPageMap of LLVM_SCUDO_MTE/release.h: counters of a few bits each, packed into words. The
-- words of the buffer are a function of the index.
pub mod Layout
pub mod Counters
pub mod Updates
pub mod Reset
pub mod Ranges
use riscv_mte.Base.{
  ℕ, zero, suc, ◌+◌, ◌-◌, ◌*◌, ◌^◌, Bool, true, false, min, bit_and, bit_or, ◌==◌, if◌then◌else◌,
  all_ones, add64, sub64, mul64, shl64, shr,
}
use riscv_mte.Common.{get_most_significant_set_bit_index, round_up_power_of_two, get_log2, round_up}

pub record RegionPageMap : Type 0 where
  pub regions : ℕ
  pub num_counters : ℕ
  pub counter_size_bits_log : ℕ
  pub counter_mask : ℕ
  pub packing_ratio_log : ℕ
  pub bit_offset_mask : ℕ
  pub size_per_region : ℕ
  pub buffer_num_elements : ℕ

abbrev pub Buffer : Type 0
Buffer = ℕ → ℕ

-- The fields for a size of the counters in bits.
unfoldable pub layout : (number_of_region counters_per_region counter_size_bits : ℕ) → RegionPageMap
layout number_of_region counters_per_region counter_size_bits =
    let bits_log = get_log2 counter_size_bits in
    let packing_ratio = shr 64 bits_log in
    let ratio_log = get_log2 packing_ratio in
    let per_region = shr (round_up counters_per_region (shl64 1 ratio_log)) ratio_log in
    record {
      regions = number_of_region;
      num_counters = counters_per_region;
      counter_size_bits_log = bits_log;
      counter_mask = shr all_ones (sub64 64 counter_size_bits);
      packing_ratio_log = ratio_log;
      bit_offset_mask = sub64 packing_ratio 1;
      size_per_region = per_region;
      buffer_num_elements = mul64 per_region number_of_region;
    }

-- `reset`, without the request for a buffer.
unfoldable pub reset : (number_of_region counters_per_region max_value : ℕ) → RegionPageMap
reset number_of_region counters_per_region max_value =
    layout number_of_region counters_per_region
      (round_up_power_of_two (add64 (get_most_significant_set_bit_index max_value) 1))

abbrev pub write_word : ℕ → ℕ → Buffer → Buffer
write_word at value words k = if k == at then value else words k

module _ (m : RegionPageMap) where
  -- The word of a counter, and the position of its lowest bit.
  unfoldable pub word_index : (region i : ℕ) → ℕ
  word_index region i = add64 (mul64 region m.size_per_region) (shr i m.packing_ratio_log)

  unfoldable pub bit_offset : ℕ → ℕ
  bit_offset i = shl64 (bit_and i m.bit_offset_mask) m.counter_size_bits_log

  unfoldable pub get_counter : (region i : ℕ) → Buffer → ℕ
  get_counter region i words =
      bit_and (shr (words (word_index region i)) (bit_offset i)) m.counter_mask

  unfoldable pub inc : (region i : ℕ) → Buffer → Buffer
  inc region i words =
      let at = word_index region i in
      write_word at (add64 (words at) (shl64 1 (bit_offset i))) words

  unfoldable pub inc_n : (region i n : ℕ) → Buffer → Buffer
  inc_n region i n words =
      let at = word_index region i in
      write_word at (add64 (words at) (shl64 n (bit_offset i))) words

  -- `count` counters from `i` on.
  unfoldable pub inc_loop : (count region i : ℕ) → Buffer → Buffer
  inc_loop zero region i words = words
  inc_loop (suc count) region i words = inc_loop count region (i + 1) (inc region i words)

  unfoldable pub inc_range : (region from to : ℕ) → Buffer → Buffer
  inc_range region from to words =
      inc_loop (min (add64 to 1) m.num_counters - from) region from words

  unfoldable pub set_as_all_counted : (region i : ℕ) → Buffer → Buffer
  set_as_all_counted region i words =
      let at = word_index region i in
      write_word at (bit_or (words at) (shl64 m.counter_mask (bit_offset i))) words

  unfoldable pub set_loop : (count region i : ℕ) → Buffer → Buffer
  set_loop zero region i words = words
  set_loop (suc count) region i words =
      set_loop count region (i + 1) (set_as_all_counted region i words)

  unfoldable pub set_as_all_counted_range : (region from to : ℕ) → Buffer → Buffer
  set_as_all_counted_range region from to words =
      set_loop (min (add64 to 1) m.num_counters - from) region from words

  unfoldable pub update_as_all_counted_if : (region i max_count : ℕ) → Buffer → Bool × Buffer
  update_as_all_counted_if region i max_count words =
      let n = get_counter region i words in
      if n == m.counter_mask
      then (true, words)
      else if n == max_count
      then (true, set_as_all_counted region i words)
      else (false, words)

  unfoldable pub is_all_counted : (region i : ℕ) → Buffer → Bool
  is_all_counted region i words = get_counter region i words == m.counter_mask
