-- ===== src/SizeClassMap.antt =====
-- LLVM_SCUDO_MTE/size_class_map.h: allocation sizes to size classes and back. A configuration is a
-- record; the constants that the class template computes from it are functions of it.
mod Geometry
pub mod Fixed
pub mod Configs
use riscv_mte.Base.{
  ℕ, ◌+◌, ◌-◌, ◌*◌, ◌/◌, ◌%◌, ◌^◌, Bool, ◌||◌, min, max, bit_and, ltb, leb, if◌then◌else◌, add64,
  sub64, mul64, shl64, shr, u8, u16, u32,
}
use riscv_mte.Common.{get_most_significant_set_bit_index, get_least_significant_set_bit_index}

unfoldable pub scaled_log2 : ℕ → ℕ → ℕ → ℕ
scaled_log2 size zero_log log_bits =
    let l = get_most_significant_set_bit_index size in
    let l_bits = sub64 (shr size (sub64 l log_bits)) (2 ^ log_bits) in
    let h_bits = shl64 (sub64 l zero_log) log_bits in add64 l_bits h_bits

pub record Config : Type 0 where
  pub num_bits : ℕ
  pub min_size_log : ℕ
  pub mid_size_log : ℕ
  pub max_size_log : ℕ
  pub max_num_cached_hint : ℕ
  pub max_bytes_cached_log : ℕ
  pub size_delta : ℕ

module _ (c : Config) where
  -- `SizeClassMapBase::getMaxCachedHint`: the division is done on 32 bits where the constants allow.
  unfoldable pub get_max_cached_hint : ℕ → ℕ
  get_max_cached_hint size =
      let n =
        if ltb 31 c.max_bytes_cached_log || ltb 31 c.max_size_log
        then u32 (shl64 1 c.max_bytes_cached_log / size)
        else u32 (2 ^ c.max_bytes_cached_log) / u32 size in
      u16 (max 1 (min c.max_num_cached_hint n))

  unfoldable pub min_size : ℕ
  min_size = shl64 1 c.min_size_log

  unfoldable pub mid_size : ℕ
  mid_size = shl64 1 c.mid_size_log

  unfoldable pub mid_class : ℕ
  mid_class = mid_size / min_size

  -- `S` and `M`: the width of a class's low bits, and their mask.
  unfoldable pub low_width : ℕ
  low_width = u8 (sub64 c.num_bits 1)

  unfoldable pub low_mask : ℕ
  low_mask = sub64 (shl64 1 low_width) 1

  unfoldable pub max_size : ℕ
  max_size = add64 (shl64 1 c.max_size_log) c.size_delta

  unfoldable pub num_classes : ℕ
  num_classes = add64 (add64 mid_class (shl64 (sub64 c.max_size_log c.mid_size_log) low_width)) 1

  unfoldable pub largest_class_id : ℕ
  largest_class_id = sub64 num_classes 1

  unfoldable pub get_size_by_class_id : ℕ → ℕ
  get_size_by_class_id class_id =
      if leb class_id mid_class
      then add64 (shl64 class_id c.min_size_log) c.size_delta
      else let rest = sub64 class_id mid_class in
        let t = shl64 mid_size (shr rest low_width) in
        add64 (add64 t (mul64 (shr t low_width) (bit_and rest low_mask))) c.size_delta

  unfoldable pub get_size_lsb_by_class_id : ℕ → ℕ
  get_size_lsb_by_class_id class_id =
      u8 (get_least_significant_set_bit_index (get_size_by_class_id class_id))

  -- `1 << Config::MinSizeLog` is a shift of an int, which the source defines up to 30 bits.
  unfoldable pub get_class_id_by_size : ℕ → ℕ
  get_class_id_by_size size =
      if leb size (add64 c.size_delta (2 ^ c.min_size_log))
      then 1
      else let rest = sub64 size c.size_delta in
        if leb rest mid_size
        then shr (sub64 (add64 rest min_size) 1) c.min_size_log
        else add64 (add64 mid_class 1) (scaled_log2 (sub64 rest 1) c.mid_size_log low_width)
