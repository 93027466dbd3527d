-- ===== src/SizeClassMap/Configs.antt =====
-- The three configurations of a FixedSizeClassMap in LLVM_SCUDO_MTE/size_class_map.h, and
-- getMaxCachedHint.
use riscv_mte.Base.{ℕ, ◌^◌, ◌≤◌, ◌<◌, arith, ◌||◌, ltb, inl, inr, Bool-cases}
use riscv_mte.SizeClassMap.{Config, get_max_cached_hint}
use riscv_mte.SizeClassMap.Fixed.{IsValid}

abbrev pub default_config : Config
default_config = record {
  num_bits = 3;
  min_size_log = 5;
  mid_size_log = 8;
  max_size_log = 17;
  max_num_cached_hint = 14;
  max_bytes_cached_log = 10;
  size_delta = 0;
}

-- Its delta is the size of a chunk header.
abbrev pub fuchsia_config : Config
fuchsia_config = record {
  num_bits = 3;
  min_size_log = 5;
  mid_size_log = 8;
  max_size_log = 17;
  max_num_cached_hint = 12;
  max_bytes_cached_log = 10;
  size_delta = 16;
}

abbrev pub trusty_config : Config
trusty_config = record {
  num_bits = 1;
  min_size_log = 5;
  mid_size_log = 5;
  max_size_log = 15;
  max_num_cached_hint = 12;
  max_bytes_cached_log = 10;
  size_delta = 0;
}

pub default_config-IsValid : IsValid default_config
default_config-IsValid = omega arith

pub fuchsia_config-IsValid : IsValid fuchsia_config
fuchsia_config-IsValid = omega arith

pub trusty_config-IsValid : IsValid trusty_config
trusty_config-IsValid = omega arith

-- Where the configured hint is positive and below 2 ^ 16, `getMaxCachedHint` of any size is at
-- least 1 and at most the configured hint.
pub max_cached_hint_bounds :
    (c : Config) (size : ℕ)
    → 0 < c.max_num_cached_hint
    → c.max_num_cached_hint < 2 ^ 16
    → (0 < get_max_cached_hint c size) × (get_max_cached_hint c size ≤ c.max_num_cached_hint)
unfolding get_max_cached_hint
max_cached_hint_bounds c size pos fits =
    elim (Bool-cases (ltb 31 c.max_bytes_cached_log || ltb 31 c.max_size_log)) [
      | inl wide ↦ rw wide (omega arith)
      | inr narrow ↦ rw narrow (omega arith)
    ]
