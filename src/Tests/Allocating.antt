-- ===== src/Tests/Allocating.antt =====
-- combined.h: a chunk is allocated.
use riscv_mte.Base.{
  ℕ, ◌+◌, ◌%◌, ◌≤◌, ◌≡◌, refl, arith, true, false, Option, none, some, ◌==◌, if◌then◌else◌, add64,
  sub64, shl64,
}
use riscv_mte.Common.{get_most_significant_set_bit_index, leading_zeros, round_up, is_power_of_two}
use riscv_mte.Chunk.{malloc, Memory, header_size}
use riscv_mte.Options.{get, may_return_null, does_use_memory_tagging}
use riscv_mte.Memtag.{
  Tags, tagged, allocator_supports_memory_tagging, arch_supports_memory_tagging,
  arch_memory_tag_granule_size,
}
use riscv_mte.SizeClassMap.{
  largest_class_id, num_classes, mid_class, mid_size, min_size, low_width, low_mask, scaled_log2,
  max_size, get_size_by_class_id, get_class_id_by_size,
}
use riscv_mte.SizeClassMap.Configs.{default_config, default_config-IsValid}
use riscv_mte.Combined.{uses_tagging, get_header_tagged_pointer, compute_odd_even_mask}
use riscv_mte.Combined.Allocate.{
  null_pointer, failed, returned, out_of_memory, needed_size, primary_block, next_class, allocate,
  tag_primary_chunk, prepare_tagged_chunk,
}
use riscv_mte.Combined.Allocate.Placed.{IsChunk}
use riscv_mte.Combined.Allocate.Classes.{IsFound, primary_block-IsFound}
use riscv_mte.Combined.Allocate.Returned.{allocate-IsChunk}
use riscv_mte.Combined.Allocate.Refused.{allocate-out_of_memory, tag_primary_chunk-prepare}
use riscv_mte.Combined.Allocate.HeaderTag.{prepare_tagged_chunk-header_tag}
use riscv_mte.Tests.Header.{empty_memory}
use riscv_mte.Tests.Tagging.{hart-IsZimte, untagged}
use riscv_mte.Tests.Freeing.{scudo}

default_largest : max_size default_config ≡ 131072
unfolding max_size add64 shl64
default_largest = refl

pub no_tagging : uses_tagging scudo ≡ false
unfolding uses_tagging does_use_memory_tagging allocator_supports_memory_tagging
    arch_supports_memory_tagging arch_memory_tag_granule_size get
no_tagging = refl

-- Only the class 9 has a block.
abbrev pub cache : ℕ → Option ℕ
cache k = if k == 9 then some 0x10000 else none

abbrev pub no_secondary : ℕ → ℕ → ℕ → Option (ℕ × ℕ)
no_secondary size alignment fill = none

needed_100 : needed_size 100 16 ≡ 128
unfolding needed_size round_up add64 sub64
needed_100 = refl

primary_block-IsFound_example :
    IsFound default_config cache
      (needed_size 100 16)
      (primary_block scudo cache no_secondary (needed_size 100 16))
primary_block-IsFound_example =
    primary_block-IsFound scudo default_config-IsValid cache no_secondary (needed_size 100 16)
      (omega (arith, needed_100, default_largest))

finds_9 : primary_block scudo cache no_secondary (needed_size 100 16) ≡ some (9, 0x10000)
unfolding primary_block next_class needed_size round_up add64 sub64 max_size shl64 largest_class_id
    num_classes mid_class mid_size min_size low_width get_class_id_by_size scaled_log2 low_mask
    get_most_significant_set_bit_index leading_zeros
finds_9 = refl

align_16 : is_power_of_two 16 ≡ true
unfolding is_power_of_two sub64
align_16 = refl

abbrev user_ptr : ℕ
user_ptr = round_up (add64 0x10000 header_size) 16

allocate-IsChunk_example :
    (m' : Memory) × (allocate scudo cache no_secondary 9 0 4096 100 malloc 8 false empty_memory
        untagged
      ≡ returned user_ptr m' untagged)
    × (user_ptr % 16 ≡ 0)
    × (0x10000 + 16 ≤ user_ptr)
    × (user_ptr + 100 ≤ 0x10000 + get_size_by_class_id default_config 9)
    × (cache 9 ≡ some 0x10000)
    × IsChunk scudo user_ptr malloc m' 9 0x10000 100
allocate-IsChunk_example =
    allocate-IsChunk scudo no_tagging cache no_secondary 9 0 4096 100 malloc 8 false empty_memory
      untagged 9 0x10000 (omega arith) (omega arith) finds_9 (omega arith) default_config-IsValid
      (omega (arith, default_largest)) (omega (arith, needed_100, default_largest)) align_16
      (omega arith) (omega arith)

abbrev no_block : ℕ → Option ℕ
no_block k = none

allocate-out_of_memory_example :
    allocate scudo no_block no_secondary 9 0 4096 100 malloc 16 false empty_memory untagged ≡ (
      if get scudo.options may_return_null
      then null_pointer
      else failed (out_of_memory (needed_size 100 16)))
allocate-out_of_memory_example =
    allocate-out_of_memory scudo default_config-IsValid no_block no_secondary 9 0 4096 100 malloc 16
      false empty_memory untagged (omega arith) (omega arith) (λ k pos lt fits. refl) refl

prepare_tagged_chunk-header_tag_example :
    (m' : Memory) × (tags' : Tags) × (prepare_tagged_chunk scudo 9 16 4096 64 0 8192 empty_memory
        untagged
      ≡ some (4096, m', tags'))
    × (tags' 255 ≡ 0)
    × (get_header_tagged_pointer scudo 4096 ≡ tagged 4096 2)
prepare_tagged_chunk-header_tag_example =
    prepare_tagged_chunk-header_tag scudo hart-IsZimte 9 16 4096 64 0 8192 0 empty_memory untagged
      refl refl (omega arith) (omega arith) refl refl (omega arith) (omega arith)

tag_primary_chunk-prepare_example :
    tag_primary_chunk scudo 9 0 4096 9 0x10000 0x10010 100 0 empty_memory untagged
    ≡ prepare_tagged_chunk scudo 9 0 0x10010 100
        (compute_odd_even_mask scudo 0x10000 9)
        (add64 0x10000 (get_size_by_class_id default_config 9))
        empty_memory
        untagged
tag_primary_chunk-prepare_example =
    tag_primary_chunk-prepare scudo 9 0 4096 9 0x10000 0x10010 100 0 empty_memory untagged
