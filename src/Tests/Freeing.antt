-- ===== src/Tests/Freeing.antt =====
-- combined.h: a chunk is freed.
use riscv_mte.Base.{◌+◌, ◌≡◌, refl, arith, true, false, add64, sub64, shl64, inl, inr}
use riscv_mte.Common.{is_aligned}
use riscv_mte.Checksum.{
  bsd, compute_checksum, compute_bsd_checksum, bsd_loop, bsd_round, fold_words,
}
use riscv_mte.Chunk.{
  malloc, Memory, pack, unpack, write, header_cell, get_atomic_header, compute_header_checksum,
  store_header, load_header,
}
use riscv_mte.Memtag.{
  tagged, untag_pointer, add_fixed_tag, add_tag_immediate, allocator_supports_memory_tagging,
  arch_supports_memory_tagging, arch_memory_tag_granule_size,
}
use riscv_mte.Options.{get, does_use_memory_tagging}
use riscv_mte.SizeClassMap.Configs.{default_config}
use riscv_mte.Combined.{
  Allocator, aborted, released, to_cache, invalid_chunk_state, supports_tagging, uses_tagging,
  add_header_tag, get_header_tagged_pointer, get_block_begin, get_size, bypasses_quarantine,
  freed_header, dispatch, quarantine_or_deallocate_chunk, is_mismatched, check_header, check_chunk,
  deallocate, recycle_chunk,
}
use riscv_mte.Combined.Deallocate.{check_chunk-tagged, deallocate-twice}
use riscv_mte.Combined.Recycle.{recycle_chunk-twice}
use riscv_mte.Tests.Header.{chunk, chunk-Fits, no_crc, empty_memory}
use riscv_mte.Tests.Tagging.{hart, untagged}

-- Tagging is supported but switched off, and there is no quarantine.
abbrev pub scudo : Allocator
scudo = record {
  crc = no_crc;
  algorithm = bsd;
  cookie = 42;
  instructions = hart;
  may_support = true;
  options = 0;
  sizes = default_config;
  block_end = λ block. block + 65536;
  quarantine_disabled = true;
  quarantine_cache_size = 0;
  quarantine_max_chunk_size = 0;
  disable_mem_init = false;
}

check_chunk-tagged_example :
    check_chunk scudo
      (tagged 4096 3)
      malloc
      0
      (store_header no_crc bsd 42 4096 chunk empty_memory).1
    ≡ check_header scudo 4096 (store_header no_crc bsd 42 4096 chunk empty_memory).0 malloc 0
check_chunk-tagged_example =
    check_chunk-tagged scudo 4096 3 malloc 0 chunk empty_memory refl (omega arith) refl
      (omega arith) (omega arith) chunk-Fits

-- The memory in which the chunk at 4096 is allocated, as `initChunk` stores its header, and the one
-- in which it is free.
abbrev pub in_use : Memory
in_use = (store_header no_crc bsd 42 (tagged 4096 2) chunk empty_memory).1

abbrev pub not_in_use : Memory
not_in_use = (store_header no_crc bsd 42 (tagged 4096 2) (record chunk { state = 0 }) in_use).1

pub frees :
    deallocate scudo 9 0 4096 malloc 0 in_use untagged
    ≡ released not_in_use untagged (to_cache 5 4080)
unfolding deallocate check_chunk check_header is_mismatched get_size quarantine_or_deallocate_chunk
    dispatch freed_header bypasses_quarantine get_block_begin get_header_tagged_pointer
    add_header_tag uses_tagging supports_tagging does_use_memory_tagging
    allocator_supports_memory_tagging arch_supports_memory_tagging arch_memory_tag_granule_size get
    untag_pointer add_fixed_tag add_tag_immediate is_aligned load_header store_header
    compute_header_checksum compute_checksum compute_bsd_checksum bsd_loop bsd_round fold_words pack
    unpack write header_cell get_atomic_header add64 sub64 shl64
frees = refl

deallocate-twice_example :
    deallocate scudo 9 0 4096 malloc 0 not_in_use untagged ≡ aborted invalid_chunk_state
deallocate-twice_example =
    deallocate-twice scudo 9 0 4096 malloc 0 in_use not_in_use untagged untagged (to_cache 5 4080)
      (omega arith) frees 9 0 malloc 0 untagged

abbrev waiting : Memory
waiting = (store_header no_crc bsd 42 4096 (record chunk { state = 2 }) empty_memory).1

abbrev recycled : Memory
recycled = (store_header no_crc bsd 42 4096 (record chunk { state = 0 }) waiting).1

recycles : recycle_chunk scudo 4096 waiting ≡ inr (recycled, (5, 4080))
unfolding recycle_chunk get_block_begin supports_tagging allocator_supports_memory_tagging
    arch_supports_memory_tagging arch_memory_tag_granule_size untag_pointer load_header store_header
    compute_header_checksum compute_checksum compute_bsd_checksum bsd_loop bsd_round fold_words pack
    unpack write header_cell get_atomic_header sub64 shl64
recycles = refl

recycle_chunk-twice_example : recycle_chunk scudo 4096 recycled ≡ inl invalid_chunk_state
recycle_chunk-twice_example = recycle_chunk-twice scudo 4096 waiting recycled (5, 4080) recycles
