-- ===== src/Tests/Resizing.antt =====
-- combined.h: a chunk is reallocated.
use riscv_mte.Base.{ℕ, ◌+◌, ◌%◌, ◌<◌, ◌≡◌, ◌≢◌, refl, arith, inl, true, add64, sub64, shl64}
use riscv_mte.Common.{is_aligned}
use riscv_mte.Checksum.{
  bsd, compute_checksum, compute_bsd_checksum, bsd_loop, bsd_round, fold_words,
}
use riscv_mte.Chunk.{
  malloc, UnpackedHeader, Memory, pack, unpack, write, header_cell, get_atomic_header,
  compute_header_checksum, store_header, load_header,
}
use riscv_mte.Memtag.{
  tagged, untag_pointer, add_fixed_tag, add_tag_immediate, allocator_supports_memory_tagging,
  arch_supports_memory_tagging, arch_memory_tag_granule_size,
}
use riscv_mte.SizeClassMap.{
  get_size_by_class_id, mid_class, mid_size, min_size, low_width, low_mask,
}
use riscv_mte.Combined.{
  to_cache, invalid_chunk_state, supports_tagging, add_header_tag, get_header_tagged_pointer,
  get_block_begin,
}
use riscv_mte.Checksum.Injective.{byte}
use riscv_mte.Combined.Bytes.{cell}
use riscv_mte.Combined.Allocate.Placed.{IsChunk}
use riscv_mte.Combined.Reallocate.{resized, rejected, reallocate}
use riscv_mte.Combined.Reallocate.Resized.{IsOldChunk, IsInPlace, reallocate-IsResized}
use riscv_mte.Combined.Reallocate.Rejected.{reallocate-freed}
use riscv_mte.Tests.Header.{chunk, no_crc, empty_memory}
use riscv_mte.Tests.Tagging.{untagged}
use riscv_mte.Tests.Freeing.{scudo, in_use, not_in_use, frees}
use riscv_mte.Tests.Allocating.{no_tagging, cache, no_secondary}

abbrev chunk_header : UnpackedHeader
chunk_header = (store_header no_crc bsd 42 (tagged 4096 2) chunk empty_memory).0

header_aligned : is_aligned (get_header_tagged_pointer scudo 4096) 16 ≡ true
unfolding is_aligned get_header_tagged_pointer supports_tagging allocator_supports_memory_tagging
    arch_supports_memory_tagging arch_memory_tag_granule_size add_header_tag untag_pointer
    add_fixed_tag add_tag_immediate add64 sub64 shl64
header_aligned = refl

in_use-IsOldChunk : IsOldChunk scudo 4096 in_use chunk_header
unfolding is_aligned get_header_tagged_pointer supports_tagging allocator_supports_memory_tagging
    arch_supports_memory_tagging arch_memory_tag_granule_size add_header_tag untag_pointer
    add_fixed_tag add_tag_immediate load_header store_header compute_header_checksum
    compute_checksum compute_bsd_checksum bsd_loop bsd_round fold_words pack unpack write
    header_cell get_atomic_header add64 sub64 shl64
in_use-IsOldChunk = record {
  aligned = refl;
  header_aligned = refl;
  loads = refl;
  state = refl;
  origin = refl;
  primary = omega arith;
}

chunk-IsInPlace : IsInPlace scudo 4096 4096 110 chunk_header
unfolding get_block_begin store_header get_size_by_class_id mid_class mid_size min_size low_width
    low_mask add64 sub64 shl64
chunk-IsInPlace = record { within = omega arith; near = inl (omega arith) }

reallocate-IsResized_example :
    (m' : Memory) × (reallocate scudo cache no_secondary 9 0 0 4096 4096 110 16 in_use untagged
      ≡ resized 4096 m' untagged)
    × IsChunk scudo 4096 malloc m' 5 (get_block_begin scudo 4096 chunk_header) 110
    × ((a j : ℕ)
        → a % 8 ≡ 0
        → j < 8
        → a + j < cell (add64 4096 110)
        → a ≢ header_cell (get_header_tagged_pointer scudo 4096)
        → byte (m' a) j ≡ byte (in_use a) j)
unfolding store_header
reallocate-IsResized_example =
    reallocate-IsResized scudo no_tagging cache no_secondary 9 0 0 4096 4096 110 16 in_use untagged
      chunk_header in_use-IsOldChunk (omega arith) chunk-IsInPlace

reallocate-freed_example :
    reallocate scudo cache no_secondary 9 0 0 4096 4096 110 16 not_in_use untagged
    ≡ rejected invalid_chunk_state
reallocate-freed_example =
    reallocate-freed scudo 9 0 4096 malloc 0 in_use not_in_use untagged untagged (to_cache 5 4080)
      (omega arith) header_aligned frees cache no_secondary 9 0 0 4096 110 16 untagged (omega arith)
