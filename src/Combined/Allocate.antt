-- ===== src/Combined/Allocate.antt =====
-- allocate, initChunk and initChunkWithMemoryTagging of LLVM_SCUDO_MTE/combined.h. A fill of the
-- contents writes bytes of the memory (Combined/Bytes). What the cache of each size class answers and
-- what the secondary allocator answers are parameters.
pub mod Needed
pub mod Classes
pub mod Placed
pub mod Returned
pub mod Refused
pub mod HeaderTag
use riscv_mte.Base.{
  ℕ, zero, suc, ◌+◌, ◌-◌, ◌*◌, ◌/◌, ◌%◌, ◌^◌, Bool, true, false, not, ◌&&◌, Option, none, some, min,
  ltb, leb, ◌==◌, ◌!=◌, if◌then◌else◌, u32, add64, sub64, shr, bit_and,
}
use riscv_mte.Common.{round_up}
use riscv_mte.Chunk.{
  Origin, origin_code, state_code, allocated, UnpackedHeader, Memory, write, header_size,
  store_header, is_valid, class_id_mask, origin_mask, size_or_unused_bytes_mask, offset_mask,
}
use riscv_mte.Memtag.{
  Tags, untag_pointer, extract_tag, store_tags, store_tag, load_tag, set_random_tag,
}
use riscv_mte.SizeClassMap.{max_size, largest_class_id, get_class_id_by_size, get_size_by_class_id}
use riscv_mte.Options.{get, get_fill_contents_mode, mode_code, no_fill, zero_fill, may_return_null}
use riscv_mte.Combined.Bytes.{cell, memset}
use riscv_mte.Combined.{Allocator, uses_tagging, add_header_tag, compute_odd_even_mask}

abbrev pub min_alignment : ℕ
min_alignment = 16

abbrev pub max_alignment : ℕ
max_alignment = 2 ^ 24

abbrev pub max_allowed_malloc_size : ℕ
max_allowed_malloc_size = 2 ^ 40

abbrev pub block_marker : ℕ
block_marker = 0x44554353

-- Why an allocation aborts.
pub data AllocationReport : Type 0 where
  alignment_too_big : (alignment : ℕ) → AllocationReport
  allocation_size_too_big : (size needed_size : ℕ) → AllocationReport
  out_of_memory : (needed_size : ℕ) → AllocationReport

pub data Allocated : Type 0 where
  null_pointer : Allocated
  failed : AllocationReport → Allocated
  no_fuel : Allocated
  returned : (ptr : ℕ) → Memory → Tags → Allocated

-- A block, its size class or 0, and the end of a secondary block.
pub record Found : Type 0 where
  pub class_id : ℕ
  pub block : ℕ
  pub block_end : ℕ

-- `PatternFillByte`.
abbrev pub pattern_fill_byte : ℕ
pattern_fill_byte = 0xAB

unfoldable pub needed_size : (size alignment : ℕ) → ℕ
needed_size size alignment =
    add64 (round_up size min_alignment)
      (if ltb min_alignment alignment then alignment else header_size)

-- The offset in the header, and the marker at the start of the block.
unfoldable pub mark_offset : (block default_ptr user_ptr : ℕ) → Memory → ℕ × Memory
mark_offset block default_ptr user_ptr m =
    if default_ptr != user_ptr
    then (let offset = sub64 user_ptr default_ptr in
        (
          bit_and (shr offset 4) offset_mask,
          write m (cell block) (block_marker + u32 offset * 2 ^ 32),
        ))
    else (0, m)

-- The header of a new chunk.
unfoldable pub new_header :
    (class_id : ℕ) (origin : Origin) (size_or_unused_bytes offset : ℕ) → UnpackedHeader
new_header class_id origin size_or_unused_bytes offset = record {
  class_id = bit_and class_id class_id_mask;
  state = state_code allocated;
  origin_or_was_zeroed = bit_and (origin_code origin) origin_mask;
  size_or_unused_bytes = bit_and size_or_unused_bytes size_or_unused_bytes_mask;
  offset = offset;
  checksum = 0;
}

-- `getChunkOffsetFromBlock`
unfoldable pub get_chunk_offset_from_block : ℕ → Memory → ℕ
get_chunk_offset_from_block block m =
    let word = m (cell block) in
    (if word % 2 ^ 32 == block_marker then word / 2 ^ 32 else 0) + header_size

module _ (s : Allocator) where
  unfoldable pub init_chunk :
      (class_id : ℕ) (origin : Origin) (block user_ptr size_or_unused_bytes fill : ℕ)
      → Memory
      → ℕ × Memory
  init_chunk class_id origin block user_ptr size_or_unused_bytes fill m =
      let block' = add_header_tag s block in
      let filled =
        if class_id != 0 && fill != mode_code no_fill
        then memset block' (if fill == mode_code zero_fill then 0 else pattern_fill_byte)
            (get_size_by_class_id s.sizes class_id) m
        else m in
      let (offset, marked) = mark_offset block' (add64 block header_size) user_ptr filled in
      let (stored, m') =
        store_header s.crc s.algorithm s.cookie (add_header_tag s user_ptr)
          (new_header class_id origin size_or_unused_bytes offset) marked in
      (user_ptr, m')

  -- The chunk, and its header if that is valid.
  unfoldable pub get_chunk_from_block : ℕ → Memory → ℕ × (Bool × UnpackedHeader)
  get_chunk_from_block block m =
      let chunk = add64 block (get_chunk_offset_from_block block m) in
      (chunk, is_valid s.crc s.algorithm s.cookie chunk m)

  unfoldable pub store_end_marker : (end size block_end : ℕ) → Memory → Tags → Memory × Tags
  store_end_marker end size block_end m tags =
      let untagged_end = untag_pointer end in
      if untagged_end != block_end
      then (
        (if size == 0
            then write m (cell untagged_end)
                (m (cell untagged_end) - m (cell untagged_end) % 256 + extract_tag end)
            else m),
        store_tag s.instructions untagged_end tags,
      )
      else (m, tags)

  -- The tagged pointer.
  unfoldable pub prepare_tagged_chunk :
      (fuel entropy ptr size exclude_mask block_end : ℕ)
      → Memory
      → Tags
      → Option (ℕ × Memory × Tags)
  prepare_tagged_chunk fuel entropy ptr size exclude_mask block_end m tags =
      elim (set_random_tag s.instructions fuel entropy ptr size exclude_mask
        (store_tag s.instructions (sub64 ptr 16) tags)) [
          | none ↦ none
          | some (tagged_begin, tagged_end, tags') ↦
              let (m', tags'') = store_end_marker tagged_end size block_end m tags' in
              some (tagged_begin, m', tags'')
        ]

  unfoldable pub resize_tagged_chunk :
      (fuel old_ptr new_ptr new_size block_end : ℕ) → Memory → Tags → Option (Memory × Tags)
  resize_tagged_chunk fuel old_ptr new_ptr new_size block_end m tags =
      let round_old_ptr = round_up old_ptr 16 in
      let stored =
        if leb new_ptr round_old_ptr
        then some (round_up new_ptr 16, tags)
        else store_tags s.instructions fuel round_old_ptr new_ptr tags in
      elim stored [
        | none ↦ none
        | some (round_new_ptr, tags') ↦
            some (store_end_marker round_new_ptr new_size block_end m tags')
      ]

  -- A chunk whose tags are still there.
  unfoldable pub reuse_tagged_chunk :
      (fuel page_size tagged_user_ptr size fill block_end : ℕ) (h : UnpackedHeader)
      → Memory
      → Tags
      → Option (ℕ × Memory × Tags)
  reuse_tagged_chunk fuel page_size tagged_user_ptr size fill block_end h m tags =
      let last_end = add64 tagged_user_ptr h.size_or_unused_bytes in
      let next_page = round_up tagged_user_ptr page_size in
      let prev_end =
        if ltb next_page last_end && load_tag s.instructions next_page != next_page
        then next_page
        else last_end in
      elim (resize_tagged_chunk fuel prev_end (add64 tagged_user_ptr size) size block_end m tags) [
        | none ↦ none
        | some (m', tags') ↦ some (
          tagged_user_ptr,
          (if fill != mode_code no_fill && h.origin_or_was_zeroed == 0
              then memset tagged_user_ptr 0
                  (min size (round_up (sub64 prev_end tagged_user_ptr) 16)) m'
              else if size != 0
              then memset tagged_user_ptr 0 16 m'
              else m'),
          tags',
        )
      ]

  -- The contents of a primary chunk: the tagged pointer.
  unfoldable pub tag_primary_chunk :
      (fuel entropy page_size class_id block user_ptr size fill : ℕ)
      → Memory
      → Tags
      → Option (ℕ × Memory × Tags)
  tag_primary_chunk fuel entropy page_size class_id block user_ptr size fill m tags =
      let block_end = add64 block (get_size_by_class_id s.sizes class_id) in
      let (prev_user_ptr, (valid, h)) = get_chunk_from_block block m in
      let tagged_user_ptr = load_tag s.instructions user_ptr in
      if valid && prev_user_ptr == user_ptr && tagged_user_ptr != user_ptr
      then reuse_tagged_chunk fuel page_size tagged_user_ptr size fill block_end h m tags
      else prepare_tagged_chunk fuel entropy user_ptr size (compute_odd_even_mask s block class_id)
          block_end m tags

  unfoldable pub init_chunk_with_memory_tagging :
      (fuel entropy page_size class_id : ℕ) (origin : Origin)
      (block user_ptr size size_or_unused_bytes fill : ℕ)
      → Memory
      → Tags
      → Allocated
  init_chunk_with_memory_tagging fuel entropy page_size class_id origin block user_ptr size
        size_or_unused_bytes fill m tags =
      let (block', ptr) =
        if class_id != 0
        then (block, user_ptr)
        else (add_header_tag s block, add_header_tag s user_ptr) in
      let prepared =
        if class_id != 0
        then tag_primary_chunk fuel entropy page_size class_id block user_ptr size fill m tags
        else elim (store_tags s.instructions fuel block' ptr tags) [
          | none ↦ none
          | some (end, tags') ↦ some (user_ptr, m, tags')
        ] in
      elim prepared [
        | none ↦ no_fuel
        | some (tagged_ptr, m', tags') ↦
            let (offset, marked) = mark_offset block' (add64 block header_size) user_ptr m' in
            let (stored, m'') =
              store_header s.crc s.algorithm s.cookie ptr
                (new_header class_id origin size_or_unused_bytes offset) marked in
            returned tagged_ptr m'' tags'
      ]

  unfoldable pub fill_mode : (zero_contents : Bool) → ℕ
  fill_mode zero_contents =
      if zero_contents
      then mode_code zero_fill
      else if s.disable_mem_init
      then mode_code no_fill
      else get_fill_contents_mode s.options

  -- A null pointer, if the options allow it, or a report.
  unfoldable pub refuse : AllocationReport → Allocated
  refuse report = if get s.options may_return_null then null_pointer else failed report

  -- The answers of the size class caches and of the secondary allocator.
  module _ (cache : ℕ → Option ℕ) (secondary : (size alignment fill : ℕ) → Option (ℕ × ℕ)) where
    -- The retries in the larger classes, of which `count` are left.
    unfoldable pub next_class : (count class_id : ℕ) → Option (ℕ × ℕ)
    next_class zero class_id = none
    next_class (suc count) class_id = elim (cache (class_id + 1)) [
      | none ↦ next_class count (class_id + 1)
      | some block ↦ some (class_id + 1, block)
    ]

    unfoldable pub primary_block : (needed : ℕ) → Option (ℕ × ℕ)
    primary_block needed =
        if leb needed (max_size s.sizes)
        then (let class_id = get_class_id_by_size s.sizes needed in
            elim (cache class_id) [
              | some block ↦ some (class_id, block)
              | none ↦ next_class (largest_class_id s.sizes - class_id) class_id
            ])
        else none

    unfoldable pub find_block : (size alignment fill : ℕ) → Option Found
    find_block size alignment fill = elim (primary_block (needed_size size alignment)) [
      | some (class_id, block) ↦ some (record { class_id = class_id; block = block; block_end = 0 })
      | none ↦ elim (secondary size alignment fill) [
        | none ↦ none
        | some (block, block_end) ↦
            some (record { class_id = 0; block = block; block_end = block_end })
      ]
    ]

    unfoldable pub allocate :
        (fuel entropy page_size size : ℕ) (origin : Origin) (alignment : ℕ) (zero_contents : Bool)
        → Memory
        → Tags
        → Allocated
    allocate fuel entropy page_size size origin requested zero_contents m tags =
        let alignment = if ltb requested min_alignment then min_alignment else requested in
        let fill = fill_mode zero_contents in
        let needed = needed_size size alignment in
        if ltb max_alignment requested
        then refuse (alignment_too_big requested)
        else if leb max_allowed_malloc_size size
        then refuse (allocation_size_too_big size needed)
        else elim (find_block size alignment fill) [
          | none ↦ refuse (out_of_memory needed)
          | some found ↦
              let user_ptr = round_up (add64 found.block header_size) alignment in
              let size_or_unused_bytes =
                if found.class_id != 0 then size else sub64 found.block_end (add64 user_ptr size) in
              if not (uses_tagging s)
              then (let (ptr, m') =
                    init_chunk found.class_id origin found.block user_ptr size_or_unused_bytes fill
                      m in
                  returned ptr m' tags)
              else init_chunk_with_memory_tagging fuel entropy page_size found.class_id origin
                  found.block user_ptr size size_or_unused_bytes fill m tags
        ]
