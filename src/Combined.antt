-- ===== src/Combined.antt =====
-- LLVM_SCUDO_MTE/combined.h: how a chunk's header and tags change when it is freed, and what the
-- callback of the quarantine does to a header. What is behind (the size class allocator, the
-- secondary allocator, the quarantine) is a destination that the chunk is sent to. A report aborts.
-- Stack traces for diagnostics are left out, and so is GWP-ASan.
pub mod Bytes
pub mod Pointer
pub mod Deallocate
pub mod Recycle
pub mod Allocate
pub mod Reallocate
use riscv_mte.Base.{
  ℕ, ◌+◌, ◌*◌, ◌/◌, ◌%◌, ◌^◌, Bool, true, false, not, ◌&&◌, ◌||◌, Option, none, some, ◌⊎◌, inl, inr,
  ltb, leb, ◌==◌, ◌!=◌, if◌then◌else◌, sub64, shl64, shr, bit_and, bit_or,
}
use riscv_mte.Common.{is_aligned}
use riscv_mte.Checksum.{Checksum}
use riscv_mte.Chunk.{
  Origin, malloc, memalign, origin_code, State, available, allocated, quarantined, state_code,
  UnpackedHeader, Memory, Loaded, header, header_corruption, header_size, store_header, load_header,
}
use riscv_mte.Memtag.{
  Tags, Zimte, untag_pointer, extract_tag, add_fixed_tag, store_tags, set_random_tag,
  allocator_supports_memory_tagging,
}
use riscv_mte.SizeClassMap.{Config, get_size_lsb_by_class_id}
use riscv_mte.Options.{
  get, does_use_memory_tagging, use_odd_even_tags, dealloc_type_mismatch, delete_size_mismatch,
}

-- The allocator's configuration and the parts of its state that a deallocation reads. `block_end`
-- is the end that the header of a secondary block records.
pub record Allocator : Type 0 where
  pub crc : ℕ → ℕ → ℕ
  pub algorithm : Checksum
  pub cookie : ℕ
  pub instructions : Zimte
  pub may_support : Bool
  pub options : ℕ
  pub sizes : Config
  pub block_end : ℕ → ℕ
  pub quarantine_disabled : Bool
  pub quarantine_cache_size : ℕ
  pub quarantine_max_chunk_size : ℕ
  pub disable_mem_init : Bool

pub data Report : Type 0 where
  misaligned_pointer : Report
  corrupted_header : UnpackedHeader → Report
  invalid_chunk_state : Report
  mismatched_type : Report
  mismatched_size : Report

-- Where a freed chunk goes: the cache of a size class, the secondary allocator, or the quarantine.
pub data Destination : Type 0 where
  to_cache : (class_id block : ℕ) → Destination
  to_secondary : (block : ℕ) → Destination
  to_quarantine : (ptr size : ℕ) → Destination

pub data Deallocated : Type 0 where
  ignored : Deallocated
  aborted : Report → Deallocated
  out_of_fuel : Deallocated
  released : Memory → Tags → Destination → Deallocated

module _ (s : Allocator) where
  unfoldable pub supports_tagging : Bool
  supports_tagging = allocator_supports_memory_tagging s.may_support

  unfoldable pub uses_tagging : Bool
  uses_tagging = does_use_memory_tagging s.may_support s.options

  unfoldable pub add_header_tag : ℕ → ℕ
  add_header_tag ptr = if not supports_tagging then ptr else add_fixed_tag s.instructions ptr 2

  unfoldable pub get_header_tagged_pointer : ℕ → ℕ
  get_header_tagged_pointer ptr =
      if not supports_tagging
      then ptr
      else if untag_pointer ptr != ptr
      then untag_pointer ptr
      else add_header_tag ptr

  unfoldable pub compute_odd_even_mask : (ptr class_id : ℕ) → ℕ
  compute_odd_even_mask ptr class_id =
      if not (get s.options use_odd_even_tags)
      then 0
      else 0x5555 * 2 ^ (bit_and (shr ptr (get_size_lsb_by_class_id s.sizes class_id)) 1)

  unfoldable pub get_block_begin : ℕ → UnpackedHeader → ℕ
  get_block_begin ptr h = sub64 (sub64 ptr header_size) (shl64 h.offset 4)

  unfoldable pub get_size : ℕ → UnpackedHeader → ℕ
  get_size ptr h =
      if h.class_id != 0
      then h.size_or_unused_bytes
      else let p = if supports_tagging then untag_pointer ptr else ptr in
        sub64 (sub64 (s.block_end (get_block_begin p h)) p) h.size_or_unused_bytes

  -- The new value of the pointer, the block, and the tags.
  unfoldable pub retag_block :
      (fuel entropy tagged_ptr ptr : ℕ) (h : UnpackedHeader) (size : ℕ) (bypass_quarantine : Bool)
      → Tags
      → Option (ℕ × (ℕ × Tags))
  retag_block fuel entropy tagged_ptr ptr h size bypass_quarantine tags =
      let prev_tag = extract_tag tagged_ptr in
      let mask = bit_or (compute_odd_even_mask (get_block_begin ptr h) h.class_id) (2 ^ prev_tag) in
      let retagged =
        if h.class_id != 0 && not s.disable_mem_init
        then set_random_tag s.instructions fuel entropy ptr size mask tags
        else some (ptr, ptr, tags) in
      elim retagged [
        | none ↦ none
        | some (_, _, tags') ↦
            let ptr' = untag_pointer ptr in
            let block = get_block_begin ptr' h in
            if bypass_quarantine && h.class_id == 0
            then elim (store_tags s.instructions fuel block ptr' tags') [
              | none ↦ none
              | some (_, tags'') ↦ some (ptr', (block, tags''))
            ]
            else some (ptr', (block, tags'))
      ]

  unfoldable pub bypasses_quarantine : UnpackedHeader → ℕ → Bool
  bypasses_quarantine h size =
      s.quarantine_disabled
      || s.quarantine_cache_size == 0
      || leb s.quarantine_max_chunk_size (sub64 size 1)
      || h.class_id == 0

  -- The header of a chunk that is freed, before it is stored.
  unfoldable pub freed_header : UnpackedHeader → ℕ → UnpackedHeader
  freed_header h size = record h {
    state = if bypasses_quarantine h size then state_code available else state_code quarantined;
    origin_or_was_zeroed =
        if not uses_tagging then 0 else if h.class_id != 0 && not s.disable_mem_init then 1 else 0;
  }

  -- The destination of the chunk, and the tags.
  unfoldable pub dispatch :
      (fuel entropy tagged_ptr ptr : ℕ) (h : UnpackedHeader) (size : ℕ)
      → Tags
      → Option (Destination × Tags)
  dispatch fuel entropy tagged_ptr ptr h size tags =
      let bypass = bypasses_quarantine h size in
      let plain = if bypass && supports_tagging then untag_pointer ptr else ptr in
      let moved =
        if not uses_tagging
        then some (plain, (get_block_begin plain h, tags))
        else retag_block fuel entropy tagged_ptr ptr h size bypass tags in
      elim moved [
        | none ↦ none
        | some (ptr', (block, tags')) ↦
            if bypass
            then some
                ((if h.class_id != 0 then to_cache h.class_id block else to_secondary block), tags')
            else some (to_quarantine ptr' size, tags')
      ]

  unfoldable pub quarantine_or_deallocate_chunk :
      (fuel entropy tagged_ptr : ℕ) (h : UnpackedHeader) (size : ℕ) → Memory → Tags → Deallocated
  quarantine_or_deallocate_chunk fuel entropy tagged_ptr h size m tags =
      let ptr = get_header_tagged_pointer tagged_ptr in
      let (stored, m') = store_header s.crc s.algorithm s.cookie ptr (freed_header h size) m in
      elim (dispatch fuel entropy tagged_ptr ptr stored size tags) [
        | none ↦ out_of_fuel
        | some (destination, tags') ↦ released m' tags' destination
      ]

  -- Whether the origin of a chunk does not match the kind of its deallocation.
  unfoldable pub is_mismatched : UnpackedHeader → Origin → Bool
  is_mismatched h origin =
      get s.options dealloc_type_mismatch
      && h.origin_or_was_zeroed != origin_code origin
      && (h.origin_or_was_zeroed != origin_code memalign
          || origin_code origin != origin_code malloc)

  -- The checks of `deallocate`: a report, or the header and the size of the chunk.
  unfoldable pub check_header :
      (ptr : ℕ) (h : UnpackedHeader) (origin : Origin) (delete_size : ℕ)
      → Report ⊎ (UnpackedHeader × ℕ)
  check_header ptr h origin delete_size =
      if h.state != state_code allocated
      then inl invalid_chunk_state
      else if is_mismatched h origin
      then inl mismatched_type
      else if delete_size != 0
          && get s.options delete_size_mismatch
          && delete_size != get_size ptr h
      then inl mismatched_size
      else inr (h, get_size ptr h)

  unfoldable pub check_chunk :
      (ptr : ℕ) (origin : Origin) (delete_size : ℕ) → Memory → Report ⊎ (UnpackedHeader × ℕ)
  check_chunk tagged_ptr origin delete_size m =
      if not (is_aligned tagged_ptr 16)
      then inl misaligned_pointer
      else let ptr = get_header_tagged_pointer tagged_ptr in
        elim (load_header s.crc s.algorithm s.cookie ptr m) [
          | header_corruption h ↦ inl (corrupted_header h)
          | header h ↦ check_header ptr h origin delete_size
        ]

  unfoldable pub deallocate :
      (fuel entropy ptr : ℕ) (origin : Origin) (delete_size : ℕ) → Memory → Tags → Deallocated
  deallocate fuel entropy ptr origin delete_size m tags =
      if ptr == 0 then ignored else elim (check_chunk ptr origin delete_size m) [
        | inl report ↦ aborted report
        | inr (h, size) ↦ quarantine_or_deallocate_chunk fuel entropy ptr h size m tags
      ]

  -- `QuarantineCallback::recycle`: the memory, and the class and the block that go back.
  unfoldable pub recycle_chunk : ℕ → Memory → Report ⊎ (Memory × (ℕ × ℕ))
  recycle_chunk ptr m = elim (load_header s.crc s.algorithm s.cookie ptr m) [
    | header_corruption h ↦ inl (corrupted_header h)
    | header h ↦
        if h.state != state_code quarantined
        then inl invalid_chunk_state
        else let (stored, m') =
            store_header s.crc s.algorithm s.cookie ptr (record h { state = state_code available })
              m in
          let ptr' = if supports_tagging then untag_pointer ptr else ptr in
          inr (m', (stored.class_id, get_block_begin ptr' stored))
  ]
