-- ===== src/Combined/Reallocate.antt =====
-- reallocate of LLVM_SCUDO_MTE/combined.h: in place, where the block is large enough and not much is
-- given back, or by an allocation, a copy and a deallocation.
pub mod Resized
pub mod Rejected
use riscv_mte.Base.{
  ℕ, ◌+◌, ◌-◌, Bool, true, false, not, ◌&&◌, ◌||◌, Option, none, some, ◌⊎◌, inl, inr, min, ltb, leb,
  ◌==◌, ◌!=◌, if◌then◌else◌, add64, sub64, bit_and,
}
use riscv_mte.Common.{is_aligned}
use riscv_mte.Chunk.{
  malloc, origin_code, state_code, allocated, UnpackedHeader, Memory, header, header_corruption,
  store_header, load_header, size_or_unused_bytes_mask,
}
use riscv_mte.Memtag.{Tags, untag_pointer}
use riscv_mte.SizeClassMap.{get_size_by_class_id}
use riscv_mte.Options.{get, mode_code, no_fill, zero_fill, may_return_null, dealloc_type_mismatch}
use riscv_mte.Combined.{
  Allocator, Report, misaligned_pointer, corrupted_header, invalid_chunk_state, mismatched_type,
  Deallocated, uses_tagging, get_header_tagged_pointer, get_block_begin,
  quarantine_or_deallocate_chunk,
}
use riscv_mte.Combined.Bytes.{memset, memcpy}
use riscv_mte.Combined.Allocate.{
  AllocationReport, allocation_size_too_big, Allocated, null_pointer, failed, no_fuel, returned,
  max_allowed_malloc_size, pattern_fill_byte, fill_mode, resize_tagged_chunk, allocate,
}

pub data Reallocated : Type 0 where
  no_memory : Reallocated
  refused : AllocationReport → Reallocated
  rejected : Report → Reallocated
  exhausted : Reallocated
  resized : (ptr : ℕ) → Memory → Tags → Reallocated
  moved : (ptr : ℕ) → Deallocated → Reallocated

module _ (s : Allocator) where
  -- The checks of `reallocate`: a report, or the header.
  unfoldable pub check_old_chunk : ℕ → Memory → Report ⊎ UnpackedHeader
  check_old_chunk old_tagged_ptr m =
      let ptr = get_header_tagged_pointer s old_tagged_ptr in
      if not (is_aligned ptr 16)
      then inl misaligned_pointer
      else elim (load_header s.crc s.algorithm s.cookie ptr m) [
        | header_corruption h ↦ inl (corrupted_header h)
        | header h ↦
            if h.state != state_code allocated
            then inl invalid_chunk_state
            else if get s.options dealloc_type_mismatch
                && h.origin_or_was_zeroed != origin_code malloc
            then inl mismatched_type
            else inr h
      ]

  -- The end of the block, and the size of the chunk.
  unfoldable pub old_bounds : ℕ → UnpackedHeader → ℕ × ℕ
  old_bounds ptr h =
      let block_begin = get_block_begin s ptr h in
      if h.class_id != 0
      then (add64 block_begin (get_size_by_class_id s.sizes h.class_id), h.size_or_unused_bytes)
      else (
        s.block_end block_begin,
        sub64 (s.block_end block_begin) (add64 ptr h.size_or_unused_bytes),
      )

  unfoldable pub fits_in_place : (page_size ptr new_size block_end old_size : ℕ) → Bool
  fits_in_place page_size ptr new_size block_end old_size =
      leb (add64 ptr new_size) block_end
      && (ltb old_size new_size || ltb (sub64 old_size new_size) page_size)

  -- The bytes that a chunk gives back are filled.
  unfoldable pub fill_rest : (ptr new_size old_size : ℕ) → Memory → Memory
  fill_rest ptr new_size old_size m =
      let fill = fill_mode s false in
      if ltb new_size old_size && fill != mode_code no_fill
      then memset (add64 ptr new_size)
          (if fill == mode_code zero_fill then 0 else pattern_fill_byte) (sub64 old_size new_size) m
      else m

  unfoldable pub resized_header : (ptr new_size block_end : ℕ) → UnpackedHeader → UnpackedHeader
  resized_header ptr new_size block_end h = record h {
    size_or_unused_bytes =
        bit_and (if h.class_id != 0 then new_size else sub64 block_end (add64 ptr new_size))
          size_or_unused_bytes_mask;
  }

  unfoldable pub resize_in_place :
      (fuel ptr new_size block_end old_size : ℕ) (h : UnpackedHeader) → Memory → Tags → Reallocated
  resize_in_place fuel ptr new_size block_end old_size h m tags =
      let (stored, m') =
        store_header s.crc s.algorithm s.cookie (get_header_tagged_pointer s ptr)
          (resized_header ptr new_size block_end h) (fill_rest ptr new_size old_size m) in
      if uses_tagging s && h.class_id != 0
      then (elim (resize_tagged_chunk s fuel (add64 ptr old_size) (add64 ptr new_size) new_size
          (untag_pointer block_end) m' tags) [
            | none ↦ exhausted
            | some (m'', tags') ↦ resized ptr m'' tags'
          ])
      else resized ptr m' tags

  -- The old chunk is copied and freed, once there is a new one.
  unfoldable pub move_chunk :
      (fuel entropy ptr new_size old_size : ℕ) (h : UnpackedHeader) → Allocated → Reallocated
  move_chunk fuel entropy ptr new_size old_size h null_pointer = no_memory
  move_chunk fuel entropy ptr new_size old_size h (failed report) = refused report
  move_chunk fuel entropy ptr new_size old_size h no_fuel = exhausted
  move_chunk fuel entropy ptr new_size old_size h (returned new_ptr m tags) = moved new_ptr (
      quarantine_or_deallocate_chunk s fuel entropy ptr h old_size
        (memcpy new_ptr ptr (min new_size old_size) m) tags)

  module _ (cache : ℕ → Option ℕ) (secondary : (size alignment fill : ℕ) → Option (ℕ × ℕ)) where
    -- The first entropy is that of the new chunk, the second one that of the old chunk.
    unfoldable pub reallocate :
        (fuel entropy entropy' page_size ptr new_size alignment : ℕ) → Memory → Tags → Reallocated
    reallocate fuel entropy entropy' page_size ptr new_size alignment m tags =
        if leb max_allowed_malloc_size new_size
        then (if get s.options may_return_null
            then no_memory
            else refused (allocation_size_too_big new_size 0))
        else elim (check_old_chunk ptr m) [
          | inl report ↦ rejected report
          | inr h ↦
              let (block_end, old_size) = old_bounds ptr h in
              if fits_in_place page_size ptr new_size block_end old_size
              then resize_in_place fuel ptr new_size block_end old_size h m tags
              else move_chunk fuel entropy' ptr new_size old_size h (
                  allocate s cache secondary fuel entropy page_size new_size malloc alignment false
                    m tags)
        ]
