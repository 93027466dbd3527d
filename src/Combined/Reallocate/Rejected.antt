-- ===== src/Combined/Reallocate/Rejected.antt =====
-- reallocate of LLVM_SCUDO_MTE/combined.h, for a chunk that was freed.
use mathlib.Core.Path.{subst}
use riscv_mte.Base.{ℕ, ◌<◌, ◌≡◌, ◌≢◌, refl, arith, true, false, Option, inl, leb, ◌!=◌}
use riscv_mte.Common.{is_aligned}
use riscv_mte.Chunk.{
  Origin, state_code, allocated, UnpackedHeader, Memory, header, store_header, load_header,
}
use riscv_mte.Memtag.{Tags}
use riscv_mte.Combined.{
  Allocator, Destination, released, invalid_chunk_state, get_header_tagged_pointer, deallocate,
}
use riscv_mte.Combined.Deallocate.{
  IsChecked, deallocate-released, freed_memory, freed_memory-loads, freed_header-state,
}
use riscv_mte.Combined.Allocate.{max_allowed_malloc_size}
use riscv_mte.Combined.Reallocate.{rejected, check_old_chunk, reallocate}

check_old_chunk-invalid :
    (s : Allocator) (ptr : ℕ) (m : Memory) (h : UnpackedHeader)
    → is_aligned (get_header_tagged_pointer s ptr) 16 ≡ true
    → load_header s.crc s.algorithm s.cookie (get_header_tagged_pointer s ptr) m ≡ header h
    → h.state ≢ state_code allocated
    → check_old_chunk s ptr m ≡ inl invalid_chunk_state
unfolding check_old_chunk
check_old_chunk-invalid s ptr m h aligned loads ne =
    let other : (h.state != state_code allocated) ≡ true = ground (arith, ne) in
    rw (aligned, check_old_chunk) (rw loads (rw other refl))

check_old_chunk-freed :
    (s : Allocator) (ptr : ℕ) (m : Memory) (h : UnpackedHeader) (c : IsChecked s ptr m h) (size : ℕ)
    → is_aligned (get_header_tagged_pointer s ptr) 16 ≡ true
    → check_old_chunk s ptr (freed_memory s ptr m h c size) ≡ inl invalid_chunk_state
unfolding store_header
check_old_chunk-freed s ptr m h c size aligned =
    check_old_chunk-invalid s ptr (freed_memory s ptr m h c size) _ aligned
      (freed_memory-loads s ptr m h c size) (freed_header-state s h size)

-- A reallocation after a free is detected: if `deallocate` of a pointer that is not null, whose
-- header's address is a multiple of 16, releases the chunk, to whatever destination, then
-- `reallocate` of the pointer, in the memory that this left, to any size below 2 ^ 40, is rejected
-- with the report of an invalid chunk state.
pub reallocate-freed :
    (s : Allocator) (fuel entropy ptr : ℕ) (origin : Origin) (delete_size : ℕ) (m m' : Memory)
    (tags tags' : Tags) (destination : Destination)
    → ptr ≢ 0
    → is_aligned (get_header_tagged_pointer s ptr) 16 ≡ true
    → deallocate s fuel entropy ptr origin delete_size m tags ≡ released m' tags' destination
    → (cache : ℕ → Option ℕ) (secondary : (size alignment fill : ℕ) → Option (ℕ × ℕ))
      (fuel' entropy1 entropy2 page_size new_size alignment : ℕ) (tags'' : Tags)
    → new_size < max_allowed_malloc_size
    → reallocate s cache secondary fuel' entropy1 entropy2 page_size ptr new_size alignment m'
        tags''
      ≡ rejected invalid_chunk_state
unfolding reallocate
reallocate-freed s fuel entropy ptr origin delete_size m m' tags tags' destination ne aligned e
      cache secondary fuel' entropy1 entropy2 page_size new_size alignment tags'' fits =
    let (h, c, size, same) =
      deallocate-released s fuel entropy ptr origin delete_size m m' tags tags' destination ne e in
    let small : leb max_allowed_malloc_size new_size ≡ false = ground (arith, fits) in
    let found : check_old_chunk s ptr m' ≡ inl invalid_chunk_state =
      subst (λ (n : Memory). check_old_chunk s ptr n ≡ inl invalid_chunk_state) same
        (check_old_chunk-freed s ptr m h c size aligned) in
    rw (small, reallocate) (rw found refl)
