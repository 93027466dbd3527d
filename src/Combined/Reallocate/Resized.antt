-- ===== src/Combined/Reallocate/Resized.antt =====
-- reallocate of LLVM_SCUDO_MTE/combined.h, where the chunk stays in its block.
use riscv_mte.Base.{
  ℕ, ◌+◌, ◌%◌, ◌^◌, ◌≤◌, ◌<◌, ◌≡◌, ◌≢◌, refl, sym, ap, ◌∙◌, arith, true, false, ◌⊎◌, inl, inr, ◌!=◌,
  ◌&&◌, ◌||◌, ltb, leb, Option, if◌then◌else◌, ◌==◌, Bool-cases, add64, sub64,
}
use riscv_mte.Bits.{bit_and-low_mask}
use riscv_mte.Common.{is_aligned}
use riscv_mte.Chunk.{
  malloc, origin_code, state_code, allocated, UnpackedHeader, Fits, Memory, header, header_cell,
  store_header, load_header,
}
use riscv_mte.Chunk.Load.{load_header-store_header, load_header-Fits}
use riscv_mte.Memtag.{Tags}
use riscv_mte.Options.{get, dealloc_type_mismatch, mode_code, no_fill, zero_fill}
use riscv_mte.SizeClassMap.{get_size_by_class_id}
use riscv_mte.Combined.{
  Allocator, uses_tagging, get_header_tagged_pointer, get_block_begin, get_size,
}
use riscv_mte.Combined.Deallocate.{check_chunk-loaded}
use riscv_mte.Combined.Allocate.{max_allowed_malloc_size, pattern_fill_byte, fill_mode}
use riscv_mte.Combined.Bytes.{cell, memset-below}
use riscv_mte.Checksum.Injective.{byte}
use riscv_mte.Combined.Allocate.Placed.{IsChunk, check_header-ok, get_size_primary}
use riscv_mte.Combined.Reallocate.{
  resized, check_old_chunk, old_bounds, fits_in_place, fill_rest, resized_header, resize_in_place,
  reallocate,
}

-- An allocated chunk of a size class, as `malloc` makes it, and its header.
pub record IsOldChunk (s : Allocator) (ptr : ℕ) (m : Memory) (h : UnpackedHeader) : Type 0 where
  pub aligned : is_aligned ptr 16 ≡ true
  pub header_aligned : is_aligned (get_header_tagged_pointer s ptr) 16 ≡ true
  pub loads : load_header s.crc s.algorithm s.cookie (get_header_tagged_pointer s ptr) m ≡ header h
  pub state : h.state ≡ state_code allocated
  pub origin : h.origin_or_was_zeroed ≡ origin_code malloc
  pub primary : h.class_id ≢ 0

-- The new size fits the block, and the chunk grows or gives back less than a page.
pub record IsInPlace (s : Allocator) (page_size ptr new_size : ℕ) (h : UnpackedHeader)
    : Type 0 where
  pub within :
      add64 ptr new_size ≤ add64 (get_block_begin s ptr h) (get_size_by_class_id s.sizes h.class_id)
  pub near :
      (h.size_or_unused_bytes < new_size) ⊎ (sub64 h.size_or_unused_bytes new_size < page_size)

check_old_chunk_lem :
    (s : Allocator) (ptr : ℕ) (m : Memory) (h : UnpackedHeader)
    → IsOldChunk s ptr m h
    → check_old_chunk s ptr m ≡ inr h
unfolding check_old_chunk
check_old_chunk_lem s ptr m h is =
    let a : (h.state != state_code allocated) ≡ false = ground (arith, is.state) in
    let b : (get s.options dealloc_type_mismatch && h.origin_or_was_zeroed != origin_code malloc)
        ≡ false =
      ground (arith, is.origin) in
    rw (is.header_aligned, check_old_chunk) (rw is.loads (rw a (rw b refl)))

-- The bytes below the new end stay.
fill_rest-below :
    (s : Allocator) (ptr new_size old_size : ℕ) (m : Memory) (a j : ℕ)
    → j < 8
    → a + j < cell (add64 ptr new_size)
    → byte (fill_rest s ptr new_size old_size m a) j ≡ byte (m a) j
unfolding fill_rest
fill_rest-below s ptr new_size old_size m a j h below =
    let fill = fill_mode s false in
    let value = if fill == mode_code zero_fill then 0 else pattern_fill_byte in
    let unchanged =
      memset-below (add64 ptr new_size) value (sub64 old_size new_size) m a j h below in
    elim (Bool-cases (ltb new_size old_size && fill != mode_code no_fill)) [
      | inl fills ↦ rw fills unchanged
      | inr keeps ↦ rw keeps refl
    ]

module _ (s : Allocator) (untagged : uses_tagging s ≡ false) (cache : ℕ → Option ℕ)
    (secondary : (size alignment fill : ℕ) → Option (ℕ × ℕ))
    (fuel entropy entropy' page_size ptr new_size alignment : ℕ) (m : Memory) (tags : Tags)
    (h : UnpackedHeader) (is : IsOldChunk s ptr m h) (fits : new_size < 2 ^ 20) where
  abbrev block_end : ℕ
  block_end = add64 (get_block_begin s ptr h) (get_size_by_class_id s.sizes h.class_id)

  abbrev old_size : ℕ
  old_size = h.size_or_unused_bytes

  abbrev p : ℕ
  p = get_header_tagged_pointer s ptr

  abbrev store : UnpackedHeader × Memory
  store =
      store_header s.crc s.algorithm s.cookie p (resized_header s ptr new_size block_end h)
        (fill_rest s ptr new_size old_size m)

  reallocate_eq :
      IsInPlace s page_size ptr new_size h
      → reallocate s cache secondary fuel entropy entropy' page_size ptr new_size alignment m tags
        ≡ resized ptr store.1 tags
  unfolding reallocate old_bounds resize_in_place fits_in_place
  reallocate_eq place =
      let small : leb max_allowed_malloc_size new_size ≡ false = ground (arith, fits) in
      let class_ne : (h.class_id != 0) ≡ true = ground (arith, is.primary) in
      let in_place : (leb (add64 ptr new_size) block_end
            && (ltb old_size new_size || ltb (sub64 old_size new_size) page_size))
          ≡ true =
        ground (arith, place.within, place.near) in
      rw (small, reallocate)
        (rw (check_old_chunk_lem s ptr m h is) (rw class_ne (rw in_place (rw untagged refl))))

  stored_size : store.0.size_or_unused_bytes ≡ new_size
  unfolding store_header resized_header
  stored_size =
      let class_ne : (h.class_id != 0) ≡ true = ground (arith, is.primary) in
      rw class_ne (bit_and-low_mask 20 new_size ∙ omega arith)

  resized_header-Fits : Fits (resized_header s ptr new_size block_end h)
  unfolding resized_header
  resized_header-Fits =
      let f = load_header-Fits s.crc s.algorithm s.cookie p m h is.loads in
      record {
        class_id = f.class_id;
        state = f.state;
        origin_or_was_zeroed = f.origin_or_was_zeroed;
        size_or_unused_bytes = omega (arith, bit_and-low_mask 20 _);
        offset = f.offset;
        checksum = f.checksum;
      }

  stored_lem :
      (load_header s.crc s.algorithm s.cookie p store.1 ≡ header store.0)
      × ((a : ℕ) → a ≢ header_cell p → store.1 a ≡ fill_rest s ptr new_size old_size m a)
  stored_lem =
      load_header-store_header s.crc s.algorithm s.cookie p
        (resized_header s ptr new_size block_end h) (fill_rest s ptr new_size old_size m)
        resized_header-Fits

  stored-IsChunk : IsChunk s ptr malloc (store.1) h.class_id (get_block_begin s ptr h) new_size
  unfolding store_header resized_header get_block_begin
  stored-IsChunk =
      let size_eq : get_size s p store.0 ≡ new_size =
        get_size_primary s p store.0 new_size stored_size is.primary in
      record {
        found = store.0;
        checks = λ delete_size e.
            check_chunk-loaded s ptr malloc delete_size store.1 store.0 is.aligned stored_lem.0
            ∙ check_header-ok s p malloc store.0 delete_size is.state is.origin
                (elim e [ inl z ↦ inl z | inr same ↦ inr (same ∙ sym size_eq) ])
            ∙ ap (λ (x : ℕ). inr (store.0, x)) size_eq;
        class_eq = refl;
        block_eq = refl;
      }

  -- Without memory tagging, for an allocated chunk of a size class that `malloc` made (IsOldChunk),
  -- and a size below 2 ^ 20 that fits the block and either is larger than the old one or smaller by
  -- less than a page (IsInPlace): `reallocate` keeps the pointer, the checks of `deallocate` accept
  -- it afterwards, with no size or the new one, and find the new size, the same class and the same
  -- block (IsChunk), and all bytes of memory below the new end, but for the word of the header, are
  -- unchanged.
  pub reallocate-IsResized :
      IsInPlace s page_size ptr new_size h
      → (m' : Memory) × (reallocate s cache secondary fuel entropy entropy' page_size ptr new_size
            alignment m tags
          ≡ resized ptr m' tags)
        × IsChunk s ptr malloc m' h.class_id (get_block_begin s ptr h) new_size
        × ((a j : ℕ)
            → a % 8 ≡ 0
            → j < 8
            → a + j < cell (add64 ptr new_size)
            → a ≢ header_cell p
            → byte (m' a) j ≡ byte (m a) j)
  reallocate-IsResized place = (
    store.1,
    reallocate_eq place,
    stored-IsChunk,
    λ a j whole h below ne.
        ap (λ (w : ℕ). byte w j) (stored_lem.1 a ne)
        ∙ fill_rest-below s ptr new_size old_size m a j h below,
  )
