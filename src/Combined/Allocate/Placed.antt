-- ===== src/Combined/Allocate/Placed.antt =====
-- initChunk of LLVM_SCUDO_MTE/combined.h against the checks of deallocate.
use riscv_mte.Base.{
  ℕ, ◌+◌, ◌-◌, ◌*◌, ◌/◌, ◌%◌, ◌^◌, ◌≤◌, ◌<◌, ◌≡◌, ◌≢◌, refl, sym, ap, ◌∙◌, arith, true, ◌⊎◌, inl,
  inr, ◌==◌, ◌!=◌, ◌&&◌, if◌then◌else◌, add64, add64_eq, sub64, sub64_eq, shl64, shl64_eq, bit_and,
}
use riscv_mte.Bits.{bit_and-low_mask}
use riscv_mte.Common.{is_aligned}
use riscv_mte.Chunk.{
  Origin, malloc, new, new_array, memalign, origin_code, state_code, allocated, UnpackedHeader,
  Fits, Memory, header, header_size, store_header, load_header, origin_mask,
}
use riscv_mte.Chunk.Load.{load_header-store_header}
use riscv_mte.Memtag.{untag_pointer}
use riscv_mte.Options.{mode_code, no_fill, zero_fill}
use riscv_mte.Combined.{
  Allocator, add_header_tag, get_header_tagged_pointer, get_block_begin, get_size, is_mismatched,
  check_header, check_chunk,
}
use riscv_mte.SizeClassMap.{get_size_by_class_id}
use riscv_mte.Combined.Bytes.{memset}
use riscv_mte.Combined.Allocate.{pattern_fill_byte, mark_offset, new_header, init_chunk}

-- The header of a new chunk, where nothing is lost in its fields.
module _ (class_id : ℕ) (origin : Origin) (size offset : ℕ) where
  new_header-Fits : offset < 2 ^ 16 → Fits (new_header class_id origin size offset)
  unfolding new_header
  new_header-Fits fits = record {
    class_id = omega (arith, bit_and-low_mask 8 class_id);
    state = omega arith;
    origin_or_was_zeroed = omega (arith, bit_and-low_mask 2 (origin_code origin));
    size_or_unused_bytes = omega (arith, bit_and-low_mask 20 size);
    offset = fits;
    checksum = omega arith;
  }

module _ (s : Allocator) (user_ptr : ℕ) (origin : Origin) where
  -- The checks of an allocated chunk with the same origin and the size of its header.
  pub check_header-ok :
      (h : UnpackedHeader) (delete_size : ℕ)
      → h.state ≡ state_code allocated
      → h.origin_or_was_zeroed ≡ origin_code origin
      → (delete_size ≡ 0) ⊎ (delete_size ≡ get_size s user_ptr h)
      → check_header s user_ptr h origin delete_size ≡ inr (h, get_size s user_ptr h)
  unfolding check_header is_mismatched
  check_header-ok h delete_size e f g = elim g [
    | inl none ↦ ground (arith, e, f, none)
    | inr same ↦ ground (arith, e, f, same)
  ]

pub get_size_primary :
    (s : Allocator) (ptr : ℕ) (h : UnpackedHeader) (size : ℕ)
    → h.size_or_unused_bytes ≡ size
    → h.class_id ≢ 0
    → get_size s ptr h ≡ size
unfolding get_size
get_size_primary s ptr h size e ne = ground (arith, e, ne)

origin_field : (origin : Origin) → bit_and (origin_code origin) origin_mask ≡ origin_code origin
origin_field malloc = refl
origin_field new = refl
origin_field new_array = refl
origin_field memalign = refl

is_aligned_16 : (ptr : ℕ) → ptr % 16 ≡ 0 → is_aligned ptr 16 ≡ true
unfolding is_aligned sub64
is_aligned_16 ptr e = ground (arith, bit_and-low_mask 4 ptr, e)

-- The chunk of a pointer passes the checks of `deallocate`, for the size 0 or its own, and these
-- find its size, its class and its block.
pub record IsChunk (s : Allocator) (user_ptr : ℕ) (origin : Origin) (m : Memory)
    (class_id block size : ℕ) : Type 0 where
  pub found : UnpackedHeader
  pub checks :
      (delete_size : ℕ)
      → (delete_size ≡ 0) ⊎ (delete_size ≡ size)
      → check_chunk s user_ptr origin delete_size m ≡ inr (found, size)
  pub class_eq : found.class_id ≡ class_id
  pub block_eq : get_block_begin s user_ptr found ≡ block

module _ (s : Allocator) (class_id : ℕ) (origin : Origin) (block user_ptr size fill : ℕ)
    (m : Memory) (class_lt : class_id < 256) (primary : class_id ≢ 0) (size_lt : size < 2 ^ 20)
    (block_aligned : block % 16 ≡ 0) (aligned : user_ptr % 16 ≡ 0) (above : block + 16 ≤ user_ptr)
    (near : user_ptr < block + 2 ^ 20) (fits : user_ptr < 2 ^ 56) where
  default_eq : add64 block header_size ≡ block + 16
  default_eq = add64_eq block 16 (omega arith)

  -- The offset field counts the units of 16 bytes in front of the header.
  offset_lem :
      (b : ℕ) (m : Memory)
      → (mark_offset b (add64 block header_size) user_ptr m).0 ≡ (user_ptr - block - 16) / 16
  unfolding mark_offset
  offset_lem b m =
      let distance : sub64 user_ptr (block + 16) ≡ user_ptr - (block + 16) =
        sub64_eq user_ptr (block + 16) above (omega arith) in
      let mask = bit_and-low_mask 16 ((user_ptr - (block + 16)) / 16) in
      rw default_eq (rw distance (ground (arith, mask, above, near)))

  begin_lem :
      (h : UnpackedHeader)
      → h.offset ≡ (user_ptr - block - 16) / 16
      → get_block_begin s user_ptr h ≡ block
  unfolding get_block_begin
  begin_lem h e = rw e (
      rw (shl64_eq ((user_ptr - block - 16) / 16) 4 (omega arith)) (
        rw (sub64_eq user_ptr 16 (omega arith) (omega arith)) (
          sub64_eq (user_ptr - 16) ((user_ptr - block - 16) / 16 * 16) (omega arith) (omega arith)
          ∙ omega arith)))

  header_pointer : get_header_tagged_pointer s user_ptr ≡ add_header_tag s user_ptr
  unfolding get_header_tagged_pointer add_header_tag untag_pointer shl64 sub64
  header_pointer = ground (arith, bit_and-low_mask 56 user_ptr)

  -- The contents are filled, and the offset is marked, before the header is stored.
  abbrev filled : Memory
  filled =
      if class_id != 0 && fill != mode_code no_fill
      then memset (add_header_tag s block)
          (if fill == mode_code zero_fill then 0 else pattern_fill_byte)
          (get_size_by_class_id s.sizes class_id) m
      else m

  abbrev marked : Memory
  marked = (mark_offset (add_header_tag s block) (add64 block header_size) user_ptr filled).1

  abbrev offset : ℕ
  offset = (user_ptr - block - 16) / 16

  abbrev store : UnpackedHeader × Memory
  store =
      store_header s.crc s.algorithm s.cookie (add_header_tag s user_ptr)
        (new_header class_id origin size offset) marked

  init_chunk_eq : init_chunk s class_id origin block user_ptr size fill m ≡ (user_ptr, store.1)
  unfolding init_chunk
  init_chunk_eq = rw (offset_lem (add_header_tag s block) filled) refl

  stored_fields :
      (store.0.class_id ≡ class_id)
      × (store.0.state ≡ state_code allocated)
      × (store.0.origin_or_was_zeroed ≡ origin_code origin)
      × (store.0.size_or_unused_bytes ≡ size)
      × (store.0.offset ≡ offset)
  unfolding store_header new_header
  stored_fields = (
    omega (arith, bit_and-low_mask 8 class_id),
    refl,
    origin_field origin,
    omega (arith, bit_and-low_mask 20 size),
    refl,
  )

  checks_lem :
      (delete_size : ℕ)
      → (delete_size ≡ 0) ⊎ (delete_size ≡ size)
      → check_chunk s user_ptr origin delete_size store.1 ≡ inr (store.0, size)
  unfolding check_chunk
  checks_lem delete_size e =
      let (c, st, o, sz, off) = stored_fields in
      let p = get_header_tagged_pointer s user_ptr in
      let size_eq : get_size s p store.0 ≡ size =
        get_size_primary s p store.0 size sz (λ z. primary (sym c ∙ z)) in
      let loads =
        (load_header-store_header s.crc s.algorithm s.cookie (add_header_tag s user_ptr)
          (new_header class_id origin size offset) marked
          (new_header-Fits class_id origin size offset (omega arith))).0 in
      let loads_at : load_header s.crc s.algorithm s.cookie p store.1 ≡ header store.0 =
        ap (λ (x : ℕ). load_header s.crc s.algorithm s.cookie x store.1) header_pointer ∙ loads in
      rw (is_aligned_16 user_ptr aligned, check_chunk)
        (rw loads_at (
          check_header-ok s p origin store.0 delete_size st o
            (elim e [ inl z ↦ inl z | inr same ↦ inr (same ∙ sym size_eq) ])
          ∙ ap (λ (x : ℕ). inr (store.0, x)) size_eq))

  -- For a class from 1 to 255, a size below 2 ^ 20, a block and a pointer that are multiples of 16,
  -- where the pointer is at least 16 and less than 2 ^ 20 bytes behind the block and below 2 ^ 56.
  pub init_chunk-IsChunk :
      ((init_chunk s class_id origin block user_ptr size fill m).0 ≡ user_ptr)
      × IsChunk s user_ptr origin
          ((init_chunk s class_id origin block user_ptr size fill m).1)
          class_id
          block
          size
  init_chunk-IsChunk = rw init_chunk_eq (
    refl,
    record {
      found = store.0;
      checks = checks_lem;
      class_eq = stored_fields.0;
      block_eq = begin_lem store.0 (stored_fields.4);
    },
  )
