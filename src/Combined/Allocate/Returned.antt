-- ===== src/Combined/Allocate/Returned.antt =====
-- allocate of LLVM_SCUDO_MTE/combined.h as a whole, without memory tagging: what it returns, and when
-- it refuses.
use riscv_mte.Base.{
  ℕ, ◌+◌, ◌%◌, ◌^◌, ◌≤◌, ◌<◌, ◌≡◌, ◌≢◌, refl, sym, ap, ◌∙◌, arith, Bool, true, false, ltb, leb,
  Option, none, some, if◌then◌else◌, ◌!=◌, add64,
}
use riscv_mte.Common.{is_power_of_two, round_up}
use riscv_mte.Chunk.{Origin, Memory, header_size}
use riscv_mte.Memtag.{Tags}
use riscv_mte.SizeClassMap.{Config, max_size, get_size_by_class_id, num_classes}
use riscv_mte.SizeClassMap.Fixed.{IsValid, num_classes-le}
use riscv_mte.Combined.{Allocator, uses_tagging}
use riscv_mte.Combined.Allocate.{
  Allocated, returned, max_alignment, max_allowed_malloc_size, needed_size, fill_mode,
  primary_block, find_block, init_chunk, allocate,
}
use riscv_mte.Combined.Allocate.Needed.{user_ptr_lem}
use riscv_mte.Combined.Allocate.Classes.{IsFound, nothing, smallest, primary_block-IsFound}
use riscv_mte.Combined.Allocate.Placed.{IsChunk, init_chunk-IsChunk}

-- What a search that succeeds has found.
IsFound-some :
    (c : Config) (cache : ℕ → Option ℕ) (needed id block : ℕ) (o : Option (ℕ × ℕ))
    → IsFound c cache needed o
    → o ≡ some (id, block)
    → (0 < id)
      × (id < num_classes c)
      × (needed ≤ get_size_by_class_id c id)
      × (cache id ≡ some block)
IsFound-some c cache needed id block _ (nothing all) e = absurd (cc)
IsFound-some c cache needed id block _ (smallest id' block' pos lt fits at all) e =
    let pair : Option (ℕ × ℕ) → ℕ × ℕ = λ o. elim o [ none ↦ (0, 0) | some p ↦ p ] in
    let id_eq : id' ≡ id = ap (λ (o : Option (ℕ × ℕ)). (pair o).0) e in
    let block_eq : block' ≡ block = ap (λ (o : Option (ℕ × ℕ)). (pair o).1) e in
    (
      omega arith,
      omega arith,
      omega (arith, ap (get_size_by_class_id c) id_eq),
      sym (ap cache id_eq) ∙ at ∙ ap some block_eq,
    )

module _ (s : Allocator) (untagged : uses_tagging s ≡ false) (cache : ℕ → Option ℕ)
    (secondary : (size alignment fill : ℕ) → Option (ℕ × ℕ)) (fuel entropy page_size size : ℕ)
    (origin : Origin) (requested : ℕ) (zero_contents : Bool) (m : Memory) (tags : Tags) where
  abbrev alignment : ℕ
  alignment = if ltb requested 16 then 16 else requested

  abbrev run : Allocated
  run = allocate s cache secondary fuel entropy page_size size origin requested zero_contents m tags

  -- Where the request is within the limits and a primary block is found.
  module _ (id block : ℕ) (aligned_ok : requested ≤ max_alignment)
      (size_ok : size < max_allowed_malloc_size)
      (found : primary_block s cache secondary (needed_size size alignment) ≡ some (id, block))
      (some_class : id ≢ 0) where
    abbrev user_ptr : ℕ
    user_ptr = round_up (add64 block header_size) alignment

    abbrev chunk : ℕ × Memory
    chunk = init_chunk s id origin block user_ptr size (fill_mode s zero_contents) m

    run_eq : run ≡ returned (chunk.0) (chunk.1) tags
    unfolding allocate find_block
    run_eq =
        let a : ltb max_alignment requested ≡ false = ground (arith, aligned_ok) in
        let b : leb max_allowed_malloc_size size ≡ false = ground (arith, size_ok) in
        let d : (id != 0) ≡ true = ground (arith, some_class) in
        rw (a, allocate) (rw b (rw (found, find_block) (rw untagged (rw d refl))))

    module _ (v : IsValid s.sizes) (largest : max_size s.sizes < 2 ^ 20)
        (fits : needed_size size alignment ≤ max_size s.sizes)
        (power : is_power_of_two alignment ≡ true) (block_aligned : block % 16 ≡ 0)
        (low : block < 2 ^ 55) where
      search :
          (0 < id)
          × (id < num_classes s.sizes)
          × (needed_size size alignment ≤ get_size_by_class_id s.sizes id)
          × (cache id ≡ some block)
      search =
          IsFound-some s.sizes cache (needed_size size alignment) id block
            (primary_block s cache secondary (needed_size size alignment))
            (primary_block-IsFound s v cache secondary (needed_size size alignment) fits) found

      alignment_bounds : (16 ≤ alignment) × (alignment ≤ max_alignment)
      alignment_bounds = ground (arith, aligned_ok)

      place :
          (block + 16 ≤ user_ptr)
          × (user_ptr + size ≤ block + needed_size size alignment)
          × (user_ptr % alignment ≡ 0)
          × (user_ptr % 16 ≡ 0)
      place =
          user_ptr_lem alignment power (alignment_bounds.0) (alignment_bounds.1) size block size_ok
            block_aligned (omega arith)

      placed : (chunk.0 ≡ user_ptr) × IsChunk s user_ptr origin (chunk.1) id block size
      placed =
          let (above, end, by, by_16) = place in
          init_chunk-IsChunk s id origin block user_ptr size (fill_mode s zero_contents) m
            (omega (arith, search.1, num_classes-le s.sizes v)) some_class (omega arith)
            block_aligned by_16 above (omega arith) (omega arith)

      -- Without memory tagging, for a valid size class map whose sizes stay below 2 ^ 20, a size
      -- below 2 ^ 40 whose needed size fits a class, an alignment of at most 2 ^ 24 that is a power
      -- of two (16 if the request is smaller), and a primary block that is found, with an address
      -- below 2 ^ 55 and a multiple of 16: `allocate` returns an aligned pointer whose chunk,
      -- header included, lies in the block, and the checks of `deallocate` accept the pointer with
      -- the same origin, and with no size or the same size, and find the chunk's size, class and
      -- block (IsChunk).
      pub allocate-IsChunk :
          (m' : Memory) × (run ≡ returned user_ptr m' tags)
          × (user_ptr % alignment ≡ 0)
          × (block + 16 ≤ user_ptr)
          × (user_ptr + size ≤ block + get_size_by_class_id s.sizes id)
          × (cache id ≡ some block)
          × IsChunk s user_ptr origin m' id block size
      allocate-IsChunk = (
        chunk.1,
        run_eq ∙ ap (λ (p : ℕ). returned p (chunk.1) tags) (placed.0),
        place.2,
        place.0,
        omega (arith, place.1, search.2),
        search.3,
        placed.1,
      )
