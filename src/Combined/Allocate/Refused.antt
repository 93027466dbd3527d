-- ===== src/Combined/Allocate/Refused.antt =====
-- When allocate of LLVM_SCUDO_MTE/combined.h runs out of memory; and the reuse of tags that initChunkWithMemoryTagging looks for.
use native.Mathlib.Decide.{dec_le}
use riscv_mte.Base.{
  ℕ, ◌≤◌, ◌<◌, ◌≡◌, refl, sym, ◌∙◌, arith, Bool, false, ltb, leb, Option, none, some, if◌then◌else◌,
  ◌!=◌, add64,
}
use riscv_mte.Chunk.{Origin, Memory}
use riscv_mte.Memtag.{Tags, load_tag}
use riscv_mte.Options.{get, may_return_null}
use riscv_mte.Combined.{Allocator, compute_odd_even_mask}
use riscv_mte.SizeClassMap.{max_size, num_classes, get_size_by_class_id}
use riscv_mte.SizeClassMap.Fixed.{IsValid}
use riscv_mte.Combined.Allocate.{
  null_pointer, failed, out_of_memory, min_alignment, max_alignment, max_allowed_malloc_size,
  needed_size, fill_mode, primary_block, find_block, refuse, allocate, tag_primary_chunk,
  prepare_tagged_chunk,
}
use riscv_mte.Combined.Allocate.Classes.{IsFound, nothing, smallest, primary_block-IsFound}

module _ (s : Allocator) (v : IsValid s.sizes) (cache : ℕ → Option ℕ)
    (secondary : (size alignment fill : ℕ) → Option (ℕ × ℕ)) (needed : ℕ)
    (empty : (k : ℕ)
      → 0 < k
      → k < num_classes s.sizes
      → needed ≤ get_size_by_class_id s.sizes k
      → cache k ≡ none) where
  -- A search that succeeded has found a class with a block.
  found-none : (answer : Option (ℕ × ℕ)) → IsFound s.sizes cache needed answer → answer ≡ none
  found-none _ (nothing all) = refl
  found-none _ (smallest id block pos lt fits at all) =
      let wrong : some block ≡ none = sym at ∙ empty id pos lt fits in absurd (cc)

  primary_block-none : primary_block s cache secondary needed ≡ none
  unfolding primary_block
  primary_block-none = elim (dec_le needed (max_size s.sizes)) [
    | yes small ↦
        found-none (primary_block s cache secondary needed)
          (primary_block-IsFound s v cache secondary needed small)
    | no large ↦
        let too_large : leb needed (max_size s.sizes) ≡ false = ground (arith, large) in
        rw (too_large, primary_block) refl
  ]

-- The alignment that `allocate` goes by.
abbrev pub effective : ℕ → ℕ
effective alignment = if ltb alignment min_alignment then min_alignment else alignment

-- For a configuration whose constants fit (IsValid), an alignment of at most 2 ^ 24 and a size
-- below 2 ^ 40: if no class whose size is at least the needed size has a block, and the secondary
-- allocator answers no block, then `allocate` answers the null pointer, if the options allow that,
-- and otherwise aborts with the report that memory for the needed size has run out, with memory
-- tagging or without.
pub allocate-out_of_memory :
    (s : Allocator) (v : IsValid s.sizes) (cache : ℕ → Option ℕ)
    (secondary : (size alignment fill : ℕ) → Option (ℕ × ℕ)) (fuel entropy page_size size : ℕ)
    (origin : Origin) (alignment : ℕ) (zero_contents : Bool) (m : Memory) (tags : Tags)
    → alignment ≤ max_alignment
    → size < max_allowed_malloc_size
    → ((k : ℕ)
        → 0 < k
        → k < num_classes s.sizes
        → needed_size size (effective alignment) ≤ get_size_by_class_id s.sizes k
        → cache k ≡ none)
    → secondary size (effective alignment) (fill_mode s zero_contents) ≡ none
    → allocate s cache secondary fuel entropy page_size size origin alignment zero_contents m tags
      ≡ (if get s.options may_return_null
          then null_pointer
          else failed (out_of_memory (needed_size size (effective alignment))))
unfolding allocate find_block refuse
allocate-out_of_memory s v cache secondary fuel entropy page_size size origin alignment
      zero_contents m tags high fits empty no_secondary =
    let a : ltb max_alignment alignment ≡ false = ground (arith, high) in
    let b : leb max_allowed_malloc_size size ≡ false = ground (arith, fits) in
    let none_found =
      primary_block-none s v cache secondary (needed_size size (effective alignment)) empty in
    rw (a, allocate) (rw b (rw (none_found, find_block) (rw no_secondary refl)))

-- On Zimte, `initChunkWithMemoryTagging` prepares every primary chunk from scratch, whatever tags
-- and whatever header a former chunk left in the block: the reuse of its tags is never taken.
pub tag_primary_chunk-prepare :
    (s : Allocator) (fuel entropy page_size class_id block user_ptr size fill : ℕ) (m : Memory)
    (tags : Tags)
    → tag_primary_chunk s fuel entropy page_size class_id block user_ptr size fill m tags
      ≡ prepare_tagged_chunk s fuel entropy user_ptr size
          (compute_odd_even_mask s block class_id)
          (add64 block (get_size_by_class_id s.sizes class_id))
          m
          tags
unfolding tag_primary_chunk load_tag
tag_primary_chunk-prepare s fuel entropy page_size class_id block user_ptr size fill m tags =
    let own : (user_ptr != user_ptr) ≡ false = ground arith in rw own (ground arith)
