-- ===== src/Release/Walk/AllFree.antt =====
-- markFreeBlocksInRegion and releaseFreeMemoryToOS of LLVM_SCUDO_MTE/release.h together, for one
-- region: the pages without a block in use.
use native.Mathlib.Nat.{one-le-pow}
use native.Mathlib.Decide.{dec_lt}
use riscv_mte.Base.{
  ℕ, ◌+◌, ◌*◌, ◌^◌, ◌≤◌, ◌<◌, ◌≡◌, ◌↔◌, ap, ◌∙◌, arith, ltb, ◌&&◌, ◌==◌, if◌then◌else◌, u64_mod,
  Bool, true, false, Bool-cases, ◌⊎◌, inl, inr, List,
}
use riscv_mte.Common.Shuffle.{count}
use riscv_mte.Release.PageMap.{get_counter}
use riscv_mte.Release.Context.{
  PageReleaseContext, mark_batches, mark_free_blocks_in_region, ensure_page_map_allocated,
}
use riscv_mte.Release.Context.Touching.{touches, hits}
use riscv_mte.Release.Context.Fresh.{IsFresh}
use riscv_mte.Release.Context.Counts.{IsMarked}
use riscv_mte.Release.Context.Batches.{
  pointers, block_numbers, AreBlocks, mark_batches-pointers, mark_batch-IsMarked,
}
use riscv_mte.Release.Context.Pigeonhole.{hits-le, hits_all_iff}
use riscv_mte.Release.Pool.{BufferPool}
use riscv_mte.Release.Tracker.Coverage.{RecordsPages}
use riscv_mte.Release.Walk.{release_free_memory_to_os}
use riscv_mte.Release.Walk.Released.{blocks, blocks-le, release_lem}
use riscv_mte.Release.Walk.Pages.{is_counted}

module _ {R : Type 0} (page_size_log : ℕ) (release_page_range : (from to : ℕ) → R → R)
    (records : RecordsPages R page_size_log release_page_range) (c : PageReleaseContext)
    (log_lt : page_size_log < 63) (pos : 0 < c.block_size)
    (fits : (c.release_page_offset + c.pages_count) * 2 ^ page_size_log + 2 * c.block_size
      < u64_mod) where
  abbrev ps : ℕ
  ps = 2 ^ page_size_log

  module _ (fresh : IsFresh page_size_log c) (decompact_ptr : ℕ → ℕ) (base : ℕ)
      (free_list : List (List ℕ))
      (are_blocks : AreBlocks page_size_log decompact_ptr base 0 c.block_size c.release_page_offset
        c.page_map.num_counters
        (pointers free_list))
      (distinct : (b : ℕ)
        → count b
            (block_numbers page_size_log decompact_ptr base 0 c.block_size (pointers free_list))
          ≤ 1) where
    -- The numbers of the free blocks.
    abbrev pub free_blocks : List ℕ
    free_blocks = block_numbers page_size_log decompact_ptr base 0 c.block_size (pointers free_list)

    abbrev pub IsFreePage : ℕ → Type 0
    IsFreePage k =
        (b : ℕ)
        → touches ps c.block_size (c.release_page_offset + k) b ≡ true
        → count b free_blocks ≡ 1

    touching : ℕ → ℕ
    touching k = hits ps c.block_size (c.release_page_offset + k) free_blocks

    touching-le : (k : ℕ) → touching k ≤ c.page_map.counter_mask
    unfolding touching
    touching-le k = omega (
      arith,
      hits-le ps c.block_size (c.release_page_offset + k) pos
          (one-le-pow page_size_log 2 (omega arith)) free_blocks distinct,
      blocks-le page_size_log release_page_range records c log_lt pos fits k fresh.counts,
      fresh.max_le,
    )

    marked_context : PageReleaseContext
    marked_context = mark_batches page_size_log decompact_ptr base 0 free_list c

    marked : IsMarked page_size_log 0 c marked_context touching
    unfolding marked_context touching
    marked = rw (mark_batches-pointers page_size_log decompact_ptr base 0 free_list c) (
        mark_batch-IsMarked page_size_log decompact_ptr base 0 (pointers free_list) c fresh.layout
          (omega (arith, fresh.one_map)) pos fresh.are_words are_blocks
          (λ j j_lt. omega (arith, fresh.unmarked j j_lt, touching-le j)))

    counter_value :
        (k : ℕ) → k < c.pages_count → get_counter c.page_map 0 k marked_context.words ≡ touching k
    counter_value k lt =
        let on_map : k < c.page_map.num_counters = omega (arith, fresh.pages) in
        ground (
          arith,
          marked.counts.values 0 k (omega (arith, fresh.one_map)) on_map,
          fresh.unmarked k on_map,
        )

    marks_free :
        (maps : Bool) (region_size : ℕ) (pool : BufferPool)
        → (mark_free_blocks_in_region page_size_log decompact_ptr base 0 maps free_list region_size
            false c pool).1
          ≡ marked_context
    unfolding mark_free_blocks_in_region ensure_page_map_allocated marked_context
    marks_free maps region_size pool = ground (arith, fresh.allocated)

    touching-blocks :
        (k : ℕ) → touching k ≤ blocks page_size_log release_page_range records c log_lt pos fits k
    unfolding touching
    touching-blocks k =
        hits-le ps c.block_size (c.release_page_offset + k) pos
          (one-le-pow page_size_log 2 (omega arith)) free_blocks distinct

    IsFreePage-counted :
        (k : ℕ)
        → (touching k ≡ blocks page_size_log release_page_range records c log_lt pos fits k)
          ↔ IsFreePage k
    unfolding touching
    IsFreePage-counted k =
        hits_all_iff ps c.block_size (c.release_page_offset + k) pos
          (one-le-pow page_size_log 2 (omega arith)) free_blocks distinct

    counted_iff :
        (k : ℕ)
        → k < c.pages_count
        → (is_counted c.page_map 0 k
              (blocks page_size_log release_page_range records c log_lt pos fits k)
              marked_context.words
            ≡ true)
          ↔ IsFreePage k
    counted_iff k lt =
        let value = counter_value k lt in
        let counts : is_counted c.page_map 0 k
              (blocks page_size_log release_page_range records c log_lt pos fits k)
              marked_context.words
            ≡ (touching k == blocks page_size_log release_page_range records c log_lt pos fits k) =
          ground (
            arith,
            value,
            touching-blocks k,
            blocks-le page_size_log release_page_range records c log_lt pos fits k fresh.counts,
            fresh.max_le,
          ) in
        (
          λ t. (IsFreePage-counted k).0 (ground (arith, counts, t)),
          λ all. counts ∙ ground (arith, (IsFreePage-counted k).1 all),
        )

    -- The walk over the marked context.
    walked_context :
        (recorder : R) (k : ℕ)
        → records.pages
            (release_free_memory_to_os page_size_log release_page_range
              (λ i. false)
              marked_context
              recorder).1
            k
          ≡ records.pages recorder k
            + (if ltb k c.pages_count
                  && is_counted c.page_map 0 k
                      (blocks page_size_log release_page_range records c log_lt pos fits k)
                      marked_context.words
                then 1
                else 0)
    walked_context recorder k =
        ap
          (λ (x : PageReleaseContext).
            records.pages
              (release_free_memory_to_os page_size_log release_page_range (λ i. false) x recorder).1
              k)
          marked.same
        ∙ release_lem page_size_log release_page_range records
            (record c { words = marked_context.words }) log_lt pos fits fresh.one_region
            fresh.layout (omega (arith, fresh.one_map)) (omega (arith, fresh.pages))
            marked.counts.are_words fresh.counts recorder k

    -- For one region whose page map has no mark, and distinct free blocks on the pages of the map,
    -- after `markFreeBlocksInRegion` without a last block, `releaseFreeMemoryToOS` hands a page to
    -- the recorder, once, if each block that touches the page is one of the free blocks, and does
    -- not hand it over otherwise; a page behind the map is not handed over. Sizes and addresses do
    -- not wrap.
    pub release_free_memory_to_os-IsFreePage :
        (maps : Bool) (region_size : ℕ) (pool : BufferPool) (recorder : R) (k : ℕ)
        → let c' =
            (mark_free_blocks_in_region page_size_log decompact_ptr base 0 maps free_list
              region_size false c pool).1 in
          let r' =
            (release_free_memory_to_os page_size_log release_page_range
              (λ i. false)
              c'
              recorder).1 in
          ((records.pages r' k ≡ records.pages recorder k + 1) × (k < c.pages_count) × IsFreePage k)
          ⊎ ((records.pages r' k ≡ records.pages recorder k)
              × ¬ ((k < c.pages_count) × IsFreePage k))
    release_free_memory_to_os-IsFreePage maps region_size pool recorder k =
        rw (marks_free maps region_size pool) (elim (dec_lt k c.pages_count) [
          | yes lt ↦
              elim (Bool-cases (
                is_counted c.page_map 0 k
                  (blocks page_size_log release_page_range records c log_lt pos fits k)
                  marked_context.words)) [
                    | inl counted ↦ inl (
                      ground (arith, walked_context recorder k, lt, counted),
                      lt,
                      (counted_iff k lt).0 counted,
                    )
                    | inr other ↦ inr (
                      ground (arith, walked_context recorder k, lt, other),
                      λ (l, all). absurd (ground (arith, other, (counted_iff k lt).1 all)),
                    )
                  ]
          | no n ↦ inr (ground (arith, walked_context recorder k, n), λ (l, all). n l)
        ])
