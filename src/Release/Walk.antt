-- ===== src/Release/Walk.antt =====
-- releaseFreeMemoryToOS of LLVM_SCUDO_MTE/release.h. The recorder and `skip_region` are the caller's.
pub mod PageBlocks
pub mod PageCounts
pub mod SlowPath
pub mod Pages
pub mod Released
pub mod AllFree
use riscv_mte.Base.{
  ℕ, zero, suc, ◌+◌, ◌-◌, ◌*◌, ◌/◌, ◌^◌, Bool, true, false, ltb, if◌then◌else◌, add64, mul64, shl64,
}
use riscv_mte.Common.{round_up_slow}
use riscv_mte.Release.PageMap.{RegionPageMap, Buffer, update_as_all_counted_if}
use riscv_mte.Release.Tracker.{
  FreePagesRangeTracker, new_tracker, process_next_page, skip_pages, finish,
}
use riscv_mte.Release.Context.{PageReleaseContext, page_size}

-- Where the slow path stands: the boundary of the page before, and that of the blocks so far.
pub record Boundaries : Type 0 where
  pub prev_page_boundary : ℕ
  pub current_boundary : ℕ

-- The blocks per page if blocks and pages begin together, but at least 1.
unfoldable pub whole_blocks : (page_bytes block_size : ℕ) → ℕ
whole_blocks page_bytes block_size =
    if ltb block_size page_bytes then page_bytes / block_size else 1

-- One page of the slow path: its number of blocks, and the next boundaries.
unfoldable pub blocks_on_next_page : (page_bytes block_size : ℕ) → Boundaries → ℕ × Boundaries
blocks_on_next_page page_bytes block_size s =
    let pn = whole_blocks page_bytes block_size in
    let page_boundary = add64 s.prev_page_boundary page_bytes in
    if ltb s.current_boundary page_boundary
    then (let blocks = if ltb s.prev_page_boundary s.current_boundary then add64 pn 1 else pn in
        let current = add64 s.current_boundary (mul64 pn block_size) in
        if ltb current page_boundary
        then (
          add64 blocks 1,
          record {
            prev_page_boundary = page_boundary;
            current_boundary = add64 current block_size;
          },
        )
        else (blocks, record { prev_page_boundary = page_boundary; current_boundary = current }))
    else (pn, record { prev_page_boundary = page_boundary; current_boundary = s.current_boundary })

unfoldable pub first_boundaries : (page_size_log : ℕ) → PageReleaseContext → Boundaries
first_boundaries page_size_log c =
    if ltb 0 c.release_page_offset
    then (let start = shl64 c.release_page_offset page_size_log in
        record { prev_page_boundary = start; current_boundary = round_up_slow start c.block_size })
    else record { prev_page_boundary = 0; current_boundary = 0 }

module _ {R : Type 0} (page_size_log : ℕ) (release_page_range : (from to : ℕ) → R → R) where
  -- A page with its number of blocks.
  unfoldable pub release_page :
      (region j blocks : ℕ)
      → RegionPageMap
      → Buffer
      → FreePagesRangeTracker R
      → Buffer × FreePagesRangeTracker R
  release_page region j blocks map words tracker =
      let (can_release, words') = update_as_all_counted_if map region j blocks words in
      (words', process_next_page page_size_log release_page_range can_release tracker)

  -- The pages of a region from `j` on, where all have as many blocks.
  unfoldable pub fast_pages :
      (count region j blocks : ℕ)
      → RegionPageMap
      → Buffer
      → FreePagesRangeTracker R
      → Buffer × FreePagesRangeTracker R
  fast_pages zero region j blocks map words tracker = (words, tracker)
  fast_pages (suc count) region j blocks map words tracker =
      let (words', tracker') = release_page region j blocks map words tracker in
      fast_pages count region (j + 1) blocks map words' tracker'

  unfoldable pub slow_pages :
      (count region j block_size : ℕ)
      → Boundaries
      → RegionPageMap
      → Buffer
      → FreePagesRangeTracker R
      → Buffer × FreePagesRangeTracker R
  slow_pages zero region j block_size s map words tracker = (words, tracker)
  slow_pages (suc count) region j block_size s map words tracker =
      let (blocks, s') = blocks_on_next_page (page_size page_size_log) block_size s in
      let (words', tracker') = release_page region j blocks map words tracker in
      slow_pages count region (j + 1) block_size s' map words' tracker'

  unfoldable pub region_pages :
      (region : ℕ)
      → PageReleaseContext
      → Buffer
      → FreePagesRangeTracker R
      → Buffer × FreePagesRangeTracker R
  region_pages region c words tracker =
      if c.same_block_count_per_page
      then fast_pages c.pages_count region 0 c.full_pages_block_count_max c.page_map words tracker
      else slow_pages c.pages_count region 0 c.block_size (first_boundaries page_size_log c)
          c.page_map words tracker

  module _ (skip_region : ℕ → Bool) where
    -- The regions from `i` on.
    unfoldable pub release_regions :
        (count i : ℕ)
        → PageReleaseContext
        → Buffer
        → FreePagesRangeTracker R
        → Buffer × FreePagesRangeTracker R
    release_regions zero i c words tracker = (words, tracker)
    release_regions (suc count) i c words tracker =
        let (words', tracker') =
          if skip_region i
          then (words, skip_pages page_size_log release_page_range c.pages_count tracker)
          else region_pages i c words tracker in
        release_regions count (i + 1) c words' tracker'

    unfoldable pub release_free_memory_to_os : PageReleaseContext → R → PageReleaseContext × R
    release_free_memory_to_os c recorder =
        let (words, tracker) =
          release_regions c.number_of_regions 0 c c.words (new_tracker recorder) in
        (record c { words = words }, (finish page_size_log release_page_range tracker).recorder)
