-- ===== src/Release/Context.antt =====
-- PageReleaseContext of LLVM_SCUDO_MTE/release.h. The buffer of the page map comes from the pool,
-- with zeros; the free list is a list of batches of compact pointers, and `decompact_ptr` is the
-- caller's.
pub mod Touching
pub mod Counts
pub mod Batches
pub mod Fresh
pub mod Pigeonhole
use riscv_mte.Base.{
  ℕ, zero, suc, ◌+◌, ◌-◌, ◌*◌, ◌/◌, ◌%◌, ◌^◌, Bool, true, false, not, ◌&&◌, List, [], ◌∷◌, bit_and,
  ltb, leb, ◌==◌, ◌!=◌, if◌then◌else◌, add64, sub64, mul64, shl64, shr,
}
use riscv_mte.Common.{round_up, round_up_slow, round_down, round_down_slow}
use riscv_mte.Release.PageMap.{
  RegionPageMap, Buffer, reset, inc, inc_n, inc_range, set_as_all_counted_range,
}
use riscv_mte.Release.Pool.{BufferPlace, no_buffer, static_buffer, dynamic, BufferPool, get_buffer}

pub record PageReleaseContext : Type 0 where
  pub block_size : ℕ
  pub number_of_regions : ℕ
  pub release_page_offset : ℕ
  pub pages_count : ℕ
  pub full_pages_block_count_max : ℕ
  pub same_block_count_per_page : Bool
  pub page_map : RegionPageMap
  pub place : BufferPlace
  pub words : Buffer

-- The default constructor of `RegionPageMap`.
abbrev pub empty_page_map : RegionPageMap
empty_page_map = record {
  regions = 0;
  num_counters = 0;
  counter_size_bits_log = 0;
  counter_mask = 0;
  packing_ratio_log = 0;
  bit_offset_mask = 0;
  size_per_region = 0;
  buffer_num_elements = 0;
}

-- The greatest number of blocks on a page, and whether all pages have as many.
unfoldable pub block_counts : (page_size block_size : ℕ) → ℕ × Bool
block_counts page_size block_size =
    if leb block_size page_size
    then if page_size % block_size == 0
      then (page_size / block_size, true)
      else if block_size % (page_size % block_size) == 0
      then (add64 (page_size / block_size) 1, true)
      else (add64 (page_size / block_size) 2, false)
    else if bit_and block_size (sub64 page_size 1) == 0
    then (1, true)
    else (2, false)

abbrev pub is_allocated : BufferPlace → Bool
is_allocated no_buffer = false
is_allocated (static_buffer index) = true
is_allocated (dynamic size) = true

module _ (page_size_log : ℕ) where
  abbrev pub page_size : ℕ
  page_size = 2 ^ page_size_log

  unfoldable pub new_context :
      (block_size number_of_regions release_size release_offset : ℕ) → PageReleaseContext
  new_context block_size number_of_regions release_size release_offset =
      let (count_max, same_count) = block_counts page_size block_size in
      record {
        block_size = block_size;
        number_of_regions = number_of_regions;
        release_page_offset = shr release_offset page_size_log;
        pages_count = shr (round_up release_size page_size) page_size_log;
        full_pages_block_count_max = count_max;
        same_block_count_per_page = same_count;
        page_map = empty_page_map;
        place = no_buffer;
        words = λ k. 0;
      }

  abbrev pub has_block_marked : PageReleaseContext → Bool
  has_block_marked c = is_allocated c.place

  -- The pool of the page maps has 2 static buffers of 512 elements.
  unfoldable pub ensure_page_map_allocated :
      (maps : Bool) → PageReleaseContext → BufferPool → Bool × PageReleaseContext × BufferPool
  ensure_page_map_allocated maps c pool =
      if is_allocated c.place
      then (true, c, pool)
      else let map = reset c.number_of_regions c.pages_count c.full_pages_block_count_max in
        let (place, pool') = get_buffer 2 512 page_size maps map.buffer_num_elements pool in
        (is_allocated place, record c { page_map = map; place = place; words = λ k. 0 }, pool')

  unfoldable pub get_page_index : PageReleaseContext → ℕ → ℕ
  get_page_index c p = sub64 (shr p page_size_log) c.release_page_offset

  unfoldable pub get_release_offset : PageReleaseContext → ℕ
  get_release_offset c = shl64 c.release_page_offset page_size_log

  -- The page of a block that crosses the start of the range, and where the whole pages start.
  unfoldable pub mark_first_page :
      (region_index first_block from : ℕ) → PageReleaseContext → ℕ × Buffer
  mark_first_page region_index first_block from c =
      if first_block != from
      then (let num_blocks =
            sub64 (add64 (sub64 (add64 from page_size) first_block) c.block_size) 1
            / c.block_size in
          (
            round_up (add64 from 1) page_size,
            inc_n c.page_map region_index (get_page_index c from) num_blocks c.words,
          ))
      else (from, c.words)

  -- The pages behind the range that its last block touches, and where the whole pages end.
  unfoldable pub mark_last_block :
      (region_index region_size last_block to : ℕ) → PageReleaseContext → Buffer → ℕ × Buffer
  mark_last_block region_index region_size last_block to c words =
      let last_end = add64 last_block c.block_size in
      if last_end != region_size
      then if last_end != to
        then (
          to,
          inc_range c.page_map region_index (get_page_index c to)
              (get_page_index c (sub64 last_end 1)) words,
        )
        else (to, words)
      else (region_size, words)

  unfoldable pub mark_pages_between :
      (region_index from to : ℕ) → PageReleaseContext → Buffer → Buffer
  mark_pages_between region_index from to c words =
      if ltb from to
      then set_as_all_counted_range c.page_map region_index (get_page_index c from)
          (get_page_index c (sub64 to 1)) words
      else words

  -- The marking, once the page map is there. The range counts from the region's base.
  unfoldable pub mark_range :
      (from to region_index region_size : ℕ) → PageReleaseContext → PageReleaseContext
  mark_range from to region_index region_size c =
      let first_block = round_up_slow from c.block_size in
      if leb to first_block
      then c
      else let (from', words) =
          mark_first_page region_index first_block (round_down first_block page_size) c in
        let last_block = round_down_slow (sub64 to 1) c.block_size in
        let (to', words') = mark_last_block region_index region_size last_block to c words in
        record c { words = mark_pages_between region_index from' to' c words' }

  unfoldable pub mark_range_as_all_counted :
      (maps : Bool) (from to base region_index region_size : ℕ)
      → PageReleaseContext
      → BufferPool
      → Bool × PageReleaseContext × BufferPool
  mark_range_as_all_counted maps from to base region_index region_size c pool =
      let (allocated, c', pool') = ensure_page_map_allocated maps c pool in
      if not allocated
      then (false, c', pool')
      else (true, mark_range (sub64 from base) (sub64 to base) region_index region_size c', pool')

  -- The blocks that the last page would have behind the last block of the region.
  unfoldable pub num_trailing_blocks : (block_size region_size : ℕ) → ℕ
  num_trailing_blocks block_size region_size =
      let trailing_block_base =
        add64 (mul64 (sub64 (region_size / block_size) 1) block_size) block_size in
      sub64
        (add64
          (round_up_slow (sub64 (round_up region_size page_size) trailing_block_base) block_size)
          block_size)
        1
      / block_size

  unfoldable pub mark_trailing_blocks :
      (region_index region_size : ℕ) → PageReleaseContext → PageReleaseContext
  mark_trailing_blocks region_index region_size c =
      let trailing_block_base =
        add64 (mul64 (sub64 (region_size / c.block_size) 1) c.block_size) c.block_size in
      let count = num_trailing_blocks c.block_size region_size in
      if ltb 0 count
      then record c {
        words = inc_n c.page_map region_index (get_page_index c trailing_block_base) count c.words;
      }
      else c

  -- One free block, by its offset from the region's base.
  unfoldable pub mark_block : (region_index p : ℕ) → PageReleaseContext → PageReleaseContext
  mark_block region_index p c =
      if leb c.block_size page_size && page_size % c.block_size == 0
      then record c { words = inc c.page_map region_index (get_page_index c p) c.words }
      else record c {
        words =
            inc_range c.page_map region_index (get_page_index c p)
              (get_page_index c (sub64 (add64 p c.block_size) 1)) c.words;
      }

  module _ (decompact_ptr : ℕ → ℕ) (base region_index : ℕ) where
    unfoldable pub mark_batch : List ℕ → PageReleaseContext → PageReleaseContext
    mark_batch [] c = c
    mark_batch (p ∷ batch) c =
        mark_batch batch (mark_block region_index (sub64 (decompact_ptr p) base) c)

    unfoldable pub mark_batches : List (List ℕ) → PageReleaseContext → PageReleaseContext
    mark_batches [] c = c
    mark_batches (batch ∷ free_list) c = mark_batches free_list (mark_batch batch c)

    unfoldable pub mark_free_blocks_in_region :
        (maps : Bool) (free_list : List (List ℕ)) (region_size : ℕ) (may_contain_last_block : Bool)
        → PageReleaseContext
        → BufferPool
        → Bool × PageReleaseContext × BufferPool
    mark_free_blocks_in_region maps free_list region_size may_contain_last_block c pool =
        let (allocated, c', pool') = ensure_page_map_allocated maps c pool in
        if not allocated then (false, c', pool') else (
          true,
          mark_batches free_list (
              if may_contain_last_block
              then mark_trailing_blocks region_index region_size c'
              else c'),
          pool',
        )
