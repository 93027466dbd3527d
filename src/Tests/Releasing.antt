-- ===== src/Tests/Releasing.antt =====
-- release.h at concrete page maps, trackers and contexts.
use riscv_mte.Base.{
  ℕ, ◌+◌, ◌-◌, ◌*◌, ◌^◌, ◌≤◌, ◌<◌, ◌≡◌, ◌⊎◌, refl, arith, List, [], ◌∷◌, true, false, sub64, add64,
  shl64, mul64, all_ones, ◌==◌, ◌&&◌, ◌||◌, if◌then◌else◌,
}
use riscv_mte.Common.{
  round_up, round_up_power_of_two, is_power_of_two, get_most_significant_set_bit_index,
  leading_zeros, get_log2, get_least_significant_set_bit_index, trailing_zeros,
}
use riscv_mte.Common.Shuffle.{count}
use riscv_mte.Release.Recorder.{RegionReleaseRecorder, region_release_page_range}
use riscv_mte.Release.Recorder.Pages.{region-RecordsPages}
use riscv_mte.Release.Pool.{BufferPool, get_buffer, get_dynamic_buffer}
use riscv_mte.Release.PageMap.{
  RegionPageMap, reset, layout, get_counter, inc_range, update_as_all_counted_if,
}
use riscv_mte.Release.PageMap.Counters.{IsLayout}
use riscv_mte.Release.PageMap.Reset.{reset-IsLayout}
use riscv_mte.Release.PageMap.Ranges.{
  IsMapped, between, inc_range-IsMapped, update_as_all_counted_if-IsMapped,
}
use riscv_mte.Release.Pool.Exchange.{IsServed, get_buffer-IsServed}
use riscv_mte.Release.Tracker.{FreePagesRangeTracker, process_next_page}
use riscv_mte.Release.Tracker.Coverage.{IsProcessed, process_next_page-IsProcessed}
use riscv_mte.Release.Context.Touching.{touches}
use riscv_mte.Release.Walk.PageBlocks.{blocks_on_page}
use riscv_mte.Release.Walk.PageCounts.{block_counts-blocks_on_page}
use riscv_mte.Release.Walk.SlowPath.{boundaries_at, blocks_on_next_page-boundaries_at}
use riscv_mte.Release.Context.{
  PageReleaseContext, new_context, block_counts, ensure_page_map_allocated,
  mark_free_blocks_in_region,
}
use riscv_mte.Release.Context.Batches.{pointers, AreBlocks, block_numbers}
use riscv_mte.Release.Context.Fresh.{IsFresh, get_counter_zero, ensure_page_map_allocated-IsFresh}
use riscv_mte.Release.Walk.{blocks_on_next_page, release_free_memory_to_os}
use riscv_mte.Release.Walk.AllFree.{release_free_memory_to_os-IsFreePage}

abbrev free_pool : BufferPool
free_pool = record { mask = all_ones }

abbrev full_pool : BufferPool
full_pool = record { mask = all_ones - 3 }

-- Pages of 16 bytes, and 6 blocks of 10 bytes in 64 bytes.
abbrev new : PageReleaseContext
new = new_context 4 10 1 64 0

-- The map is mapped, since no static buffer is free.
ready : PageReleaseContext
ready = (ensure_page_map_allocated 4 true new full_pool).1

new-pages : new.pages_count ≡ 4
unfolding new_context block_counts round_up add64 sub64
new-pages = refl

allocates : (ensure_page_map_allocated 4 true new full_pool).0 ≡ true
unfolding ensure_page_map_allocated new_context block_counts get_buffer get_dynamic_buffer reset
    layout round_up round_up_power_of_two is_power_of_two get_most_significant_set_bit_index
    leading_zeros get_log2 get_least_significant_set_bit_index trailing_zeros add64 sub64 mul64
    shl64
allocates = refl

ready-IsFresh : IsFresh 4 ready
unfolding ready
ready-IsFresh =
    ensure_page_map_allocated-IsFresh 4 10 64 0 (omega arith) (omega arith) (omega arith)
      (omega (arith, new-pages)) true full_pool allocates

ready_lem : (ready.block_size ≡ 10) × (ready.release_page_offset ≡ 0) × (ready.pages_count ≡ 4)
unfolding ready ensure_page_map_allocated new_context block_counts round_up add64 sub64
ready_lem = (refl, refl, refl)

recorder : RegionReleaseRecorder
recorder = record { released_bytes = 0; base = 0x10000; offset = 0; calls = [] }

-- The first three blocks, in two batches.
abbrev free_list : List (List ℕ)
free_list = (0 ∷ 20 ∷ []) ∷ (10 ∷ []) ∷ []

ready-AreBlocks :
    AreBlocks 4
      (λ p. p)
      0
      0
      ready.block_size
      ready.release_page_offset
      ready.page_map.num_counters
      (pointers free_list)
unfolding ready ensure_page_map_allocated new_context block_counts round_up add64 sub64 reset layout
ready-AreBlocks = (
  record { multiple = refl; starts = omega arith; on_map = omega arith; fits = omega arith },
  (
    record { multiple = refl; starts = omega arith; on_map = omega arith; fits = omega arith },
    (
      record { multiple = refl; starts = omega arith; on_map = omega arith; fits = omega arith },
      tt,
    ),
  ),
)

ready-distinct :
    (b : ℕ) → count b (block_numbers 4 (λ p. p) 0 0 ready.block_size (pointers free_list)) ≤ 1
unfolding ready ensure_page_map_allocated new_context sub64
ready-distinct b = ground arith

-- The first page goes back; the second has a block in use.
release_free_memory_to_os-IsFreePage_example :
    let c' =
      (mark_free_blocks_in_region 4 (λ p. p) 0 0 true free_list 64 false ready full_pool).1 in
    let r' = (release_free_memory_to_os 4 region_release_page_range (λ i. false) c' recorder).1 in
    (((region-RecordsPages 4).pages r' 0 ≡ (region-RecordsPages 4).pages recorder 0 + 1)
      × (0 < ready.pages_count)
      × ((b : ℕ)
          → touches 16 ready.block_size (ready.release_page_offset + 0) b ≡ true
          → count b (block_numbers 4 (λ p. p) 0 0 ready.block_size (pointers free_list)) ≡ 1))
    ⊎ (((region-RecordsPages 4).pages r' 0 ≡ (region-RecordsPages 4).pages recorder 0)
        × ¬ (
            (0 < ready.pages_count)
            × ((b : ℕ)
                → touches 16 ready.block_size (ready.release_page_offset + 0) b ≡ true
                → count b (block_numbers 4 (λ p. p) 0 0 ready.block_size (pointers free_list))
                  ≡ 1)))
release_free_memory_to_os-IsFreePage_example =
    release_free_memory_to_os-IsFreePage 4 region_release_page_range (region-RecordsPages 4) ready
      (omega arith) (omega (arith, ready_lem.0))
      (omega (arith, ready_lem.0, ready_lem.1, ready_lem.2)) ready-IsFresh (λ p. p) 0 free_list
      ready-AreBlocks ready-distinct true 64 full_pool recorder 0

reset-IsLayout_example : IsLayout (reset 1 1000 18) × (18 ≤ (reset 1 1000 18).counter_mask)
reset-IsLayout_example =
    reset-IsLayout 1 1000 (omega arith) (omega arith) 18 (omega arith) (omega arith)

abbrev map : RegionPageMap
map = reset 1 1000 18

map-IsLayout : IsLayout map
map-IsLayout = (reset-IsLayout 1 1000 (omega arith) (omega arith) 18 (omega arith) (omega arith)).0

map_lem : (map.regions ≡ 1) × (map.num_counters ≡ 1000)
unfolding reset layout
map_lem = (refl, refl)

map_unmarked : (j : ℕ) → get_counter map 0 j (λ k. 0) < map.counter_mask
map_unmarked j = omega (
  arith,
  get_counter_zero map 0 j,
  (reset-IsLayout 1 1000 (omega arith) (omega arith) 18 (omega arith) (omega arith)).1,
)

inc_range-IsMapped_example :
    IsMapped map
      (λ r j n. if between 0 3 40 r j then n + 1 else n)
      (λ k. 0)
      (inc_range map 0 3 40 (λ k. 0))
inc_range-IsMapped_example =
    inc_range-IsMapped map map-IsLayout 0 3 40 (omega (arith, map_lem.0)) (omega (arith, map_lem.1))
      (omega arith) (omega arith) (λ k. 0) (λ k. omega arith) (λ j lo hi j_lt. map_unmarked j)

update_as_all_counted_if-IsMapped_example :
    ((update_as_all_counted_if map 0 5 0 (λ k. 0)).0
      ≡ (get_counter map 0 5 (λ k. 0) == map.counter_mask) || (get_counter map 0 5 (λ k. 0) == 0))
    × IsMapped map
        (λ r j n.
          if (update_as_all_counted_if map 0 5 0 (λ k. 0)).0 && between 0 5 5 r j
          then map.counter_mask
          else n)
        (λ k. 0)
        ((update_as_all_counted_if map 0 5 0 (λ k. 0)).1)
update_as_all_counted_if-IsMapped_example =
    update_as_all_counted_if-IsMapped map map-IsLayout 0 5 0 (omega (arith, map_lem.0))
      (omega (arith, map_lem.1)) (λ k. 0) (λ k. omega arith)

abbrev tracker : FreePagesRangeTracker RegionReleaseRecorder
tracker = record {
  recorder = recorder;
  in_range = true;
  current_page = 9;
  current_range_state_page = 7;
}

process_next_page-IsProcessed_example :
    IsProcessed 12 region_release_page_range
      (region-RecordsPages 12)
      tracker
      (process_next_page 12 region_release_page_range false tracker)
      1
      (λ k. if false && k == 9 then 1 else 0)
process_next_page-IsProcessed_example =
    process_next_page-IsProcessed 12 region_release_page_range (region-RecordsPages 12) tracker
      (record { start_le = omega arith; fits = omega arith }) false (omega arith) (omega arith)

blocks_on_next_page-boundaries_at_example :
    blocks_on_next_page 4096 96 (boundaries_at 96 8192)
    ≡ (blocks_on_page 4096 96 8192, boundaries_at 96 (8192 + 4096))
blocks_on_next_page-boundaries_at_example =
    blocks_on_next_page-boundaries_at 4096 96 (omega arith) (omega arith) 8192 (omega arith)

same_counts : block_counts 4096 3072 ≡ (2, true)
unfolding block_counts add64
same_counts = refl

block_counts-blocks_on_page_example : blocks_on_page (2 ^ 12) 3072 (5 * 2 ^ 12) ≡ 2
block_counts-blocks_on_page_example =
    block_counts-blocks_on_page 12 3072 (omega arith) (omega arith) (omega arith) 2 5 same_counts

ensure_page_map_allocated-IsFresh_example :
    IsFresh 4 ((ensure_page_map_allocated 4 true new full_pool).1)
ensure_page_map_allocated-IsFresh_example =
    ensure_page_map_allocated-IsFresh 4 10 64 0 (omega arith) (omega arith) (omega arith)
      (omega (arith, new-pages)) true full_pool allocates

get_buffer-IsServed_example :
    IsServed 2 512 100 full_pool
      ((get_buffer 2 512 4096 true 100 full_pool).0)
      ((get_buffer 2 512 4096 true 100 full_pool).1)
get_buffer-IsServed_example =
    get_buffer-IsServed 2 512 4096 true 100 full_pool (omega arith) (omega arith)
