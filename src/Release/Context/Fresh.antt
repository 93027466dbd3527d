-- ===== src/Release/Context/Fresh.antt =====
-- A new PageReleaseContext of LLVM_SCUDO_MTE/release.h with its page map.
use native.Mathlib.Nat.{zero-div, div-le_self}
use riscv_mte.Base.{ℕ, ◌+◌, ◌^◌, ◌≤◌, ◌<◌, ◌≡◌, refl, ap, ◌∙◌, arith, bit_and, Bool, true, u64_mod}
use riscv_mte.Bits.{zero-bit_and, two_pow_lt}
use riscv_mte.Release.PageMap.{RegionPageMap, reset, layout, get_counter, bit_offset}
use riscv_mte.Release.PageMap.Counters.{IsLayout, AreWords}
use riscv_mte.Release.PageMap.Reset.{reset-IsLayout}
use riscv_mte.Release.Pool.{BufferPool}
use riscv_mte.Release.Context.{
  PageReleaseContext, is_allocated, block_counts, new_context, ensure_page_map_allocated,
}
use riscv_mte.Release.Walk.PageCounts.{block_counts_bounds}

-- A context of one region whose page map is there and has no mark.
pub record IsFresh (page_size_log : ℕ) (c : PageReleaseContext) : Type 0 where
  pub layout : IsLayout c.page_map
  pub one_region : c.number_of_regions ≡ 1
  pub one_map : c.page_map.regions ≡ 1
  pub pages : c.page_map.num_counters ≡ c.pages_count
  pub counts :
      block_counts (2 ^ page_size_log) c.block_size
      ≡ (c.full_pages_block_count_max, c.same_block_count_per_page)
  pub max_le : c.full_pages_block_count_max ≤ c.page_map.counter_mask
  pub allocated : is_allocated c.place ≡ true
  pub unmarked : (j : ℕ) → j < c.page_map.num_counters → get_counter c.page_map 0 j c.words ≡ 0
  pub are_words : AreWords c.words

-- The counters of an empty buffer are 0.
pub get_counter_zero : (m : RegionPageMap) (r j : ℕ) → get_counter m r j (λ k. 0) ≡ 0
unfolding get_counter
get_counter_zero m r j =
    ap (λ (x : ℕ). bit_and x m.counter_mask) (zero-div (2 ^ bit_offset m j))
    ∙ zero-bit_and m.counter_mask

module _ (page_size_log block_size release_size release_offset : ℕ) (log_lt : page_size_log < 63)
    (pos : 0 < block_size) (small : block_size < 2 ^ 63) where
  abbrev c : PageReleaseContext
  c = new_context page_size_log block_size 1 release_size release_offset

  -- For a page size and a block size below 2 ^ 63 and at most 2 ^ 64 - 65 pages, a new context of
  -- one region has a page map without marks (IsFresh) once `ensurePageMapAllocated` succeeds.
  pub ensure_page_map_allocated-IsFresh :
      c.pages_count + 64 < u64_mod
      → (maps : Bool) (pool : BufferPool)
      → (ensure_page_map_allocated page_size_log maps c pool).0 ≡ true
      → IsFresh page_size_log ((ensure_page_map_allocated page_size_log maps c pool).1)
  unfolding ensure_page_map_allocated new_context reset layout
  ensure_page_map_allocated-IsFresh few maps pool ok =
      let n = (block_counts (2 ^ page_size_log) block_size).0 in
      let (some_block, le) =
        block_counts_bounds page_size_log block_size pos log_lt small n
          ((block_counts (2 ^ page_size_log) block_size).1) refl in
      let (is, holds) =
        reset-IsLayout 1 (c.pages_count) (omega (arith, few)) (omega arith) n some_block (
          omega (
            arith,
            le,
            div-le_self (2 ^ page_size_log) block_size,
            two_pow_lt page_size_log 63 log_lt,
          )) in
      record {
        layout = is;
        one_region = refl;
        one_map = refl;
        pages = refl;
        counts = refl;
        max_le = holds;
        allocated = ok;
        unmarked = λ j j_lt. get_counter_zero (reset 1 c.pages_count n) 0 j;
        are_words = λ k. omega arith;
      }
