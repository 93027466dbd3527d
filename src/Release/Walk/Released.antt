-- ===== src/Release/Walk/Released.antt =====
-- releaseFreeMemoryToOS of LLVM_SCUDO_MTE/release.h after markFreeBlocksInRegion, for one region.
use native.Mathlib.Nat.{mul-le-mul_right}
use mathlib.Core.Path.{fun_ext}
use riscv_mte.Base.{
  ℕ, ◌+◌, ◌-◌, ◌*◌, ◌/◌, ◌^◌, ◌≤◌, ◌<◌, ◌≡◌, refl, sym, ap, ◌∙◌, arith, ltb, ◌&&◌, if◌then◌else◌,
  u64_mod, Bool, false, Bool-cases, inl, inr, add64, add64_eq, sub64, sub64_eq, mul64, mul64_eq,
  shl64, shl64_eq,
}
use riscv_mte.Common.{round_up_slow}
use riscv_mte.Release.PageMap.{Buffer}
use riscv_mte.Release.PageMap.Counters.{IsLayout, AreWords}
use riscv_mte.Release.Context.{PageReleaseContext, block_counts}
use riscv_mte.Release.Tracker.{FreePagesRangeTracker, new_tracker, finish}
use riscv_mte.Release.Tracker.Coverage.{RecordsPages, IsTracker, finish-covered}
use riscv_mte.Release.Walk.{
  Boundaries, fast_pages, slow_pages, first_boundaries, region_pages, release_regions,
  release_free_memory_to_os,
}
use riscv_mte.Release.Walk.PageBlocks.{blocks_on_page, ceiling, ceiling_lem, ceiling_unique}
use riscv_mte.Release.Walk.PageCounts.{block_counts-blocks_on_page, blocks_on_page-le}
use riscv_mte.Release.Walk.SlowPath.{boundaries_at}
use riscv_mte.Release.Walk.Pages.{
  pages_loop, fast_pages_lem, slow_pages_lem, pages_loop-IsProcessed, is_counted,
}

abbrev page_boundaries : (prev current : ℕ) → Boundaries
page_boundaries prev current = record { prev_page_boundary = prev; current_boundary = current }

page_boundaries_eq : {p p' c c' : ℕ} → p ≡ p' → c ≡ c' → page_boundaries p c ≡ page_boundaries p' c'
page_boundaries_eq e f = λ i. page_boundaries (e i) (f i)

round_up_slow_eq : (b : ℕ) → 0 < b → (x : ℕ) → x + b < u64_mod → round_up_slow x b ≡ ceiling b x * b
unfolding round_up_slow
round_up_slow_eq b pos x fits =
    let last : sub64 (add64 x b) 1 ≡ x + (b - 1) =
      ap (λ (t : ℕ). sub64 t 1) (add64_eq x b fits)
      ∙ sub64_eq (x + b) 1 (omega (arith, pos)) fits
      ∙ omega (arith, pos) in
    ap (λ (t : ℕ). mul64 (t / b) b) last
    ∙ mul64_eq (ceiling b x) b (omega (arith, (ceiling_lem b pos x).1))

module _ {R : Type 0} (page_size_log : ℕ) (release_page_range : (from to : ℕ) → R → R)
    (records : RecordsPages R page_size_log release_page_range) (c : PageReleaseContext)
    (log_lt : page_size_log < 63) (pos : 0 < c.block_size)
    (fits : (c.release_page_offset + c.pages_count) * 2 ^ page_size_log + 2 * c.block_size
      < u64_mod) where
  abbrev pub ps : ℕ
  ps = 2 ^ page_size_log

  -- The number of blocks on a page of the map.
  abbrev pub blocks : ℕ → ℕ
  blocks i = blocks_on_page ps c.block_size ((c.release_page_offset + i) * ps)

  start_fits : c.release_page_offset * ps + 2 * c.block_size < u64_mod
  start_fits = omega (arith, fits)

  first_boundaries_lem :
      first_boundaries page_size_log c
      ≡ boundaries_at c.block_size ((c.release_page_offset + 0) * ps)
  unfolding first_boundaries round_up_slow
  first_boundaries_lem = elim (Bool-cases (ltb 0 c.release_page_offset)) [
    | inl some_page ↦ rw some_page (
        let start : shl64 c.release_page_offset page_size_log ≡ c.release_page_offset * ps =
          shl64_eq c.release_page_offset page_size_log (omega (arith, start_fits)) in
        rw start (
          page_boundaries_eq refl (
            round_up_slow_eq c.block_size pos (c.release_page_offset * ps)
              (omega (arith, start_fits)))
          ∙ ap (λ (x : ℕ). boundaries_at c.block_size (x * ps)) {x = c.release_page_offset}
              {y = c.release_page_offset + 0} (omega arith)))
    | inr no_page ↦ rw no_page (
        let none : c.release_page_offset ≡ 0 = ground arith in
        page_boundaries_eq (omega (arith, ap (λ (x : ℕ). (x + 0) * ps) none)) (
          omega (
            arith,
            ap (λ (x : ℕ). x * c.block_size)
                (ceiling_unique c.block_size pos ((c.release_page_offset + 0) * ps) 0
                  (omega (arith, ap (λ (x : ℕ). (x + 0) * ps) none)) (omega (arith, pos))),
          )))
  ]

  region_pages_lem :
      (words : Buffer) (t : FreePagesRangeTracker R)
      → block_counts ps c.block_size ≡ (c.full_pages_block_count_max, c.same_block_count_per_page)
      → region_pages page_size_log release_page_range 0 c words t
        ≡ pages_loop page_size_log release_page_range c.pages_count 0 0 blocks c.page_map words t
  unfolding region_pages
  region_pages_lem words t e =
      let path : Bool → Buffer × FreePagesRangeTracker R = λ s.
        if s
        then fast_pages page_size_log release_page_range c.pages_count 0 0
            c.full_pages_block_count_max c.page_map words t
        else slow_pages page_size_log release_page_range c.pages_count 0 0 c.block_size
            (first_boundaries page_size_log c) c.page_map words t in
      elim (Bool-cases c.same_block_count_per_page) [
        | inl same ↦
            ap path same
            ∙ fast_pages_lem page_size_log release_page_range c.pages_count 0 0
                c.full_pages_block_count_max c.page_map words t
            ∙ ap
                (λ (f : ℕ → ℕ).
                  pages_loop page_size_log release_page_range c.pages_count 0 0 f c.page_map words
                    t)
                (fun_ext (λ i. sym (
                  block_counts-blocks_on_page page_size_log c.block_size pos log_lt
                    (omega (arith, fits)) c.full_pages_block_count_max (c.release_page_offset + i)
                    (e ∙ ap (λ (s : Bool). (c.full_pages_block_count_max, s)) same))))
        | inr other ↦
            ap path other
            ∙ ap
                (λ (s : Boundaries).
                  slow_pages page_size_log release_page_range c.pages_count 0 0 c.block_size s
                    c.page_map words t)
                first_boundaries_lem
            ∙ slow_pages_lem page_size_log release_page_range c.pages_count 0 0 c.block_size
                c.release_page_offset c.page_map words t pos (omega (arith, fits))
      ]

  -- The number of blocks on a page is not above the greatest number that the context has.
  pub blocks-le :
      (i : ℕ)
      → block_counts ps c.block_size ≡ (c.full_pages_block_count_max, c.same_block_count_per_page)
      → blocks i ≤ c.full_pages_block_count_max
  blocks-le i e =
      blocks_on_page-le page_size_log c.block_size pos log_lt (omega (arith, fits))
        c.full_pages_block_count_max (c.release_page_offset + i) c.same_block_count_per_page e

  -- The walk of one region hands each page over exactly if it is counted.
  pub release_lem :
      c.number_of_regions ≡ 1
      → IsLayout c.page_map
      → 0 < c.page_map.regions
      → c.pages_count ≤ c.page_map.num_counters
      → AreWords c.words
      → block_counts ps c.block_size ≡ (c.full_pages_block_count_max, c.same_block_count_per_page)
      → (recorder : R) (k : ℕ)
      → records.pages
          (release_free_memory_to_os page_size_log release_page_range (λ i. false) c recorder).1
          k
        ≡ records.pages recorder k
          + (if ltb k c.pages_count && is_counted c.page_map 0 k (blocks k) c.words then 1 else 0)
  unfolding release_free_memory_to_os release_regions
  release_lem one is some_map enough are e recorder k =
      let t = new_tracker recorder in
      let final =
        pages_loop page_size_log release_page_range c.pages_count 0 0 blocks c.page_map c.words t in
      let pages_of : Buffer × FreePagesRangeTracker R → ℕ =
        λ w. records.pages (finish page_size_log release_page_range w.1).recorder k in
      let n = c.pages_count in
      let flags : ℕ → Bool = λ i. is_counted c.page_map 0 i (blocks i) c.words in
      let empty : IsTracker page_size_log t = record {
        start_le = omega arith;
        fits = omega arith;
      } in
      let walked =
        pages_loop-IsProcessed page_size_log release_page_range records c.page_map is 0 some_map
          blocks n 0 c.words t flags (omega (arith, enough)) are (λ i lo hi. refl) empty
          (omega (
            arith,
            fits,
            mul-le-mul_right {m = n} {n = c.release_page_offset + n} ps (omega arith),
          )) in
      ap
        (λ (m : ℕ).
          pages_of (release_regions page_size_log release_page_range (λ i. false) m 0 c c.words t))
        one
      ∙ ap pages_of (region_pages_lem c.words t e)
      ∙ finish-covered page_size_log release_page_range records (final.1) walked.is_tracker k
      ∙ walked.covers k
      ∙ ground (arith)
