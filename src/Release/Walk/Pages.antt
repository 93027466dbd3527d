-- ===== src/Release/Walk/Pages.antt =====
-- The loops over the pages of a region in releaseFreeMemoryToOS of LLVM_SCUDO_MTE/release.h.
use native.Mathlib.Decide.{dec_lt}
use native.Mathlib.Nat.{mul-le-mul_right, mul-le-mul_left, one-le-pow}
use riscv_mte.Base.{
  ℕ, zero, suc, ◌+◌, ◌-◌, ◌*◌, ◌^◌, ◌≤◌, ◌<◌, ◌≡◌, refl, sym, ap, ◌∙◌, arith, leb, ltb, ◌&&◌, ◌||◌,
  ◌==◌, if◌then◌else◌, u64_mod, Bool, Bool-cases, inl, inr,
}
use riscv_mte.Release.PageMap.{RegionPageMap, Buffer, get_counter, update_as_all_counted_if}
use riscv_mte.Release.PageMap.Counters.{IsLayout, AreWords}
use riscv_mte.Release.PageMap.Ranges.{update_as_all_counted_if-IsMapped}
use riscv_mte.Release.Tracker.{FreePagesRangeTracker, process_next_page}
use riscv_mte.Release.Tracker.Coverage.{
  RecordsPages, IsTracker, IsProcessed, process_next_page-IsProcessed,
}
use riscv_mte.Release.Walk.{release_page, fast_pages, slow_pages, blocks_on_next_page}
use riscv_mte.Release.Walk.PageBlocks.{blocks_on_page}
use riscv_mte.Release.Walk.SlowPath.{boundaries_at, blocks_on_next_page-boundaries_at}

-- Whether a page is counted: the counter is the mask or the number of blocks.
abbrev pub is_counted : RegionPageMap → (region j blocks : ℕ) → Buffer → Bool
is_counted m region j blocks words =
    (get_counter m region j words == m.counter_mask) || (get_counter m region j words == blocks)

module _ {R : Type 0} (page_size_log : ℕ) (release_page_range : (from to : ℕ) → R → R) where
  -- The loop with a number of blocks for each page.
  unfoldable pub pages_loop :
      (count region j : ℕ) (blocks : ℕ → ℕ)
      → RegionPageMap
      → Buffer
      → FreePagesRangeTracker R
      → Buffer × FreePagesRangeTracker R
  pages_loop zero region j blocks m words tracker = (words, tracker)
  pages_loop (suc count) region j blocks m words tracker =
      let (words', tracker') =
        release_page page_size_log release_page_range region j (blocks j) m words tracker in
      pages_loop count region (j + 1) blocks m words' tracker'

  pub fast_pages_lem :
      (count region j n : ℕ) (m : RegionPageMap) (words : Buffer) (t : FreePagesRangeTracker R)
      → fast_pages page_size_log release_page_range count region j n m words t
        ≡ pages_loop count region j (λ i. n) m words t
  unfolding fast_pages pages_loop
  fast_pages_lem zero region j n m words t = refl
  fast_pages_lem (suc count) region j n m words t =
      let (words', t') = release_page page_size_log release_page_range region j n m words t in
      fast_pages_lem count region (j + 1) n m words' t'

  -- The slow path finds the number of blocks on each page.
  pub slow_pages_lem :
      (count region j b offset : ℕ) (m : RegionPageMap) (words : Buffer)
      (t : FreePagesRangeTracker R)
      → 0 < b
      → (offset + j + count) * 2 ^ page_size_log + 2 * b < u64_mod
      → slow_pages page_size_log release_page_range count region j b
          (boundaries_at b ((offset + j) * 2 ^ page_size_log))
          m
          words
          t
        ≡ pages_loop count region j
            (λ i. blocks_on_page (2 ^ page_size_log) b ((offset + i) * 2 ^ page_size_log))
            m
            words
            t
  unfolding slow_pages pages_loop
  slow_pages_lem zero region j b offset m words t pos fits = refl
  slow_pages_lem (suc count) region j b offset m words t pos fits =
      let a = (offset + j) * 2 ^ page_size_log in
      let (words', t') =
        release_page page_size_log release_page_range region j
          (blocks_on_page (2 ^ page_size_log) b a) m words t in
      let le = mul-le-mul_right {m = 1} {n = suc count} (2 ^ page_size_log) (omega arith) in
      let enough : a + 2 ^ page_size_log + 2 * b < u64_mod = omega (arith, fits, le) in
      let next : a + 2 ^ page_size_log ≡ (offset + (j + 1)) * 2 ^ page_size_log = omega arith in
      let step : blocks_on_next_page (2 ^ page_size_log) b (boundaries_at b a) ≡ (
        blocks_on_page (2 ^ page_size_log) b a,
        boundaries_at b ((offset + (j + 1)) * 2 ^ page_size_log),
      ) =
        blocks_on_next_page-boundaries_at (2 ^ page_size_log) b pos
          (one-le-pow page_size_log 2 (omega arith)) a enough
        ∙ ap (λ (x : ℕ). (blocks_on_page (2 ^ page_size_log) b a, boundaries_at b x)) next in
      rw step (slow_pages_lem count region (j + 1) b offset m words' t' pos (omega (arith, fits)))

  module _ (records : RecordsPages R page_size_log release_page_range) (m : RegionPageMap)
      (is : IsLayout m) (region : ℕ) (h : region < m.regions) (blocks : ℕ → ℕ) where
    -- Pages of a loop, from the counter `j` and the page `at` of the tracker.
    abbrev pub counted_page : (at j count : ℕ) (flags : ℕ → Bool) → ℕ → ℕ
    counted_page at j count flags k =
        if leb at k && (ltb k (at + count) && flags (j + (k - at))) then 1 else 0

    counted_page-suc :
        (at j count : ℕ) (flags : ℕ → Bool) (flag : Bool)
        → flag ≡ flags j
        → (k : ℕ)
        → counted_page (at + 1) (j + 1) count flags k + (if flag && k == at then 1 else 0)
          ≡ counted_page at j (suc count) flags k
    counted_page-suc at j count flags flag e k = elim (dec_lt at k) [
      | yes lt ↦
          let same : j + 1 + (k - (at + 1)) ≡ j + (k - at) = omega arith in
          rw same (ground (arith, lt))
      | no n ↦ elim (Bool-cases (k == at)) [
        | inl here ↦
            let same : j + (k - at) ≡ j = ground (arith, here) in
            rw same (rw (sym e) (ground (arith, here)))
        | inr before ↦ ground (arith, before, n)
      ]
    ]

    -- One page leaves the flags of the pages behind it alone.
    module _ (j : ℕ) (h' : j < m.num_counters) (words : Buffer) (are : AreWords words) where
      step_words : Buffer
      step_words = (update_as_all_counted_if m region j (blocks j) words).1

      step_flag :
          (update_as_all_counted_if m region j (blocks j) words).0
          ≡ is_counted m region j (blocks j) words
      step_flag = (update_as_all_counted_if-IsMapped m is region j (blocks j) h h' words are).0

      later_counter :
          (i : ℕ)
          → j < i
          → i < m.num_counters
          → get_counter m region i step_words ≡ get_counter m region i words
      unfolding step_words
      later_counter i lt i_lt =
          let mapped =
            (update_as_all_counted_if-IsMapped m is region j (blocks j) h h' words are).1 in
          ground (arith, mapped.values region i h i_lt)

      step-AreWords : AreWords step_words
      unfolding step_words
      step-AreWords =
          (update_as_all_counted_if-IsMapped m is region j (blocks j) h h' words are).1.are_words

    -- Every page of the loop is released exactly if it is counted at the start of the loop.
    pub pages_loop-IsProcessed :
        (count j : ℕ) (words : Buffer) (t : FreePagesRangeTracker R) (flags : ℕ → Bool)
        → j + count ≤ m.num_counters
        → AreWords words
        → ((i : ℕ) → j ≤ i → i < j + count → is_counted m region i (blocks i) words ≡ flags i)
        → IsTracker page_size_log t
        → (t.current_page + count) * 2 ^ page_size_log < u64_mod
        → IsProcessed page_size_log release_page_range records t
            ((pages_loop count region j blocks m words t).1)
            count
            (counted_page t.current_page j count flags)
    unfolding pages_loop release_page step_words
    pages_loop-IsProcessed zero j words t flags le are same is_t fits = record {
      covers = λ k. ground arith;
      is_tracker = is_t;
      moved = omega arith;
    }
    pages_loop-IsProcessed (suc count) j words t flags le are same is_t fits =
        let words' = step_words j (omega arith) words are in
        let flag = (update_as_all_counted_if m region j (blocks j) words).0 in
        let flag_eq : flag ≡ flags j =
          step_flag j (omega arith) words are ∙ same j (omega arith) (omega arith) in
        let fits_next : (t.current_page + 1) * 2 ^ page_size_log < u64_mod = omega (
          arith,
          fits,
          mul-le-mul_right {m = t.current_page + 1} {n = t.current_page + suc count}
              (2 ^ page_size_log) (omega arith),
        ) in
        let step =
          process_next_page-IsProcessed page_size_log release_page_range records t is_t flag
            fits_next
            (omega (
              arith,
              fits_next,
              mul-le-mul_left {m = 1} {n = 2 ^ page_size_log} (t.current_page + 1)
                  (one-le-pow page_size_log 2 (omega arith)),
            )) in
        let t' = process_next_page page_size_log release_page_range flag t in
        let rest =
          pages_loop-IsProcessed count (j + 1) words' t' flags (omega arith)
            (step-AreWords j (omega arith) words are)
            (λ i lo hi.
              ap (λ (g : ℕ). (g == m.counter_mask) || (g == blocks i))
                (later_counter j (omega arith) words are i (omega arith) (omega arith))
              ∙ same i (omega arith) (omega arith))
            step.is_tracker (rw step.moved (omega (arith, fits))) in
        record {
          covers = λ k. omega (
            arith,
            rest.covers k,
            step.covers k,
            counted_page-suc t.current_page j count flags flag flag_eq k,
            ap (λ (x : ℕ). counted_page x (j + 1) count flags k) step.moved,
          );
          is_tracker = rest.is_tracker;
          moved = omega (arith, rest.moved, step.moved);
        }
