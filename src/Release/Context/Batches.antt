-- ===== src/Release/Context/Batches.antt =====
-- The batches of markFreeBlocksInRegion of LLVM_SCUDO_MTE/release.h.
use mathlib.Core.Path.{subst}
use riscv_mte.Base.{
  ℕ, ◌+◌, ◌/◌, ◌≤◌, ◌<◌, ◌≡◌, refl, sym, ◌∙◌, arith, ◌++◌, if◌then◌else◌, sub64, List, [], ◌∷◌,
}
use riscv_mte.Release.PageMap.{get_counter}
use riscv_mte.Release.PageMap.Counters.{IsLayout, AreWords}
use riscv_mte.Release.Context.{PageReleaseContext, page_size, mark_block, mark_batch, mark_batches}
use riscv_mte.Release.Context.Touching.{touches, hits}
use riscv_mte.Release.Context.Counts.{IsBlock, IsMarked, mark_block-IsMarked}

-- All pointers of the batches.
abbrev pub pointers : List (List ℕ) → List ℕ
pointers [] = []
pointers (batch ∷ free_list) = batch ++ pointers free_list

module _ (page_size_log : ℕ) (decompact_ptr : ℕ → ℕ) (base region : ℕ) where
  abbrev ps : ℕ
  ps = page_size page_size_log

  -- The numbers of the blocks in the region.
  abbrev pub block_numbers : (block_size : ℕ) → List ℕ → List ℕ
  block_numbers block_size [] = []
  block_numbers block_size (p ∷ batch) =
      (sub64 (decompact_ptr p) base / block_size) ∷ block_numbers block_size batch

  abbrev pub AreBlocks : (block_size release_page_offset num_counters : ℕ) → List ℕ → Type 0
  AreBlocks b o n [] = Unit
  AreBlocks b o n (p ∷ batch) =
      IsBlock page_size_log b o n (sub64 (decompact_ptr p) base) × AreBlocks b o n batch

  mark_batch-append :
      (ps qs : List ℕ) (c : PageReleaseContext)
      → mark_batch page_size_log decompact_ptr base region (ps ++ qs) c
        ≡ mark_batch page_size_log decompact_ptr base region qs
            (mark_batch page_size_log decompact_ptr base region ps c)
  unfolding mark_batch
  mark_batch-append [] qs c = refl
  mark_batch-append (p ∷ ps) qs c =
      mark_batch-append ps qs (mark_block page_size_log region (sub64 (decompact_ptr p) base) c)

  pub mark_batches-pointers :
      (free_list : List (List ℕ)) (c : PageReleaseContext)
      → mark_batches page_size_log decompact_ptr base region free_list c
        ≡ mark_batch page_size_log decompact_ptr base region (pointers free_list) c
  unfolding mark_batches mark_batch
  mark_batches-pointers [] c = refl
  mark_batches-pointers (batch ∷ free_list) c =
      mark_batches-pointers free_list (mark_batch page_size_log decompact_ptr base region batch c)
      ∙ sym (mark_batch-append batch (pointers free_list) c)

  -- Two markings after each other.
  IsMarked-then :
      (c c' c'' : PageReleaseContext) (f g : ℕ → ℕ)
      → IsMarked page_size_log region c c' f
      → IsMarked page_size_log region (record c { words = c'.words }) c'' g
      → IsMarked page_size_log region c c'' (λ j. g j + f j)
  IsMarked-then c c' c'' f g a b = record {
    same = b.same;
    counts = record {
      values = λ r j r_lt j_lt.
          ground (arith, a.counts.values r j r_lt j_lt, b.counts.values r j r_lt j_lt);
      are_words = b.counts.are_words;
    };
  }

  pub mark_batch-IsMarked :
      (batch : List ℕ) (c : PageReleaseContext)
      → IsLayout c.page_map
      → region < c.page_map.regions
      → 0 < c.block_size
      → AreWords c.words
      → AreBlocks c.block_size c.release_page_offset c.page_map.num_counters batch
      → ((j : ℕ)
          → j < c.page_map.num_counters
          → get_counter c.page_map region j c.words
              + hits ps c.block_size (c.release_page_offset + j) (block_numbers c.block_size batch)
            ≤ c.page_map.counter_mask)
      → IsMarked page_size_log region c
          (mark_batch page_size_log decompact_ptr base region batch c)
          (λ j. hits ps c.block_size (c.release_page_offset + j) (block_numbers c.block_size batch))
  unfolding mark_batch
  mark_batch-IsMarked [] c is h pos are blocks room = record {
    same = refl;
    counts = record { values = λ r j r_lt j_lt. ground arith; are_words = are };
  }
  mark_batch-IsMarked (p ∷ batch) c is h pos are (block, blocks) room =
      let head =
        mark_block-IsMarked page_size_log region c is h pos are (sub64 (decompact_ptr p) base) block
          (λ j j_lt hit. ground (arith, room j j_lt, hit)) in
      let words' = (mark_block page_size_log region (sub64 (decompact_ptr p) base) c).words in
      let rest =
        mark_batch-IsMarked batch (record c { words = words' }) is h pos head.counts.are_words
          blocks (λ j j_lt. ground (arith, room j j_lt, head.counts.values region j h j_lt)) in
      let next = mark_block page_size_log region (sub64 (decompact_ptr p) base) c in
      let adds_head : ℕ → ℕ = λ j.
        if touches ps c.block_size (c.release_page_offset + j)
          (sub64 (decompact_ptr p) base / c.block_size)
        then 1
        else 0 in
      let adds_rest : ℕ → ℕ =
        λ j. hits ps c.block_size (c.release_page_offset + j) (block_numbers c.block_size batch) in
      IsMarked-then c next (mark_batch page_size_log decompact_ptr base region batch next) adds_head
        adds_rest head
        (subst
          (λ x.
            IsMarked page_size_log region (record c { words = words' })
              (mark_batch page_size_log decompact_ptr base region batch x) adds_rest)
          (sym head.same) rest)
