-- ===== src/Release/Context/Counts.antt =====
-- markFreeBlocksInRegion of LLVM_SCUDO_MTE/release.h: what it adds to the counters of the page map.
use native.Mathlib.Nat.{div-le_self, one-le-pow}
use riscv_mte.Base.{
  div_mono, ℕ, zero, suc, ◌+◌, ◌-◌, ◌*◌, ◌/◌, ◌%◌, ◌^◌, ◌≤◌, ◌<◌, ◌≡◌, refl, sym, ap, ◌∙◌, arith,
  leb, ◌&&◌, ◌==◌, if◌then◌else◌, u64_mod, add64, add64_eq, sub64, sub64_eq, inl, inr, true,
  Bool-cases,
}
use riscv_mte.Release.PageMap.{get_counter, inc, inc_loop, inc_range}
use riscv_mte.Release.PageMap.Counters.{IsLayout, AreWords, big}
use riscv_mte.Release.PageMap.Ranges.{IsMapped, inc_range-IsMapped, inc_loop-IsMapped}
use riscv_mte.Release.Context.{PageReleaseContext, page_size, get_page_index, mark_block}
use riscv_mte.Release.Context.Touching.{touches, touches_range, one_page}

module _ (page_size_log : ℕ) where
  abbrev ps : ℕ
  ps = page_size page_size_log

  ps_pos : 0 < ps
  ps_pos = one-le-pow page_size_log 2 (omega arith)

  -- An offset of a block that starts on a page of the map.
  pub record IsBlock (block_size release_page_offset num_counters p : ℕ) : Type 0 where
    pub multiple : p / block_size * block_size ≡ p
    pub starts : release_page_offset ≤ p / 2 ^ page_size_log
    pub on_map : p / 2 ^ page_size_log - release_page_offset < num_counters
    pub fits : p + block_size < u64_mod

  -- The counters of a region have grown, and nothing else has changed.
  pub record IsMarked (region : ℕ) (c c' : PageReleaseContext) (adds : ℕ → ℕ) : Type 0 where
    pub same : c' ≡ record c { words = c'.words }
    pub counts :
        IsMapped c.page_map (λ r j n. if region == r then n + adds j else n) c.words c'.words

  module _ (region : ℕ) (c : PageReleaseContext) (is : IsLayout c.page_map)
      (h : region < c.page_map.regions) (pos : 0 < c.block_size) (are : AreWords c.words) (p : ℕ)
      (block : IsBlock c.block_size c.release_page_offset c.page_map.num_counters p) where
    abbrev k : ℕ
    k = p / c.block_size

    index_eq : get_page_index page_size_log c p ≡ p / ps - c.release_page_offset
    unfolding get_page_index
    index_eq =
        sub64_eq (p / ps) c.release_page_offset block.starts
          (omega (arith, div-le_self p ps, block.fits))

    later_page : p / ps ≤ (k * c.block_size + c.block_size - 1) / ps
    later_page =
        div_mono p (k * c.block_size + c.block_size - 1) ps ps_pos
          (omega (arith, block.multiple, pos))

    last_index_eq :
        get_page_index page_size_log c (sub64 (add64 p c.block_size) 1)
        ≡ (k * c.block_size + c.block_size - 1) / ps - c.release_page_offset
    last_index_eq =
        let last : sub64 (add64 p c.block_size) 1 ≡ k * c.block_size + c.block_size - 1 =
          ap (λ (x : ℕ). sub64 x 1) (add64_eq p c.block_size block.fits)
          ∙ sub64_eq (p + c.block_size) 1 (omega (arith, pos)) block.fits
          ∙ omega (arith, block.multiple) in
        ap (get_page_index page_size_log c) last
        ∙ index_of_last (k * c.block_size + c.block_size - 1)
            (omega (arith, block.starts, later_page)) (omega (arith, block.multiple, block.fits))
      where
        index_of_last :
            (x : ℕ)
            → c.release_page_offset ≤ x / ps
            → x < u64_mod
            → get_page_index page_size_log c x ≡ x / ps - c.release_page_offset
        index_of_last x le small =
            unfold get_page_index in
            (sub64_eq (x / ps) c.release_page_offset le (omega (arith, div-le_self x ps, small)))

    touches_between :
        (j : ℕ)
        → touches ps c.block_size (c.release_page_offset + j) k ≡ (
            leb (get_page_index page_size_log c p) j
            && leb j (get_page_index page_size_log c (sub64 (add64 p c.block_size) 1)))
    touches_between j =
        let first : k * c.block_size / ps ≡ p / ps = ap (λ (x : ℕ). x / ps) block.multiple in
        touches_range ps c.block_size pos ps_pos (c.release_page_offset + j) k
        ∙ rw first (rw index_eq (rw last_index_eq (ground (arith, block.starts, later_page))))

    abbrev index : ℕ
    index = get_page_index page_size_log c p

    abbrev last_index : ℕ
    last_index = get_page_index page_size_log c (sub64 (add64 p c.block_size) 1)

    index_lt : index < c.page_map.num_counters
    index_lt = omega (arith, index_eq, block.on_map)

    last_fits : last_index + 1 < u64_mod
    last_fits = omega (
      arith,
      last_index_eq,
      div-le_self (k * c.block_size + c.block_size - 1) ps,
      block.multiple,
      block.fits,
      pos,
    )

    later : index ≤ last_index
    later = omega (arith, index_eq, last_index_eq, later_page)

    module _
        (room : (j : ℕ)
          → j < c.page_map.num_counters
          → touches ps c.block_size (c.release_page_offset + j) k ≡ true
          → get_counter c.page_map region j c.words < c.page_map.counter_mask) where
      one_marked :
          ps % c.block_size ≡ 0
          → IsMapped c.page_map
              (λ r j n.
                if region == r
                then n + (if touches ps c.block_size (c.release_page_offset + j) k then 1 else 0)
                else n)
              c.words
              (inc c.page_map region index c.words)
      unfolding inc_loop
      one_marked whole =
          let one : last_index ≡ index =
            last_index_eq
            ∙ ap (λ (x : ℕ). x - c.release_page_offset)
                (one_page ps c.block_size pos ps_pos k whole
                  ∙ ap (λ (x : ℕ). x / ps) block.multiple)
            ∙ sym index_eq in
          let mapped =
            inc_loop-IsMapped c.page_map is region h (suc zero) index c.words are
              (omega (arith, index_lt))
              (λ j lo hi. omega (
                arith,
                room j (omega (arith, index_lt))
                    (rw (touches_between j) (rw one (ground (arith, lo, hi)))),
                is.mask_eq,
                big c.page_map is,
              )) in
          record {
            values = λ r j r_lt j_lt.
                mapped.values r j r_lt j_lt ∙ rw (touches_between j) (rw one (ground arith));
            are_words = mapped.are_words;
          }

      many_marked :
          IsMapped c.page_map
            (λ r j n.
              if region == r
              then n + (if touches ps c.block_size (c.release_page_offset + j) k then 1 else 0)
              else n)
            c.words
            (inc_range c.page_map region index last_index c.words)
      many_marked =
          let mapped =
            inc_range-IsMapped c.page_map is region index last_index h (omega (arith, index_lt))
              later last_fits c.words are
              (λ j lo hi j_lt. room j j_lt (rw (touches_between j) (ground arith))) in
          record {
            values = λ r j r_lt j_lt.
                mapped.values r j r_lt j_lt ∙ rw (touches_between j) (ground arith);
            are_words = mapped.are_words;
          }

      -- For a block that lies on the map and pages that are not yet full, the marking of the block
      -- adds one to the counters of the pages that it touches, and changes nothing else.
      pub mark_block-IsMarked :
          IsMarked region c
            (mark_block page_size_log region p c)
            (λ j. if touches ps c.block_size (c.release_page_offset + j) k then 1 else 0)
      unfolding mark_block
      mark_block-IsMarked = elim (Bool-cases (leb c.block_size ps && ps % c.block_size == 0)) [
        | inl whole ↦ rw whole (record { same = refl; counts = one_marked (ground (arith, whole)) })
        | inr other ↦ rw other (record { same = refl; counts = many_marked })
      ]
