-- ===== src/Combined/Allocate/HeaderTag.antt =====
-- prepareTaggedChunk of LLVM_SCUDO_MTE/combined.h, and the tag with which getHeaderTaggedPointer looks
-- for the header of the chunk.
use riscv_mte.Base.{
  ℕ, ◌+◌, ◌-◌, ◌*◌, ◌/◌, ◌%◌, ◌^◌, ◌≤◌, ◌<◌, ◌≡◌, refl, ap, ◌∙◌, arith, true, false, inl, inr,
  Bool-cases, some, ◌==◌, ◌!=◌, if◌then◌else◌, sub64, sub64_eq, ◌&&◌, leb,
}
use native.Mathlib.Decide.{dec_lt}
use riscv_mte.Chunk.{Memory}
use riscv_mte.Memtag.{Tags, Zimte, IsZimte, tagged, store_tag, set_random_tag}
use riscv_mte.Memtag.Store.{untag_pointer-tagged}
use riscv_mte.Memtag.Random.{set_random_tag-retagged}
use riscv_mte.Combined.{Allocator, get_header_tagged_pointer}
use riscv_mte.Combined.Pointer.{header_pointer-tagged, header_pointer-zero}
use riscv_mte.Combined.Allocate.{store_end_marker, prepare_tagged_chunk}

store_tag-at :
    (z : Zimte) (laws : IsZimte z) (e : ℕ) (tags : Tags) (g : ℕ)
    → e < 2 ^ 56
    → store_tag z e tags g ≡ (if leb (e / 16) g && leb g (e / 16 + 1) then 0 else tags g)
unfolding store_tag
store_tag-at z laws e tags g h =
    ap (λ (p : ℕ). z.settag p 1 tags g) {y = tagged e 0} (omega arith)
    ∙ laws.settag_lem e 0 1 tags g h (omega arith)

module _ (s : Allocator) (laws : IsZimte s.instructions) where
  -- The end marker does not change a tag in front of it.
  store_end_marker-below :
      (e t size block_end : ℕ) (m : Memory) (tags : Tags) (g : ℕ)
      → e < 2 ^ 56
      → t < 16
      → g < e / 16
      → (store_end_marker s (tagged e t) size block_end m tags).1 g ≡ tags g
  unfolding store_end_marker
  store_end_marker-below e t size block_end m tags g h k below =
      let at = untag_pointer-tagged e t h k in
      let stays : store_tag s.instructions e tags g ≡ tags g =
        store_tag-at s.instructions laws e tags g h ∙ ground arith in
      rw at (elim (Bool-cases (e != block_end)) [
        | inl inside ↦ rw inside stays
        | inr whole ↦ rw whole refl
      ])

  prepare_tagged_chunk-some :
      (fuel entropy a size mask block_end : ℕ) (m : Memory) (tags : Tags) (begin end : ℕ)
      (tags' : Tags)
      → set_random_tag s.instructions fuel entropy a size mask
          (store_tag s.instructions (sub64 a 16) tags)
        ≡ some (begin, end, tags')
      → prepare_tagged_chunk s fuel entropy a size mask block_end m tags
        ≡ some (
          begin,
          (store_end_marker s end size block_end m tags').0,
          (store_end_marker s end size block_end m tags').1,
        )
  unfolding prepare_tagged_chunk
  prepare_tagged_chunk-some fuel entropy a size mask block_end m tags begin end tags' e =
      rw (e, prepare_tagged_chunk) refl

  header_pointer_lem :
      (a t : ℕ)
      → s.may_support ≡ true
      → a < 2 ^ 56
      → t < 16
      → get_header_tagged_pointer s (tagged a t) ≡ tagged a (if t == 0 then 2 else 0)
  header_pointer_lem a t may h k = elim (dec_lt 0 t) [
    | yes pos ↦
        let other : (t == 0) ≡ false = ground arith in
        rw other (header_pointer-tagged s may a t h pos k ∙ omega arith)
    | no none ↦
        let same : (t == 0) ≡ true = ground arith in
        rw same
          (ap (get_header_tagged_pointer s) (omega arith) ∙ header_pointer-zero s may laws a h)
  ]

  -- Where `addtag` and `settag` keep what the whitepaper documents (IsZimte), the configuration may
  -- tag memory, and `gentag` puts a tag below 16 into the pointer: for an address from 16 on and a
  -- size that are multiples of 16, a range below 2 ^ 56 and fuel for its granules,
  -- `prepareTaggedChunk` returns the pointer with that tag and leaves the tag 0 on the granule of
  -- the chunk's header, and `getHeaderTaggedPointer` of the pointer goes to the address with the
  -- tag 0 if the tag of the pointer is not 0, and with the tag 2 if it is. So the header of a chunk
  -- is looked for with the tag of its granule exactly if the chunk's tag is not 0.
  pub prepare_tagged_chunk-header_tag :
      (fuel entropy a size mask block_end t : ℕ) (m : Memory) (tags : Tags)
      → s.may_support ≡ true
      → s.instructions.gentag entropy a ≡ tagged a t
      → t < 16
      → 16 ≤ a
      → a % 16 ≡ 0
      → size % 16 ≡ 0
      → a + size < 2 ^ 56
      → size < 16 * fuel
      → (m' : Memory) × (tags' : Tags) × (prepare_tagged_chunk s fuel entropy a size mask block_end
            m tags
          ≡ some (tagged a t, m', tags'))
        × (tags' ((a - 16) / 16) ≡ 0)
        × (get_header_tagged_pointer s (tagged a t) ≡ tagged a (if t == 0 then 2 else 0))
  prepare_tagged_chunk-header_tag fuel entropy a size mask block_end t m tags may draws t_fits low
        ha hs fits enough =
      let cleared = store_tag s.instructions (sub64 a 16) tags in
      let (tags', returns, is) =
        set_random_tag-retagged s.instructions laws fuel entropy a size mask a t cleared draws
          t_fits ha hs fits enough in
      let g = (a - 16) / 16 in
      let header : cleared g ≡ 0 =
        ap (λ (p : ℕ). store_tag s.instructions p tags g) (sub64_eq a 16 low (omega arith))
        ∙ store_tag-at s.instructions laws (a - 16) tags g (omega arith)
        ∙ ground arith in
      let kept : tags' g ≡ 0 = is g ∙ ground (arith, header) in
      (
        _,
        _,
        prepare_tagged_chunk-some fuel entropy a size mask block_end m tags (tagged a t)
            (tagged (a + size) t) tags' returns,
        store_end_marker-below (a + size) t size block_end m tags' g fits t_fits (omega arith)
            ∙ kept,
        header_pointer_lem a t may (omega arith) t_fits,
      )
