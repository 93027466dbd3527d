-- ===== src/Memtag/Random.antt =====
-- setRandomTag and addFixedTag of LLVM_SCUDO_MTE/memtag.h.
use riscv_mte.Base.{ℕ, ◌+◌, ◌*◌, ◌%◌, ◌^◌, ◌<◌, ◌≡◌, ap, ◌∙◌, some, arith, add64, add64_eq}
use riscv_mte.Memtag.{
  Tags, Zimte, tagged, IsZimte, untag_pointer, select_random_tag, add_fixed_tag, set_random_tag,
  store_tags,
}
use riscv_mte.Memtag.Store.{retagged, store_tags-retagged, untag_pointer-tagged}

set_random_tag-some :
    (z : Zimte) (fuel entropy ptr size mask : ℕ) (tags tags' : Tags) {begin end : ℕ}
    → z.gentag entropy ptr ≡ begin
    → add64 begin size ≡ end
    → store_tags z fuel begin end tags ≡ some (end, tags')
    → set_random_tag z fuel entropy ptr size mask tags ≡ some (begin, end, tags')
unfolding set_random_tag select_random_tag
set_random_tag-some z fuel entropy ptr size mask tags tags' begin end returns = ground arith

module _ (z : Zimte) (laws : IsZimte z) where
  -- Where `addtag` and `settag` keep what the whitepaper documents (IsZimte), and whatever `gentag`
  -- answers, as long as it is an address that is a multiple of 16 with a tag below 16: for a size
  -- that is a multiple of 16, a range behind that address below 2 ^ 56 and fuel for its granules,
  -- `setRandomTag` returns, whatever the exclusion mask, the ends of the range with that tag, and
  -- gives the tag to each granule of the range and, if the range is not empty, to the granule at
  -- its end, and to no other. So a tag in the exclusion mask may be used, and where `gentag`
  -- answers the tag alone, with the address 0, the address of the chunk is lost.
  pub set_random_tag-retagged :
      (fuel entropy ptr size mask a t : ℕ) (tags : Tags)
      → z.gentag entropy ptr ≡ tagged a t
      → t < 16
      → a % 16 ≡ 0
      → size % 16 ≡ 0
      → a + size < 2 ^ 56
      → size < 16 * fuel
      → (tags' : Tags) × (set_random_tag z fuel entropy ptr size mask tags
          ≡ some (tagged a t, tagged (a + size) t, tags'))
        × ((g : ℕ) → tags' g ≡ retagged a (a + size) t tags g)
  set_random_tag-retagged fuel entropy ptr size mask a t tags begin t_fits ha hs fits enough =
      let end : add64 (tagged a t) size ≡ tagged (a + size) t =
        add64_eq (tagged a t) size (omega arith) ∙ omega arith in
      let (tags', returns, is) =
        store_tags-retagged z laws t t_fits fuel a (a + size) tags (omega arith) ha (omega arith)
          fits (omega arith) in
      (tags', set_random_tag-some z fuel entropy ptr size mask tags tags' begin end returns, is)

  -- Where the instructions keep what the whitepaper documents (IsZimte): for an address below 2 ^
  -- 56 and a tag below 16, `addFixedTag` gives the untagged pointer the tag, and `untagPointer` of
  -- the result is the pointer again.
  pub untag_pointer-add_fixed_tag :
      (a t : ℕ)
      → a < 2 ^ 56
      → t < 16
      → (add_fixed_tag z a t ≡ tagged a t) × (untag_pointer (add_fixed_tag z a t) ≡ a)
  unfolding add_fixed_tag
  untag_pointer-add_fixed_tag a t h k =
      let plain : tagged a 0 ≡ a = omega arith in
      let adds : z.addtag a t ≡ tagged a t =
        ap (λ (p : ℕ). z.addtag p t) (omega arith)
        ∙ laws.addtag_lem a 0 t h (omega arith) k
        ∙ omega arith in
      let value : add_fixed_tag z a t ≡ tagged a t = ground arith in
      (value, ap untag_pointer value ∙ untag_pointer-tagged a t h k)
