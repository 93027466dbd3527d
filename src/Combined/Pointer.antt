-- ===== src/Combined/Pointer.antt =====
-- getHeaderTaggedPointer of LLVM_SCUDO_MTE/combined.h: where the header of a pointer is looked for.
use riscv_mte.Base.{ℕ, ◌%◌, ◌^◌, ◌<◌, ◌≡◌, ◌≢◌, refl, ap, ◌∙◌, true, false, arith, inl, ◌==◌}
use riscv_mte.Common.{is_aligned, is_aligned_slow}
use riscv_mte.Common.Align.{is_aligned_lem, two_pow-is_power_of_two}
use riscv_mte.Chunk.{Origin, Memory}
use riscv_mte.Memtag.{
  Tags, IsZimte, tagged, untag_pointer, allocator_supports_memory_tagging,
  arch_supports_memory_tagging, arch_memory_tag_granule_size,
}
use riscv_mte.Memtag.Store.{untag_pointer-tagged}
use riscv_mte.Memtag.Random.{untag_pointer-add_fixed_tag}
use riscv_mte.Combined.{
  Allocator, Report, aborted, supports_tagging, add_header_tag, get_header_tagged_pointer,
  check_chunk, deallocate,
}

module _ (s : Allocator) (may : s.may_support ≡ true) where
  supports-true : supports_tagging s ≡ true
  unfolding supports_tagging allocator_supports_memory_tagging arch_supports_memory_tagging
      arch_memory_tag_granule_size
  supports-true = rw may refl

  -- The header of a pointer with a tag other than 0 is found at its address.
  pub header_pointer-tagged :
      (a t : ℕ) → a < 2 ^ 56 → 0 < t → t < 16 → get_header_tagged_pointer s (tagged a t) ≡ a
  unfolding get_header_tagged_pointer
  header_pointer-tagged a t h pos fits =
      ground (arith, supports-true, untag_pointer-tagged a t h fits)

  -- The header of a pointer with the tag 0 is looked for at the pointer with the tag 2.
  pub header_pointer-zero :
      (laws : IsZimte s.instructions) (a : ℕ)
      → a < 2 ^ 56
      → get_header_tagged_pointer s a ≡ tagged a 2
  unfolding get_header_tagged_pointer add_header_tag
  header_pointer-zero laws a h =
      let plain : untag_pointer a ≡ a =
        ap untag_pointer (omega arith) ∙ untag_pointer-tagged a 0 h (omega arith) in
      let adds = (untag_pointer-add_fixed_tag s.instructions laws a 2 h (omega arith)).0 in
      ground (arith, supports-true, plain, adds)

pub deallocate-aborted :
    (s : Allocator) (fuel entropy ptr : ℕ) (origin : Origin) (delete_size : ℕ) (m : Memory)
    (tags : Tags) (report : Report)
    → ptr ≢ 0
    → check_chunk s ptr origin delete_size m ≡ inl report
    → deallocate s fuel entropy ptr origin delete_size m tags ≡ aborted report
unfolding deallocate
deallocate-aborted s fuel entropy ptr origin delete_size m tags report ne e =
    let not_null : (ptr == 0) ≡ false = ground arith in rw (not_null, deallocate) (rw e refl)

pub aligned-multiple : (a : ℕ) → a % 16 ≡ 0 → is_aligned a 16 ≡ true
aligned-multiple a h =
    is_aligned_lem a 16 (two_pow-is_power_of_two 4 (omega arith)) (omega arith)
    ∙ (unfold is_aligned_slow in ground arith)
