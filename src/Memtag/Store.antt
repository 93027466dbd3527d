-- ===== src/Memtag/Store.antt =====
-- storeTags, extractTag and untagPointer of LLVM_SCUDO_MTE/memtag.h.
use riscv_mte.Base.{
  ℕ, zero, suc, ◌+◌, ◌*◌, ◌/◌, ◌%◌, ◌^◌, ◌≤◌, ◌<◌, ◌≡◌, ap, ◌∙◌, true, false, ◌&&◌, inl, inr,
  Bool-cases, some, arith, ltb, leb, if◌then◌else◌, add64, sub64, shl64, add64_eq,
}
use riscv_mte.Bits.{bit_and-low_mask}
use riscv_mte.Memtag.{
  Tags, Zimte, tagged, IsZimte, untag_pointer, extract_tag, add_fixed_tag, store_tags_loop,
  store_tags,
}

-- `untagPointer` keeps the address.
pub untag_pointer-tagged : (a t : ℕ) → a < 2 ^ 56 → t < 16 → untag_pointer (tagged a t) ≡ a
unfolding untag_pointer shl64 sub64
untag_pointer-tagged a t h k = omega (arith, bit_and-low_mask 56 (tagged a t))

-- `extractTag` of a pointer whose tag stands in bits 60 to 63, where the instructions keep it,
-- answers 0, whatever the tag below 16, for an address below 2 ^ 56: it reads bits 56 to 59.
pub extract_tag-tagged : (a t : ℕ) → a < 2 ^ 56 → t < 16 → extract_tag (tagged a t) ≡ 0
unfolding extract_tag
extract_tag-tagged a t h k = omega (arith, bit_and-low_mask 4 (tagged a t / 2 ^ 56))

-- A tag memory after the granules of [a, b], both ends included, were given the tag `t`, if the
-- range is not empty.
abbrev pub retagged : (a b t : ℕ) → Tags → Tags
retagged a b t tags g = if ltb a b && leb (a / 16) g && leb g (b / 16) then t else tags g

module _ (z : Zimte) where
  loop_step :
      (fuel ptr end : ℕ) (tags : Tags)
      → ltb ptr end ≡ true
      → store_tags_loop z (suc fuel) 0 ptr end tags
        ≡ store_tags_loop z fuel 0 (add64 ptr 16) end (z.settag ptr 1 tags)
  unfolding store_tags_loop add_fixed_tag
  loop_step fuel ptr end tags more = ground arith

  loop_stop :
      (fuel ptr end : ℕ) (tags : Tags)
      → ltb ptr end ≡ false
      → store_tags_loop z (suc fuel) 0 ptr end tags ≡ some tags
  unfolding store_tags_loop
  loop_stop fuel ptr end tags done = ground arith

  store_tags_loop-some :
      (fuel begin end : ℕ) (tags tags' : Tags)
      → extract_tag begin ≡ 0
      → store_tags_loop z fuel 0 begin end tags ≡ some tags'
      → store_tags z fuel begin end tags ≡ some (end, tags')
  unfolding store_tags
  store_tags_loop-some fuel begin end tags tags' no_tag returns = ground arith

module _ (z : Zimte) (laws : IsZimte z) (t : ℕ) (t_fits : t < 16) where
  loop_retagged :
      (fuel a b : ℕ) (tags : Tags)
      → a ≤ b
      → a % 16 ≡ 0
      → b % 16 ≡ 0
      → b < 2 ^ 56
      → b < a + 16 * fuel
      → (tags' : Tags) × (store_tags_loop z fuel 0 (tagged a t) (tagged b t) tags ≡ some tags')
        × ((g : ℕ) → tags' g ≡ retagged a b t tags g)
  loop_retagged zero a b tags le ha hb fits enough = absurd (omega arith)
  loop_retagged (suc fuel) a b tags le ha hb fits enough =
      elim (Bool-cases (ltb (tagged a t) (tagged b t))) [
        | inl more ↦
            let lt : a < b = ground arith in
            let next : add64 (tagged a t) 16 ≡ tagged (a + 16) t =
              add64_eq (tagged a t) 16 (omega arith) ∙ omega arith in
            let (tags', returns, is) =
              loop_retagged fuel (a + 16) b (z.settag (tagged a t) 1 tags) (omega arith)
                (omega arith) hb fits (omega arith) in
            (
              tags',
              loop_step z fuel (tagged a t) (tagged b t) tags more
                  ∙ ap (λ p. store_tags_loop z fuel 0 p (tagged b t) (z.settag (tagged a t) 1 tags))
                      next
                  ∙ returns,
              λ g. ground (arith, is g, laws.settag_lem a t 1 tags g (omega arith) t_fits),
            )
        | inr done ↦ (tags, loop_stop z fuel (tagged a t) (tagged b t) tags done, λ g. ground arith)
      ]

  -- Where the instructions keep what the whitepaper documents (IsZimte): for a range of addresses
  -- below 2 ^ 56 whose ends are multiples of 16, both carrying a tag below 16, and fuel for its
  -- granules, `storeTags` returns the end of the range and gives the tag of the pointer to each
  -- granule of the range and, if the range is not empty, to the granule at its end, and to no
  -- other.
  pub store_tags-retagged :
      (fuel a b : ℕ) (tags : Tags)
      → a ≤ b
      → a % 16 ≡ 0
      → b % 16 ≡ 0
      → b < 2 ^ 56
      → b < a + 16 * fuel
      → (tags' : Tags) × (store_tags z fuel (tagged a t) (tagged b t) tags
          ≡ some (tagged b t, tags'))
        × ((g : ℕ) → tags' g ≡ retagged a b t tags g)
  store_tags-retagged fuel a b tags le ha hb fits enough =
      let (tags', returns, is) = loop_retagged fuel a b tags le ha hb fits enough in
      (
        tags',
        store_tags_loop-some z fuel (tagged a t) (tagged b t) tags tags'
            (extract_tag-tagged a t (omega arith) t_fits) returns,
        is,
      )
