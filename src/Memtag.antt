-- ===== src/Memtag.antt =====
-- LLVM_SCUDO_MTE/memtag.h and memtag_zimte.h, in the configuration of the port (SCUDO_ZIMTE). The
-- instructions behind the compiler's built-ins are a parameter, `Zimte`. A tag memory holds the tag
-- of each granule of 16 bytes. Debug checks are left out.
pub mod Store
pub mod Random
use Prim.Native.String.{String}
use text.Mathlib.Text.{◌==◌ as str_eq}
use riscv_mte.Base.{
  ℕ, zero, suc, ◌+◌, ◌*◌, ◌/◌, ◌%◌, ◌^◌, ◌≤◌, ◌<◌, ◌≡◌, Bool, true, false, ◌&&◌, Option, none, some,
  bit_and, ltb, leb, ◌==◌, if◌then◌else◌, add64, sub64, shl64, shr,
}

abbrev pub Tags : Type 0
Tags = ℕ → ℕ

-- `gentag entropy ptr`, `addtag ptr imm` and `settag ptr imm tags`, for any state of the hart's tag
-- generator.
pub record Zimte : Type 0 where
  pub gentag : ℕ → ℕ → ℕ
  pub addtag : ℕ → ℕ → ℕ
  pub settag : ℕ → ℕ → Tags → Tags

-- A pointer with address `a` and tag `t`. The extension keeps a tag of 4 bits in bits 60 to 63.
abbrev pub tagged : ℕ → ℕ → ℕ
tagged a t = a + t * 2 ^ 60

-- What the whitepaper of the extension (references/) documents, for addresses below 2 ^ 56:
-- `addtag` adds to the pointer's tag, and `settag` gives the pointer's tag to the granule of the
-- address and to as many granules behind it as the immediate says. Nothing is assumed of `gentag`:
-- memtag.h says that it puts a tag into the pointer, and the whitepaper that its result is the tag
-- alone.
pub record IsZimte (z : Zimte) : Type 0 where
  pub addtag_lem :
      (a t imm : ℕ)
      → a < 2 ^ 56
      → t < 16
      → imm < 16
      → z.addtag (tagged a t) imm ≡ tagged a ((t + imm) % 16)
  pub settag_lem :
      (a t imm : ℕ) (tags : Tags) (g : ℕ)
      → a < 2 ^ 56
      → t < 16
      → z.settag (tagged a t) imm tags g
        ≡ (if leb (a / 16) g && leb g (a / 16 + imm) then t else tags g)

unfoldable pub arch_supports_memory_tagging : Bool
arch_supports_memory_tagging = true

unfoldable pub arch_memory_tag_granule_size : ℕ
arch_memory_tag_granule_size = 16

unfoldable pub untag_pointer : ℕ → ℕ
untag_pointer ptr = bit_and ptr (sub64 (shl64 1 56) 1)

unfoldable pub extract_tag : ℕ → ℕ
extract_tag ptr = bit_and (shr ptr 56) 0xf

-- `getenv("SCUDO_MTE_ENABLE")` is an argument.
unfoldable pub system_supports_memory_tagging : Option String → Bool
system_supports_memory_tagging none = false
system_supports_memory_tagging (some env) = str_eq env "1"

-- `allocatorSupportsMemoryTagging<Config>()`, with the configuration's answer as an argument and the
-- minimal alignment of 2 ^ 4 bytes.
unfoldable pub allocator_supports_memory_tagging : Bool → Bool
unfolding arch_supports_memory_tagging arch_memory_tag_granule_size
allocator_supports_memory_tagging may_support =
    arch_supports_memory_tagging && may_support && leb arch_memory_tag_granule_size (2 ^ 4)

module _ (z : Zimte) where
  -- The switch has a case for each tag from 1 to 15, since the immediate is part of the instruction.
  unfoldable pub add_tag_immediate : ℕ → ℕ → ℕ
  add_tag_immediate ptr tag = if tag == 0 then ptr else if ltb tag 16 then z.addtag ptr tag else ptr

  -- A switch over the tags from 0 to 15; any other is ignored.
  unfoldable pub set_tag_immediate : ℕ → ℕ → Tags → Tags
  set_tag_immediate ptr tag tags = if ltb tag 16 then z.settag ptr tag tags else tags

  unfoldable pub select_random_tag : (entropy ptr exclude_mask : ℕ) → ℕ
  select_random_tag entropy ptr exclude_mask = z.gentag entropy ptr

  unfoldable pub add_fixed_tag : ℕ → ℕ → ℕ
  unfolding add_tag_immediate
  add_fixed_tag ptr tag = if tag == 0 then ptr else add_tag_immediate ptr tag

  -- The loop of `storeTags`; `none` means that the fuel ran out.
  unfoldable pub store_tags_loop : (fuel tag ptr end : ℕ) → Tags → Option Tags
  store_tags_loop zero tag ptr end tags = none
  store_tags_loop (suc fuel) tag ptr end tags =
      let rest =
        store_tags_loop fuel tag (add64 ptr 16) end (z.settag (add_fixed_tag ptr tag) 1 tags) in
      if ltb ptr end then rest else some tags

  -- The pointer past the tagged range, and the tags.
  unfoldable pub store_tags : (fuel begin end : ℕ) → Tags → Option (ℕ × Tags)
  store_tags fuel begin end tags = elim (store_tags_loop fuel (extract_tag begin) begin end tags) [
    | none ↦ none
    | some tags' ↦ some (end, tags')
  ]

  unfoldable pub store_tag : ℕ → Tags → Tags
  store_tag ptr tags = z.settag ptr 1 tags

  -- The extension has no instruction that reads a tag.
  unfoldable pub load_tag : ℕ → ℕ
  load_tag ptr = ptr

  -- The tagged begin and end, and the tags.
  unfoldable pub set_random_tag :
      (fuel entropy ptr size exclude_mask : ℕ) → Tags → Option (ℕ × ℕ × Tags)
  set_random_tag fuel entropy ptr size exclude_mask tags =
      let begin = select_random_tag entropy ptr exclude_mask in
      elim (store_tags fuel begin (add64 begin size) tags) [
        | none ↦ none
        | some (end, tags') ↦ some (begin, end, tags')
      ]
