-- ===== src/Tests/Tagging.antt =====
-- memtag.h over a concrete implementation of the instructions.
use riscv_mte.Base.{ℕ, ◌+◌, ◌*◌, ◌/◌, ◌%◌, ◌^◌, ◌≡◌, refl, arith, some, ◌&&◌, leb, if◌then◌else◌}
use riscv_mte.Memtag.{Tags, Zimte, IsZimte, tagged, extract_tag, store_tags, set_random_tag}
use riscv_mte.Memtag.Store.{retagged, store_tags-retagged, extract_tag-tagged}
use riscv_mte.Memtag.Random.{set_random_tag-retagged}

-- The tag drawn is the entropy's low four bits.
abbrev pub hart : Zimte
hart = record {
  gentag = λ entropy ptr. ptr % 2 ^ 60 + entropy % 16 * 2 ^ 60;
  addtag = λ ptr imm. ptr % 2 ^ 60 + (ptr / 2 ^ 60 + imm) % 16 * 2 ^ 60;
  settag = λ ptr imm tags g.
      if leb (ptr % 2 ^ 60 / 16) g && leb g (ptr % 2 ^ 60 / 16 + imm) then ptr / 2 ^ 60 else tags g;
}

pub hart-IsZimte : IsZimte hart
hart-IsZimte = record {
  addtag_lem = λ a t imm h k l. omega arith;
  settag_lem = λ a t imm tags g h k. ground arith;
}

abbrev pub untagged : Tags
untagged g = 0

store_tags-retagged_example :
    (tags' : Tags) × (store_tags hart 5 (tagged 4096 3) (tagged 4160 3) untagged
      ≡ some (tagged 4160 3, tags'))
    × ((g : ℕ) → tags' g ≡ retagged 4096 4160 3 untagged g)
store_tags-retagged_example =
    store_tags-retagged hart hart-IsZimte 3 (omega arith) 5 4096 4160 untagged (omega arith) refl
      refl (omega arith) (omega arith)

-- The mask excludes tag 7, and tag 7 is drawn.
set_random_tag-retagged_example :
    (tags' : Tags) × (set_random_tag hart 5 7 4096 64 (2 ^ 7) untagged
      ≡ some (tagged 4096 7, tagged 4160 7, tags'))
    × ((g : ℕ) → tags' g ≡ retagged 4096 4160 7 untagged g)
set_random_tag-retagged_example =
    set_random_tag-retagged hart hart-IsZimte 5 7 4096 64 (2 ^ 7) 4096 7 untagged refl (omega arith)
      refl refl (omega arith) (omega arith)

extract_tag-tagged_example : extract_tag (tagged 4096 3) ≡ 0
extract_tag-tagged_example = extract_tag-tagged 4096 3 (omega arith) (omega arith)
