-- ===== src/Tests/Caching.antt =====
-- The local cache over a pool that is a list of blocks.
use riscv_mte.Base.{
  ℕ, ◌*◌, ◌/◌, ◌≤◌, ◌<◌, ◌≡◌, ◌⊎◌, arith, List, [], ◌∷◌, ◌++◌, none, some, length, take, drop,
}
use riscv_mte.LocalCache.{Primary, PerClass, LocalStats, allocate_block, deallocate_block}
use riscv_mte.LocalCache.Conservation.{allocate_block-conserved, deallocate_block-conserved}

abbrev list_primary : Primary (List ℕ)
list_primary = record {
  pop_blocks = λ class_id n pool. (take n pool, drop n pool);
  push_blocks = λ class_id freed pool. freed ++ pool;
  compact_ptr = λ class_id ptr. ptr / 16;
  decompact_ptr = λ class_id compact. compact * 16;
}

abbrev full_class : PerClass
full_class = record { max_count = 2; class_size = 64; chunks = 7 ∷ 8 ∷ [] }

abbrev empty_class : PerClass
empty_class = record { max_count = 4; class_size = 64; chunks = [] }

abbrev stats : LocalStats
stats = record { allocated = 1000; free = 1000 }

deallocate_block-conserved_example :
    (drained : List ℕ) × (drained
        ++ (deallocate_block list_primary 3 144 full_class stats (5 ∷ [])).1.0.chunks
      ≡ 7 ∷ 8 ∷ 9 ∷ [])
    × (((2 < 2)
          × (drained ≡ [])
          × ((deallocate_block list_primary 3 144 full_class stats (5 ∷ [])).1.1.1 ≡ 5 ∷ []))
        ⊎ ((length full_class.chunks ≡ full_class.max_count)
            × (length drained ≡ 2 / 2)
            × ((deallocate_block list_primary 3 144 full_class stats (5 ∷ [])).1.1.1
                ≡ drained ++ 5 ∷ [])))
    × (length (deallocate_block list_primary 3 144 full_class stats (5 ∷ [])).1.0.chunks ≤ 2)
deallocate_block-conserved_example =
    deallocate_block-conserved list_primary 3 144 full_class stats (5 ∷ []) (omega arith)
      (omega arith)

allocate_block-conserved_example :
    (refilled : List ℕ) × (((0 < 0)
        × (refilled ≡ [])
        × ((allocate_block list_primary 3 empty_class stats (5 ∷ 6 ∷ 7 ∷ [])).1.1.1
            ≡ 5 ∷ 6 ∷ 7 ∷ []))
      ⊎ ((empty_class.chunks ≡ [])
          × (refilled ≡ 5 ∷ 6 ∷ [])
          × ((allocate_block list_primary 3 empty_class stats (5 ∷ 6 ∷ 7 ∷ [])).1.1.1 ≡ 7 ∷ [])))
    × ((((allocate_block list_primary 3 empty_class stats (5 ∷ 6 ∷ 7 ∷ [])).0 ≡ none)
          × (refilled ≡ [])
          × ((allocate_block list_primary 3 empty_class stats (5 ∷ 6 ∷ 7 ∷ [])).1.0.chunks ≡ []))
        ⊎ ((x : ℕ) × ((allocate_block list_primary 3 empty_class stats (5 ∷ 6 ∷ 7 ∷ [])).0
              ≡ some (x * 16))
            × ((allocate_block list_primary 3 empty_class stats (5 ∷ 6 ∷ 7 ∷ [])).1.0.chunks
                  ++ x ∷ []
                ≡ refilled)))
allocate_block-conserved_example =
    allocate_block-conserved list_primary 3 empty_class stats (5 ∷ 6 ∷ 7 ∷ [])
