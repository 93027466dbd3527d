-- ===== src/LocalCache/Conservation.antt =====
-- The blocks of LLVM_SCUDO_MTE/size_class_allocator.h: what goes between the cache of a class, the
-- pool behind it and the caller.
use mathlib.Core.List.{append-nil, append_assoc}
use riscv_mte.Base.{
  ℕ, ◌-◌, ◌/◌, ◌≤◌, ◌<◌, ◌≡◌, ◌⊎◌, refl, sym, ap, ◌∙◌, List, [], ◌∷◌, ◌++◌, arith, none, some, min,
  length, take, drop, get_or, ◌==◌, if◌then◌else◌, Bool-cases, inl, inr, length-append, length-drop,
  length-take, take-append-drop,
}
use riscv_mte.LocalCache.{
  Primary, PerClass, LocalStats, refill, drain_class, pop_chunk, allocate_block, deallocate_block,
}

-- The last entry.
take-append-last :
    (x : ℕ) (xs : List ℕ) → take (length xs) (x ∷ xs) ++ get_or (x ∷ xs) (length xs) 0 ∷ [] ≡ x ∷ xs
take-append-last x [] = refl
take-append-last x (y ∷ ys) = ap (λ (t : List ℕ). x ∷ t) (take-append-last y ys)

module _ {Pool : Type 0} (p : Primary Pool) (class_id : ℕ) where
  -- Whatever the primary allocator does, for a cache within its bound, which is at least 2,
  -- `deallocate` of a size class drains exactly if the cache is full, and then gives the oldest
  -- half of the maximal count to the primary allocator in order, and otherwise leaves it alone; the
  -- drained blocks and the cache are then together the blocks of the cache before, in order, and
  -- the freed one behind them, and the cache is within its bound.
  pub deallocate_block-conserved :
      (ptr : ℕ) (c : PerClass) (stats : LocalStats) (pool : Pool)
      → 2 ≤ c.max_count
      → length c.chunks ≤ c.max_count
      → (drained : List ℕ) × (drained ++ (deallocate_block p class_id ptr c stats pool).1.0.chunks
          ≡ c.chunks ++ p.compact_ptr class_id ptr ∷ [])
        × (((length c.chunks < c.max_count)
              × (drained ≡ [])
              × ((deallocate_block p class_id ptr c stats pool).1.1.1 ≡ pool))
            ⊎ ((length c.chunks ≡ c.max_count)
                × (length drained ≡ c.max_count / 2)
                × ((deallocate_block p class_id ptr c stats pool).1.1.1
                    ≡ p.push_blocks class_id drained pool)))
        × (length (deallocate_block p class_id ptr c stats pool).1.0.chunks ≤ c.max_count)
  unfolding deallocate_block drain_class
  deallocate_block-conserved ptr c stats pool some_room bound =
      let x = p.compact_ptr class_id ptr in
      elim (Bool-cases (length c.chunks == c.max_count)) [
        | inr room ↦
            let less : length c.chunks < c.max_count = ground arith in
            rw room (
              [],
              refl,
              inl (less, refl, refl),
              omega (arith, less, length-append c.chunks (x ∷ [])),
            )
        | inl full ↦
            let n = min (c.max_count / 2) (length c.chunks) in
            let rest = drop n c.chunks in
            let same : length c.chunks ≡ c.max_count = ground arith in
            rw full (
              take n c.chunks,
              sym (append_assoc (take n c.chunks) rest (x ∷ []))
                  ∙ ap (λ (t : List ℕ). t ++ x ∷ []) (take-append-drop n c.chunks),
              inr (same, omega (arith, same, length-take n c.chunks), refl),
              omega (arith, same, length-append rest (x ∷ []), length-drop n c.chunks),
            )
      ]

  -- The cache that an allocation takes from, and the pool.
  abbrev ready : PerClass → Pool → PerClass × Pool
  ready c pool =
      if length c.chunks == 0 then refill p class_id c (c.max_count / 2) pool else (c, pool)

  no_chunks : (xs : List ℕ) → length xs ≡ 0 → xs ≡ []
  no_chunks [] h = refl
  no_chunks (x ∷ xs) h = absurd (omega arith)

  -- The blocks that a refill adds.
  ready-blocks :
      (c : PerClass) (pool : Pool)
      → (refilled : List ℕ) × ((ready c pool).0.chunks ≡ c.chunks ++ refilled)
        × (((0 < length c.chunks) × (refilled ≡ []) × ((ready c pool).1 ≡ pool))
            ⊎ ((c.chunks ≡ [])
                × (refilled ≡ (p.pop_blocks class_id (c.max_count / 2) pool).0)
                × ((ready c pool).1 ≡ (p.pop_blocks class_id (c.max_count / 2) pool).1)))
  unfolding refill
  ready-blocks c pool = elim (Bool-cases (length c.chunks == 0)) [
    | inl empty ↦
        let nothing : c.chunks ≡ [] = no_chunks c.chunks (ground arith) in
        let popped = (p.pop_blocks class_id (c.max_count / 2) pool).0 in
        rw empty (popped, ap (λ (t : List ℕ). t ++ popped) (sym nothing), inr (nothing, refl, refl))
    | inr filled ↦ rw filled ([], sym (append-nil c.chunks), inl (ground arith, refl, refl))
  ]

  -- Taking the last chunk of a cache that is not empty.
  pop_chunk-last :
      (c : PerClass) (stats : LocalStats)
      → 0 < length c.chunks
      → (pop_chunk p class_id c stats).1.0.chunks ++ (pop_chunk p class_id c stats).0 ∷ []
        ≡ c.chunks
  unfolding pop_chunk
  pop_chunk-last c stats filled = go c.chunks filled
    where
      go :
          (xs : List ℕ)
          → 0 < length xs
          → take (length xs - 1) xs ++ get_or xs (length xs - 1) 0 ∷ [] ≡ xs
      go [] h = absurd (omega arith)
      go (x ∷ xs) h =
          let last : length (x ∷ xs) - 1 ≡ length xs = omega arith in
          rw last (take-append-last x xs)

  -- Whatever the primary allocator does, `allocate` of a size class asks it for blocks exactly if
  -- the cache is empty, and then for half of its maximal count, takes over exactly the blocks that
  -- it gave, and otherwise leaves it alone; the answer is the null pointer if there are no blocks
  -- then, and otherwise the pointer of the last block, which alone leaves the cache.
  pub allocate_block-conserved :
      (c : PerClass) (stats : LocalStats) (pool : Pool)
      → (refilled : List ℕ) × (((0 < length c.chunks)
            × (refilled ≡ [])
            × ((allocate_block p class_id c stats pool).1.1.1 ≡ pool))
          ⊎ ((c.chunks ≡ [])
              × (refilled ≡ (p.pop_blocks class_id (c.max_count / 2) pool).0)
              × ((allocate_block p class_id c stats pool).1.1.1
                  ≡ (p.pop_blocks class_id (c.max_count / 2) pool).1)))
        × ((((allocate_block p class_id c stats pool).0 ≡ none)
              × (c.chunks ++ refilled ≡ [])
              × ((allocate_block p class_id c stats pool).1.0.chunks ≡ []))
            ⊎ ((x : ℕ) × ((allocate_block p class_id c stats pool).0
                  ≡ some (p.decompact_ptr class_id x))
                × ((allocate_block p class_id c stats pool).1.0.chunks ++ x ∷ []
                    ≡ c.chunks ++ refilled)))
  unfolding allocate_block
  allocate_block-conserved c stats pool =
      let (refilled, all, source) = ready-blocks c pool in
      let (c', pool') = ready c pool in
      elim (Bool-cases (length c'.chunks == 0)) [
        | inl empty ↦
            let nothing : c'.chunks ≡ [] = no_chunks c'.chunks (ground arith) in
            rw (empty, allocate_block) (refilled, source, inl (refl, sym all ∙ nothing, nothing))
        | inr filled ↦
            let pos : 0 < length c'.chunks = ground arith in
            rw (filled, allocate_block)
              (
                refilled,
                source,
                inr ((pop_chunk p class_id c' stats).0, refl, pop_chunk-last c' stats pos ∙ all),
              )
      ]
