-- ===== src/LocalCache.antt =====
-- LLVM_SCUDO_MTE/size_class_allocator.h: SizeClassAllocatorLocalCache, for one size class. The cache
-- holds compact pointers of free blocks, of which the array's first `Count` entries are kept here.
-- The primary allocator behind it is an interface: any functions that take blocks out of a pool and
-- put blocks into it.
pub mod Conservation
use riscv_mte.Base.{
  ℕ, ◌+◌, ◌-◌, ◌*◌, ◌/◌, ◌≤◌, ◌≡◌, List, [], ◌∷◌, ◌++◌, Bool, Option, none, some, min, length, take,
  drop, get_or, ◌==◌, if◌then◌else◌, add64, sub64, u16,
}
use riscv_mte.SizeClassMap.{Config, get_max_cached_hint}

-- `popBlocks` takes up to a number of blocks of a class out of the pool, and `pushBlocks` puts blocks
-- back.
pub record Primary (Pool : Type 0) : Type 0 where
  pub pop_blocks : (class_id max_block_count : ℕ) → Pool → List ℕ × Pool
  pub push_blocks : (class_id : ℕ) → List ℕ → Pool → Pool
  pub compact_ptr : (class_id ptr : ℕ) → ℕ
  pub decompact_ptr : (class_id compact : ℕ) → ℕ

pub record PerClass : Type 0 where
  pub max_count : ℕ
  pub class_size : ℕ
  pub chunks : List ℕ

pub record LocalStats : Type 0 where
  pub allocated : ℕ
  pub free : ℕ

unfoldable pub get_max_cached : Config → ℕ → ℕ
get_max_cached c size = min c.max_num_cached_hint (get_max_cached_hint c size)

-- `initAllocator` for a class; class 0 holds batches.
unfoldable pub init_class : Config → (class_id size : ℕ) → PerClass
init_class c class_id size = record {
  max_count = u16 (2 * get_max_cached c size);
  class_size = if class_id == 0 then 0 else size;
  chunks = [];
}

module _ {Pool : Type 0} (p : Primary Pool) (class_id : ℕ) where
  -- Refills a class that has run empty, and says whether there are blocks now.
  unfoldable pub refill : PerClass → (max_refill : ℕ) → Pool → PerClass × Pool
  refill c max_refill pool =
      let (blocks, pool') = p.pop_blocks class_id max_refill pool in
      (record c { chunks = blocks }, pool')

  unfoldable pub drain_class : PerClass → Pool → PerClass × Pool
  drain_class c pool =
      let n = min (c.max_count / 2) (length c.chunks) in
      (record c { chunks = drop n c.chunks }, p.push_blocks class_id (take n c.chunks) pool)

  -- Takes the last chunk.
  unfoldable pub pop_chunk : PerClass → LocalStats → ℕ × (PerClass × LocalStats)
  pop_chunk c stats =
      let n = length c.chunks - 1 in
      (
        get_or c.chunks n 0,
        (
          record c { chunks = take n c.chunks },
          record {
            allocated = add64 stats.allocated c.class_size;
            free = sub64 stats.free c.class_size;
          },
        ),
      )

  -- `none` is the null pointer.
  unfoldable pub allocate_block :
      PerClass → LocalStats → Pool → Option ℕ × (PerClass × (LocalStats × Pool))
  allocate_block c stats pool =
      let (c', pool') =
        if length c.chunks == 0 then refill c (c.max_count / 2) pool else (c, pool) in
      if length c'.chunks == 0
      then (none, (c', (stats, pool')))
      else let (compact, (c'', stats')) = pop_chunk c' stats in
        (some (p.decompact_ptr class_id compact), (c'', (stats', pool')))

  -- Whether the cache was drained, as the answer.
  unfoldable pub deallocate_block :
      (ptr : ℕ) → PerClass → LocalStats → Pool → Bool × (PerClass × (LocalStats × Pool))
  deallocate_block ptr c stats pool =
      let full = length c.chunks == c.max_count in
      let (c', pool') = if full then drain_class c pool else (c, pool) in
      (
        full,
        (
          record c' { chunks = c'.chunks ++ p.compact_ptr class_id ptr ∷ [] },
          (
            record {
              allocated = sub64 stats.allocated c'.class_size;
              free = add64 stats.free c'.class_size;
            },
            pool',
          ),
        ),
      )
