-- ===== src/Tests/Quarantining.antt =====
-- quarantine.h at concrete caches.
use riscv_mte.Base.{ℕ, ◌+◌, ◌≤◌, ◌≡◌, refl, arith, List, [], ◌∷◌, true, some}
use riscv_mte.Common.Shuffle.{count}
use riscv_mte.Quarantine.{
  QuarantineBatch, QuarantineCache, GlobalQuarantine, empty_cache, merge_batches, recycle, put,
  drain_and_recycle,
}
use riscv_mte.Quarantine.Cache.{IsCache, empty_cache-IsCache}
use riscv_mte.Quarantine.Merge.{IsMergedCache, merge_batches-IsMergedCache}
use riscv_mte.Quarantine.Recycle.{IsRecycled, recycle-IsRecycled}
use riscv_mte.Quarantine.Global.{IsDrained, once, drain_and_recycle-all, put-conserved}

-- A batch at 0x9000 with two chunks of 100 bytes, and one at 0xb000 with one of 50.
abbrev first : QuarantineBatch
first = record { address = 0x9000; size = 8376; batch = 11 ∷ 22 ∷ [] }

abbrev second : QuarantineBatch
second = record { address = 0xb000; size = 8226; batch = 33 ∷ [] }

abbrev two_batches : QuarantineCache
two_batches = record { list = first ∷ second ∷ []; size = 16602 }

two_batches-IsCache : IsCache two_batches
two_batches-IsCache = record {
  size_eq = refl;
  size_lt = omega arith;
  batches = (omega arith, (omega arith, tt));
}

abbrev one_batch : QuarantineCache
one_batch = record { list = second ∷ []; size = 8226 }

one_batch-IsCache : IsCache one_batch
one_batch-IsCache = record { size_eq = refl; size_lt = omega arith; batches = (omega arith, tt) }

abbrev small_quarantine : GlobalQuarantine
small_quarantine = record {
  cache = one_batch;
  min_size = 9000;
  max_size = 10000;
  max_cache_size = 16000;
}

merge_batches-IsMergedCache_example :
    IsMergedCache two_batches empty_cache
      (merge_batches two_batches empty_cache).0
      (merge_batches two_batches empty_cache).1
merge_batches-IsMergedCache_example =
    merge_batches-IsMergedCache two_batches empty_cache two_batches-IsCache empty_cache-IsCache
      (omega arith)

recycle-IsRecycled_example :
    (left : QuarantineCache) × (calls : List ℕ × List ℕ) × (recycle 0x7000 9000 two_batches
      ≡ some (left, calls))
    × IsRecycled 9000 two_batches left calls
recycle-IsRecycled_example = recycle-IsRecycled 0x7000 9000 two_batches two_batches-IsCache

-- The thread's cache is full, and the global one overflows.
put-conserved_example :
    (c' : QuarantineCache) × (g' : GlobalQuarantine) × (calls : List ℕ × List ℕ) × (put 0x7000
        0xd000 true 44 64 two_batches small_quarantine
      ≡ some (c', (g', calls)))
    × IsDrained (once 44) two_batches small_quarantine c' g' calls
    × (c'.size ≤ 16000)
    × (true ≡ true → 9000 ≤ 10000 → 8226 ≤ 10000 → g'.cache.size ≤ 10000)
put-conserved_example =
    put-conserved 0x7000 0xd000 true 44 64 two_batches small_quarantine two_batches-IsCache
      one_batch-IsCache (omega arith)

drain_and_recycle-all_example :
    (g' : GlobalQuarantine) × (calls : List ℕ × List ℕ) × (drain_and_recycle 0x7000 two_batches
        small_quarantine
      ≡ some (empty_cache, (g', calls)))
    × (g'.cache.list ≡ [])
    × ((a : ℕ) → count a calls.0 ≡ count a (33 ∷ []) + count a (11 ∷ 22 ∷ 33 ∷ []))
drain_and_recycle-all_example =
    drain_and_recycle-all 0x7000 two_batches small_quarantine two_batches-IsCache one_batch-IsCache
      (omega arith)
