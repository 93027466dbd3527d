-- ===== src/Quarantine.antt =====
-- LLVM_SCUDO_MTE/quarantine.h: freed chunks wait in batches before their memory is used again. A
-- batch keeps the entries of its array that are in use, so that `Count` is their number, and a list
-- of batches is a sequence. A call under a lock is one step. The callback's `allocate` gives the
-- address of a new batch, an argument here; its calls of `recycle` and `deallocate` are recorded.
pub mod Cache
pub mod Merge
pub mod Recycle
pub mod Global
use riscv_mte.Base.{
  ℕ, zero, suc, ◌+◌, ◌*◌, ◌/◌, ◌%◌, ◌^◌, List, [], ◌∷◌, ◌++◌, map, Bool, true, false, ◌&&◌, ◌||◌,
  Option, none, some, length, ltb, leb, ◌==◌, ◌!=◌, if◌then◌else◌, u32, add64, sub64, mul64, shr,
  bit_xor,
}
use riscv_mte.Common.{shuffle}

pub record QuarantineBatch : Type 0 where
  pub address : ℕ
  pub size : ℕ
  pub batch : List ℕ

abbrev pub max_count : ℕ
max_count = 1019

-- `sizeof(QuarantineBatch)`: two words, the count with its padding, and the array.
abbrev pub batch_bytes : ℕ
batch_bytes = 8 + 8 + 8 + max_count * 8

abbrev pub batch_count : QuarantineBatch → ℕ
batch_count b = length b.batch

unfoldable pub init_batch : (address ptr size : ℕ) → QuarantineBatch
init_batch address ptr size = record {
  address = address;
  size = add64 size batch_bytes;
  batch = ptr ∷ [];
}

unfoldable pub get_quarantined_size : QuarantineBatch → ℕ
get_quarantined_size b = sub64 b.size batch_bytes

unfoldable pub push_back : QuarantineBatch → ℕ → ℕ → QuarantineBatch
push_back b ptr size = record b { size = add64 b.size size; batch = b.batch ++ ptr ∷ [] }

unfoldable pub can_merge : QuarantineBatch → QuarantineBatch → Bool
can_merge b from = leb (u32 (batch_count b + batch_count from)) max_count

-- The batch that grew, and the one that was emptied.
unfoldable pub merge : QuarantineBatch → QuarantineBatch → QuarantineBatch × QuarantineBatch
merge b from = (
  record b { size = add64 b.size (get_quarantined_size from); batch = b.batch ++ from.batch },
  record from { size = batch_bytes; batch = [] },
)

unfoldable pub shuffle_batch : QuarantineBatch → ℕ → QuarantineBatch
shuffle_batch b state = record b { batch = (shuffle b.batch (batch_count b) state).0 }

pub record QuarantineCache : Type 0 where
  pub list : List QuarantineBatch
  pub size : ℕ

abbrev pub empty_cache : QuarantineCache
empty_cache = record { list = []; size = 0 }

unfoldable pub get_overhead_size : QuarantineCache → ℕ
get_overhead_size c = mul64 (length c.list) batch_bytes

unfoldable pub enqueue_batch : QuarantineBatch → QuarantineCache → QuarantineCache
enqueue_batch b c = record { list = c.list ++ b ∷ []; size = add64 c.size b.size }

-- `List.back()->push_back(Ptr, Size)`; none where there is no last batch, or where it is full.
unfoldable pub push_to_back : List QuarantineBatch → ℕ → ℕ → Option (List QuarantineBatch)
push_to_back [] ptr size = none
push_to_back (b ∷ []) ptr size =
    if batch_count b == max_count then none else some (push_back b ptr size ∷ [])
push_to_back (b ∷ b' ∷ bs) ptr size = elim (push_to_back (b' ∷ bs) ptr size) [
  | none ↦ none
  | some bs' ↦ some (b ∷ bs')
]

-- `fresh` is the address that the callback allocates, if it is asked for a batch.
unfoldable pub enqueue : (fresh ptr size : ℕ) → QuarantineCache → QuarantineCache
enqueue fresh ptr size c = elim (push_to_back c.list ptr size) [
  | none ↦ enqueue_batch (init_batch fresh ptr size) c
  | some list ↦ record { list = list; size = add64 c.size size }
]

-- The cache that receives, and the one that is emptied.
unfoldable pub transfer : QuarantineCache → QuarantineCache → QuarantineCache × QuarantineCache
transfer c from =
    (record { list = c.list ++ from.list; size = add64 c.size from.size }, empty_cache)

unfoldable pub dequeue_batch : QuarantineCache → Option (QuarantineBatch × QuarantineCache)
dequeue_batch c = elim (c.list) [
  | [] ↦ none
  | b ∷ bs ↦ some (b, record { list = bs; size = sub64 c.size b.size })
]

-- The loop of `mergeBatches` from the current batch, with the batches behind it: the merged list,
-- the extracted size, and the cache of batches to deallocate.
unfoldable pub merge_loop :
    (current : QuarantineBatch) (rest : List QuarantineBatch) (extracted_size : ℕ)
    → QuarantineCache
    → List QuarantineBatch × ℕ × QuarantineCache
merge_loop current [] extracted_size to_deallocate = (current ∷ [], extracted_size, to_deallocate)
merge_loop current (next ∷ rest) extracted_size to_deallocate = elim (can_merge current next) [
  | true ↦
      let (merged, extracted) = merge current next in
      merge_loop merged rest (add64 extracted_size extracted.size)
        (enqueue_batch extracted to_deallocate)
  | false ↦
      let (list, size, to_deallocate') = merge_loop next rest extracted_size to_deallocate in
      (current ∷ list, size, to_deallocate')
]

-- The merged cache, and the batches to deallocate.
unfoldable pub merge_batches : QuarantineCache → QuarantineCache → QuarantineCache × QuarantineCache
merge_batches c to_deallocate = elim (c.list) [
  | [] ↦ (record c { size = sub64 c.size 0 }, to_deallocate)
  | current ∷ rest ↦
      let (list, extracted_size, to_deallocate') = merge_loop current rest 0 to_deallocate in
      (record { list = list; size = sub64 c.size extracted_size }, to_deallocate')
]

pub record GlobalQuarantine : Type 0 where
  pub cache : QuarantineCache
  pub min_size : ℕ
  pub max_size : ℕ
  pub max_cache_size : ℕ

-- `none` is a failed check.
unfoldable pub init : (size cache_size : ℕ) → Option GlobalQuarantine
init size cache_size =
    if size == 0 && cache_size == 0 || cache_size != 0
    then some (record {
      cache = empty_cache;
      min_size = mul64 (size / 10) 9;
      max_size = size;
      max_cache_size = cache_size;
    })
    else none

-- The loop of `recycle` that dequeues batches while the cache is larger than `min_size`. `none` is
-- the null pointer that an empty list would give. The loop shortens the list.
unfoldable pub dequeue_loop :
    (min_size : ℕ) (list : List QuarantineBatch) (size : ℕ)
    → QuarantineCache
    → Option (QuarantineCache × QuarantineCache)
dequeue_loop min_size [] size tmp =
    if ltb min_size size then none else some (record { list = []; size = size }, tmp)
dequeue_loop min_size (b ∷ bs) size tmp =
    let rest = dequeue_loop min_size bs (sub64 size b.size) (enqueue_batch b tmp) in
    if ltb min_size size then rest else some (record { list = b ∷ bs; size = size }, tmp)

unfoldable pub needs_merge : QuarantineCache → Bool
needs_merge c =
    ltb (get_overhead_size c) c.size
    && ltb (mul64 c.size 100) (mul64 (get_overhead_size c) (100 + 100))

-- What `doRecycle` hands to the callback: the chunks to recycle and the batches to deallocate, in
-- order. `tmp_address` is the address of the cache.
unfoldable pub do_recycle : (tmp_address : ℕ) → List QuarantineBatch → List ℕ × List ℕ
do_recycle tmp_address [] = ([], [])
do_recycle tmp_address (b ∷ bs) =
    let seed = u32 (shr (bit_xor b.address tmp_address) 4) in
    let (chunks, batches) = do_recycle tmp_address bs in
    ((shuffle_batch b seed).batch ++ chunks, b.address ∷ batches)

-- The first phase of `recycle`: the cache, merged if that pays, and the batches to deallocate.
unfoldable pub merge_if_needed : QuarantineCache → QuarantineCache × QuarantineCache
merge_if_needed c = if needs_merge c then merge_batches c empty_cache else (c, empty_cache)

unfoldable pub recycle :
    (tmp_address min_size : ℕ) → QuarantineCache → Option (QuarantineCache × (List ℕ × List ℕ))
recycle tmp_address min_size c =
    let (merged, tmp) = merge_if_needed c in
    elim (dequeue_loop min_size merged.list merged.size tmp) [
      | none ↦ none
      | some (left, tmp') ↦ some (left, do_recycle tmp_address tmp'.list)
    ]

-- The thread's cache, the quarantine, and what went to the callback. `lock_free` says whether
-- `RecycleMutex.tryLock()` succeeds.
unfoldable pub drain :
    (tmp_address : ℕ) (lock_free : Bool)
    → QuarantineCache
    → GlobalQuarantine
    → Option (QuarantineCache × (GlobalQuarantine × (List ℕ × List ℕ)))
drain tmp_address lock_free c g =
    let (cache, c') = transfer g.cache c in
    if ltb g.max_size cache.size && lock_free
    then elim (recycle tmp_address g.min_size cache) [
      | none ↦ none
      | some (left, calls) ↦ some (c', (record g { cache = left }, calls))
    ]
    else some (c', (record g { cache = cache }, ([], [])))

unfoldable pub put :
    (tmp_address fresh : ℕ) (lock_free : Bool) (ptr size : ℕ)
    → QuarantineCache
    → GlobalQuarantine
    → Option (QuarantineCache × (GlobalQuarantine × (List ℕ × List ℕ)))
put tmp_address fresh lock_free ptr size c g =
    let c' = enqueue fresh ptr size c in
    if ltb g.max_cache_size c'.size
    then drain tmp_address lock_free c' g
    else some (c', (g, ([], [])))

unfoldable pub drain_and_recycle :
    (tmp_address : ℕ)
    → QuarantineCache
    → GlobalQuarantine
    → Option (QuarantineCache × (GlobalQuarantine × (List ℕ × List ℕ)))
drain_and_recycle tmp_address c g =
    let (cache, c') = transfer g.cache c in
    elim (recycle tmp_address 0 cache) [
      | none ↦ none
      | some (left, calls) ↦ some (c', (record g { cache = left }, calls))
    ]
