-- ===== src/Quarantine/Recycle.antt =====
-- recycle and doRecycle of LLVM_SCUDO_MTE/quarantine.h.
use mathlib.Core.List.{append_assoc}
use riscv_mte.Base.{
  ℕ, ◌+◌, ◌-◌, ◌≤◌, ◌<◌, ◌≡◌, refl, ap, ◌∙◌, List, [], ◌∷◌, ◌++◌, false, some, arith, ltb,
  Bool-cases, inl, inr, u64_mod, sub64, add64_eq, sub64_eq, u32, shr, bit_xor,
}
use riscv_mte.Common.Shuffle.{count, shuffle-count}
use riscv_mte.Quarantine.{
  QuarantineBatch, QuarantineCache, batch_count, shuffle_batch, empty_cache, enqueue_batch,
  merge_batches, dequeue_loop, needs_merge, merge_if_needed, do_recycle, recycle,
}
use riscv_mte.Quarantine.Cache.{
  chunks, total, AreBatches, IsCache, enqueue_batch-IsCache, chunks-enqueue_batch,
  empty_cache-IsCache,
}
use riscv_mte.Quarantine.Merge.{merge_batches-IsMergedCache}

pub count-append :
    (value : ℕ) (front back : List ℕ)
    → count value (front ++ back) ≡ count value front + count value back
count-append value [] back = omega arith
count-append value (first ∷ front) back = omega (arith, count-append value front back)

-- The chunks that go to the callback are those of the batches, in another order.
do_recycle-count :
    (a tmp_address : ℕ) (bs : List QuarantineBatch)
    → AreBatches bs
    → count a (do_recycle tmp_address bs).0 ≡ count a (chunks bs)
unfolding do_recycle shuffle_batch
do_recycle-count a tmp_address [] p = refl
do_recycle-count a tmp_address (b ∷ bs) (p, ps) =
    let seed = u32 (shr (bit_xor b.address tmp_address) 4) in
    omega (
      arith,
      count-append a (shuffle_batch b seed).batch (do_recycle tmp_address bs).0,
      count-append a b.batch (chunks bs),
      shuffle-count a b.batch (batch_count b) seed (omega arith) (omega (arith, p.fits)),
      do_recycle-count a tmp_address bs ps,
    )

-- What the loop that dequeues leaves, and what it takes.
record IsDequeued (min_size : ℕ) (bs : List QuarantineBatch) (size : ℕ)
    (tmp left tmp' : QuarantineCache) : Type 0 where
  pub left_cache : IsCache left
  pub left_le : left.size ≤ min_size
  pub tmp_cache : IsCache tmp'
  pub chunks_eq : chunks tmp'.list ++ chunks left.list ≡ chunks tmp.list ++ chunks bs
  pub moved : left.size + tmp'.size ≡ size + tmp.size

dequeued :
    (min_size : ℕ) (bs : List QuarantineBatch) (size : ℕ) (tmp : QuarantineCache)
    → size ≡ total bs
    → AreBatches bs
    → IsCache tmp
    → size + tmp.size < u64_mod
    → (left : QuarantineCache) × (tmp' : QuarantineCache) × (dequeue_loop min_size bs size tmp
        ≡ some (left, tmp'))
      × IsDequeued min_size bs size tmp left tmp'
unfolding dequeue_loop
dequeued min_size [] size tmp e p is fits =
    let enough : ltb min_size size ≡ false = ground arith in
    (
      record { list = []; size = size },
      tmp,
      rw (enough, dequeue_loop) refl,
      record {
        left_cache = record { size_eq = e; size_lt = omega arith; batches = tt };
        left_le = omega arith;
        tmp_cache = is;
        chunks_eq = refl;
        moved = refl;
      },
    )
dequeued min_size (b ∷ bs) size tmp e (p, ps) is fits = elim (Bool-cases (ltb min_size size)) [
  | inl more ↦
      let taken : sub64 size b.size ≡ size - b.size =
        sub64_eq size b.size (omega arith) (omega arith) in
      let sum : (enqueue_batch b tmp).size ≡ tmp.size + b.size =
        unfold enqueue_batch in add64_eq tmp.size b.size (omega arith) in
      let (left, tmp', returns, d) =
        dequeued min_size bs (sub64 size b.size) (enqueue_batch b tmp) (omega arith) ps
          (enqueue_batch-IsCache b tmp p is (omega arith)) (omega arith) in
      (
        left,
        tmp',
        rw (more, dequeue_loop) returns,
        record {
          left_cache = d.left_cache;
          left_le = d.left_le;
          tmp_cache = d.tmp_cache;
          chunks_eq =
              d.chunks_eq
              ∙ ap (λ t. t ++ chunks bs) (chunks-enqueue_batch b tmp)
              ∙ append_assoc (chunks tmp.list) b.batch (chunks bs);
          moved = omega (arith, d.moved);
        },
      )
  | inr done ↦ (
    record { list = b ∷ bs; size = size },
    tmp,
    rw (done, dequeue_loop) refl,
    record {
      left_cache = record { size_eq = e; size_lt = omega arith; batches = (p, ps) };
      left_le = ground arith;
      tmp_cache = is;
      chunks_eq = refl;
      moved = refl;
    },
  )
]

-- A cache that is merged, or not, and the batches that were emptied.
record IsPrepared (c merged tmp : QuarantineCache) : Type 0 where
  pub merged_cache : IsCache merged
  pub tmp_cache : IsCache tmp
  pub chunks_eq : chunks merged.list ≡ chunks c.list
  pub no_chunks : chunks tmp.list ≡ []
  pub moved : merged.size + tmp.size ≡ c.size

-- What `recycle` leaves in the cache and hands to the callback.
pub record IsRecycled (min_size : ℕ) (c left : QuarantineCache) (calls : List ℕ × List ℕ)
    : Type 0 where
  pub is_cache : IsCache left
  pub size_le : left.size ≤ min_size
  pub size_le_before : left.size ≤ c.size
  pub conserved : (a : ℕ) → count a calls.0 + count a (chunks left.list) ≡ count a (chunks c.list)

-- The first phase: merged, if that pays.
prepared :
    (c : QuarantineCache)
    → IsCache c
    → (merged : QuarantineCache) × (tmp : QuarantineCache) × (merge_if_needed c ≡ (merged, tmp))
      × IsPrepared c merged tmp
unfolding merge_if_needed
prepared c is = elim (Bool-cases (needs_merge c)) [
  | inl pays ↦
      let m =
        merge_batches-IsMergedCache c empty_cache is empty_cache-IsCache
          (omega (arith, is.size_lt)) in
      (
        (merge_batches c empty_cache).0,
        (merge_batches c empty_cache).1,
        rw (pays, merge_if_needed) refl,
        record {
          merged_cache = m.is_cache;
          tmp_cache = m.deallocate;
          chunks_eq = m.chunks_eq;
          no_chunks = m.deallocate_chunks;
          moved = omega (arith, m.moved);
        },
      )
  | inr idle ↦ (
    c,
    empty_cache,
    rw (idle, merge_if_needed) refl,
    record {
      merged_cache = is;
      tmp_cache = empty_cache-IsCache;
      chunks_eq = refl;
      no_chunks = refl;
      moved = omega arith;
    },
  )
]

recycle-some :
    (tmp_address min_size : ℕ) (c merged tmp left tmp' : QuarantineCache)
    → merge_if_needed c ≡ (merged, tmp)
    → dequeue_loop min_size merged.list merged.size tmp ≡ some (left, tmp')
    → recycle tmp_address min_size c ≡ some (left, do_recycle tmp_address tmp'.list)
unfolding recycle
recycle-some tmp_address min_size c merged tmp left tmp' first second =
    rw (first, recycle) (rw second refl)

-- For a cache whose accounted size is the sum of its batches' sizes and does not overflow,
-- `recycle` never meets a null batch and returns. The cache that is left is accounted for, within
-- the size asked for and not larger than before, and each chunk goes to the callback or is left, as
-- often as it stood in the cache.
pub recycle-IsRecycled :
    (tmp_address min_size : ℕ) (c : QuarantineCache)
    → IsCache c
    → (left : QuarantineCache) × (calls : List ℕ × List ℕ) × (recycle tmp_address min_size c
        ≡ some (left, calls))
      × IsRecycled min_size c left calls
recycle-IsRecycled tmp_address min_size c is =
    let (merged, tmp, first, m) = prepared c is in
    let (left, tmp', second, d) =
      dequeued min_size merged.list merged.size tmp m.merged_cache.size_eq m.merged_cache.batches
        m.tmp_cache (omega (arith, m.moved, is.size_lt)) in
    let order : chunks tmp'.list ++ chunks left.list ≡ chunks c.list =
      d.chunks_eq ∙ ap (λ t. t ++ chunks merged.list) m.no_chunks ∙ m.chunks_eq in
    (
      left,
      do_recycle tmp_address tmp'.list,
      recycle-some tmp_address min_size c merged tmp left tmp' first second,
      record {
        is_cache = d.left_cache;
        size_le = d.left_le;
        size_le_before = omega (arith, d.moved, m.moved);
        conserved = λ a. omega (
          arith,
          do_recycle-count a tmp_address tmp'.list d.tmp_cache.batches,
          count-append a (chunks tmp'.list) (chunks left.list),
          ap (count a) order,
        );
      },
    )
