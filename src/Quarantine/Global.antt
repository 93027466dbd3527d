-- ===== src/Quarantine/Global.antt =====
-- GlobalQuarantine of LLVM_SCUDO_MTE/quarantine.h: put, drain and drainAndRecycle.
use riscv_mte.Base.{
  ℕ, ◌+◌, ◌≤◌, ◌<◌, ◌≡◌, refl, ap, ◌∙◌, List, [], ◌∷◌, Bool, true, false, ◌&&◌, some, arith, ltb,
  ◌==◌, if◌then◌else◌, Bool-cases, inl, inr, u64_mod,
}
use riscv_mte.Common.Shuffle.{count}
use riscv_mte.Quarantine.{
  QuarantineBatch, QuarantineCache, GlobalQuarantine, batch_bytes, empty_cache, transfer, enqueue,
  drain, put, drain_and_recycle,
}
use riscv_mte.Quarantine.Cache.{
  chunks, total, AreBatches, IsCache, empty_cache-IsCache, transfer-IsCache, enqueue-IsEnqueued,
}
use riscv_mte.Quarantine.Recycle.{count-append, IsRecycled, recycle-IsRecycled}

-- What goes out of the caches, when `incoming` is how often a chunk comes in, goes to the callback.
pub record IsDrained (incoming : ℕ → ℕ) (c : QuarantineCache) (g : GlobalQuarantine)
    (c' : QuarantineCache) (g' : GlobalQuarantine) (calls : List ℕ × List ℕ) : Type 0 where
  pub local_cache : IsCache c'
  pub global_cache : IsCache g'.cache
  pub conserved :
      (a : ℕ)
      → count a calls.0 + count a (chunks g'.cache.list) + count a (chunks c'.list)
        ≡ count a (chunks g.cache.list) + count a (chunks c.list) + incoming a
  pub same_limits : g' ≡ record g { cache = g'.cache }

abbrev pub nothing : ℕ → ℕ
nothing a = 0

-- A chunk that comes in once.
abbrev pub once : ℕ → ℕ → ℕ
once ptr a = if ptr == a then 1 else 0

-- The recycling of the global cache after a transfer.
module _ (tmp_address : ℕ) (c : QuarantineCache) (g : GlobalQuarantine) (is : IsCache c)
    (is' : IsCache g.cache) (fits : g.cache.size + c.size < u64_mod) where
  transferred : QuarantineCache
  transferred = (transfer g.cache c).0

  moved :
      (a : ℕ)
      → count a (chunks transferred.list) ≡ count a (chunks g.cache.list) + count a (chunks c.list)
  unfolding transferred
  moved a =
      ap (count a) ((transfer-IsCache g.cache c is' is fits).2)
      ∙ count-append a (chunks g.cache.list) (chunks c.list)

  -- The flow of a recycling.
  recycled_flow :
      (min_size : ℕ) (left : QuarantineCache) (calls : List ℕ × List ℕ)
      → IsRecycled min_size transferred left calls
      → IsDrained nothing c g empty_cache (record g { cache = left }) calls
  recycled_flow min_size left calls r = record {
    local_cache = empty_cache-IsCache;
    global_cache = r.is_cache;
    conserved = λ a. omega (arith, r.conserved a, moved a);
    same_limits = refl;
  }

  kept_flow : IsDrained nothing c g empty_cache (record g { cache = transferred }) ([], [])
  unfolding transferred
  kept_flow = record {
    local_cache = empty_cache-IsCache;
    global_cache = (transfer-IsCache g.cache c is' is fits).0;
    conserved = λ a. omega (arith, moved a);
    same_limits = refl;
  }

  drain_cases :
      (lock_free : Bool)
      → (g' : GlobalQuarantine) × (calls : List ℕ × List ℕ) × (drain tmp_address lock_free c g
          ≡ some (empty_cache, (g', calls)))
        × IsDrained nothing c g empty_cache g' calls
        × (lock_free ≡ true → g.min_size ≤ g.max_size → g'.cache.size ≤ g.max_size)
  unfolding transferred drain transfer
  drain_cases lock_free = elim (Bool-cases (ltb g.max_size transferred.size && lock_free)) [
    | inl full ↦
        let (left, calls, e, r) =
          recycle-IsRecycled tmp_address g.min_size transferred
            ((transfer-IsCache g.cache c is' is fits).0) in
        (
          record g { cache = left },
          calls,
          rw (full, drain) (rw e refl),
          recycled_flow g.min_size left calls r,
          λ free le. omega (arith, r.size_le),
        )
    | inr idle ↦ (
      record g { cache = transferred },
      ([], []),
      rw (idle, drain) refl,
      kept_flow,
      λ free le. ground arith,
    )
  ]

  empty_of_size : (left : QuarantineCache) → IsCache left → left.size ≤ 0 → left.list ≡ []
  empty_of_size left p le = go left.list p.batches (omega (arith, p.size_eq))
    where
      go : (bs : List QuarantineBatch) → AreBatches bs → total bs ≤ 0 → bs ≡ []
      go [] q h = refl
      go (b ∷ bs) (q, _) h = absurd (omega (arith, q.counts_itself))

  -- For caches whose accounted sizes are the sums of their batches' sizes and do not overflow
  -- together, `drainAndRecycle` returns, leaves both caches empty, and hands every chunk to the
  -- callback as often as it stood in the caches.
  pub drain_and_recycle-all :
      (g' : GlobalQuarantine) × (calls : List ℕ × List ℕ) × (drain_and_recycle tmp_address c g
        ≡ some (empty_cache, (g', calls)))
      × (g'.cache.list ≡ [])
      × ((a : ℕ) → count a calls.0 ≡ count a (chunks g.cache.list) + count a (chunks c.list))
  unfolding drain_and_recycle transfer transferred
  drain_and_recycle-all =
      let (left, calls, e, r) =
        recycle-IsRecycled tmp_address 0 transferred ((transfer-IsCache g.cache c is' is fits).0) in
      let none_left : left.list ≡ [] = empty_of_size left r.is_cache r.size_le in
      (
        record g { cache = left },
        calls,
        rw (e, drain_and_recycle) refl,
        none_left,
        λ a. omega (arith, r.conserved a, moved a, ap (λ t. count a (chunks t)) none_left),
      )

-- The size of the thread's cache after `put`.
put_kept :
    (tmp_address fresh : ℕ) (lock_free : Bool) (ptr size : ℕ) (c : QuarantineCache)
    (g : GlobalQuarantine)
    → ltb g.max_cache_size (enqueue fresh ptr size c).size ≡ false
    → put tmp_address fresh lock_free ptr size c g ≡ some (enqueue fresh ptr size c, (g, ([], [])))
unfolding put
put_kept tmp_address fresh lock_free ptr size c g e = rw (e, put) refl

put_drained :
    (tmp_address fresh : ℕ) (lock_free : Bool) (ptr size : ℕ) (c : QuarantineCache)
    (g : GlobalQuarantine)
    → ltb g.max_cache_size (enqueue fresh ptr size c).size ≡ true
    → put tmp_address fresh lock_free ptr size c g
      ≡ drain tmp_address lock_free (enqueue fresh ptr size c) g
unfolding put
put_drained tmp_address fresh lock_free ptr size c g e = rw (e, put) refl

-- For caches whose accounted sizes are the sums of their batches' sizes and do not overflow
-- together with the new chunk and a new batch, `put` returns, and no chunk is lost or recycled
-- twice: each chunk goes to the callback or stands in one of the two caches, as often as it stood
-- in the caches before or, for the new one, once more. The accounting and the limits are kept, the
-- thread's cache is within its limit afterwards, and, where the lock is free and the lower limit is
-- not above the upper one, a global cache that was within its limit still is.
pub put-conserved :
    (tmp_address fresh : ℕ) (lock_free : Bool) (ptr size : ℕ) (c : QuarantineCache)
    (g : GlobalQuarantine)
    → IsCache c
    → IsCache g.cache
    → g.cache.size + c.size + size + batch_bytes < u64_mod
    → (c' : QuarantineCache) × (g' : GlobalQuarantine) × (calls : List ℕ × List ℕ) × (put
          tmp_address fresh lock_free ptr size c g
        ≡ some (c', (g', calls)))
      × IsDrained (once ptr) c g c' g' calls
      × (c'.size ≤ g.max_cache_size)
      × (lock_free ≡ true
          → g.min_size ≤ g.max_size
          → g.cache.size ≤ g.max_size
          → g'.cache.size ≤ g.max_size)
put-conserved tmp_address fresh lock_free ptr size c g is is' fits =
    let c1 = enqueue fresh ptr size c in
    let q = enqueue-IsEnqueued fresh ptr size c is (omega arith) in
    let arrives : (a : ℕ) → count a (chunks c1.list) ≡ count a (chunks c.list) + once ptr a =
      λ a. ap (count a) q.chunks_eq ∙ count-append a (chunks c.list) (ptr ∷ []) ∙ omega arith in
    elim (Bool-cases (ltb g.max_cache_size c1.size)) [
      | inr room ↦ (
        c1,
        g,
        ([], []),
        put_kept tmp_address fresh lock_free ptr size c g room,
        record {
          local_cache = q.is_cache;
          global_cache = is';
          conserved = λ a. omega (arith, arrives a);
          same_limits = refl;
        },
        ground arith,
        λ free le h. h,
      )
      | inl full ↦
          let (g', calls, e, d, bounded) =
            drain_cases tmp_address c1 g q.is_cache is' (omega (arith, q.size_le)) lock_free in
          (
            empty_cache,
            g',
            calls,
            put_drained tmp_address fresh lock_free ptr size c g full ∙ e,
            record {
              local_cache = d.local_cache;
              global_cache = d.global_cache;
              conserved = λ a. omega (arith, d.conserved a, arrives a);
              same_limits = d.same_limits;
            },
            omega arith,
            λ free le h. bounded free le,
          )
    ]
