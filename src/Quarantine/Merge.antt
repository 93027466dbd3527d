-- ===== src/Quarantine/Merge.antt =====
-- mergeBatches of LLVM_SCUDO_MTE/quarantine.h.
use mathlib.Core.List.{append-nil, append_assoc}
use riscv_mte.Base.{
  ℕ, ◌+◌, ◌-◌, ◌≤◌, ◌<◌, ◌≡◌, refl, ap, ◌∙◌, List, [], ◌∷◌, ◌++◌, true, false, arith, length,
  length-append, Bool-cases, inl, inr, u64_mod, add64, sub64, add64_eq, sub64_eq,
}
use riscv_mte.Quarantine.{
  QuarantineBatch, QuarantineCache, max_count, batch_bytes, batch_count, get_quarantined_size,
  can_merge, merge, enqueue_batch, merge_loop, merge_batches,
}
use riscv_mte.Quarantine.Cache.{
  chunks, total, IsBatch, AreBatches, IsCache, enqueue_batch-IsCache, chunks-enqueue_batch,
}

-- No two neighbours can be merged.
abbrev pub Compact : List QuarantineBatch → Type 0
Compact [] = Unit {0}
Compact (b ∷ []) = Unit {0}
Compact (b ∷ b' ∷ bs) = (max_count < batch_count b + batch_count b') × Compact (b' ∷ bs)

-- The first batch has at least as many entries as another one.
abbrev Leads : ℕ → List QuarantineBatch → Type 0
Leads n [] = Unit {0}
Leads n (b ∷ bs) = n ≤ batch_count b

Leads-le : (n k : ℕ) (bs : List QuarantineBatch) → n ≤ k → Leads k bs → Leads n bs
Leads-le n k [] h l = tt
Leads-le n k (b ∷ bs) h l = omega arith

Compact-cons :
    (b : QuarantineBatch) (bs : List QuarantineBatch) (n : ℕ)
    → max_count < batch_count b + n
    → Leads n bs
    → Compact bs
    → Compact (b ∷ bs)
Compact-cons b [] n h l p = tt
Compact-cons b (b' ∷ bs) n h l p = (omega arith, p)

can_merge-le :
    (b b' : QuarantineBatch)
    → IsBatch b
    → IsBatch b'
    → can_merge b b' ≡ true
    → batch_count b + batch_count b' ≤ max_count
unfolding can_merge
can_merge-le b b' p p' e = ground (arith, p.fits, p'.fits)

not-can_merge-lt :
    (b b' : QuarantineBatch)
    → IsBatch b
    → IsBatch b'
    → can_merge b b' ≡ false
    → max_count < batch_count b + batch_count b'
unfolding can_merge
not-can_merge-lt b b' p p' e = ground (arith, p.fits, p'.fits)

-- What one merge does.
record IsMerged (b from b' from' : QuarantineBatch) : Type 0 where
  pub grown : IsBatch b'
  pub emptied : IsBatch from'
  pub emptied_size : from'.size ≡ batch_bytes
  pub emptied_batch : from'.batch ≡ []
  pub size_eq : b'.size + batch_bytes ≡ b.size + from.size
  pub batch_eq : b'.batch ≡ b.batch ++ from.batch

merge-IsMerged :
    (b from : QuarantineBatch)
    → IsBatch b
    → IsBatch from
    → b.size + from.size < u64_mod
    → can_merge b from ≡ true
    → IsMerged b from (merge b from).0 (merge b from).1
unfolding merge get_quarantined_size
merge-IsMerged b from p q fits e =
    let own : sub64 from.size batch_bytes ≡ from.size - batch_bytes =
      sub64_eq from.size batch_bytes q.counts_itself (omega arith) in
    let sum : add64 b.size (sub64 from.size batch_bytes) ≡ b.size + (from.size - batch_bytes) =
      ap (add64 b.size) own ∙ add64_eq b.size (from.size - batch_bytes) (omega arith) in
    record {
      grown = record {
        counts_itself = omega (arith, sum, p.counts_itself);
        fits = omega (arith, length-append b.batch from.batch, can_merge-le b from p q e);
      };
      emptied = omega arith;
      emptied_size = refl;
      emptied_batch = refl;
      size_eq = omega (arith, sum, q.counts_itself);
      batch_eq = refl;
    }

-- What the loop does to the list from its current batch, and to the batches to deallocate.
record IsLoop (n : ℕ) (bs : List QuarantineBatch) (extracted : ℕ) (td : QuarantineCache)
    (bs' : List QuarantineBatch) (extracted' : ℕ) (td' : QuarantineCache) : Type 0 where
  pub batches : AreBatches bs'
  pub chunks_eq : chunks bs' ≡ chunks bs
  pub compact : Compact bs'
  pub leads : Leads n bs'
  pub deallocate : IsCache td'
  pub deallocate_chunks : chunks td'.list ≡ chunks td.list
  pub moved : total bs' + td'.size ≡ total bs + td.size
  pub extracted_eq : extracted' + td.size ≡ extracted + td'.size

-- A merge inside the list, before the rest of the loop.
IsLoop-merged :
    (cur next : QuarantineBatch) (rest : List QuarantineBatch) (ex : ℕ) (td : QuarantineCache)
    (cur' from' : QuarantineBatch) (bs' : List QuarantineBatch) (ex' : ℕ) (td' : QuarantineCache)
    → IsMerged cur next cur' from'
    → td.size + batch_bytes < u64_mod
    → ex + batch_bytes < u64_mod
    → IsLoop
        (batch_count cur')
        (cur' ∷ rest)
        (add64 ex from'.size)
        (enqueue_batch from' td)
        bs'
        ex'
        td'
    → IsLoop (batch_count cur) (cur ∷ next ∷ rest) ex td bs' ex' td'
IsLoop-merged cur next rest ex td cur' from' bs' ex' td' m fits fits' l =
    let td_size : (enqueue_batch from' td).size ≡ td.size + batch_bytes =
      unfold enqueue_batch in
      (ap (add64 td.size) m.emptied_size ∙ add64_eq td.size batch_bytes fits) in
    let ex_eq : add64 ex from'.size ≡ ex + batch_bytes =
      ap (add64 ex) m.emptied_size ∙ add64_eq ex batch_bytes fits' in
    let longer : batch_count cur' ≡ batch_count cur + batch_count next =
      ap length m.batch_eq ∙ length-append cur.batch next.batch in
    record {
      batches = l.batches;
      chunks_eq =
          l.chunks_eq
          ∙ ap (λ t. t ++ chunks rest) m.batch_eq
          ∙ append_assoc cur.batch next.batch (chunks rest);
      compact = l.compact;
      leads = Leads-le (batch_count cur) (batch_count cur') bs' (omega arith) l.leads;
      deallocate = l.deallocate;
      deallocate_chunks =
          l.deallocate_chunks
          ∙ chunks-enqueue_batch from' td
          ∙ ap (λ t. chunks td.list ++ t) m.emptied_batch
          ∙ append-nil (chunks td.list);
      moved = omega (arith, l.moved, m.size_eq, td_size);
      extracted_eq = omega (arith, l.extracted_eq, ex_eq, td_size);
    }

loop :
    (cur : QuarantineBatch) (rest : List QuarantineBatch) (ex : ℕ) (td : QuarantineCache)
    → AreBatches (cur ∷ rest)
    → IsCache td
    → total (cur ∷ rest) + td.size < u64_mod
    → ex + total (cur ∷ rest) < u64_mod
    → IsLoop
        (batch_count cur)
        (cur ∷ rest)
        ex
        td
        (merge_loop cur rest ex td).0
        (merge_loop cur rest ex td).1
        (merge_loop cur rest ex td).2
unfolding merge_loop
loop cur [] ex td p is fits fits' = record {
  batches = p;
  chunks_eq = refl;
  compact = tt;
  leads = omega arith;
  deallocate = is;
  deallocate_chunks = refl;
  moved = refl;
  extracted_eq = refl;
}
loop cur (next ∷ rest) ex td (p, (q, ps)) is fits fits' = elim (Bool-cases (can_merge cur next)) [
  | inl e ↦
      let (cur', from') = merge cur next in
      let m = merge-IsMerged cur next p q (omega arith) e in
      let td_size : (enqueue_batch from' td).size ≡ td.size + batch_bytes =
        unfold enqueue_batch in
        (ap (add64 td.size) m.emptied_size
          ∙ add64_eq td.size batch_bytes (omega (arith, q.counts_itself))) in
      let ex_eq : add64 ex from'.size ≡ ex + batch_bytes =
        ap (add64 ex) m.emptied_size ∙ add64_eq ex batch_bytes (omega (arith, q.counts_itself)) in
      rw (e, merge_loop)
        (IsLoop-merged cur next rest ex td cur' from' _ _ _ m (omega (arith, q.counts_itself))
          (omega (arith, q.counts_itself))
          (loop cur' rest (add64 ex from'.size) (enqueue_batch from' td) (m.grown, ps)
            (enqueue_batch-IsCache from' td m.emptied is
              (omega (arith, m.emptied_size, q.counts_itself)))
            (omega (arith, td_size, m.size_eq)) (omega (arith, ex_eq, m.size_eq))))
  | inr e ↦
      let l = loop next rest ex td (q, ps) is (omega arith) (omega arith) in
      rw (e, merge_loop)
        (record {
          batches = (p, l.batches);
          chunks_eq = ap (λ t. cur.batch ++ t) l.chunks_eq;
          compact =
              Compact-cons cur _ (batch_count next) (not-can_merge-lt cur next p q e) l.leads
                l.compact;
          leads = omega arith;
          deallocate = l.deallocate;
          deallocate_chunks = l.deallocate_chunks;
          moved = omega (arith, l.moved);
          extracted_eq = l.extracted_eq;
        })
]

-- What `mergeBatches` does to a cache and the batches to deallocate.
pub record IsMergedCache (c td c' td' : QuarantineCache) : Type 0 where
  pub is_cache : IsCache c'
  pub chunks_eq : chunks c'.list ≡ chunks c.list
  pub compact : Compact c'.list
  pub deallocate : IsCache td'
  pub deallocate_chunks : chunks td'.list ≡ chunks td.list
  pub moved : c'.size + td'.size ≡ c.size + td.size

-- For caches whose accounted sizes are the sums of their batches' sizes and do not overflow
-- together, `mergeBatches` keeps the chunks in their order, leaves no two neighbours whose entries
-- fit one batch, adds only batches without chunks to those to deallocate, and keeps the accounting
-- and the sum of both sizes.
pub merge_batches-IsMergedCache :
    (c td : QuarantineCache)
    → IsCache c
    → IsCache td
    → c.size + td.size < u64_mod
    → IsMergedCache c td (merge_batches c td).0 (merge_batches c td).1
unfolding merge_batches
merge_batches-IsMergedCache c td is is' fits =
    go c.list c.size is.size_eq is.size_lt is.batches fits
  where
    go :
        (bs : List QuarantineBatch) (size : ℕ)
        → size ≡ total bs
        → size < u64_mod
        → AreBatches bs
        → size + td.size < u64_mod
        → IsMergedCache
            (record { list = bs; size = size })
            td
            (merge_batches (record { list = bs; size = size }) td).0
            (merge_batches (record { list = bs; size = size }) td).1
    go [] size e lt p fits =
        let same : sub64 size 0 ≡ size = omega (arith, sub64_eq size 0 (omega arith) lt) in
        record {
          is_cache = record {
            size_eq = omega (arith, same);
            size_lt = omega (arith, same);
            batches = tt;
          };
          chunks_eq = refl;
          compact = tt;
          deallocate = is';
          deallocate_chunks = refl;
          moved = omega (arith, same);
        }
    go (cur ∷ rest) size e lt p fits =
        let l = loop cur rest 0 td p is' (omega arith) (omega arith) in
        let extracted = (merge_loop cur rest 0 td).1 in
        let left : sub64 size extracted ≡ size - extracted =
          sub64_eq size extracted (omega (arith, l.moved, l.extracted_eq)) lt in
        record {
          is_cache = record {
            size_eq = omega (arith, left, l.moved, l.extracted_eq);
            size_lt = omega (arith, left);
            batches = l.batches;
          };
          chunks_eq = l.chunks_eq;
          compact = l.compact;
          deallocate = l.deallocate;
          deallocate_chunks = l.deallocate_chunks;
          moved = omega (arith, left, l.moved, l.extracted_eq);
        }
