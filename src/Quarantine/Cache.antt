-- ===== src/Quarantine/Cache.antt =====
-- QuarantineCache of LLVM_SCUDO_MTE/quarantine.h: its accounting, enqueue and transfer.
use mathlib.Core.List.{append-nil, append_assoc}
use riscv_mte.Base.{
  ◌⊎◌, ℕ, suc, ◌+◌, ◌-◌, ◌*◌, ◌≤◌, ◌<◌, ◌≡◌, refl, sym, ap, ◌∙◌, List, [], ◌∷◌, ◌++◌, false, none,
  some, arith, length, length-append, ◌==◌, Bool-cases, inl, inr, u64_mod, add64, add64_eq,
}
use riscv_mte.Quarantine.{
  QuarantineBatch, QuarantineCache, max_count, batch_bytes, batch_count, init_batch, push_back,
  push_to_back, enqueue_batch, enqueue, transfer, empty_cache,
}

-- The chunks of a list of batches, in the order in which they came.
abbrev pub chunks : List QuarantineBatch → List ℕ
chunks [] = []
chunks (b ∷ bs) = b.batch ++ chunks bs

abbrev pub total : List QuarantineBatch → ℕ
total [] = 0
total (b ∷ bs) = b.size + total bs

-- A batch accounts for itself, and its entries fit its array.
pub record IsBatch (b : QuarantineBatch) : Type 0 where
  pub counts_itself : batch_bytes ≤ b.size
  pub fits : batch_count b ≤ max_count

abbrev pub AreBatches : List QuarantineBatch → Type 0
AreBatches [] = Unit {0}
AreBatches (b ∷ bs) = IsBatch b × AreBatches bs

-- The accounted size is the sum of the batches' sizes, which does not overflow.
pub record IsCache (c : QuarantineCache) : Type 0 where
  pub size_eq : c.size ≡ total c.list
  pub size_lt : c.size < u64_mod
  pub batches : AreBatches c.list

pub total-append : (bs cs : List QuarantineBatch) → total (bs ++ cs) ≡ total bs + total cs
total-append [] cs = omega arith
total-append (b ∷ bs) cs = omega (arith, total-append bs cs)

pub chunks-append : (bs cs : List QuarantineBatch) → chunks (bs ++ cs) ≡ chunks bs ++ chunks cs
chunks-append [] cs = refl
chunks-append (b ∷ bs) cs =
    ap (λ t. b.batch ++ t) (chunks-append bs cs)
    ∙ sym (append_assoc b.batch (chunks bs) (chunks cs))

pub AreBatches-append :
    (bs cs : List QuarantineBatch) → AreBatches bs → AreBatches cs → AreBatches (bs ++ cs)
AreBatches-append [] cs p q = q
AreBatches-append (b ∷ bs) cs (p, ps) q = (p, AreBatches-append bs cs ps q)

-- The batches account for themselves at least.
pub overhead_le : (bs : List QuarantineBatch) → AreBatches bs → length bs * batch_bytes ≤ total bs
overhead_le [] p = omega arith
overhead_le (b ∷ bs) (p, ps) = omega (arith, overhead_le bs ps, p.counts_itself)

-- The bytes of the chunks: what is accounted for beyond the batches.
abbrev pub user_size : QuarantineCache → ℕ
user_size c = c.size - length c.list * batch_bytes

pub empty_cache-IsCache : IsCache empty_cache
empty_cache-IsCache = record { size_eq = refl; size_lt = omega arith; batches = tt }

pub enqueue_batch-IsCache :
    (b : QuarantineBatch) (c : QuarantineCache)
    → IsBatch b
    → IsCache c
    → c.size + b.size < u64_mod
    → IsCache (enqueue_batch b c)
unfolding enqueue_batch
enqueue_batch-IsCache b c p is fits =
    let sum : add64 c.size b.size ≡ c.size + b.size = add64_eq c.size b.size fits in
    record {
      size_eq = omega (arith, sum, total-append c.list (b ∷ []), is.size_eq);
      size_lt = omega (arith, sum);
      batches = AreBatches-append c.list (b ∷ []) is.batches (p, tt);
    }

pub chunks-enqueue_batch :
    (b : QuarantineBatch) (c : QuarantineCache)
    → chunks (enqueue_batch b c).list ≡ chunks c.list ++ b.batch
unfolding enqueue_batch
chunks-enqueue_batch b c =
    chunks-append c.list (b ∷ []) ∙ ap (λ t. chunks c.list ++ t) (append-nil b.batch)

-- What a push into the last batch does.
record IsPushed (bs : List QuarantineBatch) (ptr size : ℕ) (bs' : List QuarantineBatch)
    : Type 0 where
  pub total_eq : total bs' ≡ total bs + size
  pub length_eq : length bs' ≡ length bs
  pub chunks_eq : chunks bs' ≡ chunks bs ++ ptr ∷ []
  pub batches : AreBatches bs'

IsPushed-last :
    (b : QuarantineBatch) (ptr size : ℕ)
    → IsBatch b
    → b.size + size < u64_mod
    → (batch_count b == max_count) ≡ false
    → IsPushed (b ∷ []) ptr size (push_back b ptr size ∷ [])
unfolding push_back
IsPushed-last b ptr size p fits room = record {
  total_eq = omega (arith, add64_eq b.size size fits);
  length_eq = refl;
  chunks_eq = append-nil (b.batch ++ ptr ∷ []) ∙ ap (λ t. t ++ ptr ∷ []) (sym (append-nil b.batch));
  batches = (
    record {
      counts_itself = omega (arith, add64_eq b.size size fits, p.counts_itself);
      fits = ground (arith, length-append b.batch (ptr ∷ []), p.fits);
    },
    tt,
  );
}

push_to_back-cases :
    (bs : List QuarantineBatch) (ptr size : ℕ)
    → AreBatches bs
    → total bs + size < u64_mod
    → (push_to_back bs ptr size ≡ none)
      ⊎ ((bs' : List QuarantineBatch) × (push_to_back bs ptr size ≡ some bs')
          × IsPushed bs ptr size bs')
unfolding push_to_back
push_to_back-cases [] ptr size p fits = inl refl
push_to_back-cases (b ∷ []) ptr size (p, _) fits = elim (Bool-cases (batch_count b == max_count)) [
  | inl full ↦ inl (rw full)
  | inr room ↦
      inr (push_back b ptr size ∷ [], rw room, IsPushed-last b ptr size p (omega arith) room)
]
push_to_back-cases (b ∷ b' ∷ bs) ptr size (p, ps) fits =
    elim (push_to_back-cases (b' ∷ bs) ptr size ps (omega arith)) [
      | inl e ↦ inl (rw e)
      | inr (bs', e, is) ↦ inr (
        b ∷ bs',
        rw e,
        record {
          total_eq = omega (arith, is.total_eq);
          length_eq = ap suc is.length_eq;
          chunks_eq =
              ap (λ t. b.batch ++ t) is.chunks_eq
              ∙ sym (append_assoc b.batch (chunks (b' ∷ bs)) (ptr ∷ []));
          batches = (p, is.batches);
        },
      )
    ]

init_batch-IsBatch :
    (fresh ptr size : ℕ) → size + batch_bytes < u64_mod → IsBatch (init_batch fresh ptr size)
unfolding init_batch
init_batch-IsBatch fresh ptr size fits = omega (arith, add64_eq size batch_bytes fits)

-- What `enqueue` does, whether or not it asks for a batch.
pub record IsEnqueued (ptr size : ℕ) (c c' : QuarantineCache) : Type 0 where
  pub is_cache : IsCache c'
  pub chunks_eq : chunks c'.list ≡ chunks c.list ++ ptr ∷ []
  pub user_size_eq : user_size c' ≡ user_size c + size
  pub size_le : c'.size ≤ c.size + size + batch_bytes

IsEnqueued-fresh :
    (fresh ptr size : ℕ) (c : QuarantineCache)
    → IsCache c
    → c.size + size + batch_bytes < u64_mod
    → IsEnqueued ptr size c (enqueue_batch (init_batch fresh ptr size) c)
IsEnqueued-fresh fresh ptr size c is fits =
    let b = init_batch fresh ptr size in
    let size_eq : b.size ≡ size + batch_bytes =
      unfold init_batch in add64_eq size batch_bytes (omega arith) in
    let sum : (enqueue_batch b c).size ≡ c.size + b.size =
      unfold enqueue_batch in add64_eq c.size b.size (omega arith) in
    let longer : length (enqueue_batch b c).list ≡ length c.list + 1 =
      unfold enqueue_batch in length-append c.list (b ∷ []) in
    record {
      is_cache =
          enqueue_batch-IsCache b c (init_batch-IsBatch fresh ptr size (omega arith)) is
            (omega arith);
      chunks_eq = chunks-enqueue_batch b c ∙ (unfold init_batch in refl);
      user_size_eq = omega (arith, overhead_le c.list is.batches, is.size_eq);
      size_le = omega arith;
    }

-- For a cache whose accounted size is the sum of its batches' sizes and does not overflow with the
-- new chunk and a new batch, `enqueue` keeps the accounting, puts the chunk behind all others, adds
-- its size to the bytes of the chunks, and grows by the size of the chunk and of one batch at most.
pub enqueue-IsEnqueued :
    (fresh ptr size : ℕ) (c : QuarantineCache)
    → IsCache c
    → c.size + size + batch_bytes < u64_mod
    → IsEnqueued ptr size c (enqueue fresh ptr size c)
unfolding enqueue
enqueue-IsEnqueued fresh ptr size c is fits =
    elim (push_to_back-cases c.list ptr size is.batches (omega (arith, is.size_eq))) [
      | inl full ↦ rw (full, enqueue) (IsEnqueued-fresh fresh ptr size c is fits)
      | inr (list, e, pushed) ↦
          let sum : add64 c.size size ≡ c.size + size = add64_eq c.size size (omega arith) in
          rw (e, enqueue)
            (record {
              is_cache = record {
                size_eq = omega (arith, sum, is.size_eq, pushed.total_eq);
                size_lt = omega (arith, sum);
                batches = pushed.batches;
              };
              chunks_eq = pushed.chunks_eq;
              user_size_eq =
                  omega (arith, sum, pushed.length_eq, overhead_le c.list is.batches, is.size_eq);
              size_le = omega (arith, sum);
            })
    ]

-- `transfer` moves all chunks, behind those that are there, and the accounted size.
pub transfer-IsCache :
    (c from : QuarantineCache)
    → IsCache c
    → IsCache from
    → c.size + from.size < u64_mod
    → IsCache (transfer c from).0
      × ((transfer c from).0.size ≡ c.size + from.size)
      × (chunks (transfer c from).0.list ≡ chunks c.list ++ chunks from.list)
      × ((transfer c from).1 ≡ empty_cache)
unfolding transfer
transfer-IsCache c from is is' fits =
    let sum : add64 c.size from.size ≡ c.size + from.size = add64_eq c.size from.size fits in
    (
      record {
        size_eq = omega (arith, sum, total-append c.list from.list, is.size_eq, is'.size_eq);
        size_lt = omega (arith, sum);
        batches = AreBatches-append c.list from.list is.batches is'.batches;
      },
      sum,
      chunks-append c.list from.list,
      refl,
    )
