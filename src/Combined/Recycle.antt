-- ===== src/Combined/Recycle.antt =====
-- QuarantineCallback::recycle of LLVM_SCUDO_MTE/combined.h.
use mathlib.Core.Path.{subst}
use riscv_mte.Base.{ℕ, ◌≡◌, ◌≢◌, ◌⊎◌, refl, sym, ap, ◌∙◌, true, arith, inl, inr, Bool-cases, ◌!=◌}
use riscv_mte.Chunk.{
  state_code, quarantined, available, UnpackedHeader, Memory, header, store_header, load_header,
}
use riscv_mte.Chunk.Load.{Loaded-cases, load_header-Fits, load_header-store_header}
use riscv_mte.Combined.{Allocator, Report, corrupted_header, invalid_chunk_state, recycle_chunk}

-- The memory after a chunk was recycled.
abbrev recycled_memory : Allocator → ℕ → UnpackedHeader → Memory → Memory
recycled_memory s ptr h m =
    (store_header s.crc s.algorithm s.cookie ptr (record h { state = state_code available }) m).1

abbrev memory_of : Memory → Report ⊎ (Memory × (ℕ × ℕ)) → Memory
memory_of m (inl report) = m
memory_of m (inr (m', _)) = m'

-- The callback reports, or the chunk was in the quarantine.
recycle_chunk-cases :
    (s : Allocator) (ptr : ℕ) (m : Memory)
    → ((report : Report) × (recycle_chunk s ptr m ≡ inl report))
      ⊎ ((h : UnpackedHeader) × (load_header s.crc s.algorithm s.cookie ptr m ≡ header h)
          × (h.state ≡ state_code quarantined)
          × (memory_of m (recycle_chunk s ptr m) ≡ recycled_memory s ptr h m))
unfolding recycle_chunk
recycle_chunk-cases s ptr m = elim (Loaded-cases (load_header s.crc s.algorithm s.cookie ptr m)) [
  | inr (h, e) ↦ inl (corrupted_header h, rw (e, recycle_chunk) refl)
  | inl (h, e) ↦ elim (Bool-cases (h.state != state_code quarantined)) [
    | inl other ↦ inl (invalid_chunk_state, rw (e, recycle_chunk) (rw other refl))
    | inr waits ↦ inr (h, e, ground arith, rw (e, recycle_chunk) (rw waits refl))
  ]
]

recycle_chunk-invalid :
    (s : Allocator) (ptr : ℕ) (m : Memory) (h : UnpackedHeader)
    → load_header s.crc s.algorithm s.cookie ptr m ≡ header h
    → h.state ≢ state_code quarantined
    → recycle_chunk s ptr m ≡ inl invalid_chunk_state
unfolding recycle_chunk
recycle_chunk-invalid s ptr m h e ne =
    let other : (h.state != state_code quarantined) ≡ true = ground arith in
    rw (e, recycle_chunk) (rw other refl)

-- A chunk leaves the quarantine once: if the callback `recycle` gives a chunk back, then a second
-- `recycle` of the same pointer, in the memory that the first one left, reports an invalid chunk
-- state.
pub recycle_chunk-twice :
    (s : Allocator) (ptr : ℕ) (m m' : Memory) (block : ℕ × ℕ)
    → recycle_chunk s ptr m ≡ inr (m', block)
    → recycle_chunk s ptr m' ≡ inl invalid_chunk_state
unfolding store_header
recycle_chunk-twice s ptr m m' block e = elim (recycle_chunk-cases s ptr m) [
  | inl (report, failed) ↦ absurd (cc)
  | inr (h, loads, waits, after) ↦
      let f = load_header-Fits s.crc s.algorithm s.cookie ptr m h loads in
      let h' = record h { state = state_code available } in
      let back = (load_header-store_header s.crc s.algorithm s.cookie ptr h' m (omega arith)).0 in
      let same : recycled_memory s ptr h m ≡ m' = sym after ∙ ap (memory_of m) e in
      subst (λ (n : Memory). recycle_chunk s ptr n ≡ inl invalid_chunk_state) same
        (recycle_chunk-invalid s ptr (recycled_memory s ptr h m) _ back (omega arith))
]
