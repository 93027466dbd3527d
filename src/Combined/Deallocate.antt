-- ===== src/Combined/Deallocate.antt =====
-- deallocate and quarantineOrDeallocateChunk of LLVM_SCUDO_MTE/combined.h: the checks, and the header
-- that a freed chunk gets.
use mathlib.Core.Path.{subst}
use riscv_mte.Combined.Pointer.{deallocate-aborted, aligned-multiple, header_pointer-tagged}
use riscv_mte.Base.{
  ℕ, ◌%◌, ◌^◌, ◌<◌, ◌≡◌, ◌≢◌, refl, sym, ap, ◌∙◌, true, false, arith, inl, inr, ◌⊎◌, ◌&&◌,
  Bool-cases, Option-cases, ◌==◌, ◌!=◌,
}
use riscv_mte.Common.{is_aligned}
use riscv_mte.Chunk.{
  Origin, state_code, allocated, UnpackedHeader, Fits, Memory, header, store_header, load_header,
}
use riscv_mte.Chunk.Load.{Loaded-cases, load_header-Fits, load_header-store_header}
use riscv_mte.Memtag.{Tags, tagged}
use riscv_mte.Options.{get, delete_size_mismatch}
use riscv_mte.Combined.{
  Allocator, Report, Destination, Deallocated, aborted, released, out_of_fuel, ignored,
  corrupted_header, invalid_chunk_state, misaligned_pointer, mismatched_type, mismatched_size,
  is_mismatched, get_header_tagged_pointer, freed_header, dispatch, quarantine_or_deallocate_chunk,
  check_header, check_chunk, deallocate, get_size,
}

-- The checks of a header report, or the chunk was allocated.
check_header-cases :
    (s : Allocator) (ptr : ℕ) (h : UnpackedHeader) (origin : Origin) (delete_size : ℕ)
    → ((report : Report) × (check_header s ptr h origin delete_size ≡ inl report))
      ⊎ (check_header s ptr h origin delete_size ≡ inr (h, get_size s ptr h))
unfolding check_header
check_header-cases s ptr h origin delete_size =
    elim (Bool-cases (h.state != state_code allocated)) [
      | inl other ↦ inl (invalid_chunk_state, rw (other, check_header) refl)
      | inr is_allocated ↦ elim (Bool-cases (is_mismatched s h origin)) [
        | inl wrong ↦ inl (mismatched_type, rw (is_allocated, check_header) (rw wrong refl))
        | inr right ↦
            elim (Bool-cases (
              delete_size != 0
              && get s.options delete_size_mismatch
              && delete_size != get_size s ptr h)) [
                | inl wrong_size ↦ inl (
                  mismatched_size,
                  rw (is_allocated, check_header) (rw right (rw wrong_size refl)),
                )
                | inr right_size ↦
                    inr (rw (is_allocated, check_header) (rw right (rw right_size refl)))
              ]
      ]
    ]

-- A chunk that is not allocated does not pass, whatever else holds.
check_header-invalid :
    (s : Allocator) (ptr : ℕ) (h : UnpackedHeader) (origin : Origin) (delete_size : ℕ)
    → h.state ≢ state_code allocated
    → check_header s ptr h origin delete_size ≡ inl invalid_chunk_state
unfolding check_header
check_header-invalid s ptr h origin delete_size ne =
    let other : (h.state != state_code allocated) ≡ true = ground arith in
    rw (other, check_header) refl

pub check_chunk-loaded :
    (s : Allocator) (ptr : ℕ) (origin : Origin) (delete_size : ℕ) (m : Memory) (h : UnpackedHeader)
    → is_aligned ptr 16 ≡ true
    → load_header s.crc s.algorithm s.cookie (get_header_tagged_pointer s ptr) m ≡ header h
    → check_chunk s ptr origin delete_size m
      ≡ check_header s (get_header_tagged_pointer s ptr) h origin delete_size
unfolding check_chunk
check_chunk-loaded s ptr origin delete_size m h aligned loads =
    rw (aligned, check_chunk) (rw loads refl)

-- What the checks know of a chunk that passed them.
pub record IsChecked (s : Allocator) (ptr : ℕ) (m : Memory) (h : UnpackedHeader) : Type 0 where
  pub aligned : is_aligned ptr 16 ≡ true
  pub loads : load_header s.crc s.algorithm s.cookie (get_header_tagged_pointer s ptr) m ≡ header h

check_chunk-cases :
    (s : Allocator) (ptr : ℕ) (origin : Origin) (delete_size : ℕ) (m : Memory)
    → ((report : Report) × (check_chunk s ptr origin delete_size m ≡ inl report))
      ⊎ ((h : UnpackedHeader) × (check_chunk s ptr origin delete_size m
            ≡ inr (h, get_size s (get_header_tagged_pointer s ptr) h))
          × IsChecked s ptr m h)
unfolding check_chunk
check_chunk-cases s ptr origin delete_size m = elim (Bool-cases (is_aligned ptr 16)) [
  | inr odd ↦ inl (misaligned_pointer, rw (odd, check_chunk) refl)
  | inl aligned ↦
      let p = get_header_tagged_pointer s ptr in
      elim (Loaded-cases (load_header s.crc s.algorithm s.cookie p m)) [
        | inr (h, corrupted) ↦
            inl (corrupted_header h, rw (aligned, check_chunk) (rw corrupted refl))
        | inl (h, loads) ↦
            let passes = check_chunk-loaded s ptr origin delete_size m h aligned loads in
            elim (check_header-cases s p h origin delete_size) [
              | inl (report, e) ↦ inl (report, passes ∙ e)
              | inr e ↦ inr (h, passes ∙ e, record { aligned = aligned; loads = loads })
            ]
      ]
]

-- The state that a freed chunk gets is not that of an allocated one, and the fields fit.
pub freed_header-state :
    (s : Allocator) (h : UnpackedHeader) (size : ℕ)
    → (freed_header s h size).state ≢ state_code allocated
unfolding freed_header
freed_header-state s h size = ground arith

freed_header-Fits :
    (s : Allocator) (h : UnpackedHeader) (size : ℕ) → Fits h → Fits (freed_header s h size)
unfolding freed_header
freed_header-Fits s h size f = record {
  class_id = f.class_id;
  state = ground arith;
  origin_or_was_zeroed = ground arith;
  size_or_unused_bytes = f.size_or_unused_bytes;
  offset = f.offset;
  checksum = f.checksum;
}

-- The memory after a chunk was freed.
module _ (s : Allocator) (ptr : ℕ) (m : Memory) (h : UnpackedHeader) (c : IsChecked s ptr m h)
    (size : ℕ) where
  pub freed_memory : Memory
  freed_memory =
      (store_header s.crc s.algorithm s.cookie (get_header_tagged_pointer s ptr)
        (freed_header s h size) m).1

  pub freed_memory-loads :
      load_header s.crc s.algorithm s.cookie (get_header_tagged_pointer s ptr) freed_memory
      ≡ header
          (store_header s.crc s.algorithm s.cookie
            (get_header_tagged_pointer s ptr)
            (freed_header s h size)
            m).0
  unfolding freed_memory
  freed_memory-loads =
      let p = get_header_tagged_pointer s ptr in
      let f = load_header-Fits s.crc s.algorithm s.cookie p m h c.loads in
      (load_header-store_header s.crc s.algorithm s.cookie p (freed_header s h size) m
        (freed_header-Fits s h size f)).0

  check_chunk-freed :
      (origin : Origin) (delete_size : ℕ)
      → check_chunk s ptr origin delete_size freed_memory ≡ inl invalid_chunk_state
  unfolding store_header
  check_chunk-freed origin delete_size =
      check_chunk-loaded s ptr origin delete_size freed_memory _ c.aligned freed_memory-loads
      ∙ check_header-invalid s (get_header_tagged_pointer s ptr) _ origin delete_size
          (freed_header-state s h size)

abbrev memory_after : Memory → Deallocated → Memory
memory_after m ignored = m
memory_after m (aborted report) = m
memory_after m out_of_fuel = m
memory_after m (released m' tags destination) = m'

-- What `deallocate` does with a chunk that passed the checks.
quarantine_or_deallocate_chunk-cases :
    (s : Allocator) (fuel entropy ptr : ℕ) (h : UnpackedHeader) (size : ℕ) (m : Memory)
    (tags : Tags) (c : IsChecked s ptr m h)
    → (quarantine_or_deallocate_chunk s fuel entropy ptr h size m tags ≡ out_of_fuel)
      ⊎ ((destination : Destination) × (tags' : Tags) × (quarantine_or_deallocate_chunk s fuel
              entropy ptr h size m tags
            ≡ released (freed_memory s ptr m h c size) tags' destination))
unfolding quarantine_or_deallocate_chunk freed_memory
quarantine_or_deallocate_chunk-cases s fuel entropy ptr h size m tags c =
    let p = get_header_tagged_pointer s ptr in
    let stored = (store_header s.crc s.algorithm s.cookie p (freed_header s h size) m).0 in
    elim (Option-cases (dispatch s fuel entropy ptr p stored size tags)) [
      | inl e ↦ inl (rw (e, quarantine_or_deallocate_chunk) refl)
      | inr ((destination, tags'), e) ↦
          inr (destination, tags', rw (e, quarantine_or_deallocate_chunk) refl)
    ]

deallocate-some :
    (s : Allocator) (fuel entropy ptr : ℕ) (origin : Origin) (delete_size : ℕ) (m : Memory)
    (tags : Tags) (h : UnpackedHeader) (size : ℕ)
    → ptr ≢ 0
    → check_chunk s ptr origin delete_size m ≡ inr (h, size)
    → deallocate s fuel entropy ptr origin delete_size m tags
      ≡ quarantine_or_deallocate_chunk s fuel entropy ptr h size m tags
unfolding deallocate
deallocate-some s fuel entropy ptr origin delete_size m tags h size ne e =
    let not_null : (ptr == 0) ≡ false = ground arith in rw (not_null, deallocate) (rw e refl)

-- The memory that a deallocation leaves.
pub deallocate-released :
    (s : Allocator) (fuel entropy ptr : ℕ) (origin : Origin) (delete_size : ℕ) (m m' : Memory)
    (tags tags' : Tags) (destination : Destination)
    → ptr ≢ 0
    → deallocate s fuel entropy ptr origin delete_size m tags ≡ released m' tags' destination
    → (h : UnpackedHeader) × (c : IsChecked s ptr m h) × (size : ℕ) × (freed_memory s ptr m h c size
        ≡ m')
deallocate-released s fuel entropy ptr origin delete_size m m' tags tags' destination ne e =
    elim (check_chunk-cases s ptr origin delete_size m) [
      | inl (report, failed) ↦
          absurd
            (cc (deallocate-aborted s fuel entropy ptr origin delete_size m tags report ne failed))
      | inr (h, passed, c) ↦
          let size = get_size s (get_header_tagged_pointer s ptr) h in
          let runs =
            deallocate-some s fuel entropy ptr origin delete_size m tags h size ne passed in
          elim (quarantine_or_deallocate_chunk-cases s fuel entropy ptr h size m tags c) [
            | inl stuck ↦ absurd (cc (sym stuck ∙ sym runs ∙ e))
            | inr (destination', tags1, is) ↦
                (h, c, size, ap (memory_after m) (sym is ∙ sym runs ∙ e))
          ]
    ]

-- A double free is detected: if `deallocate` of a pointer that is not null releases the chunk, to
-- whatever destination, then a second `deallocate` of the same pointer, in the memory that the
-- first one left, aborts with the report of an invalid chunk state, for every origin, size, tag and
-- entropy.
pub deallocate-twice :
    (s : Allocator) (fuel entropy ptr : ℕ) (origin : Origin) (delete_size : ℕ) (m m' : Memory)
    (tags tags' : Tags) (destination : Destination)
    → ptr ≢ 0
    → deallocate s fuel entropy ptr origin delete_size m tags ≡ released m' tags' destination
    → (fuel' entropy' : ℕ) (origin' : Origin) (delete_size' : ℕ) (tags'' : Tags)
    → deallocate s fuel' entropy' ptr origin' delete_size' m' tags'' ≡ aborted invalid_chunk_state
deallocate-twice s fuel entropy ptr origin delete_size m m' tags tags' destination ne e fuel'
      entropy' origin' delete_size' tags'' =
    let (h, c, size, same) =
      deallocate-released s fuel entropy ptr origin delete_size m m' tags tags' destination ne e in
    deallocate-aborted s fuel' entropy' ptr origin' delete_size' m' tags'' invalid_chunk_state ne (
      subst (λ (n : Memory). check_chunk s ptr origin' delete_size' n ≡ inl invalid_chunk_state)
        same (check_chunk-freed s ptr m h c size origin' delete_size'))

-- Where the configuration may tag memory, `deallocate` of a pointer with a tag from 1 to 15 finds
-- the header that was stored at the untagged address: for an address below 2 ^ 56 that is a
-- multiple of 16 and a header whose fields fit, its checks are those of the stored header.
pub check_chunk-tagged :
    (s : Allocator) (a t : ℕ) (origin : Origin) (delete_size : ℕ) (h : UnpackedHeader) (m : Memory)
    → s.may_support ≡ true
    → a < 2 ^ 56
    → a % 16 ≡ 0
    → 0 < t
    → t < 16
    → Fits h
    → check_chunk s
        (tagged a t)
        origin
        delete_size
        (store_header s.crc s.algorithm s.cookie a h m).1
      ≡ check_header s a (store_header s.crc s.algorithm s.cookie a h m).0 origin delete_size
check_chunk-tagged s a t origin delete_size h m may fits aligned pos t_fits f =
    let m' = (store_header s.crc s.algorithm s.cookie a h m).1 in
    let stored = (store_header s.crc s.algorithm s.cookie a h m).0 in
    let at = header_pointer-tagged s may a t fits pos t_fits in
    check_chunk-loaded s (tagged a t) origin delete_size m' stored
      (aligned-multiple (tagged a t) (omega arith))
      (ap (λ (p : ℕ). load_header s.crc s.algorithm s.cookie p m') at
        ∙ (load_header-store_header s.crc s.algorithm s.cookie a h m f).0)
    ∙ ap (λ (p : ℕ). check_header s p stored origin delete_size) at
