-- ===== src/Release/Pool/Exchange.antt =====
-- getBuffer and releaseBuffer of BufferPool of LLVM_SCUDO_MTE/release.h.
use native.Mathlib.Nat.{one-mul, pow-suc, one-le-pow, div-add-mod'}
use riscv_mte.Base.{
  ℕ, suc, ◌+◌, ◌-◌, ◌*◌, ◌/◌, ◌%◌, quotient_lem, ==_iff, ltb→lt, leb→le, ◌^◌, ◌≤◌, ◌<◌, ◌≡◌, ◌≢◌,
  sym, ap, ◌∙◌, arith, ◌==◌, leb, ltb, u64_mod, shl64, shl64_eq, bit_or, bit_xor, ◌⊎◌, inl, inr,
  Bool-cases, Bool, false,
}
use riscv_mte.Bits.{
  bit, bit-bit_or, bit-bit_xor, bit-two_pow_self, bit-two_pow_ne, two_pow_lt, two_pow_add,
}
use riscv_mte.Common.{get_least_significant_set_bit_index}
use riscv_mte.Common.Index.{least_significant_lem}
use riscv_mte.Release.Pool.{
  BufferPlace, static_buffer, BufferPool, get_dynamic_buffer, get_buffer, release_buffer,
}

-- What a request answers: a free static buffer, which it takes, or memory of its own, and then the
-- request is too large or no static buffer is free.
pub data IsServed (count num_static num_elements : ℕ)
    : (pool : BufferPool) (place : BufferPlace) (pool' : BufferPool) → Type 0 where
  from_pool :
      {pool pool' : BufferPool} {i : ℕ}
      → i < count
      → num_elements ≤ num_static
      → bit pool.mask i ≡ 1
      → bit pool'.mask i ≡ 0
      → ((j : ℕ) → j ≢ i → bit pool'.mask j ≡ bit pool.mask j)
      → ((j : ℕ) → bit (release_buffer (static_buffer i) pool').mask j ≡ bit pool.mask j)
      → IsServed count num_static num_elements pool (static_buffer i) pool'
  from_map :
      {pool : BufferPool} {place : BufferPlace}
      → ((i : ℕ) → place ≢ static_buffer i)
      → (num_static < num_elements) ⊎ ((i : ℕ) → i < count → bit pool.mask i ≡ 0)
      → IsServed count num_static num_elements pool place pool

module _ (count num_static page_size : ℕ) (maps : Bool) (num_elements : ℕ) (pool : BufferPool)
    (some_bit : 0 < pool.mask) (fits : pool.mask < u64_mod) where
  abbrev index : ℕ
  index = get_least_significant_set_bit_index pool.mask

  index_lem : (index < 64) × (bit pool.mask index ≡ 1) × (pool.mask % 2 ^ index ≡ 0)
  index_lem = least_significant_lem pool.mask some_bit fits

  one_shifted : shl64 1 index ≡ 2 ^ index
  one_shifted =
      shl64_eq 1 index (omega (arith, two_pow_lt index 64 (index_lem.0), one-mul (2 ^ index)))
      ∙ one-mul (2 ^ index)

  not_static : (i : ℕ) → get_dynamic_buffer page_size maps num_elements ≢ static_buffer i
  unfolding get_dynamic_buffer
  not_static i e = ground (arith, e)

  low_bit_zero : (i : ℕ) → i < index → bit pool.mask i ≡ 0
  low_bit_zero i lt =
      let d = index - i - 1 in
      let q = pool.mask / 2 ^ index in
      let power : 2 ^ index ≡ 2 ^ d * 2 * 2 ^ i =
        ap (λ (t : ℕ). 2 ^ t) {y = suc d + i} (omega arith)
        ∙ two_pow_add (suc d) i
        ∙ ap (λ (t : ℕ). t * 2 ^ i) (pow-suc 2 d) in
      let split : pool.mask ≡ q * 2 ^ d * 2 * 2 ^ i + 0 =
        omega
          (arith, index_lem.2, div-add-mod' pool.mask (2 ^ index), ap (λ (t : ℕ). q * t) power) in
      ap (λ (t : ℕ). t / 2 ^ i % 2) split
      ∙ ap (λ (t : ℕ). t % 2)
          (quotient_lem (q * 2 ^ d * 2) (2 ^ i) 0 (one-le-pow i 2 (omega arith)))
      ∙ omega arith

  taken :
      leb count index ≡ false
      → num_elements ≤ num_static
      → IsServed count num_static num_elements pool
          (static_buffer index)
          (record { mask = bit_xor pool.mask (shl64 1 index) })
  unfolding release_buffer
  taken free small = rw one_shifted (
      from_pool (ground arith) small (index_lem.1)
        (omega
          (arith, bit-bit_xor index pool.mask (2 ^ index), bit-two_pow_self index, index_lem.1))
        (λ j ne.
          omega
            (arith, bit-bit_xor j pool.mask (2 ^ index), bit-two_pow_ne index j (λ e. ne (sym e))))
        restored)
    where
      restored :
          (j : ℕ) → bit (bit_or (bit_xor pool.mask (2 ^ index)) (shl64 1 index)) j ≡ bit pool.mask j
      restored j = rw one_shifted (elim (Bool-cases (j == index)) [
        | inl same ↦
            let e : j ≡ index = (==_iff j index).0 same in
            ap (bit (bit_or (bit_xor pool.mask (2 ^ index)) (2 ^ index))) e
            ∙ omega (
              arith,
              bit-bit_or index (bit_xor pool.mask (2 ^ index)) (2 ^ index),
              bit-bit_xor index pool.mask (2 ^ index),
              bit-two_pow_self index,
              index_lem.1,
            )
            ∙ ap (bit pool.mask) (sym e)
        | inr other ↦ omega (
          arith,
          bit-bit_or j (bit_xor pool.mask (2 ^ index)) (2 ^ index),
          bit-bit_xor j pool.mask (2 ^ index),
          bit-two_pow_ne index j (λ e. ground (arith, e)),
        )
      ])

  -- For a mask that is not 0 and below 2 ^ 64, `getBuffer` answers with a static buffer that was
  -- free, marks this one and no other as used, and `releaseBuffer` then restores each bit of the
  -- mask; or it answers without a static buffer and keeps the mask, and then the request is too
  -- large or every static buffer is in use.
  pub get_buffer-IsServed :
      let (place, pool') = get_buffer count num_static page_size maps num_elements pool in
      IsServed count num_static num_elements pool place pool'
  unfolding get_buffer
  get_buffer-IsServed = elim (Bool-cases (ltb num_static num_elements)) [
    | inl large ↦ rw large (from_map not_static (inl (ltb→lt num_static num_elements large)))
    | inr small ↦ elim (Bool-cases (leb count index)) [
      | inl full ↦ rw small (
          rw full (
            from_map not_static
              (inr (λ i lt. low_bit_zero i (omega (arith, leb→le count index full))))))
      | inr free ↦ rw small (rw free (taken free (ground arith)))
    ]
  ]
