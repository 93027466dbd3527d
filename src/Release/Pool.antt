-- ===== src/Release/Pool.antt =====
-- BufferPool of LLVM_SCUDO_MTE/release.h: a few static buffers, and mapped memory when they do not
-- serve. A lock makes each access to the mask one step. `maps` is the answer of `MemMap.map`.
pub mod Exchange
use riscv_mte.Base.{
  ℕ, ◌+◌, ◌*◌, ◌^◌, Bool, true, false, Option, none, some, bit_or, bit_xor, ltb, leb, if◌then◌else◌,
  add64, mul64, shl64,
}
use riscv_mte.Common.{get_least_significant_set_bit_index, round_up}

-- `static_buffer` names one of the static buffers, `dynamic` is mapped, with the size mapped.
pub data BufferPlace : Type 0 where
  no_buffer : BufferPlace
  static_buffer : ℕ → BufferPlace
  dynamic : ℕ → BufferPlace

-- '1' means that a buffer is not used.
pub record BufferPool : Type 0 where
  pub mask : ℕ

-- The size of an element is 8.
unfoldable pub get_dynamic_buffer : (page_size : ℕ) (maps : Bool) (num_elements : ℕ) → BufferPlace
get_dynamic_buffer page_size maps num_elements =
    if maps then dynamic (round_up (mul64 num_elements 8) page_size) else no_buffer

-- A dynamic buffer is unmapped.
unfoldable pub release_buffer : BufferPlace → BufferPool → BufferPool
release_buffer no_buffer pool = pool
release_buffer (static_buffer index) pool = record { mask = bit_or pool.mask (shl64 1 index) }
release_buffer (dynamic size) pool = pool

module _ (static_buffer_count static_buffer_num_elements page_size : ℕ) where
  unfoldable pub get_buffer :
      (maps : Bool) (num_elements : ℕ) → BufferPool → BufferPlace × BufferPool
  get_buffer maps num_elements pool =
      if ltb static_buffer_num_elements num_elements
      then (get_dynamic_buffer page_size maps num_elements, pool)
      else let index = get_least_significant_set_bit_index pool.mask in
        if leb static_buffer_count index
        then (get_dynamic_buffer page_size maps num_elements, pool)
        else (static_buffer index, record { mask = bit_xor pool.mask (shl64 1 index) })
