-- ===== src/Chunk.antt =====
-- LLVM_SCUDO_MTE/chunk.h: the 8-byte header in front of a chunk. A header is packed into one word
-- in the order of its bit fields, lowest first, and its checksum covers the cookie, the chunk's
-- address and the other fields. Memory holds a word of 8 bytes at each address that is a
-- multiple of 8; a relaxed atomic access to a header is a read or a write of one word. An access
-- does not fault: the check of a pointer's tag against that of memory is not part of the model.
pub mod Pack
pub mod Load
use riscv_mte.Base.{
  ℕ, ◌+◌, ◌-◌, ◌*◌, ◌/◌, ◌%◌, ◌^◌, ◌<◌, List, [], ◌∷◌, Bool, ◌==◌, if◌then◌else◌, sub64,
}
use riscv_mte.Checksum.{Checksum, compute_checksum}

pub data Origin : Type 0 where
  malloc new new_array memalign : Origin

pub data State : Type 0 where
  available allocated quarantined : State

abbrev pub origin_code : Origin → ℕ
origin_code malloc = 0
origin_code new = 1
origin_code new_array = 2
origin_code memalign = 3

abbrev pub state_code : State → ℕ
state_code available = 0
state_code allocated = 1
state_code quarantined = 2

-- A bit field holds a number, which a damaged header may leave without a meaning.
pub record UnpackedHeader : Type 0 where
  pub class_id : ℕ
  pub state : ℕ
  pub origin_or_was_zeroed : ℕ
  pub size_or_unused_bytes : ℕ
  pub offset : ℕ
  pub checksum : ℕ

abbrev pub class_id_mask : ℕ
class_id_mask = 2 ^ 8 - 1

abbrev pub origin_mask : ℕ
origin_mask = 2 ^ 2 - 1

abbrev pub size_or_unused_bytes_mask : ℕ
size_or_unused_bytes_mask = 2 ^ 20 - 1

abbrev pub offset_mask : ℕ
offset_mask = 2 ^ 16 - 1

-- The header takes one unit of the minimal alignment, 16 bytes.
abbrev pub header_size : ℕ
header_size = 16

-- What each bit field can hold.
pub record Fits (h : UnpackedHeader) : Type 0 where
  pub class_id : h.class_id < 2 ^ 8
  pub state : h.state < 2 ^ 2
  pub origin_or_was_zeroed : h.origin_or_was_zeroed < 2 ^ 2
  pub size_or_unused_bytes : h.size_or_unused_bytes < 2 ^ 20
  pub offset : h.offset < 2 ^ 16
  pub checksum : h.checksum < 2 ^ 16

-- `bit_cast` from the fields to the word, and back.
unfoldable pub pack : UnpackedHeader → ℕ
pack h =
    h.class_id
    + h.state * 2 ^ 8
    + h.origin_or_was_zeroed * 2 ^ 10
    + h.size_or_unused_bytes * 2 ^ 12
    + h.offset * 2 ^ 32
    + h.checksum * 2 ^ 48

unfoldable pub unpack : ℕ → UnpackedHeader
unpack w = record {
  class_id = w % 2 ^ 8;
  state = w / 2 ^ 8 % 2 ^ 2;
  origin_or_was_zeroed = w / 2 ^ 10 % 2 ^ 2;
  size_or_unused_bytes = w / 2 ^ 12 % 2 ^ 20;
  offset = w / 2 ^ 32 % 2 ^ 16;
  checksum = w / 2 ^ 48 % 2 ^ 16;
}

abbrev pub Memory : Type 0
Memory = ℕ → ℕ

unfoldable pub write : Memory → ℕ → ℕ → Memory
write m a w b = if b == a then w else m b

-- `getAtomicHeader` and `getConstAtomicHeader`.
unfoldable pub get_atomic_header : ℕ → ℕ
get_atomic_header ptr = sub64 ptr header_size

-- The cell of memory where a chunk's header stands: the tag of a pointer, in its top four bits,
-- takes no part in addressing.
unfoldable pub header_cell : ℕ → ℕ
header_cell ptr = get_atomic_header ptr % 2 ^ 60

-- What `loadHeader` does: it returns, or it reports and aborts.
pub data Loaded : Type 0 where
  header : UnpackedHeader → Loaded
  header_corruption : UnpackedHeader → Loaded

module _ (crc : ℕ → ℕ → ℕ) (algorithm : Checksum) (cookie : ℕ) where
  unfoldable pub compute_header_checksum : ℕ → UnpackedHeader → ℕ
  compute_header_checksum ptr h =
      compute_checksum crc algorithm cookie ptr (pack (record h { checksum = 0 }) ∷ [])

  -- The header as stored, with its new checksum, and the memory.
  unfoldable pub store_header : ℕ → UnpackedHeader → Memory → UnpackedHeader × Memory
  store_header ptr h m =
      let stored = record h { checksum = compute_header_checksum ptr h } in
      (stored, write m (header_cell ptr) (pack stored))

  unfoldable pub is_valid : ℕ → Memory → Bool × UnpackedHeader
  is_valid ptr m =
      let h = unpack (m (header_cell ptr)) in (h.checksum == compute_header_checksum ptr h, h)

  unfoldable pub load_header : ℕ → Memory → Loaded
  load_header ptr m =
      let h = unpack (m (header_cell ptr)) in
      if h.checksum == compute_header_checksum ptr h then header h else header_corruption h
