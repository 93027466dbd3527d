-- ===== src/Chunk/Pack.antt =====
-- The header of LLVM_SCUDO_MTE/chunk.h and its word.
use riscv_mte.Base.{ℕ, ◌/◌, ◌%◌, ◌^◌, ◌<◌, ◌≡◌, arith}
use riscv_mte.Chunk.{UnpackedHeader, Fits, pack, unpack}

-- A header whose fields fit comes back from the word that it is packed into.
pub unpack-pack : (h : UnpackedHeader) → Fits h → unpack (pack h) ≡ h
unfolding pack unpack
unpack-pack h f = ground arith

pub pack-unpack : (w : ℕ) → w < 2 ^ 64 → pack (unpack w) ≡ w
unfolding pack unpack
pack-unpack w h = omega arith

pub unpack-Fits : (w : ℕ) → Fits (unpack w)
unfolding unpack
unpack-Fits w = omega arith

pub pack-lt : (h : UnpackedHeader) → Fits h → pack h < 2 ^ 64
unfolding pack
pack-lt h f = omega arith

-- The word of a header whose checksum is cleared: the six lower bytes of its word.
pub pack-zero_checksum : (w : ℕ) → pack (record (unpack w) { checksum = 0 }) ≡ w % 2 ^ 48
unfolding pack unpack
pack-zero_checksum w = omega arith

pub unpack-checksum : (w : ℕ) → w < 2 ^ 64 → (unpack w).checksum ≡ w / 2 ^ 48
unfolding unpack
unpack-checksum w h = omega arith

pub Fits-checksum :
    (h : UnpackedHeader) (sum : ℕ) → Fits h → sum < 2 ^ 16 → Fits (record h { checksum = sum })
Fits-checksum h sum f lt = omega arith
