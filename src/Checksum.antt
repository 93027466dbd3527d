-- ===== src/Checksum.antt =====
-- LLVM_SCUDO_MTE/checksum.h and the checksum of chunk.h. A checksum mixes words, byte by byte, into
-- 16 bits. No riscv target has the CRC32 instructions, and where a processor has them, the function
-- `computeHardwareCRC32` is a parameter here.
pub mod Injective
use riscv_mte.Base.{
  ℕ, zero, suc, ◌+◌, ◌*◌, ◌/◌, ◌%◌, ◌^◌, List, [], ◌∷◌, u16, u32, shr, bit_and, bit_or, bit_xor,
}

pub data Checksum : Type 0 where
  bsd hardware_crc32 : Checksum

-- One round: rotate the sum right by one bit, and add a byte.
unfoldable pub bsd_round : ℕ → ℕ → ℕ
bsd_round sum byte = u16 (u16 (bit_or (shr sum 1) (bit_and sum 1 * 2 ^ 15)) + byte)

-- The loop over the bytes of a word, lowest first.
unfoldable pub bsd_loop : ℕ → ℕ → ℕ → ℕ
bsd_loop zero sum word = sum
bsd_loop (suc rounds) sum word = bsd_loop rounds (bsd_round sum (bit_and word 0xff)) (shr word 8)

unfoldable pub compute_bsd_checksum : ℕ → ℕ → ℕ
compute_bsd_checksum sum word = bsd_loop 8 sum word

unfoldable pub fold_words : (ℕ → ℕ → ℕ) → ℕ → List ℕ → ℕ
fold_words step sum [] = sum
fold_words step sum (w ∷ ws) = fold_words step (step sum w) ws

-- `computeChecksum` of chunk.h, with the algorithm that the global `HashAlgorithm` names.
unfoldable pub compute_checksum : (crc : ℕ → ℕ → ℕ) → Checksum → ℕ → ℕ → List ℕ → ℕ
compute_checksum crc hardware_crc32 seed value words =
    let sum = fold_words crc (crc seed value) words in u16 (bit_xor sum (shr sum 16))
compute_checksum crc bsd seed value words =
    fold_words compute_bsd_checksum (compute_bsd_checksum (u16 seed) value) words
