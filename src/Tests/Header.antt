-- ===== src/Tests/Header.antt =====
-- chunk.h at a concrete header.
use riscv_mte.Base.{ℕ, zero, suc, ◌≡◌, ◌≢◌, ◌⊎◌, refl, sym, ap, ◌∙◌, sub64, arith}
use riscv_mte.Checksum.{
  bsd, bsd_round, bsd_loop, compute_bsd_checksum, fold_words, compute_checksum,
}
use riscv_mte.Checksum.Injective.{byte, byte-suc}
use riscv_mte.Chunk.{
  UnpackedHeader, Fits, pack, unpack, Memory, write, compute_header_checksum, get_atomic_header,
  header_cell, header, header_corruption, store_header, load_header,
}
use riscv_mte.Chunk.Load.{Valid, load_header-store_header, load_header_cases, load_header_detects}

-- An allocated chunk of class 5 with 100 bytes.
abbrev pub chunk : UnpackedHeader
chunk = record {
  class_id = 5;
  state = 1;
  origin_or_was_zeroed = 0;
  size_or_unused_bytes = 100;
  offset = 0;
  checksum = 0;
}

pub chunk-Fits : Fits chunk
chunk-Fits = omega arith

abbrev pub no_crc : ℕ → ℕ → ℕ
no_crc sum word = sum

abbrev pub empty_memory : Memory
empty_memory a = 0

load_header-store_header_example :
    (load_header no_crc bsd 42 4096 (store_header no_crc bsd 42 4096 chunk empty_memory).1
      ≡ header (store_header no_crc bsd 42 4096 chunk empty_memory).0)
    × ((a : ℕ)
        → a ≢ header_cell 4096
        → (store_header no_crc bsd 42 4096 chunk empty_memory).1 a ≡ 0)
load_header-store_header_example =
    load_header-store_header no_crc bsd 42 4096 chunk empty_memory chunk-Fits

load_header_cases_example :
    (Valid no_crc bsd 42 4096 0 × (load_header no_crc bsd 42 4096 empty_memory ≡ header (unpack 0)))
    ⊎ ((load_header no_crc bsd 42 4096 empty_memory ≡ header_corruption (unpack 0))
        × ¬ Valid no_crc bsd 42 4096 0)
load_header_cases_example = load_header_cases no_crc bsd 42 4096 empty_memory (omega arith)

-- The word of the header in memory, with the checksum 0x3e6b.
stored_word :
    (store_header no_crc bsd 42 4096 chunk empty_memory).1 (header_cell 4096) ≡ 4497688652859982085
unfolding store_header compute_header_checksum compute_checksum compute_bsd_checksum bsd_loop
    bsd_round fold_words pack write header_cell get_atomic_header sub64
stored_word = refl

-- The memory with the class of the chunk changed from 5 to 6.
abbrev damaged : Memory
damaged a = 4497688652859982086

only_first_byte :
    (j : ℕ)
    → j ≢ 0
    → byte (damaged (header_cell 4096)) j
      ≡ byte ((store_header no_crc bsd 42 4096 chunk empty_memory).1 (header_cell 4096)) j
only_first_byte zero ne = absurd (ne refl)
only_first_byte (suc j) ne =
    byte-suc 4497688652859982086 j
    ∙ sym (byte-suc 4497688652859982085 j)
    ∙ ap (λ (t : ℕ). byte t (suc j)) (sym stored_word)

load_header_detects_example :
    load_header no_crc bsd 42 4096 damaged ≡ header_corruption (unpack 4497688652859982086)
load_header_detects_example =
    load_header_detects no_crc 42 4096 chunk empty_memory damaged 0 chunk-Fits (omega arith)
      only_first_byte (λ e. absurd (omega (arith, e, stored_word)))
