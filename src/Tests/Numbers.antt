-- ===== src/Tests/Numbers.antt =====
-- common.h, checksum.h and options.h at concrete inputs.
use riscv_mte.Base.{ℕ, zero, suc, sym, ◌∙◌, ◌≡◌, refl, ◌≢◌, List, [], ◌∷◌, arith, add64, mul64}
use riscv_mte.Common.{compute_percentage}
use riscv_mte.Checksum.{compute_bsd_checksum}
use riscv_mte.Checksum.Injective.{byte, byte-suc, compute_bsd_checksum_detects}

abbrev deck : List ℕ
deck = 7 ∷ 8 ∷ 9 ∷ 8 ∷ []

-- The percentage of 2 in 201 prints as 0 and 100 hundredths.
fraction_of_100 : compute_percentage 2 201 ≡ (0, 100)
unfolding compute_percentage add64 mul64
fraction_of_100 = refl

-- Two words that differ in their second byte only.
second_byte : (j : ℕ) → j ≢ 1 → byte 0x1122 j ≡ byte 0x1322 j
second_byte zero ne = refl
second_byte (suc zero) ne = absurd (ne refl)
second_byte (suc (suc j)) ne =
    byte-suc 0x1122 (suc j)
    ∙ byte-suc 0x11 j
    ∙ sym (byte-suc 0x13 j)
    ∙ sym (byte-suc 0x1322 (suc j))

compute_bsd_checksum_detects_example :
    compute_bsd_checksum 77 0x1122 ≢ compute_bsd_checksum 77 0x1322
compute_bsd_checksum_detects_example =
    compute_bsd_checksum_detects 77 0x1122 0x1322 1 (omega arith) (omega arith) (omega arith)
      second_byte (omega arith)
