-- ===== src/Checksum/Injective.antt =====
-- computeBSDChecksum of LLVM_SCUDO_MTE/checksum.h, round by round: a round as a map of the sum and of
-- the byte.
use native.Mathlib.Nat.{pow-suc, pow-succ', div-div-eq-div-mul}
use riscv_mte.Base.{
  ℕ, zero, suc, ◌+◌, ◌*◌, ◌/◌, ◌%◌, ◌^◌, ◌<◌, ◌≡◌, ◌≢◌, sym, ap, ◌∙◌, arith, shr, bit_and, bit_or,
}
use riscv_mte.Bits.{bit_and-one, bit_and-low_mask, bit_or_fields, bit_or_comm}
use riscv_mte.Checksum.{bsd_round, bsd_loop, compute_bsd_checksum}

-- The rotation as arithmetic.
bsd_round-eq :
    (sum byte : ℕ)
    → sum < 2 ^ 16
    → bsd_round sum byte ≡ (sum / 2 + sum % 2 * 2 ^ 15 + byte) % 2 ^ 16
unfolding bsd_round
bsd_round-eq sum byte h =
    let rotated : bit_or (shr sum 1) (bit_and sum 1 * 2 ^ 15) ≡ sum / 2 + sum % 2 * 2 ^ 15 =
      bit_or_comm (shr sum 1) (bit_and sum 1 * 2 ^ 15)
      ∙ omega (arith, bit_or_fields 15 (bit_and sum 1) (sum / 2) (omega arith), bit_and-one sum) in
    rw rotated (omega arith)

bsd_round-lt : (sum byte : ℕ) → bsd_round sum byte < 2 ^ 16
unfolding bsd_round
bsd_round-lt sum byte = omega arith

bsd_round_sum :
    (sum sum' byte : ℕ)
    → sum < 2 ^ 16
    → sum' < 2 ^ 16
    → bsd_round sum byte ≡ bsd_round sum' byte
    → sum ≡ sum'
bsd_round_sum sum sum' byte h h' e =
    omega (arith, bsd_round-eq sum byte h, bsd_round-eq sum' byte h')

bsd_round_byte :
    (sum byte byte' : ℕ)
    → sum < 2 ^ 16
    → byte < 256
    → byte' < 256
    → bsd_round sum byte ≡ bsd_round sum byte'
    → byte ≡ byte'
bsd_round_byte sum byte byte' h p p' e =
    omega (arith, bsd_round-eq sum byte h, bsd_round-eq sum byte' h)

bsd_loop-lt : (n sum word : ℕ) → sum < 2 ^ 16 → bsd_loop n sum word < 2 ^ 16
unfolding bsd_loop
bsd_loop-lt zero sum word h = h
bsd_loop-lt (suc n) sum word h = bsd_loop-lt n _ (shr word 8) (bsd_round-lt sum (bit_and word 0xff))

pub compute_bsd_checksum-lt : (sum word : ℕ) → sum < 2 ^ 16 → compute_bsd_checksum sum word < 2 ^ 16
unfolding compute_bsd_checksum
compute_bsd_checksum-lt sum word h = bsd_loop-lt 8 sum word h

bsd_loop_sum :
    (n sum sum' word : ℕ)
    → sum < 2 ^ 16
    → sum' < 2 ^ 16
    → bsd_loop n sum word ≡ bsd_loop n sum' word
    → sum ≡ sum'
unfolding bsd_loop
bsd_loop_sum zero sum sum' word h h' e = e
bsd_loop_sum (suc n) sum sum' word h h' e =
    let byte = bit_and word 0xff in
    bsd_round_sum sum sum' byte h h' (
      bsd_loop_sum n (bsd_round sum byte) (bsd_round sum' byte) (shr word 8) (bsd_round-lt sum byte)
        (bsd_round-lt sum' byte) e)

-- The byte of a word at a position.
abbrev pub byte : ℕ → ℕ → ℕ
byte word i = word / 256 ^ i % 256

pub byte-suc : (word i : ℕ) → byte word (suc i) ≡ byte (word / 256) i
byte-suc word i =
    ap (λ (t : ℕ). t % 256)
      (ap (λ (t : ℕ). word / t) (pow-succ' 256 i) ∙ sym (div-div-eq-div-mul word 256 (256 ^ i)))

pub byte_ext : (n a b : ℕ) → a < 256 ^ n → b < 256 ^ n → ((i : ℕ) → byte a i ≡ byte b i) → a ≡ b
byte_ext zero a b p q same = omega arith
byte_ext (suc n) a b p q same = omega (
  arith,
  byte_ext n (a / 256) (b / 256) (omega (arith, pow-suc 256 n)) (omega (arith, pow-suc 256 n))
      (λ i. sym (byte-suc a i) ∙ same (suc i) ∙ byte-suc b i),
  same 0,
)

low_byte : (word : ℕ) → bit_and word 0xff ≡ word % 256
low_byte word = bit_and-low_mask 8 word

bsd_loop_word :
    (n sum a b i : ℕ)
    → sum < 2 ^ 16
    → a < 256 ^ n
    → b < 256 ^ n
    → ((j : ℕ) → j ≢ i → byte a j ≡ byte b j)
    → bsd_loop n sum a ≡ bsd_loop n sum b
    → a ≡ b
unfolding bsd_loop
bsd_loop_word zero sum a b i h p q same e = omega arith
bsd_loop_word (suc n) sum a b zero h p q same e =
    let rest : a / 256 ≡ b / 256 =
      byte_ext n (a / 256) (b / 256) (omega (arith, pow-suc 256 n)) (omega (arith, pow-suc 256 n))
        (λ j. sym (byte-suc a j) ∙ same (suc j) (omega arith) ∙ byte-suc b j) in
    let sums =
      bsd_loop_sum n (bsd_round sum (bit_and a 0xff)) (bsd_round sum (bit_and b 0xff)) (shr b 8)
        (bsd_round-lt sum _) (bsd_round-lt sum _)
        (ap (bsd_loop n (bsd_round sum (bit_and a 0xff))) (sym rest) ∙ e) in
    let bytes =
      bsd_round_byte sum (bit_and a 0xff) (bit_and b 0xff) h (omega (arith, low_byte a))
        (omega (arith, low_byte b)) sums in
    omega (arith, low_byte a, low_byte b)
bsd_loop_word (suc n) sum a b (suc i) h p q same e =
    let low : bit_and a 0xff ≡ bit_and b 0xff =
      omega (arith, low_byte a, low_byte b, same 0 (omega arith)) in
    let rest =
      bsd_loop_word n (bsd_round sum (bit_and a 0xff)) (a / 256) (b / 256) i (bsd_round-lt sum _)
        (omega (arith, pow-suc 256 n)) (omega (arith, pow-suc 256 n))
        (λ j ne. sym (byte-suc a j) ∙ same (suc j) (λ s. ne (omega arith)) ∙ byte-suc b j)
        (e ∙ ap (λ (t : ℕ). bsd_loop n (bsd_round sum t) (shr b 8)) (sym low)) in
    omega (arith, low_byte a, low_byte b)

pub compute_bsd_checksum_word :
    (sum a b i : ℕ)
    → sum < 2 ^ 16
    → a < 2 ^ 64
    → b < 2 ^ 64
    → ((j : ℕ) → j ≢ i → byte a j ≡ byte b j)
    → compute_bsd_checksum sum a ≡ compute_bsd_checksum sum b
    → a ≡ b
unfolding compute_bsd_checksum
compute_bsd_checksum_word sum a b i h p q = bsd_loop_word 8 sum a b i h p q

-- The BSD checksum detects a damaged byte: two words of 64 bits that differ, and differ in one byte
-- only, have different checksums from the same 16-bit sum.
pub compute_bsd_checksum_detects :
    (sum a b i : ℕ)
    → sum < 2 ^ 16
    → a < 2 ^ 64
    → b < 2 ^ 64
    → ((j : ℕ) → j ≢ i → byte a j ≡ byte b j)
    → a ≢ b
    → compute_bsd_checksum sum a ≢ compute_bsd_checksum sum b
compute_bsd_checksum_detects sum a b i h p q same ne e =
    ne (compute_bsd_checksum_word sum a b i h p q same e)
