-- ===== src/Combined/Bytes.antt =====
-- The calls of memset and memcpy in LLVM_SCUDO_MTE/combined.h: they change single bytes of the words
-- of a memory, also in the words that a range covers in part.
use riscv_mte.Base.{
  ℕ, zero, suc, ◌+◌, ◌-◌, ◌*◌, ◌/◌, ◌%◌, ◌^◌, ◌<◌, ◌≡◌, sym, ap, ◌∙◌, arith, false, ◌&&◌, ltb, leb,
  if◌then◌else◌,
}
use riscv_mte.Checksum.Injective.{byte, byte-suc}
use riscv_mte.Chunk.{Memory}

-- The cell of a pointer: its tag takes no part in addressing.
abbrev pub cell : ℕ → ℕ
cell ptr = ptr % 2 ^ 60

-- The lowest `n` bytes of a word at `a`, where those in the range are replaced.
unfoldable pub set_word : (n a start end : ℕ) (value : ℕ → ℕ) (word : ℕ) → ℕ
set_word zero a start end value word = 0
set_word (suc n) a start end value word =
    (if leb start a && ltb a end then value a else word % 256)
    + 256 * set_word n (a + 1) start end value (word / 256)

-- The bytes from `start` to `end`, as a function of their address.
unfoldable pub set_bytes : (start end : ℕ) (value : ℕ → ℕ) → Memory → Memory
set_bytes start end value m a = set_word 8 a start end value (m a)

unfoldable pub memset : (ptr value size : ℕ) → Memory → Memory
memset ptr value size = set_bytes (cell ptr) (cell ptr + size) (λ a. value)

unfoldable pub load_byte : Memory → ℕ → ℕ
load_byte m a = byte (m (a - a % 8)) (a % 8)

unfoldable pub memcpy : (target source size : ℕ) → Memory → Memory
memcpy target source size m =
    set_bytes (cell target) (cell target + size)
      (λ a. load_byte m (cell source + (a - cell target))) m

-- A byte in front of the range stays.
set_word-below :
    (n j a start end : ℕ) (value : ℕ → ℕ) (word : ℕ)
    → j < n
    → a + j < start
    → byte (set_word n a start end value word) j ≡ byte word j
unfolding set_word
set_word-below zero j a start end value word h below = absurd (omega arith)
set_word-below (suc n) zero a start end value word h below =
    let outside : (leb start a && ltb a end) ≡ false = ground (arith, below) in
    rw outside (omega arith)
set_word-below (suc n) (suc j) a start end value word h below =
    let outside : (leb start a && ltb a end) ≡ false = ground (arith, below) in
    let rest = set_word n (a + 1) start end value (word / 256) in
    rw outside (
      byte-suc (word % 256 + 256 * rest) j
      ∙ ap (λ (t : ℕ). byte t j) {y = rest} (omega arith)
      ∙ set_word-below n j (a + 1) start end value (word / 256) (omega arith) (omega arith)
      ∙ sym (byte-suc word j))

pub memset-below :
    (ptr value size : ℕ) (m : Memory) (a j : ℕ)
    → j < 8
    → a + j < cell ptr
    → byte (memset ptr value size m a) j ≡ byte (m a) j
unfolding memset set_bytes
memset-below ptr value size m a j h below =
    set_word-below 8 j a (cell ptr) (cell ptr + size) (λ b. value) (m a) h below
