-- ===== src/Chunk/Load.antt =====
-- storeHeader and loadHeader of LLVM_SCUDO_MTE/chunk.h.
use native.Mathlib.Nat.{div-eq_of_lt, pow-le-pow_right}
use native.Mathlib.Decide.{dec_lt}
use mathlib.Core.Path.{subst}
use riscv_mte.Base.{
  ℕ, zero, suc, ◌/◌, ◌%◌, ◌^◌, ◌≤◌, ◌<◌, ◌≡◌, ◌≢◌, refl, ◌⊎◌, sym, ap, ◌∙◌, [], ◌∷◌, arith, inl,
  inr, u16,
}
use riscv_mte.Checksum.{
  Checksum, bsd, hardware_crc32, compute_checksum, compute_bsd_checksum, fold_words,
}
use riscv_mte.Checksum.Injective.{
  byte, byte_ext, compute_bsd_checksum-lt, compute_bsd_checksum_word,
}
use riscv_mte.Chunk.{
  UnpackedHeader, Fits, pack, unpack, Memory, write, header_cell, Loaded, header, header_corruption,
  compute_header_checksum, store_header, load_header,
}
use riscv_mte.Chunk.Pack.{
  unpack-Fits, unpack-pack, pack-zero_checksum, unpack-checksum, pack-lt, Fits-checksum,
}

compute_checksum-lt :
    (crc : ℕ → ℕ → ℕ) (algorithm : Checksum) (seed value word : ℕ)
    → compute_checksum crc algorithm seed value (word ∷ []) < 2 ^ 16
unfolding compute_checksum fold_words
compute_checksum-lt crc bsd seed value word =
    compute_bsd_checksum-lt _ word (compute_bsd_checksum-lt (u16 seed) value (omega arith))
compute_checksum-lt crc hardware_crc32 seed value word = omega arith

-- The bytes of a word with its top two bytes cleared.
byte-low : (w j : ℕ) → j < 6 → byte (w % 2 ^ 48) j ≡ byte w j
byte-low w zero h = omega arith
byte-low w (suc zero) h = omega arith
byte-low w (suc (suc zero)) h = omega arith
byte-low w (suc (suc (suc zero))) h = omega arith
byte-low w (suc (suc (suc (suc zero)))) h = omega arith
byte-low w (suc (suc (suc (suc (suc zero))))) h = omega arith
byte-low w (suc (suc (suc (suc (suc (suc j)))))) h = absurd (omega arith)

byte-high : (w j : ℕ) → 6 ≤ j → byte (w % 2 ^ 48) j ≡ 0
byte-high w j h =
    let high : 256 ^ 6 ≤ 256 ^ j = pow-le-pow_right (omega arith) h in
    let fits : w % 2 ^ 48 < 256 ^ j = omega arith in ap (λ (t : ℕ). t % 256) (div-eq_of_lt fits)

-- Two words that agree in a byte agree in it with the top two bytes cleared.
byte-low_eq :
    (w w' j : ℕ) → (j < 6 → byte w j ≡ byte w' j) → byte (w % 2 ^ 48) j ≡ byte (w' % 2 ^ 48) j
byte-low_eq w w' j same = elim (dec_lt j 6) [
  | yes lt ↦ byte-low w j lt ∙ same lt ∙ sym (byte-low w' j lt)
  | no ge ↦ byte-high w j (omega arith) ∙ sym (byte-high w' j (omega arith))
]

module _ (crc : ℕ → ℕ → ℕ) (algorithm : Checksum) (cookie : ℕ) where
  -- A header whose fields fit and that is stored at a chunk loads from there, with its checksum
  -- filled in, whatever the algorithm, and the store leaves the words at all other addresses alone.
  pub load_header-store_header :
      (ptr : ℕ) (h : UnpackedHeader) (m : Memory)
      → Fits h
      → (load_header crc algorithm cookie ptr (store_header crc algorithm cookie ptr h m).1
          ≡ header (store_header crc algorithm cookie ptr h m).0)
        × ((a : ℕ) → a ≢ header_cell ptr → (store_header crc algorithm cookie ptr h m).1 a ≡ m a)
  unfolding load_header store_header write compute_header_checksum
  load_header-store_header ptr h m f =
      let sum = compute_checksum crc algorithm cookie ptr (pack (record h { checksum = 0 }) ∷ []) in
      let fits = Fits-checksum h sum f (compute_checksum-lt crc algorithm cookie ptr _) in
      let back = unpack-pack (record h { checksum = sum }) fits in
      (ground (arith, back), λ a ne. ground arith)

  -- The word of a header whose checksum is right.
  abbrev pub Valid : ℕ → ℕ → Type 0
  Valid ptr w = w / 2 ^ 48 ≡ compute_checksum crc algorithm cookie ptr (w % 2 ^ 48 ∷ [])

  -- If the word at the header's address is below 2 ^ 64, then `loadHeader` returns the unpacked
  -- header where the word's top 16 bits are the checksum of the cookie, the chunk's address and the
  -- word's lower 48 bits, and reports the corruption of the unpacked header exactly where they are
  -- not.
  pub load_header_cases :
      (ptr : ℕ) (m : Memory)
      → m (header_cell ptr) < 2 ^ 64
      → (Valid ptr (m (header_cell ptr))
          × (load_header crc algorithm cookie ptr m ≡ header (unpack (m (header_cell ptr)))))
        ⊎ ((load_header crc algorithm cookie ptr m
              ≡ header_corruption (unpack (m (header_cell ptr))))
            × ¬ Valid ptr (m (header_cell ptr)))
  unfolding load_header compute_header_checksum
  load_header_cases ptr m h =
      ground
        (arith, pack-zero_checksum (m (header_cell ptr)), unpack-checksum (m (header_cell ptr)) h)

  pub stored-lt :
      (ptr : ℕ) (h : UnpackedHeader) (m : Memory)
      → Fits h
      → (store_header crc algorithm cookie ptr h m).1 (header_cell ptr) < 2 ^ 64
  unfolding store_header write compute_header_checksum
  stored-lt ptr h m f =
      let sum = compute_checksum crc algorithm cookie ptr (pack (record h { checksum = 0 }) ∷ []) in
      let fits = Fits-checksum h sum f (compute_checksum-lt crc algorithm cookie ptr _) in
      ground (arith, pack-lt (record h { checksum = sum }) fits)

  pub stored-Valid :
      (ptr : ℕ) (h : UnpackedHeader) (m : Memory)
      → Fits h
      → Valid ptr ((store_header crc algorithm cookie ptr h m).1 (header_cell ptr))
  stored-Valid ptr h m f =
      elim (load_header_cases ptr (store_header crc algorithm cookie ptr h m).1
        (stored-lt ptr h m f)) [
          | inl (v, _) ↦ v
          | inr (reports, _) ↦ absurd (cc ((load_header-store_header ptr h m f).0))
        ]

-- Of the words that differ in one byte, at most one is a valid header.
Valid-unique :
    (crc : ℕ → ℕ → ℕ) (cookie ptr w w' i : ℕ)
    → w < 2 ^ 64
    → w' < 2 ^ 64
    → ((j : ℕ) → j ≢ i → byte w j ≡ byte w' j)
    → Valid crc bsd cookie ptr w
    → Valid crc bsd cookie ptr w'
    → w ≡ w'
unfolding compute_checksum fold_words
Valid-unique crc cookie ptr w w' i p p' same v v' = elim (dec_lt i 6) [
  | yes low ↦
      let top : w / 2 ^ 48 ≡ w' / 2 ^ 48 =
        omega (arith, same 6 (omega arith), same 7 (omega arith)) in
      let rest =
        compute_bsd_checksum_word (compute_bsd_checksum (u16 cookie) ptr) (w % 2 ^ 48) (w' % 2 ^ 48)
          i (compute_bsd_checksum-lt (u16 cookie) ptr (omega arith)) (omega arith) (omega arith)
          (λ j ne. byte-low_eq w w' j (λ lt. same j ne)) (sym v ∙ top ∙ v') in
      omega arith
  | no high ↦
      let rest : w % 2 ^ 48 ≡ w' % 2 ^ 48 =
        byte_ext 6 (w % 2 ^ 48) (w' % 2 ^ 48) (omega arith) (omega arith)
          (λ j. byte-low_eq w w' j (λ lt. same j (omega arith))) in
      let top : w / 2 ^ 48 ≡ w' / 2 ^ 48 =
        v ∙ ap (λ t. compute_checksum crc bsd cookie ptr (t ∷ [])) rest ∙ sym v' in
      omega arith
]

-- With the BSD checksum, a change of a stored header in a single byte is detected: if the word at
-- the header's address is below 2 ^ 64, differs from the word that `storeHeader` put there for a
-- header whose fields fit, and agrees with it in all bytes but one, then `loadHeader` reports the
-- corruption.
pub load_header_detects :
    (crc : ℕ → ℕ → ℕ) (cookie ptr : ℕ) (h : UnpackedHeader) (m m' : Memory) (i : ℕ)
    → Fits h
    → m' (header_cell ptr) < 2 ^ 64
    → ((j : ℕ)
        → j ≢ i
        → byte (m' (header_cell ptr)) j
          ≡ byte ((store_header crc bsd cookie ptr h m).1 (header_cell ptr)) j)
    → m' (header_cell ptr) ≢ (store_header crc bsd cookie ptr h m).1 (header_cell ptr)
    → load_header crc bsd cookie ptr m' ≡ header_corruption (unpack (m' (header_cell ptr)))
load_header_detects crc cookie ptr h m m' i f fits same ne =
    elim (load_header_cases crc bsd cookie ptr m' fits) [
      | inl (v', loads) ↦ absurd (
          ne (
            Valid-unique crc cookie ptr _ _ i fits (stored-lt crc bsd cookie ptr h m f) same v'
              (stored-Valid crc bsd cookie ptr h m f)))
      | inr (reports, _) ↦ reports
    ]

abbrev contents : Loaded → UnpackedHeader
contents (header h) = h
contents (header_corruption h) = h

-- The fields of a header that loads fit.
pub load_header-Fits :
    (crc : ℕ → ℕ → ℕ) (algorithm : Checksum) (cookie ptr : ℕ) (m : Memory) (h : UnpackedHeader)
    → load_header crc algorithm cookie ptr m ≡ header h
    → Fits h
unfolding load_header
load_header-Fits crc algorithm cookie ptr m h e =
    let word = m (header_cell ptr) in
    let unpacked : contents (load_header crc algorithm cookie ptr m) ≡ unpack word = ground arith in
    subst Fits (sym unpacked ∙ ap contents e) (unpack-Fits word)

pub Loaded-cases :
    (l : Loaded)
    → ((h : UnpackedHeader) × (l ≡ header h)) ⊎ ((h : UnpackedHeader) × (l ≡ header_corruption h))
Loaded-cases (header h) = inl (h, refl)
Loaded-cases (header_corruption h) = inr (h, refl)
