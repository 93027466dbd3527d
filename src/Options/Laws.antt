-- ===== src/Options/Laws.antt =====
-- The reads of LLVM_SCUDO_MTE/options.h after its updates.
use native.Mathlib.Nat.{one-mul, one-le-pow}
use riscv_mte.Base.{
  ℕ, zero, suc, ◌+◌, ◌*◌, ◌/◌, ◌^◌, ◌<◌, ◌≡◌, ◌≢◌, refl, sym, ap, ◌∙◌, true, false, arith, inl, inr,
  Bool-cases, bit_and, bit_or, ◌==◌, ◌!=◌, if◌then◌else◌,
}
use riscv_mte.Bits.{
  bit, bit-bit_and, bit-bit_or, bit-complement, bit-two_pow_self, bit-two_pow_ne,
  bit_and-shifted_mask, bit_and-one, bit_and-low_mask, two_pow_lt,
}
use riscv_mte.Options.{
  OptionBit, FillContentsMode, index, mode_code, not32, get, get_fill_contents_mode, clear, set,
  set_fill_contents_mode, fill_contents_0of2, fill_contents_1of2, no_fill, zero_fill,
  pattern_or_zero_fill,
}

index-lt : (opt : OptionBit) → index opt < 9
index-lt opt = grind arith

-- `get` reads the bit of the option.
get-bit : (val : ℕ) (opt : OptionBit) → get val opt ≡ (bit val (index opt) == 1)
unfolding get
get-bit val opt =
    let value : bit_and val (2 ^ index opt) ≡ bit val (index opt) * 2 ^ index opt =
      ap (bit_and val) (sym (one-mul (2 ^ index opt)))
      ∙ bit_and-shifted_mask (index opt) val 1
      ∙ ap (λ (t : ℕ). t * 2 ^ index opt) (bit_and-one (val / 2 ^ index opt)) in
    tests_agree (bit val (index opt)) (2 ^ index opt) (omega arith)
      (one-le-pow (index opt) 2 (omega arith)) value
  where
    tests_agree :
        (b p : ℕ)
        → b < 2
        → 0 < p
        → bit_and val (2 ^ index opt) ≡ b * p
        → (bit_and val (2 ^ index opt) != 0) ≡ (b == 1)
    tests_agree zero p h k e = ground arith
    tests_agree (suc zero) p h k e = ground arith
    tests_agree (suc (suc b)) p h k e = absurd (omega arith)

bit-two_pow : (k i : ℕ) → bit (2 ^ k) i ≡ (if k == i then 1 else 0)
bit-two_pow k i = elim (Bool-cases (k == i)) [
  | inl e ↦ let same : k ≡ i = ground arith in rw (e, ← same) (bit-two_pow_self k)
  | inr ne ↦ rw ne (bit-two_pow_ne k i (ground arith))
]

-- After `set` of an option, `get` answers true for it, and for every other option as before.
pub get-set :
    (val : ℕ) (opt other : OptionBit)
    → get (set val opt) other ≡ (if index opt == index other then true else get val other)
unfolding set
get-set val opt other = ground (
  arith,
  get-bit (bit_or val (2 ^ index opt)) other,
  get-bit val other,
  bit-bit_or (index other) val (2 ^ index opt),
  bit-two_pow (index opt) (index other),
)

-- After `clear` of an option, `get` answers false for it, and for every other option as before.
pub get-clear :
    (val : ℕ) (opt other : OptionBit)
    → get (clear val opt) other ≡ (if index opt == index other then false else get val other)
unfolding clear
get-clear val opt other = ground (
  arith,
  get-bit (bit_and val (not32 (2 ^ index opt))) other,
  get-bit val other,
  bit-bit_and (index other) val (not32 (2 ^ index opt)),
  bit-complement (index other) 32 (2 ^ index opt) (omega (arith, index-lt other))
      (two_pow_lt (index opt) 32 (omega (arith, index-lt opt))),
  bit-two_pow (index opt) (index other),
)

abbrev mode_mask : ℕ
mode_mask = not32 (3 * 2 ^ 1)

mask_keeps :
    (other : OptionBit) → index other ≢ 1 → index other ≢ 2 → bit mode_mask (index other) ≡ 1
mask_keeps fill_contents_0of2 p q = absurd (p refl)
mask_keeps fill_contents_1of2 p q = absurd (q refl)
mask_keeps _ p q = refl

mode_elsewhere :
    (mode : FillContentsMode) (other : OptionBit)
    → index other ≢ 1
    → index other ≢ 2
    → bit (mode_code mode * 2 ^ 1) (index other) ≡ 0
mode_elsewhere _ fill_contents_0of2 p q = absurd (p refl)
mode_elsewhere _ fill_contents_1of2 p q = absurd (q refl)
mode_elsewhere no_fill _ p q = refl
mode_elsewhere zero_fill _ p q = refl
mode_elsewhere _ _ p q = refl

mode_bits :
    (mode : FillContentsMode)
    → bit (mode_code mode * 2) 1 + 2 * bit (mode_code mode * 2) 2 ≡ mode_code mode
mode_bits no_fill = refl
mode_bits zero_fill = refl
mode_bits pattern_or_zero_fill = refl

-- After `setFillContentsMode`, `getFillContentsMode` answers the code of the mode that was set, and
-- `get` answers as before for every option outside the mode's two bits.
pub get_fill_contents_mode-set :
    (val : ℕ) (mode : FillContentsMode)
    → (get_fill_contents_mode (set_fill_contents_mode val mode) ≡ mode_code mode)
      × ((other : OptionBit)
          → index other ≢ 1
          → index other ≢ 2
          → get (set_fill_contents_mode val mode) other ≡ get val other)
unfolding get_fill_contents_mode set_fill_contents_mode
get_fill_contents_mode-set val mode =
    let kept = bit_and val mode_mask in
    let field = mode_code mode * 2 ^ 1 in
    (
      omega (
        arith,
        bit_and-low_mask 2 (bit_or kept field / 2),
        bit-bit_or 1 kept field,
        bit-bit_or 2 kept field,
        bit-bit_and 1 val mode_mask,
        bit-bit_and 2 val mode_mask,
        mode_bits mode,
      ),
      λ other p q. ground (
        arith,
        get-bit (bit_or kept field) other,
        get-bit val other,
        bit-bit_or (index other) kept field,
        bit-bit_and (index other) val mode_mask,
        mask_keeps other p q,
        mode_elsewhere mode other p q,
      ),
    )
