-- ===== src/Release/PageMap/Updates.antt =====
-- The updates of RegionPageMap of LLVM_SCUDO_MTE/release.h: inc, incN, setAsAllCounted and their ranges.
use native.Mathlib.Decide.{dec_lt}
use native.Mathlib.Nat.{div-eq_of_lt, div-add-mod', mod-lt, one-le-pow, pow-le-pow_right, pow-suc}
use riscv_mte.Base.{
  ℕ, suc, ◌+◌, ◌-◌, ◌*◌, ◌/◌, ◌%◌, ◌^◌, ◌≤◌, ◌<◌, ◌≡◌, ◌≢◌, refl, sym, ap, ◌∙◌, arith, ◌==◌,
  u64_mod, add64, add64_eq, shl64, shl64_eq, bit_or, ◌⊎◌, inl, inr, Bool-cases, ==_iff,
}
use mathlib.Core.Path.{subst}
use riscv_mte.Bits.{bit_or-low_mask, bit_or-shifted_mask}
use riscv_mte.Release.PageMap.{
  RegionPageMap, Buffer, word_index, bit_offset, get_counter, inc, inc_n, set_as_all_counted,
  write_word,
}
use riscv_mte.Release.PageMap.Layout.{digit, add-below, add-at, add-above}
use riscv_mte.Release.PageMap.Counters.{
  IsLayout, AreWords, ratio, bits, base, big, whole_word, place, scale, get_counter-digit,
  word_index_injective,
}

-- One counter holds a value, all others are as before.
pub record IsUpdated (m : RegionPageMap) (region i value : ℕ) (words words' : Buffer) : Type 0 where
  pub at_index : get_counter m region i words' ≡ value
  pub elsewhere :
      (r j : ℕ)
      → r < m.regions
      → j < m.num_counters
      → (region ≢ r) ⊎ (i ≢ j)
      → get_counter m r j words' ≡ get_counter m r j words
  pub are_words : AreWords words'

write_word_self : (k value : ℕ) (words : Buffer) → write_word k value words k ≡ value
write_word_self k value words = ground arith

write_word_ne : (k l value : ℕ) (words : Buffer) → l ≢ k → write_word k value words l ≡ words l
write_word_ne k l value words ne = ground arith

module _ (m : RegionPageMap) (is : IsLayout m) (region i : ℕ) (h : region < m.regions)
    (h' : i < m.num_counters) (words : Buffer) (are : AreWords words) where
  abbrev at : ℕ
  at = word_index m region i

  abbrev word : ℕ
  word = words at

  -- A sum at the place of the counter.
  abbrev sum_with : ℕ → ℕ
  sum_with n = word + n * base m is ^ (i % ratio m is)

  abbrev get : ℕ
  get = digit (base m is) word (i % ratio m is)

  module _ (n : ℕ) (fits : get + n < base m is) where
    sum-lt : sum_with n < u64_mod
    sum-lt =
        let k = i % ratio m is in
        let d = ratio m is - k - 1 in
        let e : suc k + d ≡ ratio m is = omega (arith, place m is i) in
        let zero_above : sum_with n / u64_mod ≡ 0 =
          ap (λ (t : ℕ). sum_with n / t) (sym (whole_word m is))
          ∙ ap (λ (t : ℕ). sum_with n / base m is ^ t) (sym e)
          ∙ add-above (base m is) (big m is) word n k d fits
          ∙ ap (λ (t : ℕ). word / base m is ^ t) e
          ∙ ap (λ (t : ℕ). word / t) (whole_word m is)
          ∙ div-eq_of_lt (are at) in
        omega (arith, div-add-mod' (sum_with n) u64_mod)

    other_place :
        (j : ℕ)
        → i % ratio m is ≢ j % ratio m is
        → digit (base m is) (sum_with n) (j % ratio m is) ≡ digit (base m is) word (j % ratio m is)
    other_place j ne = elim (dec_lt (j % ratio m is) (i % ratio m is)) [
      | yes lt ↦
          let e : i % ratio m is ≡ j % ratio m is + suc (i % ratio m is - j % ratio m is - 1) =
            omega arith in
          ap (λ (t : ℕ). digit (base m is) (word + n * base m is ^ t) (j % ratio m is)) e
          ∙ add-below (base m is) (big m is) word n (j % ratio m is)
              (i % ratio m is - j % ratio m is - 1)
      | no not ↦
          let e : j % ratio m is ≡ suc (i % ratio m is) + (j % ratio m is - i % ratio m is - 1) =
            omega arith in
          ap (λ (t : ℕ). sum_with n / base m is ^ t % base m is) e
          ∙ ap (λ (t : ℕ). t % base m is)
              (add-above (base m is) (big m is) word n (i % ratio m is)
                (j % ratio m is - i % ratio m is - 1) fits)
          ∙ ap (λ (t : ℕ). word / base m is ^ t % base m is) (sym e)
    ]

    other_counter :
        (r j : ℕ)
        → r < m.regions
        → j < m.num_counters
        → (region ≢ r) ⊎ (i ≢ j)
        → digit (base m is) (write_word at (sum_with n) words (word_index m r j)) (j % ratio m is)
          ≡ digit (base m is) (words (word_index m r j)) (j % ratio m is)
    other_counter r j r_lt j_lt ne = elim (Bool-cases (word_index m r j == at)) [
      | inl same ↦
          let e : word_index m r j ≡ at = (==_iff (word_index m r j) at).0 same in
          let (regions_eq, quotients) =
            word_index_injective m is region i r j h h' r_lt j_lt (sym e) in
          let apart : i % ratio m is ≢ j % ratio m is = λ f. elim ne [
            | inl a ↦ a regions_eq
            | inr b ↦ b (
                omega (
                  arith,
                  div-add-mod' i (ratio m is),
                  div-add-mod' j (ratio m is),
                  ap (λ (t : ℕ). t * ratio m is) quotients,
                ))
          ] in
          ap (λ (t : ℕ). digit (base m is) (write_word at (sum_with n) words t) (j % ratio m is)) e
          ∙ ap (λ (t : ℕ). digit (base m is) t (j % ratio m is))
              (write_word_self at (sum_with n) words)
          ∙ other_place j apart
          ∙ ap (λ (t : ℕ). digit (base m is) (words t) (j % ratio m is)) (sym e)
      | inr other ↦ rw other refl
    ]

    write-IsUpdated :
        IsUpdated m region i
          (get_counter m region i words + n)
          words
          (write_word at (sum_with n) words)
    write-IsUpdated = record {
      at_index =
          get_counter-digit m is region i (write_word at (sum_with n) words)
          ∙ ap (λ (t : ℕ). digit (base m is) t (i % ratio m is))
              (write_word_self at (sum_with n) words)
          ∙ add-at (base m is) (big m is) word n (i % ratio m is) fits
          ∙ ap (λ (t : ℕ). t + n) (sym (get_counter-digit m is region i words));
      elsewhere = λ r j r_lt j_lt ne.
          get_counter-digit m is r j (write_word at (sum_with n) words)
          ∙ other_counter r j r_lt j_lt ne
          ∙ sym (get_counter-digit m is r j words);
      are_words = λ k. elim (Bool-cases (k == at)) [ inl e ↦ rw e sum-lt | inr e ↦ rw e (are k) ];
    }

    sum_value : add64 word (shl64 n (bit_offset m i)) ≡ sum_with n
    sum_value =
        let shifted : n * 2 ^ bit_offset m i ≡ n * base m is ^ (i % ratio m is) =
          ap (λ (t : ℕ). n * t) (scale m is i) in
        let no_wrap : shl64 n (bit_offset m i) ≡ n * base m is ^ (i % ratio m is) =
          shl64_eq n (bit_offset m i) (omega (arith, sum-lt, shifted)) ∙ shifted in
        ap (add64 word) no_wrap ∙ add64_eq word (n * base m is ^ (i % ratio m is)) sum-lt

  -- A sum that stays below the base changes the one counter.
  pub inc_n-IsUpdated :
      (n : ℕ)
      → get_counter m region i words + n < base m is
      → IsUpdated m region i (get_counter m region i words + n) words (inc_n m region i n words)
  unfolding inc_n
  inc_n-IsUpdated n fits =
      let digit_fits : get + n < base m is = omega (arith, get_counter-digit m is region i words) in
      rw (sum_value n digit_fits) (write-IsUpdated n digit_fits)

  pub inc-IsUpdated :
      get_counter m region i words + 1 < base m is
      → IsUpdated m region i (get_counter m region i words + 1) words (inc m region i words)
  unfolding inc
  inc-IsUpdated fits =
      let digit_fits : get + 1 < base m is = omega (arith, get_counter-digit m is region i words) in
      rw (sum_value 1 digit_fits) (write-IsUpdated 1 digit_fits)

  missing : ℕ
  missing = base m is - 1 - get

  digit_is_full : get + missing ≡ base m is - 1
  unfolding missing
  digit_is_full = omega (
    arith,
    mod-lt (word / base m is ^ (i % ratio m is)) {m = base m is} (omega (arith, big m is)),
  )

  mask_fits : (base m is - 1) * 2 ^ bit_offset m i < u64_mod
  mask_fits =
      let power : 2 ^ bit_offset m i * base m is ≡ base m is ^ suc (i % ratio m is) =
        ap (λ (t : ℕ). t * base m is) (scale m is i) ∙ sym (pow-suc (base m is) (i % ratio m is)) in
      let le : base m is ^ suc (i % ratio m is) ≤ base m is ^ ratio m is =
        pow-le-pow_right (omega (arith, big m is)) (place m is i) in
      let back : base m is - 1 + 1 ≡ base m is = omega (arith, big m is) in
      omega (
        arith,
        power,
        le,
        whole_word m is,
        one-le-pow (bit_offset m i) 2,
        ap (λ (t : ℕ). t * 2 ^ bit_offset m i) back,
      )

  -- The union with the mask adds what the counter lacks.
  filled : bit_or word (shl64 m.counter_mask (bit_offset m i)) ≡ sum_with missing
  unfolding missing
  filled =
      let y = word / 2 ^ bit_offset m i in
      let shifted : shl64 m.counter_mask (bit_offset m i) ≡ (base m is - 1) * 2 ^ bit_offset m i =
        ap (λ (t : ℕ). shl64 t (bit_offset m i)) is.mask_eq
        ∙ shl64_eq (base m is - 1) (bit_offset m i) mask_fits in
      let split : bit_or word ((base m is - 1) * 2 ^ bit_offset m i)
          ≡ (y + (base m is - 1 - y % base m is)) * 2 ^ bit_offset m i + word % 2 ^ bit_offset m i =
        bit_or-shifted_mask (bit_offset m i) word (base m is - 1)
        ∙ ap (λ (t : ℕ). t * 2 ^ bit_offset m i + word % 2 ^ bit_offset m i)
            (bit_or-low_mask (bits m is) y) in
      ap (bit_or word) shifted
      ∙ split
      ∙ omega (arith, div-add-mod' word (2 ^ bit_offset m i))
      ∙ ap (λ (t : ℕ). word + (base m is - 1 - word / t % base m is) * t) (scale m is i)

  pub set_as_all_counted-IsUpdated :
      IsUpdated m region i m.counter_mask words (set_as_all_counted m region i words)
  unfolding set_as_all_counted
  set_as_all_counted-IsUpdated =
      let value : get_counter m region i words + missing ≡ m.counter_mask =
        ap (λ (t : ℕ). t + missing) (get_counter-digit m is region i words)
        ∙ digit_is_full
        ∙ sym is.mask_eq in
      subst (λ w. IsUpdated m region i m.counter_mask words (write_word at w words)) (sym filled)
        (subst (λ v. IsUpdated m region i v words (write_word at (sum_with missing) words)) value
          (write-IsUpdated missing (omega (arith, digit_is_full, big m is))))
