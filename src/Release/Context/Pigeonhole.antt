-- ===== src/Release/Context/Pigeonhole.antt =====
-- The counters of PageReleaseContext of LLVM_SCUDO_MTE/release.h against the free blocks: how many
-- distinct blocks touch a page.
use native.Mathlib.Decide.{dec_lt}
use riscv_mte.Base.{
  div_mono, ◌↔◌, ℕ, zero, suc, ◌+◌, ◌-◌, ◌*◌, ◌≤◌, ◌<◌, ◌≡◌, refl, sym, ap, ◌∙◌, arith, leb, ltb,
  ◌&&◌, if◌then◌else◌, true, List, [], ◌∷◌,
}
use riscv_mte.Common.Shuffle.{count}
use riscv_mte.Release.Context.Touching.{touches, hits}
use riscv_mte.Release.Walk.PageBlocks.{first_on_page, end_on_page, blocks_on_page, touches_iff}

-- The occurrences of `n` numbers from `low` on.
abbrev total : (low n : ℕ) → List ℕ → ℕ
total low zero ks = 0
total low (suc n) ks = count low ks + total (low + 1) n ks

total-nil : (low n : ℕ) → total low n [] ≡ 0
total-nil low zero = refl
total-nil low (suc n) = omega (arith, total-nil (low + 1) n)

total-cons :
    (low n k : ℕ) (ks : List ℕ)
    → total low n (k ∷ ks) ≡ total low n ks + (if leb low k && ltb k (low + n) then 1 else 0)
total-cons low zero k ks = ground arith
total-cons low (suc n) k ks = ground (arith, total-cons (low + 1) n k ks)

total-le : (low n : ℕ) (ks : List ℕ) → ((k : ℕ) → count k ks ≤ 1) → total low n ks ≤ n
total-le low zero ks few = omega arith
total-le low (suc n) ks few = omega (arith, few low, total-le (low + 1) n ks few)

-- Where all are counted, each number occurs.
all_of_total :
    (low n : ℕ) (ks : List ℕ)
    → ((k : ℕ) → count k ks ≤ 1)
    → total low n ks ≡ n
    → (k : ℕ) → low ≤ k
    → k < low + n
    → count k ks ≡ 1
all_of_total low zero ks few e k lo hi = absurd (omega arith)
all_of_total low (suc n) ks few e k lo hi = elim (dec_lt low k) [
  | yes lt ↦
      all_of_total (low + 1) n ks few (omega (arith, few low, total-le (low + 1) n ks few)) k
        (omega arith) (omega arith)
  | no no_lt ↦
      let same : k ≡ low = omega arith in
      ap (λ (x : ℕ). count x ks) same ∙ omega (arith, few low, total-le (low + 1) n ks few)
]

total_of_all :
    (low n : ℕ) (ks : List ℕ)
    → ((k : ℕ) → low ≤ k → k < low + n → count k ks ≡ 1)
    → total low n ks ≡ n
total_of_all low zero ks all = refl
total_of_all low (suc n) ks all = omega (
  arith,
  all low (omega arith) (omega arith),
  total_of_all (low + 1) n ks (λ k lo hi. all k (omega arith) (omega arith)),
)

module _ (ps b j : ℕ) (pos : 0 < b) (page_pos : 0 < ps) where
  abbrev low : ℕ
  low = first_on_page b (j * ps)

  abbrev size : ℕ
  size = blocks_on_page ps b (j * ps)

  first_le_end : low + size ≡ end_on_page ps b (j * ps)
  first_le_end = omega (arith, div_mono (j * ps) (j * ps + ps + (b - 1)) b pos (omega arith))

  touches-in : (k : ℕ) → touches ps b j k ≡ (leb low k && ltb k (low + size))
  touches-in k =
      let t = touches_iff ps b (j * ps) k pos in
      ground (
        arith,
        first_le_end,
        λ (x : k * b < j * ps + ps) (y : j * ps < (k + 1) * b). t.0 (x, y),
        λ (x : low ≤ k) (y : k < end_on_page ps b (j * ps)). t.1 (x, y),
      )

  hits-total : (ks : List ℕ) → hits ps b j ks ≡ total low size ks
  hits-total [] = sym (total-nil low size)
  hits-total (k ∷ ks) = rw (touches-in k) (omega (arith, hits-total ks, total-cons low size k ks))

  -- Distinct blocks touch a page at most as often as there are blocks on the page, and as often
  -- exactly if each block that touches the page is one of them.
  pub hits-le : (ks : List ℕ) → ((k : ℕ) → count k ks ≤ 1) → hits ps b j ks ≤ size
  hits-le ks few = omega (arith, hits-total ks, total-le low size ks few)

  pub hits_all_iff :
      (ks : List ℕ)
      → ((k : ℕ) → count k ks ≤ 1)
      → (hits ps b j ks ≡ size) ↔ ((k : ℕ) → touches ps b j k ≡ true → count k ks ≡ 1)
  hits_all_iff ks few = (
    λ e k hit.
        all_of_total low size ks few (sym (hits-total ks) ∙ e) k (ground (arith, touches-in k, hit))
          (ground (arith, touches-in k, hit)),
    λ all.
        hits-total ks
        ∙ total_of_all low size ks (λ k lo hi. all k (touches-in k ∙ ground (arith, lo, hi))),
  )
