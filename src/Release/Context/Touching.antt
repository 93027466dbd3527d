-- ===== src/Release/Context/Touching.antt =====
-- The pages that a block touches, by the page indices of PageReleaseContext of
-- LLVM_SCUDO_MTE/release.h.
use native.Mathlib.Decide.{dec_lt}
use native.Mathlib.Nat.{div-add-mod', mod-lt, mul-le-mul_right}
use riscv_mte.Base.{
  ℕ, suc, ◌+◌, ◌-◌, ◌*◌, ◌/◌, ◌%◌, ◌≤◌, ◌<◌, ◌≡◌, sym, ap, ◌∙◌, arith, leb, ltb, ◌&&◌,
  if◌then◌else◌, Bool, List, [], ◌∷◌, quotient_lem,
}

-- Whether block k, of `b` bytes, touches page j, of `ps` bytes.
abbrev pub touches : (ps b j k : ℕ) → Bool
touches ps b j k = ltb (k * b) (j * ps + ps) && ltb (j * ps) (k * b + b)

-- How many blocks of a list touch a page.
abbrev pub hits : (ps b j : ℕ) → List ℕ → ℕ
hits ps b j [] = 0
hits ps b j (k ∷ ks) = hits ps b j ks + (if touches ps b j k then 1 else 0)

pub div_le_iff : (x p j : ℕ) → 0 < p → leb (x / p) j ≡ ltb x (j * p + p)
div_le_iff x p j pos = elim (dec_lt j (x / p)) [
  | yes lt ↦
      let above : j * p + p ≤ x =
        omega (arith, div-add-mod' x p, mul-le-mul_right {m = suc j} {n = x / p} p lt) in
      ground arith
  | no n ↦
      let below : x < j * p + p = omega (
        arith,
        div-add-mod' x p,
        mod-lt x pos,
        mul-le-mul_right {m = x / p} {n = j} p (omega arith),
      ) in
      ground arith
]

pub le_div_iff : (x p j : ℕ) → 0 < p → leb j (x / p) ≡ leb (j * p) x
le_div_iff x p j pos = elim (dec_lt (x / p) j) [
  | yes lt ↦
      let above : x < j * p =
        omega (
          arith,
          div-add-mod' x p,
          mod-lt x pos,
          mul-le-mul_right {m = suc (x / p)} {n = j} p lt,
        ) in
      ground arith
  | no n ↦
      let below : j * p ≤ x =
        omega (arith, div-add-mod' x p, mul-le-mul_right {m = j} {n = x / p} p (omega arith)) in
      ground arith
]

module _ (ps b : ℕ) (pos : 0 < b) (page_pos : 0 < ps) where
  -- A block touches the pages from that of its first byte to that of its last.
  pub touches_range :
      (j k : ℕ) → touches ps b j k ≡ leb (k * b / ps) j && leb j ((k * b + b - 1) / ps)
  touches_range j k =
      rw (div_le_iff (k * b) ps j page_pos)
        (rw (le_div_iff (k * b + b - 1) ps j page_pos) (ground (arith, pos)))

  -- Where the pages are whole blocks, the two are one page.
  pub one_page : (k : ℕ) → ps % b ≡ 0 → (k * b + b - 1) / ps ≡ k * b / ps
  one_page k e =
      let q = ps / b in
      let whole : ps ≡ q * b = omega (arith, div-add-mod' ps b) in
      let q_pos : 0 < q = elim (dec_lt 0 q) [
        | yes p ↦ p
        | no n ↦ absurd (omega (arith, whole, mul-le-mul_right {m = q} {n = 0} b (omega arith)))
      ] in
      let u = k / q in
      let v = k % q in
      let split : k * b ≡ u * ps + v * b =
        omega (arith, ap (λ (x : ℕ). x * b) (div-add-mod' k q), ap (λ (x : ℕ). u * x) whole) in
      let room : v * b + b ≤ ps =
        omega
          (arith, whole, mul-le-mul_right {m = suc v} {n = q} b (omega (arith, mod-lt k q_pos))) in
      let last : k * b + b - 1 ≡ u * ps + (v * b + b - 1) = omega (arith, split, pos) in
      ap (λ (x : ℕ). x / ps) last
      ∙ quotient_lem u ps (v * b + b - 1) (omega (arith, room, pos))
      ∙ sym (ap (λ (x : ℕ). x / ps) split ∙ quotient_lem u ps (v * b) (omega (arith, room, pos)))
