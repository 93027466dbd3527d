-- ===== src/Release/Recorder/Pages.antt =====
-- The pages that the recorders of LLVM_SCUDO_MTE/release.h hand to the operating system.
use native.Mathlib.Nat.{mul-le-mul_right, one-le-pow}
use riscv_mte.Base.{
  ℕ, suc, ◌+◌, ◌*◌, ◌^◌, ◌≤◌, ◌<◌, ◌≡◌, ap, arith, List, [], ◌∷◌, u64_mod, add64, sub64, sub64_eq,
}
use native.Mathlib.Decide.{dec_lt}
use riscv_mte.Release.Recorder.{
  RegionReleaseRecorder, region_release_page_range, ReleaseRecorder, release_page_range,
}
use riscv_mte.Release.Tracker.Coverage.{RecordsPages, inside}

-- How many calls contain a page's first byte. Addresses count from a base, modulo 2 ^ 64.
abbrev pub calls_on : (page_size_log base k : ℕ) → List (ℕ × ℕ) → ℕ
calls_on page_size_log base k [] = 0
calls_on page_size_log base k ((address, size) ∷ calls) =
    calls_on page_size_log base k calls
    + inside (sub64 address base) (sub64 address base + size) (k * 2 ^ page_size_log)

scaled_le : (a b p : ℕ) → 0 < p → a * p ≤ b * p → a ≤ b
scaled_le a b p pos le = elim (dec_lt b a) [
  | yes lt ↦ absurd (omega (arith, mul-le-mul_right {m = suc b} {n = a} p lt))
  | no n ↦ omega arith
]

-- A page lies between two page numbers exactly if its address lies between theirs.
scaled_inside :
    (from to k p : ℕ) → 0 < p → from ≤ to → inside (from * p) (to * p) (k * p) ≡ inside from to k
scaled_inside from to k p pos le = ground (
  arith,
  scaled_le from k p pos,
  scaled_le to k p pos,
  mul-le-mul_right {m = from} {n = k} p,
  mul-le-mul_right {m = to} {n = k} p,
)

module _ (page_size_log base from to k : ℕ) (le : from ≤ to)
    (fits : to * 2 ^ page_size_log < u64_mod) where
  abbrev p : ℕ
  p = 2 ^ page_size_log

  from-le : from * p ≤ to * p
  from-le = mul-le-mul_right {m = from} {n = to} p le

  call_inside :
      (address : ℕ)
      → sub64 address base ≡ from * p
      → inside (sub64 address base) (sub64 address base + sub64 (to * p) (from * p)) (k * p)
        ≡ inside from to k
  call_inside address e =
      let end : from * p + sub64 (to * p) (from * p) ≡ to * p =
        omega (arith, sub64_eq (to * p) (from * p) from-le fits, from-le) in
      rw e (rw end (scaled_inside from to k p (one-le-pow page_size_log 2 (omega arith)) le))

undo_left : (b x : ℕ) → x < u64_mod → sub64 (add64 b x) b ≡ x
unfolding sub64 add64
undo_left b x h = omega arith

undo_right : (b x : ℕ) → x < u64_mod → sub64 (add64 x b) b ≡ x
unfolding sub64 add64
undo_right b x h = omega arith

module _ (page_size_log : ℕ) where
  pub region-RecordsPages :
      RecordsPages RegionReleaseRecorder page_size_log region_release_page_range
  unfolding region_release_page_range
  region-RecordsPages = record {
    pages = λ r k. calls_on page_size_log (add64 r.base r.offset) k r.calls;
    pages-release = λ from to r k le fits.
        let start = from * 2 ^ page_size_log in
        let base = add64 r.base r.offset in
        ap (λ (t : ℕ). calls_on page_size_log base k r.calls + t)
          (call_inside page_size_log base from to k le fits (add64 base start)
            (undo_left base start (omega (arith, from-le page_size_log base from to k le fits))));
  }

  pub plain-RecordsPages : RecordsPages ReleaseRecorder page_size_log release_page_range
  unfolding release_page_range
  plain-RecordsPages = record {
    pages = λ r k. calls_on page_size_log r.offset k r.calls;
    pages-release = λ from to r k le fits.
        let start = from * 2 ^ page_size_log in
        ap (λ (t : ℕ). calls_on page_size_log r.offset k r.calls + t)
          (call_inside page_size_log r.offset from to k le fits (add64 start r.offset) (
            undo_right r.offset start
              (omega (arith, from-le page_size_log r.offset from to k le fits))));
  }
