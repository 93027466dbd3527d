-- ===== src/Common/Shuffle.antt =====
-- shuffle and getRandomModN of LLVM_SCUDO_MTE/common.h.
use riscv_mte.Base.{
  ℕ, zero, suc, ◌+◌, ◌-◌, ◌≤◌, ◌<◌, ◌≡◌, refl, ap, ◌∙◌, ◌≢◌, arith, List, [], ◌∷◌, inl, inr,
  Bool-cases, ◌==◌, leb, if◌then◌else◌, length, get_or, set, sub64, sub64_eq, u64_mod, length-set,
}
use riscv_mte.Common.{get_random_mod_n, swap, shuffle_loop, shuffle}

-- How often a value stands in an array.
abbrev pub count : ℕ → List ℕ → ℕ
count a [] = 0
count a (x ∷ xs) = (if x == a then 1 else 0) + count a xs

-- The index that `getRandomModN` gives is in range.
pub get_random_mod_n-lt : (state n : ℕ) → 0 < n → (get_random_mod_n state n).1 < n
unfolding get_random_mod_n
get_random_mod_n-lt state n pos = omega arith

-- A write replaces one occurrence of the old value by one of the new.
count-set :
    (a : ℕ) (xs : List ℕ) (i v : ℕ)
    → i < length xs
    → count a (set xs i v) + (if get_or xs i 0 == a then 1 else 0)
      ≡ count a xs + (if v == a then 1 else 0)
count-set a [] i v h = elim h [ ]
count-set a (x ∷ xs) zero v h = omega arith
count-set a (x ∷ xs) (suc i) v h = omega (arith, count-set a xs i v)

get_or-set_self : (xs : List ℕ) (i v : ℕ) → i < length xs → get_or (set xs i v) i 0 ≡ v
get_or-set_self [] i v h = elim h [ ]
get_or-set_self (x ∷ xs) zero v h = refl
get_or-set_self (x ∷ xs) (suc i) v h = get_or-set_self xs i v (omega arith)

get_or-set_ne : (xs : List ℕ) (i j v : ℕ) → i ≢ j → get_or (set xs i v) j 0 ≡ get_or xs j 0
get_or-set_ne [] i j v h = refl
get_or-set_ne (x ∷ xs) zero zero v h = absurd (h refl)
get_or-set_ne (x ∷ xs) zero (suc j) v h = refl
get_or-set_ne (x ∷ xs) (suc i) zero v h = refl
get_or-set_ne (x ∷ xs) (suc i) (suc j) v h = get_or-set_ne xs i j v (λ e. h (ap suc e))

-- What the second write of a swap overwrites.
overwritten :
    (xs : List ℕ) (i j : ℕ) → i < length xs → get_or (set xs i (get_or xs j 0)) j 0 ≡ get_or xs j 0
overwritten xs i j h = elim (Bool-cases (i == j)) [
  | inl e ↦ let same : i ≡ j = ground arith in rw (← same) (get_or-set_self xs i (get_or xs i 0) h)
  | inr ne ↦ get_or-set_ne xs i j (get_or xs j 0) (ground arith)
]

count-swap :
    (a : ℕ) (xs : List ℕ) (i j : ℕ)
    → i < length xs
    → j < length xs
    → count a (swap xs i j) ≡ count a xs
unfolding swap
count-swap a xs i j p q = omega (
  arith,
  count-set a xs i (get_or xs j 0) p,
  count-set a (set xs i (get_or xs j 0)) j (get_or xs i 0) (omega (arith, length-set {0})),
  ap {B = ℕ} (λ t. if t == a then 1 else 0) (overwritten xs i j p),
)

length-swap : (xs : List ℕ) (i j : ℕ) → length (swap xs i j) ≡ length xs
unfolding swap
length-swap xs i j = length-set _ j _ ∙ length-set xs i _

shuffle_loop-count :
    (a i : ℕ) (xs : List ℕ) (state : ℕ)
    → i < length xs
    → count a (shuffle_loop i xs state).0 ≡ count a xs
unfolding shuffle_loop
shuffle_loop-count a zero xs state h = refl
shuffle_loop-count a (suc i) xs state h =
    let (next, j) = get_random_mod_n state (suc i + 1) in
    let j_lt = get_random_mod_n-lt state (suc i + 1) (omega arith) in
    shuffle_loop-count a i (swap xs (suc i) j) next (omega (arith, length-swap))
    ∙ count-swap a xs (suc i) j h (omega arith)

-- `shuffle` of the first n elements of an array that has as many, with n below 2 ^ 64, keeps every
-- value as often as it stood in the array, whatever the random state.
pub shuffle-count :
    (a : ℕ) (xs : List ℕ) (n state : ℕ)
    → n ≤ length xs
    → n < u64_mod
    → count a (shuffle xs n state).0 ≡ count a xs
unfolding shuffle
shuffle-count a xs n state h fits = elim (Bool-cases (leb n 1)) [
  | inl few ↦ rw few
  | inr many ↦
      rw (many, sub64_eq n 1 (ground arith) fits)
        (shuffle_loop-count a (n - 1) xs state (ground arith))
]

shuffle_loop-length :
    (i : ℕ) (xs : List ℕ) (state : ℕ) → length (shuffle_loop i xs state).0 ≡ length xs
unfolding shuffle_loop
shuffle_loop-length zero xs state = refl
shuffle_loop-length (suc i) xs state =
    let (next, j) = get_random_mod_n state (suc i + 1) in
    shuffle_loop-length i (swap xs (suc i) j) next ∙ length-swap xs (suc i) j

pub shuffle-length : (xs : List ℕ) (n state : ℕ) → length (shuffle xs n state).0 ≡ length xs
unfolding shuffle
shuffle-length xs n state = elim (Bool-cases (leb n 1)) [
  | inl few ↦ rw few
  | inr many ↦ rw many (shuffle_loop-length (sub64 n 1) xs state)
]
