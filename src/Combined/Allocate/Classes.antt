-- ===== src/Combined/Allocate/Classes.antt =====
-- The search for a block in allocate of LLVM_SCUDO_MTE/combined.h: the smallest class that fits, and
-- the larger ones.
use native.Mathlib.Decide.{dec_lt}
use riscv_mte.Base.{
  ℕ, zero, suc, ◌+◌, ◌-◌, ◌≤◌, ◌<◌, ◌≡◌, ap, ◌∙◌, arith, true, inl, inr, Option, none, some,
  Option-cases, leb, sub64_eq, add64-lt, u64_mod,
}
use mathlib.Core.Path.{subst}
use riscv_mte.SizeClassMap.{
  Config, num_classes, largest_class_id, max_size, get_size_by_class_id, get_class_id_by_size,
}
use riscv_mte.SizeClassMap.Fixed.{IsValid}
use riscv_mte.SizeClassMap.Fixed.Lookup.{IsSmallestClass, class_id_smallest}
use riscv_mte.SizeClassMap.Fixed.Inverse.{size_mono, smallest_unique}
use riscv_mte.Combined.{Allocator}
use riscv_mte.Combined.Allocate.{next_class, primary_block}

-- The answer of a search: the first class of a range with a block, or none has one.
pub data IsFirst (cache : ℕ → Option ℕ) (from to : ℕ) : Option (ℕ × ℕ) → Type 0 where
  has_none : ((k : ℕ) → from ≤ k → k ≤ to → cache k ≡ none) → IsFirst cache from to none
  has_first :
      (id block : ℕ)
      → from ≤ id
      → id ≤ to
      → cache id ≡ some block
      → ((k : ℕ) → from ≤ k → k < id → cache k ≡ none)
      → IsFirst cache from to (some (id, block))

-- One class that has no block in front of a range.
IsFirst-below :
    (cache : ℕ → Option ℕ) (from to : ℕ) (found : Option (ℕ × ℕ))
    → cache from ≡ none
    → IsFirst cache (from + 1) to found
    → IsFirst cache from to found
IsFirst-below cache from to _ e (has_none all) = has_none (λ k lo hi. elim (dec_lt from k) [
  | yes lt ↦ all k (omega arith) hi
  | no n ↦ ap cache {x = k} {y = from} (omega arith) ∙ e
])
IsFirst-below cache from to _ e (has_first id block lo hi at all) =
    has_first id block (omega arith) hi at (λ k l h. elim (dec_lt from k) [
      | yes lt ↦ all k (omega arith) h
      | no n ↦ ap cache {x = k} {y = from} (omega arith) ∙ e
    ])

module _ (s : Allocator) (cache : ℕ → Option ℕ)
    (secondary : (size alignment fill : ℕ) → Option (ℕ × ℕ)) where
  next_class-IsFirst :
      (count id : ℕ) → IsFirst cache (id + 1) (id + count) (next_class s cache secondary count id)
  unfolding next_class
  next_class-IsFirst zero id = has_none (λ k lo hi. absurd (omega arith))
  next_class-IsFirst (suc count) id = elim (Option-cases (cache (id + 1))) [
    | inl e ↦
        rw (e, next_class)
          (let end : id + 1 + count ≡ id + suc count = omega arith in
            IsFirst-below cache (id + 1) (id + suc count)
              (next_class s cache secondary count (id + 1)) e
              (subst
                (λ (to : ℕ).
                  IsFirst cache (id + 1 + 1) to (next_class s cache secondary count (id + 1)))
                end (next_class-IsFirst count (id + 1))))
    | inr (block, e) ↦
        rw (e, next_class)
          (has_first (id + 1) block (omega arith) (omega arith) e (λ k lo hi. absurd (omega arith)))
  ]

  -- From the class that is asked first.
  from_class :
      (id last : ℕ)
      → id ≤ last
      → IsFirst cache id last (elim (cache id) [
        | some block ↦ some (id, block)
        | none ↦ next_class s cache secondary (last - id) id
      ])
  from_class id last le = elim (Option-cases (cache id)) [
    | inl e ↦
        let end : id + (last - id) ≡ last = omega arith in
        rw e (
          IsFirst-below cache id last (next_class s cache secondary (last - id) id) e (
            subst
              (λ (to : ℕ). IsFirst cache (id + 1) to (next_class s cache secondary (last - id) id))
              end (next_class-IsFirst (last - id) id)))
    | inr (block, e) ↦
        rw e (has_first id block (omega arith) le e (λ k lo hi. absurd (omega arith)))
  ]

-- The answer for a size: a block of the smallest class that fits and has one, or no class that
-- fits has one.
pub data IsFound (c : Config) (cache : ℕ → Option ℕ) (needed : ℕ) : Option (ℕ × ℕ) → Type 0 where
  nothing :
      ((k : ℕ) → 0 < k → k < num_classes c → needed ≤ get_size_by_class_id c k → cache k ≡ none)
      → IsFound c cache needed none
  smallest :
      (id block : ℕ)
      → 0 < id
      → id < num_classes c
      → needed ≤ get_size_by_class_id c id
      → cache id ≡ some block
      → ((k : ℕ) → 0 < k → k < id → needed ≤ get_size_by_class_id c k → cache k ≡ none)
      → IsFound c cache needed (some (id, block))

num_classes-lt : (c : Config) → num_classes c < u64_mod
unfolding num_classes
num_classes-lt c = add64-lt _ 1

module _ (s : Allocator) (v : IsValid s.sizes) (cache : ℕ → Option ℕ)
    (secondary : (size alignment fill : ℕ) → Option (ℕ × ℕ)) (needed : ℕ)
    (small : needed ≤ max_size s.sizes) where
  abbrev c : Config
  c = s.sizes

  is : IsSmallestClass c v needed (get_class_id_by_size c needed)
  is = class_id_smallest c v needed small

  last_class : largest_class_id c ≡ num_classes c - 1
  unfolding largest_class_id
  last_class = sub64_eq (num_classes c) 1 (omega (arith, is.in_range)) (num_classes-lt c)

  found_of_first :
      (answer : Option (ℕ × ℕ))
      → IsFirst cache (get_class_id_by_size c needed) (largest_class_id c) answer
      → IsFound c cache needed answer
  found_of_first _ (has_none all) = nothing (λ k pos lt fits.
      all k (smallest_unique c v needed (get_class_id_by_size c needed) k is fits pos lt)
        (omega (arith, last_class)))
  found_of_first _ (has_first id block lo hi at all) =
      let in_range : id < num_classes c = omega (arith, is.in_range, last_class) in
      smallest id block (omega (arith, is.some_class)) in_range
        (omega (arith, is.fits, size_mono c v (get_class_id_by_size c needed) id lo in_range)) at
        (λ k pos lt fits.
          all k
            (smallest_unique c v needed (get_class_id_by_size c needed) k is fits pos
              (omega (arith, in_range)))
            lt)

  -- For a configuration whose constants fit (IsValid) and a size up to `MaxSize`, the search of
  -- `allocate` answers a block of the smallest class that fits the size and has one, and fails only
  -- if no class that fits has one (IsFound).
  pub primary_block-IsFound : IsFound c cache needed (primary_block s cache secondary needed)
  unfolding primary_block
  primary_block-IsFound =
      let fits : leb needed (max_size c) ≡ true = ground (arith, small) in
      rw (fits, primary_block)
        (found_of_first _ (
          from_class s cache secondary (get_class_id_by_size c needed) (largest_class_id c)
            (omega (arith, is.in_range, last_class))))
