-- ===== src/IntrusiveList/Consistent.antt =====
-- The consistency check of the lists of LLVM_SCUDO_MTE/list.h.
use mathlib.Core.Path.{subst}
use riscv_mte.Base.{
  ℕ, ◌+◌, ◌≡◌, ◌<◌, ◌^◌, ◌==◌, ◌&&◌, refl, sym, ap, ◌∙◌, List, [], ◌∷◌, arith, length, true, false,
  Bool, some, add64, add64_eq,
}
use riscv_mte.IntrusiveList.{IntrusiveList, Links, null, count_nodes, check_consistency}
use riscv_mte.IntrusiveList.Segment.{IsSegment, Distinct, IsList, last-ne}
use riscv_mte.IntrusiveList.Doubly.Backward.{next-last}

-- The loop stops at the last node, not before, as no node is met twice.
count_nodes_lem :
    (next : Links) (x : ℕ) (xs : List ℕ) (p b q e count : ℕ)
    → IsSegment next (x ∷ xs) p b q e
    → Distinct (x ∷ xs)
    → count + length (x ∷ xs) < 2 ^ 64
    → count_nodes (length (x ∷ xs)) next p e count ≡ some (count + length (x ∷ xs))
unfolding count_nodes
count_nodes_lem next x [] p b q e count (at, full, (end, last)) d fits =
    let stop : (p == e) ≡ true = ground (arith, at, last) in
    rw stop (ap (λ (t : ℕ). some t) (add64_eq count 1 fits))
count_nodes_lem next x (y ∷ ys) p b q e count (at, full, rest) (out, d) fits =
    let go : (p == e) ≡ false = ground (arith, at, last-ne next y ys (next x) x q e x out rest) in
    let one : add64 count 1 ≡ count + 1 = add64_eq count 1 (omega arith) in
    let next_at : next p ≡ next x = ap next at in
    let total : (count + 1) + length (y ∷ ys) ≡ count + length (x ∷ y ∷ ys) = omega arith in
    rw (go, one, next_at)
      (count_nodes_lem next y ys (next x) x q e (count + 1) rest d (omega arith)
        ∙ ap (λ (t : ℕ). some t) total)

both_true : (a b : Bool) → a ≡ true → b ≡ true → (a && b) ≡ true
both_true a b e f = rw (e, f) refl

check_consistency-counted :
    (next : Links) (l : IntrusiveList)
    → (l.size == 0) ≡ false
    → count_nodes l.size next l.first l.last 0 ≡ some l.size
    → next l.last ≡ null
    → check_consistency l.size l next ≡ some true
unfolding check_consistency
check_consistency-counted next l filled counted end =
    rw (filled, counted)
      (ap (λ (t : Bool). some t)
        (both_true (l.size == l.size) (next l.last == null) (ground arith) (ground (arith, end))))

-- For a list over pointers whose nodes, in order and without repetition, are given, and whose size
-- is below 2 ^ 63 (IsList), the loop of `checkConsistency` ends within as many rounds as the size
-- says, and all its checks pass.
pub check_consistency-IsList :
    (next : Links) (l : IntrusiveList) (xs : List ℕ)
    → IsList next l xs
    → check_consistency l.size l next ≡ some true
unfolding check_consistency
check_consistency-IsList next l [] is =
    let empty : (l.size == 0) ≡ true = ground (arith, is.size_eq) in
    rw empty (
      ap (λ (t : Bool). some t)
        (both_true (l.first == null) (l.last == null) (ground (arith, is.segment.0))
          (ground (arith, is.segment.1))))
check_consistency-IsList next l (x ∷ xs) is =
    let filled : (l.size == 0) ≡ false = ground (arith, is.size_eq) in
    let counted =
      count_nodes_lem next x xs l.first null null l.last 0 is.segment is.distinct
        (omega (arith, is.size_eq, is.size_lt)) in
    let end = next-last next x xs l.first null null l.last is.segment in
    let counted' : count_nodes l.size next l.first l.last 0 ≡ some l.size =
      subst (λ (t : ℕ). count_nodes t next l.first l.last 0 ≡ some t) (sym is.size_eq)
        (counted ∙ ap (λ (t : ℕ). some t) {y = length (x ∷ xs)} (omega arith)) in
    check_consistency-counted next l filled counted' end.0
