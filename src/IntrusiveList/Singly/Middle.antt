-- ===== src/IntrusiveList/Singly/Middle.antt =====
-- Insertion and removal behind a node in the middle of a singly linked list.
use mathlib.Core.Path.{subst}
use riscv_mte.Base.{
  ℕ, ◌+◌, ◌-◌, ◌≡◌, ◌≢◌, ◌<◌, ◌^◌, sym, ◌∙◌, List, [], ◌∷◌, ◌++◌, arith, ◌==◌, if◌then◌else◌,
  length-append, false, add64, sub64, add64_eq, sub64_eq,
}
use riscv_mte.IntrusiveList.{IntrusiveList, Links, null, set_link}
use riscv_mte.IntrusiveList.Segment.{
  IsSegment, NotIn, Distinct, IsList, set_link_self, set_link_ne, IsSegment-set_link,
  IsSegment-append, IsSegment-split, last-ne, NotIn-around, NotIn-parts, Distinct-insert,
  Distinct-extract,
}
use riscv_mte.IntrusiveList.Singly.{insert, extract}

module _ (next : Links) (l : IntrusiveList) (xs : List ℕ) (p x : ℕ) (ys : List ℕ) where
  -- The links after the insertion of `x` behind `p`.
  abbrev inserted_links : Links
  inserted_links = set_link (set_link next x (next p)) p x

  -- The rest of the list behind the new node, which may be the last one.
  behind_inserted :
      (zs : List ℕ)
      → NotIn p zs
      → IsSegment inserted_links zs (next p) p null l.last
      → IsSegment inserted_links zs (next p) x null (if l.last == p then x else l.last)
  behind_inserted [] out (end, back) = (end, ground arith)
  behind_inserted (z ∷ zs) out s =
      let other : (l.last == p) ≡ false =
        ground (arith, last-ne inserted_links z zs (next p) p null l.last p out s) in
      rw other s

  -- For a singly linked list over pointers whose nodes, in order and without repetition, are given
  -- (IsList), `insert` of a node that is not null and not in the list, behind a node of the list,
  -- gives the list with the new node behind that one, where the size stays below 2 ^ 63.
  pub insert-IsList :
      IsList next l (xs ++ p ∷ ys)
      → x ≢ null
      → NotIn x (xs ++ p ∷ ys)
      → l.size + 1 < 2 ^ 63
      → IsList (insert p x l next).1 (insert p x l next).0 (xs ++ p ∷ x ∷ ys)
  unfolding insert
  insert-IsList is full out fits =
      let grown : add64 l.size 1 ≡ l.size + 1 = add64_eq l.size 1 (omega arith) in
      let (q, e, front, (at, p_full, rest)) =
        IsSegment-split next xs (p ∷ ys) l.first null null l.last is.segment in
      let (p_before, p_behind) = NotIn-around p xs ys is.distinct in
      let (x_before, ne, x_behind) = NotIn-parts x xs p ys out in
      let x_links : inserted_links x ≡ next p =
        set_link_ne (set_link next x (next p)) p x x (λ h. ne (sym h))
        ∙ set_link_self next x (next p) in
      let front' =
        IsSegment-set_link (set_link next x (next p)) xs l.first null q e p x p_before
          (IsSegment-set_link next xs l.first null q e x (next p) x_before front) in
      let rest' = behind_inserted ys p_behind (
        IsSegment-set_link (set_link next x (next p)) ys (next p) p null l.last p x p_behind
          (IsSegment-set_link next ys (next p) p null l.last x (next p) x_behind rest)) in
      record {
        size_eq =
            omega
              (arith, grown, is.size_eq, length-append xs (p ∷ ys), length-append xs (p ∷ x ∷ ys));
        segment = IsSegment-append inserted_links xs (p ∷ x ∷ ys) l.first null q e null _ front' (
          at,
          p_full,
          (
            set_link_self (set_link next x (next p)) p x,
            full,
            subst
                (λ (t : ℕ).
                  IsSegment inserted_links ys t x null (if l.last == p then x else l.last))
                (sym x_links) rest',
          ),
        );
        distinct = Distinct-insert xs p x ys is.distinct out;
        size_lt = omega (arith, grown);
      }

module _ (next : Links) (l : IntrusiveList) (xs : List ℕ) (p x : ℕ) (ys : List ℕ) where
  -- The rest of the list behind the node that goes, which may have been the last one.
  behind_extracted :
      (links : Links) (zs : List ℕ)
      → NotIn x zs
      → IsSegment links zs (next x) x null l.last
      → IsSegment links zs (next x) p null (if l.last == x then p else l.last)
  behind_extracted links [] out (end, back) = (end, ground arith)
  behind_extracted links (z ∷ zs) out s =
      let other : (l.last == x) ≡ false =
        ground (arith, last-ne links z zs (next x) x null l.last x out s) in
      rw other s

  -- For a singly linked list over pointers whose nodes, in order and without repetition, are given
  -- (IsList), `extract` of the node behind a node of the list gives the list without it.
  pub extract-IsList :
      IsList next l (xs ++ p ∷ x ∷ ys)
      → IsList (extract p x l next).1 (extract p x l next).0 (xs ++ p ∷ ys)
  unfolding extract
  extract-IsList is =
      let links = set_link next p (next x) in
      let (q, e, front, (at, p_full, (at', x_full, rest))) =
        IsSegment-split next xs (p ∷ x ∷ ys) l.first null null l.last is.segment in
      let (p_before, p_behind) = NotIn-around p xs (x ∷ ys) is.distinct in
      let x_behind = distinct_behind xs is.distinct in
      let shorter = length-append xs (p ∷ ys) in
      let longer = length-append xs (p ∷ x ∷ ys) in
      let less : sub64 l.size 1 ≡ l.size - 1 =
        sub64_eq l.size 1 (omega (arith, is.size_eq, longer)) (omega (arith, is.size_lt)) in
      record {
        size_eq = omega (arith, less, is.size_eq, shorter, longer);
        segment =
            IsSegment-append links xs (p ∷ ys) l.first null q e null _
              (IsSegment-set_link next xs l.first null q e p (next x) p_before front)
              (
                at,
                p_full,
                subst (λ (t : ℕ). IsSegment links ys t p null (if l.last == x then p else l.last))
                    (sym (set_link_self next p (next x)))
                    (behind_extracted links ys x_behind (
                      IsSegment-set_link next ys (next x) x null l.last p (next x) p_behind.1
                        rest)),
              );
        distinct = Distinct-extract xs p x ys is.distinct;
        size_lt = omega (arith, less, is.size_lt);
      }
    where
      distinct_behind : (zs : List ℕ) → Distinct (zs ++ p ∷ x ∷ ys) → NotIn x ys
      distinct_behind [] (out, (out', d)) = out'
      distinct_behind (z ∷ zs) (out, d) = distinct_behind zs d
