-- ===== src/IntrusiveList/Singly/Ends.antt =====
-- The operations at the ends of a singly linked list, as operations on the sequence of its nodes.
use mathlib.Core.Path.{subst}
use mathlib.Core.List.{append-nil}
use riscv_mte.Base.{
  ℕ, ◌+◌, ◌-◌, ◌≡◌, ◌≢◌, ◌<◌, ◌^◌, refl, sym, ap, ◌∙◌, List, [], ◌∷◌, ◌++◌, arith, ◌==◌,
  length-append, true, false, add64, sub64, add64_eq, sub64_eq,
}
use riscv_mte.IntrusiveList.{IntrusiveList, Links, null, set_link, is_empty, clear}
use riscv_mte.IntrusiveList.Segment.{
  IsSegment, NotIn, Distinct, IsList, set_link_self, set_link_ne, IsSegment-set_link,
  IsSegment-append, last-ne, IsSegment-relink, Distinct-snoc, last-NotIn,
}
use riscv_mte.IntrusiveList.Singly.{push_back, push_front, pop_front, append_back}

-- For a singly linked list over pointers whose nodes, in order and without repetition, are given
-- (IsList), `push_back` of a node that is not null and not in the list gives the list with the node
-- at its end, where the size stays below 2 ^ 63.
pub push_back-IsList :
    (next : Links) (l : IntrusiveList) (xs : List ℕ) (x : ℕ)
    → IsList next l xs
    → x ≢ null
    → NotIn x xs
    → l.size + 1 < 2 ^ 63
    → IsList (push_back x l next).1 (push_back x l next).0 (xs ++ x ∷ [])
unfolding push_back is_empty
push_back-IsList next l [] x is full out fits =
    let empty : (l.size == 0) ≡ true = ground (arith, is.size_eq) in
    let grown : add64 l.size 1 ≡ 1 = omega (arith, is.size_eq, add64_eq l.size 1 (omega arith)) in
    rw empty (record {
      size_eq = grown;
      segment = (refl, full, (set_link_self next x null, refl));
      distinct = (tt, tt);
      size_lt = omega (arith, grown);
    })
push_back-IsList next l (y ∷ ys) x is full out fits =
    let filled : (l.size == 0) ≡ false = ground (arith, is.size_eq) in
    let grown : add64 l.size 1 ≡ l.size + 1 = add64_eq l.size 1 (omega arith) in
    let next' = set_link next x null in
    let apart : l.last ≢ x = last-ne next y ys l.first null null l.last x out is.segment in
    let front =
      IsSegment-relink next' y ys l.first null null l.last x is.distinct
        (IsSegment-set_link next (y ∷ ys) l.first null null l.last x null out is.segment) in
    let ends : set_link next' l.last x x ≡ null =
      set_link_ne next' l.last x x (λ h. apart (sym h)) ∙ set_link_self next x null in
    rw filled (record {
      size_eq = omega (arith, grown, is.size_eq, length-append (y ∷ ys) (x ∷ []));
      segment =
          IsSegment-append (set_link next' l.last x) (y ∷ ys) (x ∷ []) l.first null x l.last null x
            front (refl, full, (ends, refl));
      distinct = Distinct-snoc (y ∷ ys) x is.distinct out;
      size_lt = omega (arith, grown);
    })

-- The node `x` before all nodes.
pub push_front-IsList :
    (next : Links) (l : IntrusiveList) (xs : List ℕ) (x : ℕ)
    → IsList next l xs
    → x ≢ null
    → NotIn x xs
    → l.size + 1 < 2 ^ 63
    → IsList (push_front x l next).1 (push_front x l next).0 (x ∷ xs)
unfolding push_front is_empty
push_front-IsList next l [] x is full out fits =
    let empty : (l.size == 0) ≡ true = ground (arith, is.size_eq) in
    let grown : add64 l.size 1 ≡ l.size + 1 = add64_eq l.size 1 (omega arith) in
    rw empty (record {
      size_eq = omega (arith, grown, is.size_eq);
      segment = (refl, full, (set_link_self next x l.first ∙ is.segment.0, refl));
      distinct = (tt, tt);
      size_lt = omega (arith, grown);
    })
push_front-IsList next l (y ∷ ys) x is full out fits =
    let filled : (l.size == 0) ≡ false = ground (arith, is.size_eq) in
    let grown : add64 l.size 1 ≡ l.size + 1 = add64_eq l.size 1 (omega arith) in
    let next' = set_link next x l.first in
    rw filled (record {
      size_eq = omega (arith, grown, is.size_eq);
      segment = (
        refl,
        full,
        subst (λ (t : ℕ). IsSegment next' (y ∷ ys) t x null l.last)
            (sym (set_link_self next x l.first))
            (IsSegment-set_link next (y ∷ ys) l.first null null l.last x l.first out is.segment),
      );
      distinct = (out, is.distinct);
      size_lt = omega (arith, grown);
    })

-- For a singly linked list over pointers whose nodes, in order and without repetition, are given
-- (IsList), and not empty, `pop_front` gives the list without its first node.
pub pop_front-IsList :
    (next : Links) (l : IntrusiveList) (x : ℕ) (xs : List ℕ)
    → IsList next l (x ∷ xs)
    → IsList next (pop_front l next) xs
unfolding pop_front
pop_front-IsList next l x [] is =
    let (at, full, (end, last)) = is.segment in
    let first : next l.first ≡ null = ap next at ∙ end in
    let less : sub64 l.size 1 ≡ 0 = omega (
      arith,
      sub64_eq l.size 1 (omega (arith, is.size_eq)) (omega (arith, is.size_lt)),
      is.size_eq,
    ) in
    rw first (record {
      size_eq = less;
      segment = (refl, refl);
      distinct = tt;
      size_lt = omega (arith, less);
    })
pop_front-IsList next l x (y ∷ ys) is =
    let (at, full, rest) = is.segment in
    let first : next l.first ≡ y = ap next at ∙ rest.0 in
    let filled : (y == null) ≡ false = ground (arith, rest.1) in
    let less : sub64 l.size 1 ≡ l.size - 1 =
      sub64_eq l.size 1 (omega (arith, is.size_eq)) (omega (arith, is.size_lt)) in
    rw first (
      rw filled (record {
        size_eq = omega (arith, less, is.size_eq);
        segment = (refl, rest.1, rest.2);
        distinct = is.distinct.1;
        size_lt = omega (arith, less, is.size_lt);
      }))

-- For a singly linked list over pointers whose nodes, in order and without repetition, are given
-- (IsList), and another one that shares no node with it, `append_back` gives the list of the nodes
-- of both, where the sizes together stay below 2 ^ 63, and leaves the other list empty.
pub append_back-IsList :
    (next : Links) (l other : IntrusiveList) (xs ys : List ℕ)
    → IsList next l xs
    → IsList next other ys
    → Distinct (xs ++ ys)
    → l.size + other.size < 2 ^ 63
    → IsList (append_back l other next).1.1 (append_back l other next).0 (xs ++ ys)
      × ((append_back l other next).1.0 ≡ clear)
unfolding append_back is_empty
append_back-IsList next l other xs [] is is' d fits =
    let empty : (other.size == 0) ≡ true = ground (arith, is'.size_eq) in
    let (at, back) = is'.segment in
    rw empty (subst (IsList next l) (sym (append-nil xs)) is, ground (arith, is'.size_eq, at, back))
append_back-IsList next l other [] (y ∷ ys) is is' d fits =
    let empty : (l.size == 0) ≡ true = ground (arith, is.size_eq) in
    let filled : (other.size == 0) ≡ false = ground (arith, is'.size_eq) in
    rw filled (rw empty (is', refl))
append_back-IsList next l other (x ∷ xs) (y ∷ ys) is is' d fits =
    let filled : (l.size == 0) ≡ false = ground (arith, is.size_eq) in
    let filled' : (other.size == 0) ≡ false = ground (arith, is'.size_eq) in
    let sum : add64 l.size other.size ≡ l.size + other.size =
      add64_eq l.size other.size (omega arith) in
    rw filled' (
      rw filled (
        record {
          size_eq = omega (arith, sum, is.size_eq, is'.size_eq, length-append (x ∷ xs) (y ∷ ys));
          segment =
              IsSegment-append (set_link next l.last other.first) (x ∷ xs) (y ∷ ys) l.first null
                other.first l.last null other.last
                (IsSegment-relink next x xs l.first null null l.last other.first is.distinct
                  is.segment)
                (IsSegment-set_link next (y ∷ ys) other.first null null other.last l.last
                  other.first (last-NotIn next x xs (y ∷ ys) l.first null null l.last is.segment d)
                  is'.segment);
          distinct = d;
          size_lt = omega (arith, sum);
        },
        refl,
      ))
