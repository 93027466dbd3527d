-- ===== src/IntrusiveList/Doubly/Remove.antt =====
-- Removal of a node from a doubly linked list.
use mathlib.Core.Path.{subst}
use riscv_mte.Base.{
  ℕ, ◌-◌, ◌≡◌, refl, sym, ap, List, [], ◌∷◌, ◌++◌, arith, ◌==◌, if◌then◌else◌, length-append, true,
  false, some, sub64, sub64_eq,
}
use riscv_mte.IntrusiveList.{Links, null, set_link}
use riscv_mte.IntrusiveList.Segment.{
  IsSegment, NotIn, Distinct, set_link_self, IsSegment-set_link, IsSegment-append, IsSegment-split,
  IsSegment-relink, last-NotIn, last-ne, NotIn-around,
}
use riscv_mte.IntrusiveList.Doubly.Nodes.{Distinct-front, Distinct-without}
use riscv_mte.IntrusiveList.Doubly.{DoublyLinkedList, relink, unlinked, remove}
use riscv_mte.IntrusiveList.Doubly.Backward.{
  IsBackward, IsDoublyList, IsBackward-set_link, IsBackward-append, IsBackward-split, next-last,
}

-- The nodes before `x` once its neighbours are linked to each other: the segment ends at the node
-- behind `x`, and the nodes behind keep their links.
record IsUnlinkedFront (next : Links) (xs ys : List ℕ) (first x e : ℕ) (next' : Links)
    : Type 0 where
  relinked : relink next e x (next x) ≡ some next'
  front : IsSegment next' xs (if first == x then next x else first) null (next x) e
  behind : (p b q f : ℕ) → IsSegment next ys p b q f → IsSegment next' ys p b q f

unlink_front :
    (next : Links) (xs ys : List ℕ) (first x e : ℕ)
    → IsSegment next xs first null x e
    → Distinct (xs ++ x ∷ ys)
    → (next' : Links) × IsUnlinkedFront next xs ys first x e next'
unfolding relink
unlink_front next [] ys first x e (at, end) d =
    let same : (first == x) ≡ true = ground arith in
    let none : (e == null) ≡ true = ground arith in
    (next, record { relinked = rw none refl; front = rw same (refl, end); behind = λ p b q f s. s })
unlink_front next (y ∷ ys) zs first x e s d =
    let (links, full) = next-last next y ys first null x e s in
    let (x_before, x_behind) = NotIn-around x (y ∷ ys) zs d in
    let other : (first == x) ≡ false = ground (arith, s.0, x_before.0) in
    let some' : (e == null) ≡ false = ground (arith, full) in
    let checked : (next e == x) ≡ true = ground (arith, links) in
    let out = last-NotIn next y ys (x ∷ zs) first null x e s d in
    (
      set_link next e (next x),
      record {
        relinked = rw (some', checked) refl;
        front = rw other (
            IsSegment-relink next y ys first null x e (next x) (Distinct-front (y ∷ ys) (x ∷ zs) d)
              s);
        behind = λ p b q f. IsSegment-set_link next zs p b q f e (next x) out.1;
      },
    )

record IsUnlinkedBack (prev : Links) (xs ys : List ℕ) (n x e : ℕ) (prev' : Links) : Type 0 where
  relinked : relink prev n x e ≡ some prev'
  front : IsBackward prev' xs null
  behind : IsBackward prev' ys e

unlink_back :
    (next prev : Links) (xs ys : List ℕ) (n x e last : ℕ)
    → IsSegment next ys n x null last
    → Distinct (xs ++ ys)
    → IsBackward prev xs null
    → IsBackward prev ys x
    → (prev' : Links) × IsUnlinkedBack prev xs ys n x e prev'
unfolding relink
unlink_back next prev xs [] n x e last (at, end) d front behind =
    let none : (n == null) ≡ true = ground (arith, at) in
    (prev, record { relinked = rw none refl; front = front; behind = tt })
unlink_back next prev xs (y ∷ ys) n x e last (at, full, rest) d front (here, behind) =
    let some' : (n == null) ≡ false = ground (arith, full, at) in
    let checked : (prev n == x) ≡ true = ground (arith, ap prev at, here) in
    let (y_before, y_behind) = NotIn-around y xs ys d in
    (
      set_link prev n e,
      record {
        relinked = rw (some', checked) refl;
        front =
            subst (λ (t : ℕ). IsBackward (set_link prev t e) xs null) (sym at)
              (IsBackward-set_link prev xs null y e y_before front);
        behind =
            subst (λ (t : ℕ). IsBackward (set_link prev t e) (y ∷ ys) e) (sym at)
              (set_link_self prev y e, IsBackward-set_link prev ys y y e y_behind behind);
      },
    )

-- The rest of the list behind the node that goes, which may have been the last one.
rest_unlinked :
    (next : Links) (ys : List ℕ) (n x e last : ℕ)
    → NotIn x ys
    → IsSegment next ys n x null last
    → IsSegment next ys n e null (if last == x then e else last)
rest_unlinked next [] n x e last out (at, end) =
    let same : (last == x) ≡ true = ground (arith, end) in (at, rw same refl)
rest_unlinked next (y ∷ ys) n x e last out s =
    let other : (last == x) ≡ false = ground (arith, last-ne next y ys n x null last x out s) in
    rw other s

-- Both checks pass.
remove-unlinked :
    (x : ℕ) (d : DoublyLinkedList) (next' prev' : Links)
    → relink d.next (d.prev x) x (d.next x) ≡ some next'
    → relink d.prev (d.next x) x (d.prev x) ≡ some prev'
    → remove x d ≡ some (unlinked x d next' prev')
unfolding remove
remove-unlinked x d next' prev' n p = rw (n, p, remove) refl

-- For a doubly linked list over pointers whose nodes, in order and without repetition, are given,
-- whose links of both fields agree, and whose size is below 2 ^ 63 (IsDoublyList), `remove` of a
-- node of the list passes its checks and gives the list without that node.
pub remove-IsDoublyList :
    (d : DoublyLinkedList) (xs : List ℕ) (x : ℕ) (ys : List ℕ)
    → IsDoublyList d (xs ++ x ∷ ys)
    → (d' : DoublyLinkedList) × (remove x d ≡ some d') × IsDoublyList d' (xs ++ ys)
unfolding unlinked
remove-IsDoublyList d xs x ys is =
    let l = d.list in
    let f = is.forward in
    let (q, e, front, (at, full, rest)) =
      IsSegment-split d.next xs (x ∷ ys) l.first null null l.last f.segment in
    let (back_front, (back_x, back_rest)) =
      IsBackward-split d.next d.prev xs (x ∷ ys) l.first null q e front is.backward in
    let front' : IsSegment d.next xs l.first null x (d.prev x) =
      subst (λ (t : ℕ). IsSegment d.next xs l.first null x t) (sym back_x)
        (subst (λ (t : ℕ). IsSegment d.next xs l.first null t e) at front) in
    let (next', forward) = unlink_front d.next xs ys l.first x (d.prev x) front' f.distinct in
    let (prev', backward) =
      unlink_back d.next d.prev xs ys (d.next x) x (d.prev x) l.last rest
        (Distinct-without xs x ys f.distinct) back_front back_rest in
    let (x_before, x_behind) = NotIn-around x xs ys f.distinct in
    let shorter = length-append xs ys in
    let longer = length-append xs (x ∷ ys) in
    let less : sub64 l.size 1 ≡ l.size - 1 =
      sub64_eq l.size 1 (omega (arith, f.size_eq, longer)) (omega (arith, f.size_lt)) in
    (
      unlinked x d next' prev',
      remove-unlinked x d next' prev' forward.relinked backward.relinked,
      record {
        forward = record {
          size_eq = omega (arith, less, f.size_eq, shorter, longer);
          segment = IsSegment-append next' xs ys _ null (d.next x) (d.prev x) null _ forward.front (
              rest_unlinked next' ys (d.next x) x (d.prev x) l.last x_behind
                (forward.behind (d.next x) x null l.last rest));
          distinct = Distinct-without xs x ys f.distinct;
          size_lt = omega (arith, less, f.size_lt);
        };
        backward =
            IsBackward-append next' prev' xs ys _ null (d.next x) (d.prev x) forward.front
              backward.front backward.behind;
      },
    )
