-- ===== src/IntrusiveList/Doubly/Insert.antt =====
-- Insertion of a node before another one of a doubly linked list.
use mathlib.Core.Path.{subst}
use riscv_mte.Base.{
  ℕ, ◌+◌, ◌≡◌, ◌≢◌, ◌<◌, ◌^◌, refl, sym, ◌∙◌, List, [], ◌∷◌, ◌++◌, arith, ◌==◌, length-append, true,
  false, some, add64, add64_eq,
}
use riscv_mte.IntrusiveList.{Links, null, set_link}
use riscv_mte.IntrusiveList.Segment.{
  IsSegment, NotIn, Distinct, set_link_self, set_link_ne, IsSegment-set_link, IsSegment-append,
  IsSegment-split, IsSegment-relink, last-NotIn, NotIn-around, NotIn-parts,
}
use riscv_mte.IntrusiveList.Doubly.{DoublyLinkedList, push_front, insert}
use riscv_mte.IntrusiveList.Doubly.Nodes.{Distinct-front, Distinct-before}
use riscv_mte.IntrusiveList.Doubly.Ends.{push_front-IsDoublyList}
use riscv_mte.IntrusiveList.Doubly.Backward.{
  IsBackward, IsDoublyList, IsBackward-set_link, IsBackward-append, IsBackward-split, next-last,
}

-- The forward links, where the node before `y` is `e`.
insert-IsSegment :
    (next : Links) (w : ℕ) (ws : List ℕ) (x y : ℕ) (ys : List ℕ) (first e last : ℕ)
    → IsSegment next (w ∷ ws) first null y e
    → IsSegment next (y ∷ ys) y e null last
    → Distinct (w ∷ ws ++ y ∷ ys)
    → x ≢ null
    → NotIn x (w ∷ ws ++ y ∷ ys)
    → IsSegment (set_link (set_link next e x) x y) (w ∷ ws ++ x ∷ y ∷ ys) first null null last
insert-IsSegment next w ws x y ys first e last front rest d full out =
    let next' = set_link next e x in
    let links = set_link next' x y in
    let (x_before, ne, x_behind) = NotIn-parts x (w ∷ ws) y ys out in
    let e_out = last-NotIn next w ws (y ∷ ys) first null y e front d in
    let front' : IsSegment links (w ∷ ws) first null x e =
      IsSegment-set_link next' (w ∷ ws) first null x e x y x_before
        (IsSegment-relink next w ws first null y e x (Distinct-front (w ∷ ws) (y ∷ ys) d) front) in
    let (_, y_full, rest') : IsSegment links (y ∷ ys) y e null last =
      IsSegment-set_link next' (y ∷ ys) y e null last x y (ne, x_behind)
        (IsSegment-set_link next (y ∷ ys) y e null last e x e_out rest) in
    IsSegment-append links (w ∷ ws) (x ∷ y ∷ ys) first null x e null last front'
      (refl, full, (set_link_self next' x y, y_full, rest'))

insert-IsBackward :
    (prev : Links) (xs : List ℕ) (x y : ℕ) (ys : List ℕ) (e : ℕ)
    → NotIn x (xs ++ y ∷ ys)
    → Distinct (xs ++ y ∷ ys)
    → IsBackward prev xs null
    → IsBackward prev (y ∷ ys) e
    → IsBackward (set_link (set_link prev x e) y x) xs null
      × IsBackward (set_link (set_link prev x e) y x) (x ∷ y ∷ ys) e
insert-IsBackward prev xs x y ys e out d front (at, behind) =
    let prev' = set_link prev x e in
    let (x_before, ne, x_behind) = NotIn-parts x xs y ys out in
    let (y_before, y_behind) = NotIn-around y xs ys d in
    (
      IsBackward-set_link prev' xs null y x y_before
          (IsBackward-set_link prev xs null x e x_before front),
      (
        set_link_ne prev' y x x (λ h. ne (sym h)) ∙ set_link_self prev x e,
        (
          set_link_self prev' y x,
          IsBackward-set_link prev' ys y y x y_behind
              (IsBackward-set_link prev ys y x e x_behind behind),
        ),
      ),
    )

inserted : (x y : ℕ) → DoublyLinkedList → DoublyLinkedList
inserted x y d = record {
  list = record d.list { size = add64 d.list.size 1 };
  next = set_link (set_link d.next (d.prev y) x) x y;
  prev = set_link (set_link d.prev x (d.prev y)) y x;
}

-- The check passes.
insert-inserted :
    (x y : ℕ) (d : DoublyLinkedList)
    → (y == d.list.first) ≡ false
    → (d.next (d.prev y) == y) ≡ true
    → insert x y d ≡ some (inserted x y d)
unfolding insert inserted
insert-inserted x y d other checked = rw (other, checked) refl

-- For a doubly linked list over pointers whose nodes, in order and without repetition, are given,
-- whose links of both fields agree, and whose size is below 2 ^ 63 (IsDoublyList), `insert` of a
-- node that is not null and not in the list, before a node of the list, passes its check and gives
-- the list with the new node before that one, where the size stays below 2 ^ 63.
pub insert-IsDoublyList :
    (d : DoublyLinkedList) (xs : List ℕ) (x y : ℕ) (ys : List ℕ)
    → IsDoublyList d (xs ++ y ∷ ys)
    → x ≢ null
    → NotIn x (xs ++ y ∷ ys)
    → d.list.size + 1 < 2 ^ 63
    → (d' : DoublyLinkedList) × (insert x y d ≡ some d') × IsDoublyList d' (xs ++ x ∷ y ∷ ys)
unfolding insert inserted
insert-IsDoublyList d [] x y ys is full out fits =
    let at : (y == d.list.first) ≡ true = ground (arith, is.forward.segment.0) in
    (push_front x d, rw at refl, push_front-IsDoublyList d (y ∷ ys) x is full out fits)
insert-IsDoublyList d (w ∷ ws) x y ys is full out fits =
    let l = d.list in
    let f = is.forward in
    let (q, e, front, (at, y_full, rest)) =
      IsSegment-split d.next (w ∷ ws) (y ∷ ys) l.first null null l.last f.segment in
    let (back_front, back_rest) =
      IsBackward-split d.next d.prev (w ∷ ws) (y ∷ ys) l.first null q e front is.backward in
    let front' : IsSegment d.next (w ∷ ws) l.first null y (d.prev y) =
      subst (λ (t : ℕ). IsSegment d.next (w ∷ ws) l.first null y t) (sym back_rest.0)
        (subst (λ (t : ℕ). IsSegment d.next (w ∷ ws) l.first null t e) at front) in
    let (links, _) = next-last d.next w ws l.first null y (d.prev y) front' in
    let (y_before, y_behind) = NotIn-around y (w ∷ ws) ys f.distinct in
    let other : (y == l.first) ≡ false = ground (arith, front'.0, y_before.0) in
    let checked : (d.next (d.prev y) == y) ≡ true = ground (arith, links) in
    let grown : add64 l.size 1 ≡ l.size + 1 = add64_eq l.size 1 (omega arith) in
    let segment =
      insert-IsSegment d.next w ws x y ys l.first (d.prev y) l.last front' (refl, y_full, rest)
        f.distinct full out in
    let (before, behind) =
      insert-IsBackward d.prev (w ∷ ws) x y ys (d.prev y) out f.distinct back_front
        (refl, back_rest.1) in
    let longer = length-append (w ∷ ws) (x ∷ y ∷ ys) in
    let shorter = length-append (w ∷ ws) (y ∷ ys) in
    (
      inserted x y d,
      insert-inserted x y d other checked,
      record {
        forward = record {
          size_eq = omega (arith, grown, f.size_eq, shorter, longer);
          segment = segment;
          distinct = Distinct-before (w ∷ ws) x y ys f.distinct out;
          size_lt = omega (arith, grown);
        };
        backward =
            IsBackward-append d.next _ (w ∷ ws) (x ∷ y ∷ ys) l.first null y (d.prev y) front' before
              behind;
      },
    )
