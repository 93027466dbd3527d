-- ===== src/IntrusiveList/Doubly/Ends.antt =====
-- The operations at the ends of a doubly linked list, as operations on the sequence of its nodes.
-- The forward links change as those of a singly linked list.
use mathlib.Core.Path.{subst}
use riscv_mte.Base.{
  ℕ, ◌+◌, ◌≡◌, ◌≢◌, ◌<◌, ◌^◌, refl, sym, ap, ◌∙◌, List, [], ◌∷◌, ◌++◌, arith, ◌==◌, Bool, true,
  false, add64, if◌then◌else◌,
}
use riscv_mte.IntrusiveList.{IntrusiveList, Links, null, set_link, is_empty}
use riscv_mte.IntrusiveList.Segment.{NotIn, IsList, set_link_self, set_link_ne}
use riscv_mte.IntrusiveList.Singly
use riscv_mte.IntrusiveList.Singly.Ends.{push_back-IsList, push_front-IsList, pop_front-IsList}
use riscv_mte.IntrusiveList.Doubly.{DoublyLinkedList, push_front, push_back, pop_front}
use riscv_mte.IntrusiveList.Doubly.Backward.{
  IsBackward, IsDoublyList, IsBackward-set_link, IsBackward-append,
}

push_front-prev :
    (d : DoublyLinkedList) (x : ℕ)
    → (d.list.size == 0) ≡ false
    → (push_front x d).prev ≡ set_link (set_link d.prev x null) d.list.first x
unfolding push_front is_empty
push_front-prev d x filled = rw filled refl

push_front-IsBackward :
    (d : DoublyLinkedList) (xs : List ℕ) (x : ℕ)
    → IsDoublyList d xs
    → NotIn x xs
    → IsBackward (push_front x d).prev (x ∷ xs) null
unfolding push_front is_empty
push_front-IsBackward d [] x is out =
    let empty : (d.list.size == 0) ≡ true = ground (arith, is.forward.size_eq) in
    rw empty (set_link_self d.prev x null, tt)
push_front-IsBackward d (y ∷ ys) x is (ne, out) =
    let first = d.list.first in
    let filled : (d.list.size == 0) ≡ false = ground (arith, is.forward.size_eq) in
    let at : y ≡ first = sym is.forward.segment.0 in
    let prev = set_link d.prev x null in
    let ys_back : IsBackward (set_link prev y x) ys y =
      IsBackward-set_link prev ys y y x is.forward.distinct.0
        (IsBackward-set_link d.prev ys y x null out is.backward.1) in
    let back : IsBackward (set_link prev y x) (x ∷ y ∷ ys) null = (
      set_link_ne prev y x x (λ h. ne (sym h)) ∙ set_link_self d.prev x null,
      (set_link_self prev y x, ys_back),
    ) in
    subst (λ (t : Links). IsBackward t (x ∷ y ∷ ys) null) (sym (push_front-prev d x filled))
      (subst (λ (t : ℕ). IsBackward (set_link prev t x) (x ∷ y ∷ ys) null) at back)

pub push_front-IsDoublyList :
    (d : DoublyLinkedList) (xs : List ℕ) (x : ℕ)
    → IsDoublyList d xs
    → x ≢ null
    → NotIn x xs
    → d.list.size + 1 < 2 ^ 63
    → IsDoublyList (push_front x d) (x ∷ xs)
push_front-IsDoublyList d xs x is full out fits = record {
  forward =
      unfold push_front Singly.push_front in
      push_front-IsList d.next d.list xs x is.forward full out fits;
  backward = push_front-IsBackward d xs x is out;
}

-- The forward links are those of the operation on a singly linked list.
push_back-singly :
    (d : DoublyLinkedList) (x : ℕ)
    → Singly.push_back x d.list d.next ≡ ((push_back x d).list, (push_back x d).next)
unfolding push_back Singly.push_back
push_back-singly d x = by_emptiness (is_empty d.list)
  where
    by_emptiness :
        (b : Bool)
        → ◌≡◌ {A = IntrusiveList × Links}
            (if b
              then (
                record { size = add64 d.list.size 1; first = x; last = x },
                set_link d.next x null,
              )
              else (
                record d.list { size = add64 d.list.size 1; last = x },
                set_link (set_link d.next x null) d.list.last x,
              ))
            (
              record {
                size = add64 d.list.size 1;
                first = if b then x else d.list.first;
                last = x;
              },
              if b then set_link d.next x null else set_link (set_link d.next x null) d.list.last x,
            )
    by_emptiness true = refl
    by_emptiness false = refl

pub push_back-IsDoublyList :
    (d : DoublyLinkedList) (xs : List ℕ) (x : ℕ)
    → IsDoublyList d xs
    → x ≢ null
    → NotIn x xs
    → d.list.size + 1 < 2 ^ 63
    → IsDoublyList (push_back x d) (xs ++ x ∷ [])
push_back-IsDoublyList d xs x is full out fits =
    let f = is.forward in
    record {
      forward =
          subst (λ (t : IntrusiveList × Links). IsList t.1 t.0 (xs ++ x ∷ []))
            (push_back-singly d x) (push_back-IsList d.next d.list xs x f full out fits);
      backward =
          unfold push_back in
          IsBackward-append d.next (set_link d.prev x d.list.last) xs (x ∷ []) d.list.first null
            null d.list.last f.segment
            (IsBackward-set_link d.prev xs null x d.list.last out is.backward)
            (set_link_self d.prev x d.list.last, tt);
    }

pop_front-prev :
    (d : DoublyLinkedList)
    → (d.next d.list.first == null) ≡ false
    → (pop_front d).prev ≡ set_link d.prev (d.next d.list.first) null
unfolding pop_front
pop_front-prev d filled = rw filled refl

pop_front-IsBackward :
    (d : DoublyLinkedList) (x : ℕ) (xs : List ℕ)
    → IsDoublyList d (x ∷ xs)
    → IsBackward (pop_front d).prev xs null
unfolding pop_front
pop_front-IsBackward d x [] is = tt
pop_front-IsBackward d x (y ∷ ys) is =
    let (at, full, rest) = is.forward.segment in
    let first : y ≡ d.next d.list.first = sym (ap d.next at ∙ rest.0) in
    let filled : (d.next d.list.first == null) ≡ false = ground (arith, first, rest.1) in
    let back : IsBackward (set_link d.prev y null) (y ∷ ys) null = (
      set_link_self d.prev y null,
      IsBackward-set_link d.prev ys y y null is.forward.distinct.1.0 is.backward.1.1,
    ) in
    subst (λ (t : Links). IsBackward t (y ∷ ys) null) (sym (pop_front-prev d filled))
      (subst (λ (t : ℕ). IsBackward (set_link d.prev t null) (y ∷ ys) null) first back)

pub pop_front-IsDoublyList :
    (d : DoublyLinkedList) (x : ℕ) (xs : List ℕ)
    → IsDoublyList d (x ∷ xs)
    → IsDoublyList (pop_front d) xs
pop_front-IsDoublyList d x xs is = record {
  forward = unfold pop_front Singly.pop_front in pop_front-IsList d.next d.list x xs is.forward;
  backward = pop_front-IsBackward d x xs is;
}
