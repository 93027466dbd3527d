-- ===== src/IntrusiveList/Doubly.antt =====
-- DoublyLinkedList of LLVM_SCUDO_MTE/list.h. An operation returns the list with the links of both
-- fields; `none` means that one of the hard checks aborted.
pub mod Backward
pub mod Nodes
pub mod Ends
pub mod Remove
pub mod Insert
use riscv_mte.Base.{ℕ, if◌then◌else◌, ◌==◌, Option, none, some, add64, sub64}
use riscv_mte.IntrusiveList.{IntrusiveList, Links, null, set_link, is_empty}

pub record DoublyLinkedList : Type 0 where
  pub list : IntrusiveList
  pub next : Links
  pub prev : Links

unfoldable pub push_front : ℕ → DoublyLinkedList → DoublyLinkedList
push_front x d =
    let l = d.list in
    let prev = set_link d.prev x null in
    record {
      list = record { size = add64 l.size 1; first = x; last = if is_empty l then x else l.last };
      next = set_link d.next x l.first;
      prev = if is_empty l then prev else set_link prev l.first x;
    }

unfoldable pub push_back : ℕ → DoublyLinkedList → DoublyLinkedList
push_back x d =
    let l = d.list in
    let next = set_link d.next x null in
    record {
      list = record { size = add64 l.size 1; first = if is_empty l then x else l.first; last = x };
      next = if is_empty l then next else set_link next l.last x;
      prev = set_link d.prev x l.last;
    }

unfoldable pub pop_front : DoublyLinkedList → DoublyLinkedList
pop_front d =
    let first = d.next d.list.first in
    record d {
      list = record {
        size = sub64 d.list.size 1;
        first = first;
        last = if first == null then null else d.list.last;
      };
      prev = if first == null then d.prev else set_link d.prev first null;
    }

-- Inserts `x` before `y`. The node before `y` must link to it.
unfoldable pub insert : (x y : ℕ) → DoublyLinkedList → Option DoublyLinkedList
insert x y d =
    let prev = d.prev y in
    if y == d.list.first
    then some (push_front x d)
    else if d.next prev == y
    then some (record {
      list = record d.list { size = add64 d.list.size 1 };
      next = set_link (set_link d.next prev x) x y;
      prev = set_link (set_link d.prev x prev) y x;
    })
    else none

-- A neighbour of `x`, unless it is null, must link to `x`; it is linked to `target` instead.
unfoldable pub relink : Links → (neighbour x target : ℕ) → Option Links
relink links neighbour x target =
    if neighbour == null
    then some links
    else if links neighbour == x
    then some (set_link links neighbour target)
    else none

-- The list without `x`, once both neighbours are linked to each other.
unfoldable pub unlinked : ℕ → DoublyLinkedList → (next prev : Links) → DoublyLinkedList
unlinked x d next prev = record {
  list = record {
    size = sub64 d.list.size 1;
    first = if d.list.first == x then d.next x else d.list.first;
    last = if d.list.last == x then d.prev x else d.list.last;
  };
  next = next;
  prev = prev;
}

unfoldable pub remove : ℕ → DoublyLinkedList → Option DoublyLinkedList
remove x d = elim (relink d.next (d.prev x) x (d.next x)) [
  | none ↦ none
  | some next ↦ elim (relink d.prev (d.next x) x (d.prev x)) [
    | none ↦ none
    | some prev ↦ some (unlinked x d next prev)
  ]
]
