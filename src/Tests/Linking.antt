-- ===== src/Tests/Linking.antt =====
-- list.h at concrete nodes.
use riscv_mte.Base.{◌==◌, if◌then◌else◌, ◌≡◌, some, true, refl, arith, [], ◌∷◌}
use riscv_mte.IntrusiveList.{IntrusiveList, Links, clear, check_consistency}
use riscv_mte.IntrusiveList.Consistent.{check_consistency-IsList}
use riscv_mte.IntrusiveList.Doubly
use riscv_mte.IntrusiveList.Doubly.{DoublyLinkedList}
use riscv_mte.IntrusiveList.Doubly.Backward.{IsDoublyList}
use riscv_mte.IntrusiveList.Doubly.Remove.{remove-IsDoublyList}
use riscv_mte.IntrusiveList.Doubly.Insert.{insert-IsDoublyList}
use riscv_mte.IntrusiveList.Segment.{IsList}
use riscv_mte.IntrusiveList.Singly.{append_back}
use riscv_mte.IntrusiveList.Singly.Ends.{append_back-IsList}

-- The nodes 10, 20 and 30 in a list, and 40 and 50 in another one.
abbrev links : Links
links node = if node == 10 then 20 else if node == 20 then 30 else if node == 40 then 50 else 0

abbrev three : IntrusiveList
three = record { size = 3; first = 10; last = 30 }

abbrev two : IntrusiveList
two = record { size = 2; first = 40; last = 50 }

three-IsList : IsList links three (10 ∷ 20 ∷ 30 ∷ [])
three-IsList = record {
  size_eq = refl;
  segment = (refl, ground arith, (refl, ground arith, (refl, ground arith, (refl, refl))));
  distinct = ((ground arith, (ground arith, tt)), ((ground arith, tt), (tt, tt)));
  size_lt = omega arith;
}

two-IsList : IsList links two (40 ∷ 50 ∷ [])
two-IsList = record {
  size_eq = refl;
  segment = (refl, ground arith, (refl, ground arith, (refl, refl)));
  distinct = ((ground arith, tt), (tt, tt));
  size_lt = omega arith;
}

append_back-IsList_example :
    IsList
      (append_back three two links).1.1
      (append_back three two links).0
      (10 ∷ 20 ∷ 30 ∷ 40 ∷ 50 ∷ [])
    × ((append_back three two links).1.0 ≡ clear)
append_back-IsList_example =
    append_back-IsList links three two (10 ∷ 20 ∷ 30 ∷ []) (40 ∷ 50 ∷ []) three-IsList two-IsList
      (
        (ground arith, (ground arith, (ground arith, (ground arith, tt)))),
        (
          (ground arith, (ground arith, (ground arith, tt))),
          ((ground arith, (ground arith, tt)), ((ground arith, tt), (tt, tt))),
        ),
      )
      (omega arith)

check_consistency-IsList_example : check_consistency 3 three links ≡ some true
check_consistency-IsList_example =
    check_consistency-IsList links three (10 ∷ 20 ∷ 30 ∷ []) three-IsList

-- The first three nodes with links in both directions.
abbrev linked : DoublyLinkedList
linked = record {
  list = three;
  next = links;
  prev = λ node. if node == 20 then 10 else if node == 30 then 20 else 0;
}

linked-IsDoublyList : IsDoublyList linked (10 ∷ 20 ∷ 30 ∷ [])
linked-IsDoublyList = record { forward = three-IsList; backward = (refl, (refl, (refl, tt))) }

remove-IsDoublyList_example :
    (d : DoublyLinkedList) × (Doubly.remove 20 linked ≡ some d) × IsDoublyList d (10 ∷ 30 ∷ [])
remove-IsDoublyList_example = remove-IsDoublyList linked (10 ∷ []) 20 (30 ∷ []) linked-IsDoublyList

insert-IsDoublyList_example :
    (d : DoublyLinkedList) × (Doubly.insert 60 20 linked ≡ some d)
    × IsDoublyList d (10 ∷ 60 ∷ 20 ∷ 30 ∷ [])
insert-IsDoublyList_example =
    insert-IsDoublyList linked (10 ∷ []) 60 20 (30 ∷ []) linked-IsDoublyList (ground arith)
      (ground arith, (ground arith, (ground arith, tt))) (omega arith)
