-- ===== src/IntrusiveList/Singly.antt =====
-- SinglyLinkedList of LLVM_SCUDO_MTE/list.h. An operation returns the list and the links.
pub mod Ends
pub mod Middle
use riscv_mte.Base.{ℕ, ◌+◌, if◌then◌else◌, ◌==◌, add64, sub64}
use riscv_mte.IntrusiveList.{IntrusiveList, Links, null, set_link, is_empty, clear}

unfoldable pub push_back : ℕ → IntrusiveList → Links → IntrusiveList × Links
push_back x l next =
    let next' = set_link next x null in
    if is_empty l
    then (record { size = add64 l.size 1; first = x; last = x }, next')
    else (record l { size = add64 l.size 1; last = x }, set_link next' l.last x)

unfoldable pub push_front : ℕ → IntrusiveList → Links → IntrusiveList × Links
push_front x l next = (
  record { size = add64 l.size 1; first = x; last = if is_empty l then x else l.last },
  set_link next x l.first,
)

unfoldable pub pop_front : IntrusiveList → Links → IntrusiveList
pop_front l next =
    let first = next l.first in
    record { size = sub64 l.size 1; first = first; last = if first == null then null else l.last }

-- Inserts `x` behind `prev`.
unfoldable pub insert : (prev x : ℕ) → IntrusiveList → Links → IntrusiveList × Links
insert prev x l next = (
  record l { size = add64 l.size 1; last = if l.last == prev then x else l.last },
  set_link (set_link next x (next prev)) prev x,
)

-- Takes `x`, which stands behind `prev`, out of the list.
unfoldable pub extract : (prev x : ℕ) → IntrusiveList → Links → IntrusiveList × Links
extract prev x l next = (
  record l { size = sub64 l.size 1; last = if l.last == x then prev else l.last },
  set_link next prev (next x),
)

-- The list that grows, the one that is emptied, and the links.
unfoldable pub append_back :
    IntrusiveList → IntrusiveList → Links → IntrusiveList × (IntrusiveList × Links)
append_back l other next =
    if is_empty other then (l, (other, next)) else if is_empty l then (other, (clear, next)) else (
      record l { size = add64 l.size other.size; last = other.last },
      (clear, set_link next l.last other.first),
    )
