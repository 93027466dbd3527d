-- ===== src/IntrusiveList.antt =====
-- LLVM_SCUDO_MTE/list.h: the intrusive lists whose links are pointers. A node is an address, and the
-- null pointer is 0; the links of all nodes are functions of the address. Both kinds of list share
-- the record of the size and of both ends.
pub mod Segment
pub mod Singly
pub mod Doubly
pub mod Consistent
use riscv_mte.Base.{ℕ, zero, suc, Bool, Option, none, some, ◌==◌, ◌&&◌, if◌then◌else◌, add64, sub64}

pub record IntrusiveList : Type 0 where
  pub size : ℕ
  pub first : ℕ
  pub last : ℕ

abbrev pub null : ℕ
null = 0

-- The links of a field, `Next` or `Prev`.
abbrev pub Links : Type 0
Links = ℕ → ℕ

-- `setNext` and `setPrev`.
unfoldable pub set_link : Links → ℕ → ℕ → Links
set_link links x target y = if y == x then target else links y

unfoldable pub is_empty : IntrusiveList → Bool
is_empty l = l.size == 0

abbrev pub clear : IntrusiveList
clear = record { size = 0; first = null; last = null }

-- The loop of `checkConsistency`, with the nodes counted so far; `none` means that the fuel ran out.
unfoldable pub count_nodes : (fuel : ℕ) → Links → (node last count : ℕ) → Option ℕ
count_nodes zero next node last count = none
count_nodes (suc fuel) next node last count =
    let rest = count_nodes fuel next (next node) last (add64 count 1) in
    if node == last then some (add64 count 1) else rest

-- `checkConsistency`: whether all its checks pass.
unfoldable pub check_consistency : (fuel : ℕ) → IntrusiveList → Links → Option Bool
check_consistency fuel l next =
    if l.size == 0
    then some (l.first == null && l.last == null)
    else (elim (count_nodes fuel next l.first l.last 0) [
      | none ↦ none
      | some count ↦ some (l.size == count && next l.last == null)
    ])
