-- ===== src/IntrusiveList/Doubly/Backward.antt =====
-- The links of a doubly linked list that lead to the node before.
use mathlib.Core.Path.{subst}
use riscv_mte.Base.{ℕ, ◌≡◌, ◌≢◌, sym, List, [], ◌∷◌, ◌++◌}
use riscv_mte.IntrusiveList.{Links, null, set_link}
use riscv_mte.IntrusiveList.Doubly.{DoublyLinkedList}
use riscv_mte.IntrusiveList.Segment.{IsSegment, NotIn, IsList, set_link_ne}

-- The links of the nodes lead back, those of the first one to `b`.
abbrev pub IsBackward : Links → List ℕ → ℕ → Type 0
IsBackward prev [] b = Unit {0}
IsBackward prev (x ∷ xs) b = (prev x ≡ b) × IsBackward prev xs x

-- A doubly linked list: its nodes, in order, are those given, and the links of both fields agree.
pub record IsDoublyList (d : DoublyLinkedList) (xs : List ℕ) : Type 0 where
  pub forward : IsList d.next d.list xs
  pub backward : IsBackward d.prev xs null

-- A link of a node outside does not matter.
pub IsBackward-set_link :
    (prev : Links) (xs : List ℕ) (b x v : ℕ)
    → NotIn x xs
    → IsBackward prev xs b
    → IsBackward (set_link prev x v) xs b
IsBackward-set_link prev [] b x v out back = tt
IsBackward-set_link prev (y ∷ ys) b x v (ne, out) (at, back) = (
  subst (λ (t : ℕ). t ≡ b) (sym (set_link_ne prev x v y ne)) at,
  IsBackward-set_link prev ys y x v out back,
)

-- The nodes behind a segment lead back to its last node.
pub IsBackward-append :
    (next prev : Links) (xs ys : List ℕ) (p b q e : ℕ)
    → IsSegment next xs p b q e
    → IsBackward prev xs b
    → IsBackward prev ys e
    → IsBackward prev (xs ++ ys) b
IsBackward-append next prev [] ys p b q e (at, end) back back' =
    subst (λ (t : ℕ). IsBackward prev ys t) (sym end) back'
IsBackward-append next prev (x ∷ xs) ys p b q e (at, full, rest) (here, back) back' =
    (here, IsBackward-append next prev xs ys (next x) x q e rest back back')

pub IsBackward-split :
    (next prev : Links) (xs ys : List ℕ) (p b q e : ℕ)
    → IsSegment next xs p b q e
    → IsBackward prev (xs ++ ys) b
    → IsBackward prev xs b × IsBackward prev ys e
IsBackward-split next prev [] ys p b q e (at, end) back =
    (tt, subst (λ (t : ℕ). IsBackward prev ys t) end back)
IsBackward-split next prev (x ∷ xs) ys p b q e (at, full, rest) (here, back) =
    let (front, behind) = IsBackward-split next prev xs ys (next x) x q e rest back in
    ((here, front), behind)

-- The last node of a segment leads out of it, and is not null.
pub next-last :
    (next : Links) (x : ℕ) (xs : List ℕ) (p b q e : ℕ)
    → IsSegment next (x ∷ xs) p b q e
    → (next e ≡ q) × (e ≢ null)
next-last next x [] p b q e (at, full, (end, last)) =
    (subst (λ (t : ℕ). next t ≡ q) last end, subst (λ (t : ℕ). t ≢ null) last full)
next-last next x (y ∷ ys) p b q e (at, full, rest) = next-last next y ys (next x) x q e rest
