-- ===== src/IntrusiveList/Segment.antt =====
-- The nodes of a list as a segment of a linked structure.
use mathlib.Core.Path.{subst}
use riscv_mte.Base.{ℕ, ◌≡◌, ◌≢◌, ◌<◌, ◌^◌, refl, sym, ap, ◌∙◌, List, [], ◌∷◌, ◌++◌, arith, length}
use riscv_mte.IntrusiveList.{IntrusiveList, Links, null, set_link}

-- The nodes from `p` up to, and without, `q`. The node before the segment is `b`, and its last node
-- is `e`, or `b` if it is empty.
abbrev pub IsSegment : Links → List ℕ → (p b q e : ℕ) → Type 0
IsSegment next [] p b q e = (p ≡ q) × (b ≡ e)
IsSegment next (x ∷ xs) p b q e = (p ≡ x) × (x ≢ null) × IsSegment next xs (next x) x q e

abbrev pub NotIn : ℕ → List ℕ → Type 0
NotIn x [] = Unit {0}
NotIn x (y ∷ ys) = (y ≢ x) × NotIn x ys

abbrev pub Distinct : List ℕ → Type 0
Distinct [] = Unit {0}
Distinct (x ∷ xs) = NotIn x xs × Distinct xs

pub set_link_self : (next : Links) (x v : ℕ) → set_link next x v x ≡ v
unfolding set_link
set_link_self next x v = ground arith

pub set_link_ne : (next : Links) (x v y : ℕ) → y ≢ x → set_link next x v y ≡ next y
unfolding set_link
set_link_ne next x v y ne = ground arith

-- A link of a node outside does not matter.
pub IsSegment-set_link :
    (next : Links) (xs : List ℕ) (p b q e x v : ℕ)
    → NotIn x xs
    → IsSegment next xs p b q e
    → IsSegment (set_link next x v) xs p b q e
IsSegment-set_link next [] p b q e x v out s = s
IsSegment-set_link next (y ∷ ys) p b q e x v (ne, out) (at, full, rest) = (
  at,
  full,
  subst (λ (t : ℕ). IsSegment (set_link next x v) ys t y q e) (sym (set_link_ne next x v y ne))
      (IsSegment-set_link next ys (next y) y q e x v out rest),
)

pub IsSegment-append :
    (next : Links) (xs ys : List ℕ) (p b q e r f : ℕ)
    → IsSegment next xs p b q e
    → IsSegment next ys q e r f
    → IsSegment next (xs ++ ys) p b r f
IsSegment-append next [] ys p b q e r f (at, back) s =
    subst (λ (t : ℕ). IsSegment next ys t b r f) (sym at)
      (subst (λ (t : ℕ). IsSegment next ys q t r f) (sym back) s)
IsSegment-append next (x ∷ xs) ys p b q e r f (at, full, rest) s =
    (at, full, IsSegment-append next xs ys (next x) x q e r f rest s)

-- A segment of two parts.
pub IsSegment-split :
    (next : Links) (xs ys : List ℕ) (p b r f : ℕ)
    → IsSegment next (xs ++ ys) p b r f
    → (q : ℕ) × (e : ℕ) × IsSegment next xs p b q e × IsSegment next ys q e r f
IsSegment-split next [] ys p b r f s = (p, b, (refl, refl), s)
IsSegment-split next (x ∷ xs) ys p b r f (at, full, rest) =
    let (q, e, front, back) = IsSegment-split next xs ys (next x) x r f rest in
    (q, e, (at, full, front), back)

-- The last node of a segment is one of its nodes.
pub last-ne :
    (next : Links) (y : ℕ) (ys : List ℕ) (p b q e x : ℕ)
    → NotIn x (y ∷ ys)
    → IsSegment next (y ∷ ys) p b q e
    → e ≢ x
last-ne next y [] p b q e x (ne, _) (at, full, (end, last)) h = ne (last ∙ h)
last-ne next y (z ∷ zs) p b q e x (ne, out) (at, full, rest) h =
    last-ne next z zs (next y) y q e x out rest h

-- The last node of a segment can be linked to another node.
pub IsSegment-relink :
    (next : Links) (y : ℕ) (ys : List ℕ) (p b q e v : ℕ)
    → Distinct (y ∷ ys)
    → IsSegment next (y ∷ ys) p b q e
    → IsSegment (set_link next e v) (y ∷ ys) p b v e
IsSegment-relink next y [] p b q e v d (at, full, (end, last)) =
    (at, full, (ap (set_link next e v) last ∙ set_link_self next e v, last))
IsSegment-relink next y (z ∷ zs) p b q e v (out, d) (at, full, rest) = (
  at,
  full,
  subst (λ (t : ℕ). IsSegment (set_link next e v) (z ∷ zs) t y v e)
      (sym (set_link_ne next e v y (λ h. last-ne next z zs (next y) y q e y out rest (sym h))))
      (IsSegment-relink next z zs (next y) y q e v d rest),
)

pub NotIn-append : (x : ℕ) (ys zs : List ℕ) → NotIn x ys → NotIn x zs → NotIn x (ys ++ zs)
NotIn-append x [] zs p q = q
NotIn-append x (y ∷ ys) zs (ne, p) q = (ne, NotIn-append x ys zs p q)

-- One more node at the end.
pub Distinct-snoc : (xs : List ℕ) (x : ℕ) → Distinct xs → NotIn x xs → Distinct (xs ++ x ∷ [])
Distinct-snoc [] x d out = (tt, tt)
Distinct-snoc (y ∷ ys) x (out, d) (ne, out') =
    (NotIn-append y ys (x ∷ []) out ((λ h. ne (sym h)), tt), Distinct-snoc ys x d out')

-- A singly linked list: its nodes, in order, are those given.
pub record IsList (next : Links) (l : IntrusiveList) (xs : List ℕ) : Type 0 where
  pub size_eq : l.size ≡ length xs
  pub segment : IsSegment next xs l.first null null l.last
  pub distinct : Distinct xs
  pub size_lt : l.size < 2 ^ 63

-- The nodes around a node of a list without repetitions.
pub NotIn-around : (p : ℕ) (xs ys : List ℕ) → Distinct (xs ++ p ∷ ys) → NotIn p xs × NotIn p ys
NotIn-around p [] ys (out, d) = (tt, out)
NotIn-around p (x ∷ xs) ys (out, d) =
    let (before, behind) = NotIn-around p xs ys d in
    (((λ h. NotIn-middle x xs p ys out (sym h)), before), behind)
  where
    NotIn-middle : (x : ℕ) (xs : List ℕ) (p : ℕ) (ys : List ℕ) → NotIn x (xs ++ p ∷ ys) → p ≢ x
    NotIn-middle x [] p ys (ne, out) = ne
    NotIn-middle x (z ∷ zs) p ys (ne, out) = NotIn-middle x zs p ys out

-- A node that is in neither part, and the node between them.
pub NotIn-parts :
    (x : ℕ) (xs : List ℕ) (p : ℕ) (ys : List ℕ)
    → NotIn x (xs ++ p ∷ ys)
    → NotIn x xs × (p ≢ x) × NotIn x ys
NotIn-parts x [] p ys (ne, out) = (tt, ne, out)
NotIn-parts x (z ∷ zs) p ys (ne, out) =
    let (before, at, behind) = NotIn-parts x zs p ys out in ((ne, before), at, behind)

-- One more node behind a node.
pub Distinct-insert :
    (xs : List ℕ) (p x : ℕ) (ys : List ℕ)
    → Distinct (xs ++ p ∷ ys)
    → NotIn x (xs ++ p ∷ ys)
    → Distinct (xs ++ p ∷ x ∷ ys)
Distinct-insert [] p x ys (out, d) (ne, out') = (((λ h. ne (sym h)), out), (out', d))
Distinct-insert (z ∷ zs) p x ys (out, d) (ne, out') =
    let (before, at, behind) = NotIn-parts z zs p ys out in
    (
      NotIn-append z zs (p ∷ x ∷ ys) before (at, ((λ h. ne (sym h)), behind)),
      Distinct-insert zs p x ys d out',
    )

NotIn-extract :
    (z : ℕ) (xs : List ℕ) (p x : ℕ) (ys : List ℕ)
    → NotIn z (xs ++ p ∷ x ∷ ys)
    → NotIn z (xs ++ p ∷ ys)
NotIn-extract z [] p x ys (at, (ne, out)) = (at, out)
NotIn-extract z (w ∷ ws) p x ys (ne, out) = (ne, NotIn-extract z ws p x ys out)

-- The node behind a node goes.
pub Distinct-extract :
    (xs : List ℕ) (p x : ℕ) (ys : List ℕ) → Distinct (xs ++ p ∷ x ∷ ys) → Distinct (xs ++ p ∷ ys)
Distinct-extract [] p x ys ((ne, out), (out', d)) = (out, d)
Distinct-extract (z ∷ zs) p x ys (out, d) =
    (NotIn-extract z zs p x ys out, Distinct-extract zs p x ys d)

-- The last node of a part is not in the part behind it.
pub last-NotIn :
    (next : Links) (x : ℕ) (xs ys : List ℕ) (p b q e : ℕ)
    → IsSegment next (x ∷ xs) p b q e
    → Distinct ((x ∷ xs) ++ ys)
    → NotIn e ys
last-NotIn next x [] ys p b q e (at, full, (end, last)) (out, d) =
    subst (λ (t : ℕ). NotIn t ys) last out
last-NotIn next x (z ∷ zs) ys p b q e (at, full, rest) (out, d) =
    last-NotIn next z zs ys (next x) x q e rest d
