-- ===== src/IntrusiveList/Doubly/Nodes.antt =====
-- The nodes of a list without repetitions, when a part of them or a single one goes.
use riscv_mte.Base.{ℕ, sym, List, [], ◌∷◌, ◌++◌}
use riscv_mte.IntrusiveList.Segment.{NotIn, Distinct}

NotIn-front : (x : ℕ) (xs ys : List ℕ) → NotIn x (xs ++ ys) → NotIn x xs
NotIn-front x [] ys out = tt
NotIn-front x (z ∷ zs) ys (ne, out) = (ne, NotIn-front x zs ys out)

pub Distinct-front : (xs ys : List ℕ) → Distinct (xs ++ ys) → Distinct xs
Distinct-front [] ys d = tt
Distinct-front (x ∷ xs) ys (out, d) = (NotIn-front x xs ys out, Distinct-front xs ys d)

NotIn-without :
    (z : ℕ) (xs : List ℕ) (x : ℕ) (ys : List ℕ) → NotIn z (xs ++ x ∷ ys) → NotIn z (xs ++ ys)
NotIn-without z [] x ys (ne, out) = out
NotIn-without z (w ∷ ws) x ys (ne, out) = (ne, NotIn-without z ws x ys out)

pub Distinct-without :
    (xs : List ℕ) (x : ℕ) (ys : List ℕ) → Distinct (xs ++ x ∷ ys) → Distinct (xs ++ ys)
Distinct-without [] x ys (out, d) = d
Distinct-without (z ∷ zs) x ys (out, d) = (NotIn-without z zs x ys out, Distinct-without zs x ys d)

-- One more node before a node.
pub Distinct-before :
    (xs : List ℕ) (x y : ℕ) (ys : List ℕ)
    → Distinct (xs ++ y ∷ ys)
    → NotIn x (xs ++ y ∷ ys)
    → Distinct (xs ++ x ∷ y ∷ ys)
Distinct-before [] x y ys d out = (out, d)
Distinct-before (z ∷ zs) x y ys (out, d) (ne, out') =
    (NotIn-more zs out, Distinct-before zs x y ys d out')
  where
    NotIn-more : (ws : List ℕ) → NotIn z (ws ++ y ∷ ys) → NotIn z (ws ++ x ∷ y ∷ ys)
    NotIn-more [] o = ((λ h. ne (sym h)), o)
    NotIn-more (w ∷ ws) (n, o) = (n, NotIn-more ws o)
