-- ===== src/Nodes/Others.antt =====
-- Two lists: a node that leaves one and joins the other.
use neox.Base.{ℕ, ◌≡◌, sym, List, [], ◌∷◌, ◌++◌}
use neox.Nodes.{Nodes, done, ◌>>=◌, list_push_back, list_remove}
use neox.Nodes.Ring.{NotIn, IsRing, last, first, NotIn-last}
use neox.Nodes.Splice.{Elsewhere, Linked-Elsewhere}
use neox.Nodes.Remove.{rest_apart, list_remove-Relinked}
use neox.Nodes.Queue.{pushed_back}

-- No node stands in both.
abbrev pub Disjoint : List ℕ → List ℕ → Type 0
Disjoint [] ys = Unit {0}
Disjoint (x ∷ xs) ys = NotIn x ys × Disjoint xs ys

Disjoint-drop :
    (node : ℕ) (us vs ys : List ℕ) → Disjoint (us ++ node ∷ vs) ys → Disjoint (us ++ vs) ys
Disjoint-drop node [] vs ys d = d.1
Disjoint-drop node (u ∷ us) vs ys d = (d.0, Disjoint-drop node us vs ys d.1)

Disjoint-right : (us vs ys : List ℕ) → Disjoint (us ++ vs) ys → Disjoint vs ys
Disjoint-right [] vs ys d = d
Disjoint-right (u ∷ us) vs ys d = Disjoint-right us vs ys d.1

Disjoint-last : (a : ℕ) (us vs ys : List ℕ) → Disjoint (a ∷ us ++ vs) ys → NotIn (last a us) ys
Disjoint-last a [] vs ys d = d.0
Disjoint-last a (u ∷ us) vs ys d = Disjoint-last u us vs ys d.1

Disjoint-first : (a : ℕ) (vs ys : List ℕ) → NotIn a ys → Disjoint vs ys → NotIn (first vs a) ys
Disjoint-first a [] ys h d = h
Disjoint-first a (v ∷ vs) ys h d = d.0

-- The end of the second list stands not in the first, and neither does its head.
Disjoint-ends :
    (xs : List ℕ) (a : ℕ) (ys : List ℕ) → Disjoint xs (a ∷ ys) → NotIn (last a ys) xs × NotIn a xs
Disjoint-ends [] a ys d = (tt, tt)
Disjoint-ends (x ∷ xs) a ys d =
    let (h, k) = Disjoint-ends xs a ys d.1 in
    (((λ e. NotIn-last x a ys d.0 (sym e)), h), ((λ e. d.0.0 (sym e)), k))

-- A ring away from the writes stays.
IsRing-Elsewhere :
    (s t : Nodes) (p node q other : ℕ) (ys : List ℕ)
    → Elsewhere s t p node q
    → IsRing s other ys
    → NotIn p (other ∷ ys)
    → NotIn node (other ∷ ys)
    → NotIn q (other ∷ ys)
    → IsRing t other ys
IsRing-Elsewhere s t p node q other ys e r hp hn hq = record {
  linked = Linked-Elsewhere s t p node q e other other ys r.linked hp hn hq.1 hq.0 hn.0;
  distinct = r.distinct;
  nonzero = r.nonzero;
}

-- Where two lists have no node in common, a node of the first that is removed and pushed back to
-- the second leaves the first and ends the second; the other nodes of both keep their order.
pub list_move :
    (s : Nodes) (list node other : ℕ) (us vs ys : List ℕ)
    → IsRing s list (us ++ node ∷ vs)
    → IsRing s other ys
    → Disjoint (list ∷ us ++ node ∷ vs) (other ∷ ys)
    → (u : Nodes) × ((list_remove s node >>= λ t. list_push_back t other node) ≡ done u)
      × IsRing u list (us ++ vs)
      × IsRing u other (ys ++ node ∷ [])
list_move s list node other us vs ys r o d =
    let (t, e, ring, free, kept) = list_remove-Relinked s list node us vs r in
    let here = Disjoint-right us (node ∷ vs) (other ∷ ys) d.1 in
    let o' =
      IsRing-Elsewhere s t (last list us) node (first vs list) other ys kept o
        (Disjoint-last list us (node ∷ vs) (other ∷ ys) d) here.0
        (Disjoint-first list vs (other ∷ ys) d.0 here.1) in
    let (u, e', joined, kept') = pushed_back t other node ys o' free in
    let apart =
      Disjoint-ends (list ∷ us ++ vs) other ys (d.0, Disjoint-drop node us vs (other ∷ ys) d.1) in
    (
      u,
      rw (e) e',
      IsRing-Elsewhere t u (last other ys) node other list (us ++ vs) kept' ring apart.0
          (rest_apart s list node us vs r) apart.1,
      joined,
    )
