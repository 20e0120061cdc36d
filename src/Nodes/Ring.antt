-- ===== src/Nodes/Ring.antt =====
-- The list that a ring of nodes stands for.
use neox.Base.{ℕ, ◌≡◌, ◌≢◌, List, [], ◌∷◌, ◌++◌, sym}
use neox.Nodes.{Nodes}

abbrev pub NotIn : ℕ → List ℕ → Type 0
NotIn x [] = Unit {0}
NotIn x (y ∷ ys) = (x ≢ y) × NotIn x ys

abbrev pub Distinct : List ℕ → Type 0
Distinct [] = Unit {0}
Distinct (x ∷ xs) = NotIn x xs × Distinct xs

-- From `a` over the nodes of the list to `b`, by `next` and back by `prev`.
abbrev pub Linked : Nodes → ℕ → List ℕ → ℕ → Type 0
Linked s a [] b = (s.next a ≡ b) × (s.prev b ≡ a)
Linked s a (x ∷ xs) b = (s.next a ≡ x) × (s.prev x ≡ a) × Linked s x xs b

-- The ring of `list` holds the nodes `xs`, in this order.
pub record IsRing (s : Nodes) (list : ℕ) (xs : List ℕ) : Type 0 where
  pub linked : Linked s list xs list
  pub distinct : Distinct (list ∷ xs)
  pub nonzero : NotIn 0 (list ∷ xs)

-- The node before what follows `us`, and the node behind what precedes `vs`, in a ring.
abbrev pub last : ℕ → List ℕ → ℕ
last a [] = a
last a (x ∷ xs) = last x xs

abbrev pub first : List ℕ → ℕ → ℕ
first [] b = b
first (x ∷ xs) b = x

pub NotIn-last : (z a : ℕ) (us : List ℕ) → NotIn z (a ∷ us) → z ≢ last a us
NotIn-last z a [] h = h.0
NotIn-last z a (u ∷ us) h = NotIn-last z u us h.1

pub NotIn-first : (z b : ℕ) (vs : List ℕ) → NotIn z vs → z ≢ b → z ≢ first vs b
NotIn-first z b [] h e = e
NotIn-first z b (v ∷ vs) h e = h.0

-- `NotIn` for lists that are put together.
pub NotIn-left : (z : ℕ) (us vs : List ℕ) → NotIn z (us ++ vs) → NotIn z us
NotIn-left z [] vs h = tt
NotIn-left z (u ∷ us) vs h = (h.0, NotIn-left z us vs h.1)

pub NotIn-right : (z : ℕ) (us vs : List ℕ) → NotIn z (us ++ vs) → NotIn z vs
NotIn-right z [] vs h = h
NotIn-right z (u ∷ us) vs h = NotIn-right z us vs h.1

-- A node put between two parts of a list, and taken from between them.
pub NotIn-insert :
    (z node : ℕ) (us vs : List ℕ) → NotIn z (us ++ vs) → z ≢ node → NotIn z (us ++ node ∷ vs)
NotIn-insert z node [] vs h e = (e, h)
NotIn-insert z node (u ∷ us) vs h e = (h.0, NotIn-insert z node us vs h.1 e)

pub Distinct-insert :
    (node : ℕ) (us vs : List ℕ)
    → Distinct (us ++ vs)
    → NotIn node (us ++ vs)
    → Distinct (us ++ node ∷ vs)
Distinct-insert node [] vs d new = (new, d)
Distinct-insert node (u ∷ us) vs d new =
    (NotIn-insert u node us vs d.0 (λ k. new.0 (sym k)), Distinct-insert node us vs d.1 new.1)

pub NotIn-drop : (z node : ℕ) (us vs : List ℕ) → NotIn z (us ++ node ∷ vs) → NotIn z (us ++ vs)
NotIn-drop z node [] vs h = h.1
NotIn-drop z node (u ∷ us) vs h = (h.0, NotIn-drop z node us vs h.1)

pub Distinct-drop :
    (node : ℕ) (us vs : List ℕ)
    → Distinct (us ++ node ∷ vs)
    → Distinct (us ++ vs) × NotIn node (us ++ vs)
Distinct-drop node [] vs d = (d.1, d.0)
Distinct-drop node (u ∷ us) vs d =
    let (e, out) = Distinct-drop node us vs d.1 in
    ((NotIn-drop u node us vs d.0, e), ((λ k. (NotIn-right u us (node ∷ vs) d.0).0 (sym k)), out))

-- A node with a null pointer stands in no ring.
pub Linked-NotIn :
    (s : Nodes) (node a b : ℕ) (xs : List ℕ)
    → Linked s a xs b
    → s.next node ≡ 0
    → NotIn 0 xs
    → b ≢ 0
    → NotIn node (a ∷ xs)
Linked-NotIn s node a b [] linked e nz h = (λ q. h (cc), tt)
Linked-NotIn s node a b (x ∷ xs) linked e nz h =
    (λ q. nz.0 (cc), Linked-NotIn s node x b xs linked.2 e nz.1 h)
