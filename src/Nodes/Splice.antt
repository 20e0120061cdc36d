-- ===== src/Nodes/Splice.antt =====
-- A node put between two neighbours of a ring, or taken from between them.
use neox.Base.{ℕ, ◌≡◌, ◌≢◌, List, [], ◌∷◌, ◌++◌, ◌∙◌, sym}
use neox.Nodes.{Nodes}
use neox.Nodes.Ring.{
  NotIn, Distinct, Linked, last, first, NotIn-last, NotIn-first, NotIn-left, NotIn-right,
}

-- Only `node`, the forward pointer of `p` and the backward pointer of `q` differ.
pub record Elsewhere (s t : Nodes) (p node q : ℕ) : Type 0 where
  pub next_kept : (x : ℕ) → x ≢ p → x ≢ node → t.next x ≡ s.next x
  pub prev_kept : (x : ℕ) → x ≢ q → x ≢ node → t.prev x ≡ s.prev x

pub record Inserted (s t : Nodes) (p node q : ℕ) : Type 0 where
  pub next_before : t.next p ≡ node
  pub next_node : t.next node ≡ q
  pub prev_node : t.prev node ≡ p
  pub prev_after : t.prev q ≡ node
  pub elsewhere : Elsewhere s t p node q

pub record Removed (s t : Nodes) (p node q : ℕ) : Type 0 where
  pub next_before : t.next p ≡ q
  pub next_node : t.next node ≡ 0
  pub prev_node : t.prev node ≡ 0
  pub prev_after : t.prev q ≡ p
  pub elsewhere : Elsewhere s t p node q

module _ (s t : Nodes) (p node q : ℕ) (e : Elsewhere s t p node q) where
  -- A stretch of a ring away from the writes stays.
  pub Linked-Elsewhere :
      (a b : ℕ) (xs : List ℕ)
      → Linked s a xs b
      → NotIn p (a ∷ xs)
      → NotIn node (a ∷ xs)
      → NotIn q xs
      → q ≢ b
      → node ≢ b
      → Linked t a xs b
  Linked-Elsewhere a b [] linked hp hn hq qb nb = (
    e.next_kept a (λ k. hp.0 (sym k)) (λ k. hn.0 (sym k)) ∙ linked.0,
    e.prev_kept b (λ k. qb (sym k)) (λ k. nb (sym k)) ∙ linked.1,
  )
  Linked-Elsewhere a b (x ∷ xs) linked hp hn hq qb nb = (
    e.next_kept a (λ k. hp.0 (sym k)) (λ k. hn.0 (sym k)) ∙ linked.0,
    e.prev_kept x (λ k. hq.0 (sym k)) (λ k. hn.1.0 (sym k)) ∙ linked.1,
    Linked-Elsewhere x b xs linked.2 hp.1 hn.1 hq.1 qb nb,
  )

-- The conditions on the names that a stretch from `a` to `b` meets in a ring.
abbrev pub Apart : ℕ → List ℕ → ℕ → Type 0
Apart a xs b = Distinct (a ∷ xs) × NotIn b xs

module _ (s t : Nodes) (node b : ℕ) where
  Linked-Inserted_here :
      (a : ℕ) (vs : List ℕ)
      → Linked s a vs b
      → Inserted s t a node (first vs b)
      → Apart a vs b
      → NotIn node (a ∷ vs)
      → node ≢ b
      → Linked t a (node ∷ vs) b
  Linked-Inserted_here a [] linked i apart new nb =
      (i.next_before, i.prev_node, (i.next_node, i.prev_after))
  Linked-Inserted_here a (v ∷ vs) linked i apart new nb = (
    i.next_before,
    i.prev_node,
    (
      i.next_node,
      i.prev_after,
      Linked-Elsewhere s t a node v i.elsewhere v b vs linked.2 apart.0.0 new.1 apart.0.1.0
          (λ k. apart.1.0 (sym k)) nb,
    ),
  )

  -- A node put between `us` and `vs`.
  pub Linked-Inserted :
      (a : ℕ) (us vs : List ℕ)
      → Linked s a (us ++ vs) b
      → Inserted s t (last a us) node (first vs b)
      → Apart a (us ++ vs) b
      → NotIn node (a ∷ us ++ vs)
      → node ≢ b
      → Linked t a (us ++ node ∷ vs) b
  Linked-Inserted a [] vs linked i apart new nb = Linked-Inserted_here a vs linked i apart new nb
  Linked-Inserted a (u ∷ us) vs linked i apart new nb = (
    i.elsewhere.next_kept a (NotIn-last a u us (apart.0.0.0, NotIn-left a us vs apart.0.0.1))
          (λ k. new.0 (sym k))
        ∙ linked.0,
    i.elsewhere.prev_kept u
          (NotIn-first u b vs (NotIn-right u us vs apart.0.1.0) (λ k. apart.1.0 (sym k)))
          (λ k. new.1.0 (sym k))
        ∙ linked.1,
    Linked-Inserted u us vs linked.2 i (apart.0.1, apart.1.1) new.1 nb,
  )

  Linked-Removed_here :
      (a : ℕ) (vs : List ℕ)
      → Linked s a (node ∷ vs) b
      → Removed s t a node (first vs b)
      → Apart a (node ∷ vs) b
      → Linked t a vs b
  Linked-Removed_here a [] linked r apart = (r.next_before, r.prev_after)
  Linked-Removed_here a (v ∷ vs) linked r apart = (
    r.next_before,
    r.prev_after,
    Linked-Elsewhere s t a node v r.elsewhere v b vs linked.2.2 apart.0.0.1 apart.0.1.0
        apart.0.1.1.0 (λ k. apart.1.1.0 (sym k)) (λ k. apart.1.0 (sym k)),
  )

  -- A node taken from between `us` and `vs`.
  pub Linked-Removed :
      (a : ℕ) (us vs : List ℕ)
      → Linked s a (us ++ node ∷ vs) b
      → Removed s t (last a us) node (first vs b)
      → Apart a (us ++ node ∷ vs) b
      → Linked t a (us ++ vs) b
  Linked-Removed a [] vs linked r apart = Linked-Removed_here a vs linked r apart
  Linked-Removed a (u ∷ us) vs linked r apart = (
    r.elsewhere.next_kept a
          (NotIn-last a u us (apart.0.0.0, NotIn-left a us (node ∷ vs) apart.0.0.1))
          (NotIn-right a us (node ∷ vs) apart.0.0.1).0
        ∙ linked.0,
    r.elsewhere.prev_kept u
          (NotIn-first u b vs (NotIn-right u us (node ∷ vs) apart.0.1.0).1 (λ k. apart.1.0 (sym k)))
          (NotIn-right u us (node ∷ vs) apart.0.1.0).0
        ∙ linked.1,
    Linked-Removed u us vs linked.2 r (apart.0.1, apart.1.1),
  )

-- The neighbours of a place in a ring.
pub neighbours :
    (s : Nodes) (a b : ℕ) (us vs : List ℕ)
    → Linked s a (us ++ vs) b
    → (s.next (last a us) ≡ first vs b) × (s.prev (first vs b) ≡ last a us)
neighbours s a b [] [] linked = linked
neighbours s a b [] (v ∷ vs) linked = (linked.0, linked.1)
neighbours s a b (u ∷ us) vs linked = neighbours s u b us vs linked.2

-- The node behind `us` is between its neighbours.
pub middle :
    (s : Nodes) (a b node : ℕ) (us vs : List ℕ)
    → Linked s a (us ++ node ∷ vs) b
    → (s.prev node ≡ last a us) × (s.next node ≡ first vs b)
middle s a b node [] [] linked = (linked.1, linked.2.0)
middle s a b node [] (v ∷ vs) linked = (linked.1, linked.2.0)
middle s a b node (u ∷ us) vs linked = middle s u b node us vs linked.2
