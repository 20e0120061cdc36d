-- ===== src/Nodes/Remove.antt =====
-- `list_remove`.
use neox.Base.{==_false, ℕ, ◌≡◌, ◌≢◌, sym, ap, ◌∙◌, List, ◌∷◌, ◌++◌, arith}
use neox.Base.Memory.{store}
use neox.Nodes.{Nodes, done, list_remove}
use neox.Nodes.Ring.{
  NotIn, IsRing, last, first, NotIn-last, NotIn-first, NotIn-left, NotIn-right, NotIn-drop,
  Distinct-drop,
}
use neox.Nodes.Splice.{Elsewhere, Removed, Linked-Removed, middle}
use neox.Nodes.Insert.{IsFree, store_other}

-- The pointers of the neighbours `p` and `q`, then those of `node`.
abbrev pub unspliced : Nodes → ℕ → ℕ → ℕ → Nodes
unspliced s p node q = record {
  prev = store (store s.prev q p) node 0;
  next = store (store s.next p q) node 0;
}

unspliced-Removed :
    (s : Nodes) (p node q : ℕ) → node ≢ p → node ≢ q → Removed s (unspliced s p node q) p node q
unfolding store
unspliced-Removed s p node q np nq = record {
  next_before = ground arith;
  next_node = ground arith;
  prev_node = ground arith;
  prev_after = ground arith;
  elsewhere = record { next_kept = λ x xp xn. ground arith; prev_kept = λ x xq xn. ground arith };
}

pub remove_step :
    (s : Nodes) (node : ℕ)
    → node ≢ 0
    → s.prev node ≢ 0
    → s.next node ≢ 0
    → s.prev node ≢ node
    → list_remove s node ≡ done (unspliced s (s.prev node) node (s.next node))
unfolding list_remove
remove_step s node nz pz qz pn = rw (
  ==_false node 0 nz,
  ==_false (s.prev node) 0 pz,
  ==_false (s.next node) 0 qz,
  store_other s.next (s.prev node) (s.next node) node pn,
)

IsRing-Removed :
    (s t : Nodes) (list node : ℕ) (us vs : List ℕ)
    → IsRing s list (us ++ node ∷ vs)
    → Removed s t (last list us) node (first vs list)
    → IsRing t list (us ++ vs)
IsRing-Removed s t list node us vs r i = record {
  linked = Linked-Removed s t node list list us vs r.linked i (r.distinct, r.distinct.0);
  distinct = (NotIn-drop list node us vs r.distinct.0, (Distinct-drop node us vs r.distinct.1).0);
  nonzero = (r.nonzero.0, NotIn-drop 0 node us vs r.nonzero.1);
}

module _ (s : Nodes) (list node : ℕ) (us vs : List ℕ) (r : IsRing s list (us ++ node ∷ vs)) where
  pub rest_apart : NotIn node (list ∷ us ++ vs)
  rest_apart = (
    λ k. (NotIn-right list us (node ∷ vs) r.distinct.0).0 (sym k),
    (Distinct-drop node us vs r.distinct.1).1,
  )

  pub rest_nonzero : NotIn 0 (list ∷ us ++ vs)
  rest_nonzero = (r.nonzero.0, NotIn-drop 0 node us vs r.nonzero.1)

  -- Its neighbours are others, and none is NULL.
  pub before_apart : (z : ℕ) → NotIn z (list ∷ us ++ vs) → (z ≢ last list us) × (z ≢ first vs list)
  before_apart z h = (
    NotIn-last z list us (h.0, NotIn-left z us vs h.1),
    NotIn-first z list vs (NotIn-right z us vs h.1) h.0,
  )

  pub remove_here : list_remove s node ≡ done (unspliced s (last list us) node (first vs list))
  remove_here =
      let m = middle s list list node us vs r.linked in
      let nz = (NotIn-right 0 us (node ∷ vs) r.nonzero.1).0 in
      let zs = before_apart 0 rest_nonzero in
      remove_step s node (λ k. nz (sym k)) (λ k. zs.0 (sym k ∙ m.0)) (λ k. zs.1 (sym k ∙ m.1))
        (λ k. (before_apart node rest_apart).0 (sym k ∙ m.0))
      ∙ (ap (λ p. done (unspliced s p node (s.next node))) m.0
          ∙ ap (λ q. done (unspliced s (last list us) node q)) m.1)

  taken_out :
      Removed s
        (unspliced s (last list us) node (first vs list))
        (last list us)
        node
        (first vs list)
  taken_out =
      let a = before_apart node rest_apart in
      unspliced-Removed s (last list us) node (first vs list) a.0 a.1

  -- In the ring of a list whose nodes are us, node and vs, list_remove of the node returns: the
  -- ring holds us and vs, both pointers of the node are NULL, and no other pointer is written but
  -- the two of its neighbours that led to it.
  pub list_remove-Relinked :
      (t : Nodes) × (list_remove s node ≡ done t)
      × IsRing t list (us ++ vs)
      × IsFree t node
      × Elsewhere s t (last list us) node (first vs list)
  list_remove-Relinked = (
    unspliced s (last list us) node (first vs list),
    remove_here,
    IsRing-Removed s (unspliced s (last list us) node (first vs list)) list node us vs r taken_out,
    (
      λ k. (NotIn-right 0 us (node ∷ vs) r.nonzero.1).0 (sym k),
      taken_out.prev_node,
      taken_out.next_node,
    ),
    taken_out.elsewhere,
  )
