-- ===== src/Nodes/Insert.antt =====
-- `list_insert_before`, `list_insert_after` and the two pushes.
use neox.Base.{==_false, ==_true, ℕ, ◌≡◌, ◌≢◌, sym, ap, ◌∙◌, List, ◌∷◌, ◌++◌, arith}
use neox.Base.Memory.{store}
use neox.Nodes.{Nodes, Result, done, list_insert_before, list_insert_after}
use neox.Nodes.Ring.{
  NotIn, IsRing, last, first, NotIn-last, NotIn-first, NotIn-left, NotIn-right, NotIn-insert,
  Distinct-insert, Linked-NotIn,
}
use neox.Nodes.Splice.{Elsewhere, Inserted, Linked-Inserted, neighbours}

-- The node is not NULL, and is marked to be in no list.
abbrev pub IsFree : Nodes → ℕ → Type 0
IsFree s node = (node ≢ 0) × (s.prev node ≡ 0) × (s.next node ≡ 0)

-- The pointers of `node`, then those of its neighbours `p` and `q`.
abbrev pub spliced : Nodes → ℕ → ℕ → ℕ → Nodes
spliced s p node q = record {
  prev = store (store s.prev node p) q node;
  next = store (store s.next node q) p node;
}

spliced-Inserted :
    (s : Nodes) (p node q : ℕ) → node ≢ p → node ≢ q → Inserted s (spliced s p node q) p node q
unfolding store
spliced-Inserted s p node q np nq = record {
  next_before = ground arith;
  next_node = ground arith;
  prev_node = ground arith;
  prev_after = ground arith;
  elsewhere = record { next_kept = λ x xp xn. ground arith; prev_kept = λ x xq xn. ground arith };
}

pub store_other : (m : ℕ → ℕ) (i v j : ℕ) → i ≢ j → store m i v j ≡ m j
unfolding store
store_other m i v j h = ground arith

pub insert_before_step :
    (s : Nodes) (pos node : ℕ)
    → pos ≢ 0
    → IsFree s node
    → node ≢ pos
    → list_insert_before s pos node ≡ done (spliced s (s.prev pos) node pos)
unfolding list_insert_before
insert_before_step s pos node pnz f np = rw (
  ==_false pos 0 pnz,
  ==_false node 0 f.0,
  ==_true (s.prev node) 0 f.1,
  ==_true (s.next node) 0 f.2,
  store_other s.prev node (s.prev pos) pos np,
)

pub insert_after_step :
    (s : Nodes) (pos node : ℕ)
    → pos ≢ 0
    → IsFree s node
    → node ≢ pos
    → list_insert_after s pos node ≡ done (spliced s pos node (s.next pos))
unfolding list_insert_after
insert_after_step s pos node pnz f np = rw (
  ==_false pos 0 pnz,
  ==_false node 0 f.0,
  ==_true (s.prev node) 0 f.1,
  ==_true (s.next node) 0 f.2,
  store_other s.next node (s.next pos) pos np,
)

free-NotIn :
    (s : Nodes) (list node : ℕ) (xs : List ℕ)
    → IsRing s list xs
    → IsFree s node
    → NotIn node (list ∷ xs)
free-NotIn s list node xs r f =
    Linked-NotIn s node list list xs r.linked f.2 r.nonzero.1 (λ k. r.nonzero.0 (sym k))

-- A free node that is put into a ring.
pub IsRing-Inserted :
    (s t : Nodes) (list node : ℕ) (us vs : List ℕ)
    → IsRing s list (us ++ vs)
    → IsFree s node
    → Inserted s t (last list us) node (first vs list)
    → IsRing t list (us ++ node ∷ vs)
IsRing-Inserted s t list node us vs r f i =
    let new = free-NotIn s list node (us ++ vs) r f in
    record {
      linked =
          Linked-Inserted s t node list list us vs r.linked i (r.distinct, r.distinct.0) new new.0;
      distinct = (
        NotIn-insert list node us vs r.distinct.0 (λ k. new.0 (sym k)),
        Distinct-insert node us vs r.distinct.1 new.1,
      );
      nonzero = (r.nonzero.0, NotIn-insert 0 node us vs r.nonzero.1 (λ k. f.0 (sym k)));
    }

-- The call returns, the ring holds `xs`, and nothing but `node` and the pointers at it is written.
abbrev pub Relinked : Nodes → Result Nodes → ℕ → List ℕ → ℕ → ℕ → ℕ → Type 0
Relinked s result list xs p node q =
    (t : Nodes) × (result ≡ done t) × IsRing t list xs × Elsewhere s t p node q

module _ (s : Nodes) (list node : ℕ) (us vs : List ℕ) (r : IsRing s list (us ++ vs)) where
  pub new_here : IsFree s node → (node ≢ last list us) × (node ≢ first vs list)
  new_here f =
      let new = free-NotIn s list node (us ++ vs) r f in
      (
        NotIn-last node list us (new.0, NotIn-left node us vs new.1),
        NotIn-first node list vs (NotIn-right node us vs new.1) new.0,
      )

  pub spliced_here :
      (f : IsFree s node)
      → Inserted s
          (spliced s (last list us) node (first vs list))
          (last list us)
          node
          (first vs list)
  spliced_here f =
      spliced-Inserted s (last list us) node (first vs list) (new_here f).0 (new_here f).1

  relink :
      (result : Result Nodes) (f : IsFree s node)
      → result ≡ done (spliced s (last list us) node (first vs list))
      → Relinked s result list (us ++ node ∷ vs) (last list us) node (first vs list)
  relink result f e = (
    spliced s (last list us) node (first vs list),
    e,
    IsRing-Inserted s (spliced s (last list us) node (first vs list)) list node us vs r f
        (spliced_here f),
    (spliced_here f).elsewhere,
  )

  zero_apart : (0 ≢ last list us) × (0 ≢ first vs list)
  zero_apart = (
    NotIn-last 0 list us (r.nonzero.0, NotIn-left 0 us vs r.nonzero.1),
    NotIn-first 0 list vs (NotIn-right 0 us vs r.nonzero.1) r.nonzero.0,
  )

  pub insert_before_here :
      IsFree s node
      → list_insert_before s (first vs list) node
        ≡ done (spliced s (last list us) node (first vs list))
  insert_before_here f =
      insert_before_step s (first vs list) node (λ k. zero_apart.1 (sym k)) f (new_here f).1
      ∙ ap (λ p. done (spliced s p node (first vs list))) (neighbours s list list us vs r.linked).1

  -- In the ring of a list whose nodes are us and vs, list_insert_before the first of vs (or the
  -- head, if vs is empty) of a node other than NULL with both pointers NULL returns: the ring holds
  -- us, node and vs, and no pointer is written but those of the node and the two of its neighbours
  -- towards each other.
  pub list_insert_before-Relinked :
      IsFree s node
      → Relinked s
          (list_insert_before s (first vs list) node)
          list
          (us ++ node ∷ vs)
          (last list us)
          node
          (first vs list)
  list_insert_before-Relinked f =
      relink (list_insert_before s (first vs list) node) f (insert_before_here f)

  -- In the ring of a list whose nodes are us and vs, list_insert_after the last of us (or the head,
  -- if us is empty) of a node other than NULL with both pointers NULL returns: the ring holds us,
  -- node and vs, and no pointer is written but those of the node and the two of its neighbours
  -- towards each other.
  pub list_insert_after-Relinked :
      IsFree s node
      → Relinked s
          (list_insert_after s (last list us) node)
          list
          (us ++ node ∷ vs)
          (last list us)
          node
          (first vs list)
  list_insert_after-Relinked f = relink (list_insert_after s (last list us) node) f (
      insert_after_step s (last list us) node (λ k. zero_apart.0 (sym k)) f (new_here f).0
      ∙ ap (λ q. done (spliced s (last list us) node q)) (neighbours s list list us vs r.linked).0)
