-- ===== src/Nodes/Cycle.antt =====
-- A node inserted and removed again, and calls that the assertions stop.
use neox.Base.{==_false, ==_true, ℕ, ◌≡◌, ◌≢◌, sym, ap, fun_ext, ◌∙◌, List, ◌∷◌, ◌++◌, arith}
use neox.Base.Memory.{store}
use neox.Nodes.{
  Nodes, done, assertion_failed, ◌>>=◌, list_insert_before, list_insert_after, list_remove,
}
use neox.Nodes.Ring.{IsRing, last, first}
use neox.Nodes.Splice.{neighbours, middle}
use neox.Nodes.Insert.{IsFree, spliced, IsRing-Inserted, new_here, spliced_here, insert_before_here}
use neox.Nodes.Remove.{unspliced, remove_here, before_apart, rest_nonzero, list_remove-Relinked}

-- The pointers of a node put between neighbours and taken out again.
unspliced-spliced :
    (s : Nodes) (p node q : ℕ)
    → IsFree s node
    → node ≢ p
    → node ≢ q
    → s.next p ≡ q
    → s.prev q ≡ p
    → unspliced (spliced s p node q) p node q ≡ s
unfolding store
unspliced-spliced s p node q f np nq forth back =
    let prevs : (unspliced (spliced s p node q) p node q).prev ≡ s.prev =
      fun_ext (λ x. ground arith) in
    let nexts : (unspliced (spliced s p node q) p node q).next ≡ s.next =
      fun_ext (λ x. ground arith) in
    λ i. record { prev = prevs i; next = nexts i }

-- A node other than NULL with both pointers NULL that is inserted before a node or the head of a
-- ring and removed again leaves every pointer of the store as it was.
pub list_remove-list_insert_before :
    (s : Nodes) (list node : ℕ) (us vs : List ℕ)
    → IsRing s list (us ++ vs)
    → IsFree s node
    → (list_insert_before s (first vs list) node >>= λ t. list_remove t node) ≡ done s
list_remove-list_insert_before s list node us vs r f =
    let p = last list us in
    let q = first vs list in
    let t = spliced s p node q in
    let new = new_here s list node us vs r f in
    let n = neighbours s list list us vs r.linked in
    rw (insert_before_here s list node us vs r f) (
      remove_here t list node us vs
        (IsRing-Inserted s t list node us vs r f (spliced_here s list node us vs r f))
      ∙ ap done (unspliced-spliced s p node q f new.0 new.1 n.0 n.1))

insert_before_stops :
    (s : Nodes) (pos node : ℕ) → s.next node ≢ 0 → list_insert_before s pos node ≡ assertion_failed
unfolding list_insert_before
insert_before_stops s pos node h = ground arith

insert_after_stops :
    (s : Nodes) (pos node : ℕ) → s.next node ≢ 0 → list_insert_after s pos node ≡ assertion_failed
unfolding list_insert_after
insert_after_stops s pos node h = ground arith

remove_stops : (s : Nodes) (node : ℕ) → IsFree s node → list_remove s node ≡ assertion_failed
unfolding list_remove
remove_stops s node f = rw (==_false node 0 f.0, ==_true (s.prev node) 0 f.1)

-- For a node of a ring, list_insert_before and list_insert_after of it at any position fail an
-- assertion, and so does the second of two removals.
pub list_misuse :
    (s : Nodes) (list node pos : ℕ) (us vs : List ℕ)
    → IsRing s list (us ++ node ∷ vs)
    → (list_insert_before s pos node ≡ assertion_failed)
      × (list_insert_after s pos node ≡ assertion_failed)
      × ((list_remove s node >>= λ t. list_remove t node) ≡ assertion_failed)
list_misuse s list node pos us vs r =
    let m = middle s list list node us vs r.linked in
    let zs = before_apart s list node us vs r 0 (rest_nonzero s list node us vs r) in
    let linked : s.next node ≢ 0 = λ k. zs.1 (sym k ∙ m.1) in
    let (t, e, ring, free, rest) = list_remove-Relinked s list node us vs r in
    (
      insert_before_stops s pos node linked,
      insert_after_stops s pos node linked,
      rw (e) (remove_stops t node free),
    )
