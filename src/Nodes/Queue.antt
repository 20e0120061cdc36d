-- ===== src/Nodes/Queue.antt =====
-- The lists as their clients use them: pushes at both ends, walks, other lists, and misuse.
use neox.Base.{
  ==_false, ==_true, ℕ, zero, suc, ◌≡◌, ◌≢◌, refl, sym, ap, subst, ◌∙◌, Bool, true, false, List, [],
  ◌∷◌, ◌++◌, length, arith,
}
use mathlib.Core.List.{append-nil}
use neox.Base.Memory.{store}
use neox.Nodes.{
  Nodes, done, list_front, list_back, list_next, list_empty, list_init, list_insert_before,
  list_insert_after, list_push_front, list_push_back,
}
use neox.Nodes.Ring.{NotIn, Linked, IsRing, last, first}
use neox.Nodes.Insert.{IsFree, Relinked, list_insert_before-Relinked, list_insert_after-Relinked}

-- `list_init` makes the ring of the empty list, which no other node stands in.
list_init-IsRing :
    (s : Nodes) (list : ℕ) → list ≢ 0 → (t : Nodes) × (list_init s list ≡ done t) × IsRing t list []
unfolding list_init store
list_init-IsRing s list nz = (
  record { prev = store s.prev list list; next = store s.next list list },
  rw (==_false list 0 nz),
  record {
    linked = (ground arith, ground arith);
    distinct = (tt, tt);
    nonzero = (λ k. nz (sym k), tt);
  },
)

module _ (s : Nodes) (list node : ℕ) (xs : List ℕ) (r : IsRing s list xs) (f : IsFree s node) where
  list_nonzero : list ≢ 0
  list_nonzero k = r.nonzero.0 (sym k)

  push_back_step : list_push_back s list node ≡ list_insert_before s list node
  unfolding list_push_back
  push_back_step = rw (==_false list 0 list_nonzero, ==_false node 0 f.0)

  push_front_step : list_push_front s list node ≡ list_insert_after s list node
  unfolding list_push_front
  push_front_step = rw (==_false list 0 list_nonzero, ==_false node 0 f.0)

  pub pushed_back :
      Relinked s (list_push_back s list node) list (xs ++ node ∷ []) (last list xs) node list
  pushed_back = rw (push_back_step) (
      list_insert_before-Relinked s list node xs [] (subst (IsRing s list) (sym (append-nil xs)) r)
        f)

  pushed_front : Relinked s (list_push_front s list node) list (node ∷ xs) list node (first xs list)
  pushed_front = rw (push_front_step) (list_insert_after-Relinked s list node [] xs r f)

  -- For the ring of a list and a node other than NULL with both pointers NULL, list_push_back
  -- returns and adds the node behind the others, and list_push_front returns and adds it before
  -- them.
  pub list_push-IsRing :
      ((t : Nodes) × (list_push_back s list node ≡ done t) × IsRing t list (xs ++ node ∷ []))
      × ((t : Nodes) × (list_push_front s list node ≡ done t) × IsRing t list (node ∷ xs))
  list_push-IsRing = (
    (pushed_back.0, pushed_back.1, pushed_back.2),
    (pushed_front.0, pushed_front.1, pushed_front.2),
  )

-- The nodes that `n` steps of `list_next` from `node` meet.
unfoldable pub walk : Nodes → ℕ → ℕ → List ℕ
walk s zero node = []
walk s (suc n) node = node ∷ walk s n (list_next s node)

abbrev pub is_nil : List ℕ → Bool
is_nil [] = true
is_nil (x ∷ xs) = false

walk-Linked :
    (s : Nodes) (a b : ℕ) (xs : List ℕ)
    → Linked s a xs b
    → NotIn 0 xs
    → walk s (length xs) (s.next a) ≡ xs
unfolding walk list_next
walk-Linked s a b [] linked nz = refl
walk-Linked s a b (x ∷ xs) linked nz =
    let rest = walk-Linked s x b xs linked.2 nz.1 in
    rw (linked.0, ==_false x 0 (λ k. nz.0 (sym k))) (ap (λ ys. x ∷ ys) rest)

ends :
    (s : Nodes) (a b : ℕ) (xs : List ℕ)
    → Linked s a xs b
    → (s.next a ≡ first xs b) × (s.prev b ≡ last a xs)
ends s a b [] linked = linked
ends s a b (x ∷ xs) linked = (linked.0, (ends s x b xs linked.2).1)

list_empty_lem :
    (s : Nodes) (list : ℕ) (xs : List ℕ) → IsRing s list xs → list_empty s list ≡ is_nil xs
unfolding list_empty
list_empty_lem s list [] r =
    rw (==_false list 0 (λ k. r.nonzero.0 (sym k)), ==_true (s.next list) list r.linked.0)
list_empty_lem s list (x ∷ xs) r = rw (
  ==_false list 0 (λ k. r.nonzero.0 (sym k)),
  ==_false (s.next list) list (λ k. r.distinct.0.0 (sym k ∙ r.linked.0)),
)

-- In the ring of a list, list_next from list_front on meets the nodes of the list in order,
-- list_back is the last of them, or the head if there is none, and list_empty tells whether there
-- is none.
pub list_walk :
    (s : Nodes) (list : ℕ) (xs : List ℕ)
    → IsRing s list xs
    → (walk s (length xs) (list_front s list) ≡ xs)
      × (list_back s list ≡ last list xs)
      × (list_empty s list ≡ is_nil xs)
unfolding list_front list_back
list_walk s list xs r =
    let nz = ==_false list 0 (λ k. r.nonzero.0 (sym k)) in
    (
      rw (nz) (walk-Linked s list list xs r.linked r.nonzero.1),
      rw (nz) (ends s list list xs r.linked).1,
      list_empty_lem s list xs r,
    )
