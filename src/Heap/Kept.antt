-- ===== src/Heap/Kept.antt =====
-- What `kmalloc` of kernel/mm/heap.c does to the state of the virtual memory manager: only the calls
-- of `heap_expand` change it.
use neox.Base.{
  ℕ, zero, suc, ◌≡◌, subst, Bool, true, false, not, ◌==◌, Bool-cases, inl, inr, Option, none, some,
  leb,
}
use neox.Layout.{kernel_heap_start}
use neox.Base.Result.{assert, ◌>>◌}
use neox.Heap.{
  Pages, Place, Heap, Result, done, assertion_failed, out_of_fuel, ◌>>=◌, is_empty, heap_validate,
  heap_align, heap_find_free, heap_expand, after_expand, round, find_or_expand, take_block, rounds,
  kmalloc,
}

module _ (vmm : Pages) (P : vmm.State → Type 0)
    (step : (s : vmm.State) (virt n : ℕ) → P s → P (vmm.vmm_alloc_pages s virt n).0) where
  open vmm use {State, vmm_alloc_pages}

  -- Where a call returns, the property holds.
  abbrev Holds {ℓ} : {A : Type ℓ} → Result (Heap vmm × A) → Type 0
  Holds (done (h, a)) = P h.pages
  Holds _ = Unit {0}

  Holds-assert {ℓ} :
      {A : Type ℓ} (b : Bool) (r : Result (Heap vmm × A)) → Holds r → Holds (assert b >> r)
  Holds-assert true r k = k
  Holds-assert false r k = tt

  heap_expand-Holds : (h : Heap vmm) → P h.pages → Holds (heap_expand vmm h)
  unfolding heap_expand
  heap_expand-Holds h k = Holds-assert (not (is_empty h.blocks)) _ (
      Holds-assert (leb kernel_heap_start h.heap_end) _
        (elim (Bool-cases ((vmm_alloc_pages h.pages h.heap_end 1).1 == 0)) [
          | inl refused ↦ rw refused (step h.pages h.heap_end 1 k)
          | inr granted ↦
              rw granted (Holds-assert (heap_validate _ _) _ (step h.pages h.heap_end 1 k))
        ]))

  after_expand-Holds :
      (again : Heap vmm → Result (Heap vmm × Option Place)) (r : Result (Heap vmm × Bool))
      → ((h : Heap vmm) → P h.pages → Holds (again h))
      → Holds r
      → Holds (after_expand vmm again r)
  unfolding after_expand
  after_expand-Holds again (done (h, true)) next k = next h k
  after_expand-Holds again (done (h, false)) next k = k
  after_expand-Holds again assertion_failed next k = tt
  after_expand-Holds again out_of_fuel next k = tt

  round-Holds :
      (again : Heap vmm → Result (Heap vmm × Option Place)) (h : Heap vmm) (o : Option Place)
      → ((g : Heap vmm) → P g.pages → Holds (again g))
      → P h.pages
      → Holds (round vmm again h o)
  unfolding round
  round-Holds again h (some place) next k = k
  round-Holds again h none next k =
      after_expand-Holds again (heap_expand vmm h) next (heap_expand-Holds h k)

  find_or_expand-Holds :
      (fuel : ℕ) (h : Heap vmm) (size : ℕ) → P h.pages → Holds (find_or_expand vmm fuel h size)
  unfolding find_or_expand
  find_or_expand-Holds zero h size k = tt
  find_or_expand-Holds (suc fuel) h size k =
      round-Holds _ h (heap_find_free h.blocks size) (λ g l. find_or_expand-Holds fuel g size l) k

  take_block-Holds :
      (h : Heap vmm) (size : ℕ) (o : Option Place) → P h.pages → Holds (take_block vmm h size o)
  unfolding take_block
  take_block-Holds h size none k = k
  take_block-Holds h size (some place) k =
      Holds-assert place.block.free _
        (Holds-assert (leb size place.block.size) _ (Holds-assert (heap_validate _ _) _ k))

  taken-Holds :
      (size : ℕ) (r : Result (Heap vmm × Option Place))
      → Holds r
      → Holds (r >>= λ (found, place). take_block vmm found size place)
  taken-Holds size (done (h, o)) k = take_block-Holds h size o k
  taken-Holds size assertion_failed k = tt
  taken-Holds size out_of_fuel k = tt

  kmalloc-Holds : (h : Heap vmm) (size : ℕ) → P h.pages → Holds (kmalloc vmm h size)
  unfolding kmalloc
  kmalloc-Holds h size k = elim (Bool-cases (size == 0)) [
    | inl nothing ↦ rw nothing k
    | inr some_size ↦ elim (Bool-cases (heap_align size == 0)) [
      | inl wraps ↦ rw (some_size, wraps) k
      | inr aligned ↦
          rw (some_size, aligned)
            (taken-Holds (heap_align size) _
              (find_or_expand-Holds (rounds vmm (heap_align size)) h _ k))
    ]
  ]

  -- What each vmm_alloc_pages keeps, kmalloc keeps.
  pub kmalloc-keeps :
      (h t : Heap vmm) (size ptr : ℕ) → kmalloc vmm h size ≡ done (t, ptr) → P h.pages → P t.pages
  kmalloc-keeps h t size ptr e k = subst Holds e (kmalloc-Holds h size k)
