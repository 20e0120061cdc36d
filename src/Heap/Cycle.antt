-- ===== src/Heap/Cycle.antt =====
-- The heap from `heap_init` on, and an allocation that is freed again.
use neox.Base.{
  ℕ, ◌+◌, ◌-◌, ◌^◌, ◌<◌, ◌≡◌, ◌≢◌, ◌∙◌, refl, sym, subst, true, List, [], ◌∷◌, ◌++◌, page_size,
  arith,
}
use neox.Heap.{
  Pages, Heap, Result, done, header_size, heap_validate, heap_expand, kmalloc, kfree, heap_init,
}
use neox.Layout.{kernel_heap_start, kernel_heap_end, kernel_stacks_start}
use neox.Heap.Chain.{used}
use neox.Heap.Expand.{IsValid, grown, grown_at, heap_expand_granted}
use neox.Heap.Alloc.{Allocated, granted, denied, kmalloc-Allocated}
use neox.Heap.Live.{Ascending, NotLive, used-Ascending, same_rest}
use neox.Heap.Free.{Freed, freed, null_pointer, rejected, kfree-Freed}

-- An address in use is live.
NotLive-mem :
    (ptr : ℕ) (xs : List (ℕ × ℕ)) (a n : ℕ) (ys : List (ℕ × ℕ))
    → NotLive ptr (xs ++ (a, n) ∷ ys)
    → a + header_size ≢ ptr
NotLive-mem ptr [] a n ys dead = dead.0
NotLive-mem ptr (x ∷ xs) a n ys dead = NotLive-mem ptr xs a n ys dead.1

module _ (vmm : Pages) where
  open vmm use {vmm_alloc_pages}

  Freed-live :
      (h g : Heap vmm) (ptr n : ℕ) (before after : List (ℕ × ℕ)) {r : Result (Heap vmm)}
      → IsValid vmm g
      → used h.blocks ≡ before ++ after
      → used g.blocks ≡ before ++ (ptr - header_size, n) ∷ after
      → header_size < ptr
      → Freed vmm g ptr r
      → (g' : Heap vmm) × (r ≡ done g') × (used g'.blocks ≡ used h.blocks)
  Freed-live h g ptr n before after v uh ug pos (freed {g = g'} n' before' after' v' was now) =
      let asc =
        subst (λ us. Ascending kernel_heap_start us g.heap_end) ug
          (used-Ascending kernel_heap_start g.blocks g.heap_end v.chain) in
      (
        g',
        refl,
        now
            ∙ sym (
                same_rest kernel_heap_start before after before' after' (ptr - header_size) n n'
                  g.heap_end asc (sym ug ∙ was))
            ∙ sym uh,
      )
  Freed-live h g ptr n before after v uh ug pos (null_pointer z e) = absurd (omega arith)
  Freed-live h g ptr n before after v uh ug pos (rejected nz dead) = absurd (
      NotLive-mem ptr before (ptr - header_size) n after (subst (NotLive ptr) ug dead)
        (omega arith))

  of_outcome :
      (h : Heap vmm) (size : ℕ) (g : Heap vmm) (ptr : ℕ) {r : Result (Heap vmm × ℕ)}
      → Allocated vmm h size r
      → r ≡ done (g, ptr)
      → ptr ≢ 0
      → (g' : Heap vmm) × (kfree vmm g ptr ≡ done g') × (used g'.blocks ≡ used h.blocks)
  of_outcome h size g ptr (granted {g = k} {p = q} n before after v uh ug lo al fits inside) e
        nonzero =
      let same_heap : k ≡ g = cc in
      let same_ptr : q ≡ ptr = cc in
      let vg = subst (IsValid vmm) same_heap v in
      Freed-live h g ptr n before after vg uh (cc) (omega arith) (kfree-Freed vmm g ptr vg)
  of_outcome h size g ptr (denied {p = q} v u z reason) e nonzero =
      let same_ptr : q ≡ ptr = cc in absurd (omega arith)

  -- In a valid heap, the pointer that kmalloc returned, if it is not NULL, is accepted by kfree of
  -- the heap that kmalloc left, and the blocks in use are those from before.
  pub kfree-kmalloc :
      (h : Heap vmm) (size : ℕ) (g : Heap vmm) (ptr : ℕ)
      → IsValid vmm h
      → size < 2 ^ 32
      → kmalloc vmm h size ≡ done (g, ptr)
      → ptr ≢ 0
      → (g' : Heap vmm) × (kfree vmm g ptr ≡ done g') × (used g'.blocks ≡ used h.blocks)
  kfree-kmalloc h size g ptr v lt got nonzero =
      of_outcome h size g ptr (kmalloc-Allocated vmm h size v lt) got nonzero

  -- In a valid heap the blocks in use, each with its header, lie between the start and the end of
  -- the heap in the order of their addresses and do not overlap.
  pub used_disjoint :
      (h : Heap vmm) → IsValid vmm h → Ascending kernel_heap_start (used h.blocks) h.heap_end
  used_disjoint h v = used-Ascending kernel_heap_start h.blocks h.heap_end v.chain

  -- Where the first page is granted, heap_init fails no assertion and leaves a valid heap of one
  -- page with no block in use, whatever the state was before.
  pub heap_init-IsValid :
      (h : Heap vmm)
      → (vmm_alloc_pages h.pages kernel_heap_start 1).1 ≢ 0
      → (g : Heap vmm) × (heap_init vmm h ≡ done g)
        × IsValid vmm g
        × (used g.blocks ≡ [])
        × (g.heap_end ≡ kernel_heap_start + page_size)
  unfolding heap_init heap_validate used
  heap_init-IsValid h page_granted = (
    record {
      blocks =
          record { addr = kernel_heap_start; size = page_size - header_size; free = true } ∷ [];
      heap_end = kernel_heap_start + page_size;
      heap_expansions = 0;
      pages = (vmm_alloc_pages h.pages kernel_heap_start 1).0;
    },
    ground arith,
    record {
      chain = (refl, refl, refl);
      merged = (tt, tt);
      started = omega arith;
      bounded = omega arith;
      paged = refl;
    },
    refl,
    refl,
  )

  -- A valid heap that fills its region up to KERNEL_HEAP_END and is granted the next page is grown
  -- by heap_expand into the region of the kernel stacks.
  pub heap_expand_beyond :
      (h : Heap vmm)
      → IsValid vmm h
      → h.heap_end ≡ kernel_heap_end + 1
      → (vmm_alloc_pages h.pages h.heap_end 1).1 ≢ 0
      → (g : Heap vmm) × (heap_expand vmm h ≡ done (g, true))
        × (g.heap_end ≡ kernel_stacks_start + page_size)
  heap_expand_beyond h v full page_granted =
      (grown vmm h v, heap_expand_granted vmm h v page_granted, grown_at vmm h v full)
