-- ===== src/Heap/Expand.antt =====
-- The invariant of the heap, and `heap_expand`.
use neox.Base.{
  ◌+◌, ◌-◌, ◌%◌, ◌≤◌, ◌<◌, ◌≡◌, ◌≢◌, inl, inr, ◌∙◌, refl, ap, Bool, true, false, [], ◌∷◌, ◌++◌, ltb,
  ◌==◌, u32, page_size, Bool-cases, ltb→lt, ltb→ge, arith,
}
use mathlib.Core.List.{append-nil}
use neox.Heap.{
  Pages, Block, Heap, Result, done, is_empty, header_size, heap_merge, heap_validate, heap_expand,
}
use neox.Layout.{kernel_heap_start}
use neox.Heap.Chain.{
  Chain, Chain-le, Chain-append, Chain-cons, Chain-heap_validate, used, used-append, IsMerged,
}
use neox.Heap.Merge.{
  heap_merge-Chain, used-heap_merge, heap_merge-IsMerged, free_at_end, heap_merge_grows,
}

module _ (vmm : Pages) where
  -- The blocks are a chain from the heap's start to its end, no two free blocks are neighbours, and
  -- the end is a page boundary behind the start and not beyond the recursive paging window.
  pub record IsValid (h : Heap vmm) : Type 0 where
    pub chain : Chain kernel_heap_start h.blocks h.heap_end
    pub merged : IsMerged h.blocks
    pub started : kernel_heap_start < h.heap_end
    pub bounded : h.heap_end ≤ 0xFFC00000
    pub paged : h.heap_end % page_size ≡ 0

  -- The outcomes of `heap_expand`: the page is refused, or the heap grows by a free page.
  pub data Expanded (h : Heap vmm) : Result (Heap vmm × Bool) → Type 0 where
    refused :
        {g : Heap vmm}
        → IsValid g
        → used g.blocks ≡ used h.blocks
        → (vmm.vmm_alloc_pages h.pages g.heap_end 1).1 ≡ 0
        → Expanded h (done (g, false))
    grew :
        {g : Heap vmm}
        → IsValid g
        → used g.blocks ≡ used h.blocks
        → g.heap_end ≡ h.heap_end + page_size
        → free_at_end h.blocks + page_size ≤ free_at_end g.blocks
        → Expanded h (done (g, true))

  new_block : Heap vmm → Block
  new_block h = record { addr = h.heap_end; size = page_size - header_size; free = true }

  module _ (h : Heap vmm) (v : IsValid h) where
    open vmm use {vmm_alloc_pages}

    cons : is_empty h.blocks ≡ false
    cons = Chain-cons kernel_heap_start h.blocks h.heap_end v.started v.chain

    -- The state with a page more, before `heap_validate`.
    pub grown : Heap vmm
    grown = record {
      blocks = heap_merge (h.blocks ++ new_block h ∷ []);
      heap_end = u32 (h.heap_end + page_size);
      heap_expansions = u32 (h.heap_expansions + 1);
      pages = (vmm_alloc_pages h.pages h.heap_end 1).0;
    }

    room : (vmm_alloc_pages h.pages h.heap_end 1).1 ≢ 0 → h.heap_end + page_size ≤ 0xFFC00000
    room granted = elim (Bool-cases (ltb h.heap_end 0xFFC00000)) [
      | inl below ↦ omega (arith, ltb→lt h.heap_end 0xFFC00000 below, v.paged)
      | inr above ↦
          let at_window : h.heap_end ≡ 0xFFC00000 =
            omega (arith, ltb→ge h.heap_end 0xFFC00000 above, v.bounded) in
          absurd (
            granted (
              ap (λ virt. (vmm_alloc_pages h.pages virt 1).1) at_window ∙ vmm.window_taken h.pages))
    ]

    longer : Chain kernel_heap_start (h.blocks ++ new_block h ∷ []) (h.heap_end + page_size)
    unfolding new_block
    longer =
        Chain-append kernel_heap_start h.blocks h.heap_end (new_block h ∷ []) _ v.chain
          (refl, omega arith, omega arith)

    end_eq :
        h.heap_end + page_size ≤ 0xFFC00000 → u32 (h.heap_end + page_size) ≡ h.heap_end + page_size
    end_eq fits = omega arith

    pub grown_at : h.heap_end ≡ 0xD0000000 → grown.heap_end ≡ 0xD0000000 + page_size
    unfolding grown
    grown_at full = omega arith

    grown-Chain :
        h.heap_end + page_size ≤ 0xFFC00000 → Chain kernel_heap_start grown.blocks grown.heap_end
    unfolding grown
    grown-Chain fits =
        rw (end_eq fits) (heap_merge-Chain _ kernel_heap_start _ (omega arith) longer)

    grown-IsValid : h.heap_end + page_size ≤ 0xFFC00000 → IsValid grown
    unfolding grown
    grown-IsValid fits = record {
      chain = grown-Chain fits;
      merged = heap_merge-IsMerged (h.blocks ++ new_block h ∷ []);
      started = omega (arith, v.started);
      bounded = omega arith;
      paged = omega (arith, v.paged);
    }

    validated :
        h.heap_end + page_size ≤ 0xFFC00000 → heap_validate grown.blocks grown.heap_end ≡ true
    unfolding grown
    validated fits =
        Chain-heap_validate kernel_heap_start _ _ (omega arith) (omega arith) (omega arith)
          (grown-Chain fits)

    same_blocks-IsValid : (s : vmm.State) → IsValid (record h { pages = s })
    same_blocks-IsValid s = record {
      chain = v.chain;
      merged = v.merged;
      started = v.started;
      bounded = v.bounded;
      paged = v.paged;
    }

    heap_expand_refused :
        (vmm_alloc_pages h.pages h.heap_end 1).1 ≡ 0
        → heap_expand vmm h
          ≡ done (record h { pages = (vmm_alloc_pages h.pages h.heap_end 1).0 }, false)
    unfolding heap_expand
    heap_expand_refused none_granted =
        ground (arith, cons, Chain-le kernel_heap_start h.blocks h.heap_end v.chain)

    pub heap_expand_granted :
        (vmm_alloc_pages h.pages h.heap_end 1).1 ≢ 0 → heap_expand vmm h ≡ done (grown, true)
    unfolding heap_expand grown new_block
    heap_expand_granted granted = ground (
      arith,
      cons,
      Chain-le kernel_heap_start h.blocks h.heap_end v.chain,
      validated (room granted),
    )

    grown_used : used grown.blocks ≡ used h.blocks
    unfolding grown new_block used
    grown_used =
        used-heap_merge (h.blocks ++ new_block h ∷ [])
        ∙ used-append h.blocks (new_block h ∷ [])
        ∙ append-nil (used h.blocks)

    grown_end :
        h.heap_end + page_size ≤ 0xFFC00000
        → free_at_end h.blocks + page_size ≤ free_at_end grown.blocks
    unfolding grown new_block
    grown_end fits = omega (
      arith,
      heap_merge_grows h.blocks (new_block h) kernel_heap_start (h.heap_end + page_size) refl
          (omega arith) cons longer,
    )

    -- heap_expand in a valid heap fails no assertion: if the page is refused the heap stays valid
    -- with the same blocks in use; if it is granted the heap is valid and ends a page further, with
    -- the same blocks in use and at least a page more free at its end.
    pub heap_expand-Expanded : Expanded h (heap_expand vmm h)
    unfolding grown
    heap_expand-Expanded = elim (Bool-cases ((vmm_alloc_pages h.pages h.heap_end 1).1 == 0)) [
      | inl zero_page ↦
          rw (heap_expand_refused (ground arith))
            (refused (same_blocks-IsValid _) refl (ground arith))
      | inr some_page ↦
          let fits = room (ground arith) in
          rw (heap_expand_granted (ground arith))
            (grew (grown-IsValid fits) grown_used (end_eq fits) (grown_end fits))
    ]
