-- ===== src/Heap/Alloc.antt =====
-- `kmalloc`: no failed assertion, and what it returns.
use neox.Base.{
  ℕ, suc, ◌+◌, ◌-◌, ◌/◌, ◌%◌, ◌^◌, ◌≤◌, ◌<◌, ◌≡◌, ◌⊎◌, inl, inr, ◌∙◌, refl, sym, ap, subst, true,
  false, Option, some, List, ◌∷◌, ◌++◌, ltb, ◌==◌, page_size, Bool-cases, arith,
}
use neox.Heap.{
  Pages, Block, Place, Heap, Result, done, ◌>>=◌, header_size, heap_alignment, heap_align,
  heap_validate, find_or_expand, take_block, kmalloc,
}
use neox.Layout.{kernel_heap_start}
use neox.Heap.Chain.{
  Chain, Chain-le, Chain-append, Chain-aligned, Chain-cut, Chain-heap_validate, used, used-append,
  IsMerged,
}
use neox.Heap.Expand.{IsValid}
use neox.Heap.Fit.{kept, kept_bounds, taken, taken-Chain, used-taken, taken-IsMerged}
use neox.Heap.Loop.{Ended, found, gave_up, find_or_expand-Ended}

module _ (vmm : Pages) where
  open vmm use {State, vmm_alloc_pages}

  -- The outcomes of `kmalloc`: a block of `n` bytes from the payload at `p` on joins those in use,
  -- or the blocks in use stay, since the size is 0, or too large, or a page is refused.
  pub data Allocated (h : Heap vmm) (size : ℕ) : Result (Heap vmm × ℕ) → Type 0 where
    granted :
        {g : Heap vmm} {p : ℕ} (n : ℕ) (before after : List (ℕ × ℕ))
        → IsValid vmm g
        → used h.blocks ≡ before ++ after
        → used g.blocks ≡ before ++ (p - header_size, n) ∷ after
        → kernel_heap_start + header_size ≤ p
        → p % heap_alignment ≡ 0
        → size ≤ n
        → p + n ≤ g.heap_end
        → Allocated h size (done (g, p))
    denied :
        {g : Heap vmm} {p : ℕ}
        → IsValid vmm g
        → used g.blocks ≡ used h.blocks
        → p ≡ 0
        → (size ≡ 0)
          ⊎ (2 ^ 32 - heap_alignment < size)
          ⊎ ((s : State) × ((vmm_alloc_pages s g.heap_end 1).1 ≡ 0))
        → Allocated h size (done (g, p))

  -- The state with `size` bytes taken at a place of the chain.
  module _ (h g : Heap vmm) (p : Place) (size : ℕ) (v : IsValid vmm g)
      (e : g.blocks ≡ p.before ++ p.block ∷ p.after) (is_free : p.block.free ≡ true)
      (fits : size ≤ p.block.size) (aligned : size % heap_alignment ≡ 0) where
    split : List Block
    split = p.before ++ (taken p.block size ++ p.after)

    -- Where the block stands, in the chain and in the heap.
    parts : (m : ℕ) × Chain kernel_heap_start p.before m × Chain m (p.block ∷ p.after) g.heap_end
    parts =
        Chain-cut kernel_heap_start p.before (p.block ∷ p.after) g.heap_end
          (subst (λ bs. Chain kernel_heap_start bs g.heap_end) e v.chain)

    below : g.heap_end < 2 ^ 32
    below = omega (arith, v.bounded)

    split-Chain : Chain kernel_heap_start split g.heap_end
    unfolding split
    split-Chain =
        Chain-append kernel_heap_start p.before parts.0 _ g.heap_end parts.1
          (taken-Chain p.block size parts.0 g.heap_end p.after parts.2 below aligned fits)

    used-split : used split ≡ used p.before ++ (p.block.addr, kept p.block size) ∷ used p.after
    unfolding split
    used-split =
        used-append p.before (taken p.block size ++ p.after)
        ∙ ap (λ t. used p.before ++ t)
            (used-taken p.block size parts.0 g.heap_end p.after parts.2 below aligned fits)

    used_before : used g.blocks ≡ used p.before ++ used p.after
    unfolding used
    used_before = rw e (used-append p.before (p.block ∷ p.after) ∙ rw is_free)

    split-IsValid : IsValid vmm (record g { blocks = split })
    unfolding split
    split-IsValid = record {
      chain = split-Chain;
      merged =
          taken-IsMerged p.block size parts.0 g.heap_end p.after parts.2 below aligned fits p.before
            is_free (subst IsMerged e v.merged);
      started = v.started;
      bounded = v.bounded;
      paged = v.paged;
    }

    validated : heap_validate split g.heap_end ≡ true
    validated =
        Chain-heap_validate kernel_heap_start split g.heap_end (omega arith) (omega arith) below
          split-Chain

    -- The block lies in the heap.
    inside :
        (kernel_heap_start ≤ p.block.addr)
        × (p.block.addr + header_size + p.block.size ≤ g.heap_end)
        × (p.block.addr % heap_alignment ≡ 0)
    inside = (
      omega (arith, Chain-le kernel_heap_start p.before parts.0 parts.1, parts.2.0),
      omega (arith, Chain-le _ p.after g.heap_end parts.2.2, parts.2.0),
      omega (
        arith,
        Chain-aligned kernel_heap_start p.before parts.0 (omega arith) parts.1,
        parts.2.0,
      ),
    )

    take_block_eq :
        take_block vmm g size (some p)
        ≡ done (record g { blocks = split }, p.block.addr + header_size)
    unfolding take_block split
    take_block_eq = ground (arith, validated, inside, below)

    take_block-Allocated :
        used g.blocks ≡ used h.blocks
        → (request : ℕ) → request ≤ size
        → Allocated h request (take_block vmm g size (some p))
    take_block-Allocated same request le = rw take_block_eq (
        granted (kept p.block size) (used p.before) (used p.after) split-IsValid
          (sym same ∙ used_before) (used-split ∙ at_payload) (omega (arith, inside))
          (omega (arith, inside)) (omega (arith, kept_bounds p.block size fits))
          (omega (arith, kept_bounds p.block size fits, inside)))
      where
        at_payload :
            used p.before ++ (p.block.addr, kept p.block size) ∷ used p.after
            ≡ used p.before
              ++ (p.block.addr + header_size - header_size, kept p.block size) ∷ used p.after
        at_payload =
            ap (λ (a : ℕ). used p.before ++ (a, kept p.block size) ∷ used p.after) (omega arith)

  -- `heap_align` rounds up to a multiple of 8, and answers 0 where that would wrap.
  heap_align_bounds :
      (size : ℕ)
      → size < 2 ^ 32
      → 0 < size
      → ((heap_align size ≡ 0) × (2 ^ 32 - heap_alignment < size))
        ⊎ ((heap_align size % heap_alignment ≡ 0)
            × (size ≤ heap_align size)
            × (0 < heap_align size))
  unfolding heap_align
  heap_align_bounds size lt pos = elim (Bool-cases (ltb (2 ^ 32 - 1 - (heap_alignment - 1)) size)) [
    | inl large ↦ inl (ground arith, ground arith)
    | inr small ↦ inr (ground arith, ground arith, ground arith)
  ]

  -- What the loop ends with, served.
  served :
      (h : Heap vmm) (size request : ℕ) {r : Result (Heap vmm × Option Place)}
      → size % heap_alignment ≡ 0
      → request ≤ size
      → Ended vmm h size r
      → Allocated h request (r >>= λ (g, place). take_block vmm g size place)
  unfolding take_block
  served h size request aligned le (found {g} {p} v u e is_free large) =
      take_block-Allocated h g p size v e is_free large aligned u request le
  served h size request aligned le (gave_up s v u no_page) =
      denied v u refl (inr (inr (s, no_page)))

  module _ (h : Heap vmm) (size : ℕ) where
    kmalloc_zero : (size == 0) ≡ true → kmalloc vmm h size ≡ done (h, 0)
    unfolding kmalloc
    kmalloc_zero zero_size = rw zero_size

    kmalloc_large : (size == 0) ≡ false → heap_align size ≡ 0 → kmalloc vmm h size ≡ done (h, 0)
    unfolding kmalloc
    kmalloc_large some_size large =
        let too_large : (heap_align size == 0) ≡ true = ground arith in rw (some_size, too_large)

    kmalloc_loop :
        (size == 0) ≡ false
        → 0 < heap_align size
        → kmalloc vmm h size ≡ (
            find_or_expand vmm (suc (heap_align size / page_size + 2)) h (heap_align size)
            >>= λ (g, place). take_block vmm g (heap_align size) place)
    unfolding kmalloc
    kmalloc_loop some_size pos =
        let fits : (heap_align size == 0) ≡ false = ground arith in
        let enough : heap_align size / page_size + 3 ≡ suc (heap_align size / page_size + 2) =
          omega arith in
        rw (some_size, fits, enough)

  -- kmalloc of any 32-bit size in a valid heap ends with the rounds that it has, fails no assertion
  -- and keeps the heap valid. Either it returns an aligned pointer to a block of at least the size
  -- inside the heap, and that block joins those in use, which stay; or it returns NULL and the
  -- blocks in use stay, since the size is 0, or too large to be aligned, or a page is refused.
  pub kmalloc-Allocated :
      (h : Heap vmm) (size : ℕ)
      → IsValid vmm h
      → size < 2 ^ 32
      → Allocated h size (kmalloc vmm h size)
  kmalloc-Allocated h size v lt = elim (Bool-cases (size == 0)) [
    | inl zero_size ↦ rw (kmalloc_zero h size zero_size) (denied v refl refl (inl (ground arith)))
    | inr some_size ↦ elim (heap_align_bounds size lt (ground arith)) [
      | inl large ↦
          rw (kmalloc_large h size some_size large.0) (denied v refl refl (inr (inl large.1)))
      | inr aligned ↦ rw (kmalloc_loop h size some_size aligned.2) (
          served h (heap_align size) size aligned.0 aligned.1 (
            find_or_expand-Ended vmm (heap_align size / page_size + 2) h (heap_align size) v
              aligned.2 (omega arith)))
    ]
  ]
