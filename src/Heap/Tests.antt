-- ===== src/Heap/Tests.antt =====
-- The theorems on the heap at a small state, with a virtual memory manager that has a number of
-- pages to give.
use neox.Base.{
  ℕ, ◌+◌, ◌-◌, ◌*◌, ◌≡◌, ◌≢◌, refl, true, false, ◌||◌, [], ◌∷◌, leb, ◌==◌, if◌then◌else◌, page_size,
  arith,
}
use neox.Heap.{
  Pages, Heap, done, assertion_failed, ◌>>=◌, heap_align, heap_find_block, heap_find_free, absorb,
  heap_merge, split_block, mark_used, heap_validate, heap_expand, kmalloc, kfree,
}
use neox.Layout.{kernel_heap_start, kernel_heap_end}
use neox.Heap.Chain.{used}
use neox.Heap.Expand.{IsValid}
use neox.Heap.Alloc.{Allocated, kmalloc-Allocated}
use neox.Heap.Free.{Freed, kfree-Freed}
use neox.Heap.Cycle.{kfree-kmalloc}

few_alloc : ℕ → ℕ → ℕ → ℕ × ℕ
few_alloc s virt n = if leb 0xFFC00000 virt || s == 0 then (s, 0) else (s - 1, virt)

few_window : (s : ℕ) → (few_alloc s 0xFFC00000 1).1 ≡ 0
unfolding few_alloc
few_window s = ground arith

abbrev few_pages : Pages
few_pages = record { State = ℕ; vmm_alloc_pages = few_alloc; window_taken = few_window }

-- One page, of which a block of 104 bytes is in use; two pages are left.
abbrev two_blocks : Heap few_pages
two_blocks = record {
  blocks =
      record { addr = kernel_heap_start; size = 104; free = false }
      ∷ record { addr = kernel_heap_start + 120; size = 3960; free = true }
      ∷ [];
  heap_end = kernel_heap_start + page_size;
  heap_expansions = 0;
  pages = 2;
}

abbrev two_blocks-IsValid : IsValid few_pages two_blocks
two_blocks-IsValid = record {
  chain = (refl, refl, (refl, refl, refl));
  merged = (refl, (tt, tt));
  started = omega arith;
  bounded = omega arith;
  paged = refl;
}

-- A request of 5000 bytes takes two pages more, and the free block grows over all of them.
large_request :
    kmalloc few_pages two_blocks 5000
    ≡ done (
      record {
        blocks =
            record { addr = kernel_heap_start; size = 104; free = false }
            ∷ record { addr = kernel_heap_start + 120; size = 5000; free = false }
            ∷ record { addr = kernel_heap_start + 5136; size = 3040; free = true }
            ∷ [];
        heap_end = kernel_heap_start + 2 * page_size;
        heap_expansions = 1;
        pages = 1;
      },
      kernel_heap_start + 136,
    )
unfolding kmalloc heap_align heap_find_free heap_expand heap_merge absorb heap_validate split_block
    mark_used few_alloc
large_request = refl

-- A request of 20000 bytes takes the last two pages, and then a page is refused.
too_large :
    kmalloc few_pages two_blocks 20000
    ≡ done (
      record {
        blocks =
            record { addr = kernel_heap_start; size = 104; free = false }
            ∷ record { addr = kernel_heap_start + 120; size = 12152; free = true }
            ∷ [];
        heap_end = kernel_heap_start + 3 * page_size;
        heap_expansions = 2;
        pages = 0;
      },
      0,
    )
unfolding kmalloc heap_align heap_find_free heap_expand heap_merge absorb heap_validate few_alloc
too_large = refl

double_free :
    (kfree few_pages two_blocks (kernel_heap_start + 16) >>= λ h.
    kfree few_pages h (kernel_heap_start + 16))
    ≡ assertion_failed
unfolding kfree heap_find_block heap_merge absorb heap_validate
double_free = refl

kmalloc-Allocated_example : Allocated few_pages two_blocks 5000 (kmalloc few_pages two_blocks 5000)
kmalloc-Allocated_example =
    kmalloc-Allocated few_pages two_blocks 5000 two_blocks-IsValid (omega arith)

kfree-Freed_example :
    Freed few_pages two_blocks
      (kernel_heap_start + 16)
      (kfree few_pages two_blocks (kernel_heap_start + 16))
kfree-Freed_example = kfree-Freed few_pages two_blocks (kernel_heap_start + 16) two_blocks-IsValid

abbrev after_large : Heap few_pages
after_large = record {
  blocks =
      record { addr = kernel_heap_start; size = 104; free = false }
      ∷ record { addr = kernel_heap_start + 120; size = 5000; free = false }
      ∷ record { addr = kernel_heap_start + 5136; size = 3040; free = true }
      ∷ [];
  heap_end = kernel_heap_start + 2 * page_size;
  heap_expansions = 1;
  pages = 1;
}

kfree-kmalloc_example :
    (g : Heap few_pages) × (kfree few_pages after_large (kernel_heap_start + 136) ≡ done g)
    × (used g.blocks ≡ used two_blocks.blocks)
kfree-kmalloc_example =
    kfree-kmalloc few_pages two_blocks 5000 after_large (kernel_heap_start + 136) two_blocks-IsValid
      (omega arith) large_request (omega arith)

granted_first : (few_alloc 2 kernel_heap_start 1).1 ≢ 0
unfolding few_alloc
granted_first = omega arith

-- One block in use fills the region of the heap.
abbrev full_heap : Heap few_pages
full_heap = record two_blocks {
  blocks = record { addr = kernel_heap_start; size = 0xEFFFFF0; free = false } ∷ [];
  heap_end = kernel_heap_end + 1;
}

full_heap-IsValid : IsValid few_pages full_heap
full_heap-IsValid = record {
  chain = (refl, refl, refl);
  merged = (tt, tt);
  started = omega arith;
  bounded = omega arith;
  paged = refl;
}

granted_next : (few_alloc 2 (kernel_heap_end + 1) 1).1 ≢ 0
unfolding few_alloc
granted_next = omega arith
