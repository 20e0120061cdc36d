-- ===== src/Machine/Example.antt =====
-- A heap of one page whose virtual memory manager refuses every page, with the memory and the tables
-- in its state, for the examples of its clients.
use neox.Base.{◌+◌, refl, true, [], ◌∷◌, page_size, arith}
use neox.Base.Memory.{Bytes}
use neox.Layout.{kernel_heap_start}
use neox.Paging.{Paging}
use neox.Heap.{Pages, Heap}
use neox.Heap.Expand.{IsValid}
use neox.Machine.{Parts, Machine, heap_machine}
use neox.Machine.Laws.{Laws, heap_laws}

pub record Tables : Type 0 where
  pub paging : Paging
  pub memory : Bytes

abbrev pub no_pages : Pages
no_pages = record { State = Tables; vmm_alloc_pages = λ s virt n. (s, 0); window_taken = λ s. refl }

abbrev pub tables : Parts no_pages
tables = record {
  paging = λ s. s.paging;
  set_paging = λ s p. record s { paging = p };
  paging_set = λ s p. refl;
  memory = λ s. s.memory;
  set_memory = λ s m. record s { memory = m };
  memory_set = λ s m. refl;
  paging_kept = λ s m. refl;
}

abbrev pub small_machine : Machine
small_machine = heap_machine no_pages tables

abbrev pub small_laws : Laws small_machine
small_laws = heap_laws no_pages tables

-- One free block.
abbrev pub one_block : Tables → Heap no_pages
one_block s = record {
  blocks = record { addr = kernel_heap_start; size = 4080; free = true } ∷ [];
  heap_end = kernel_heap_start + page_size;
  heap_expansions = 0;
  pages = s;
}

pub one_block-IsValid : (s : Tables) → IsValid no_pages (one_block s)
one_block-IsValid s = record {
  chain = (refl, refl, refl);
  merged = (tt, tt);
  started = omega arith;
  bounded = omega arith;
  paged = refl;
}
