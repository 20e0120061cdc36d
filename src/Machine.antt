-- ===== src/Machine.antt =====
-- What the loader of programs uses of the kernel below it: paging, memory and the heap, in one state.
-- The heap of Heap.antt is such a machine, over any virtual memory manager whose state has the tables
-- and the memory in it.
pub mod Laws
pub mod Owned
pub mod Example
use neox.Base.{ℕ, ◌≡◌}
use neox.Base.Memory.{Bytes}
use neox.Base.Result.{Result}
use neox.Paging.{Paging}
use neox.Heap.{Pages, Heap, kmalloc, kfree}

pub record Machine : Type 1 where
  pub State : Type 0
  pub paging : State → Paging
  pub set_paging : State → Paging → State
  pub memory : State → Bytes
  pub set_memory : State → Bytes → State
  pub kmalloc : State → ℕ → Result (State × ℕ)
  pub kfree : State → ℕ → Result State

-- The tables and the memory in the state of a virtual memory manager.
pub record Parts (vmm : Pages) : Type 0 where
  pub paging : vmm.State → Paging
  pub set_paging : vmm.State → Paging → vmm.State
  pub paging_set : (s : vmm.State) (p : Paging) → paging (set_paging s p) ≡ p
  pub memory : vmm.State → Bytes
  pub set_memory : vmm.State → Bytes → vmm.State
  pub memory_set : (s : vmm.State) (m : Bytes) → memory (set_memory s m) ≡ m
  pub paging_kept : (s : vmm.State) (m : Bytes) → paging (set_memory s m) ≡ paging s

abbrev pub heap_machine : (vmm : Pages) → Parts vmm → Machine
heap_machine vmm parts = record {
  State = Heap vmm;
  paging = λ h. parts.paging h.pages;
  set_paging = λ h p. record h { pages = parts.set_paging h.pages p };
  memory = λ h. parts.memory h.pages;
  set_memory = λ h m. record h { pages = parts.set_memory h.pages m };
  kmalloc = kmalloc vmm;
  kfree = kfree vmm;
}
