-- ===== src/Exec/Quiet.antt =====
-- The heap as the machine of `exec_args_copy_from_user`: what `kmalloc` keeps of memory and tables.
use neox.Base.{ℕ}
use neox.Base.Memory.{AreBytes}
use neox.Paging.UserString.{IsShut}
use neox.Heap.{Pages}
use neox.Heap.Kept.{kmalloc-keeps}
use neox.Machine.{Parts, heap_machine}
use neox.Machine.Laws.{heap_laws}
use neox.Exec.Copied.{IsQuiet}

-- A virtual memory manager that maps no page of user mode in the last page of a directory, and keeps
-- memory a memory of bytes.
pub record KeepsUser (vmm : Pages) (parts : Parts vmm) (directory : ℕ) : Type 0 where
  pub bytes_kept :
      (s : vmm.State) (virt n : ℕ)
      → AreBytes (parts.memory s)
      → AreBytes (parts.memory (vmm.vmm_alloc_pages s virt n).0)
  pub shut_kept :
      (s : vmm.State) (virt n : ℕ)
      → IsShut (parts.paging s) directory
      → IsShut (parts.paging (vmm.vmm_alloc_pages s virt n).0) directory

-- kmalloc over such a virtual memory manager is as quiet as exec_args_copy_from_user needs it.
pub heap-IsQuiet :
    (vmm : Pages) (parts : Parts vmm) (directory : ℕ)
    → KeepsUser vmm parts directory
    → IsQuiet (heap_machine vmm parts) (heap_laws vmm parts) directory
heap-IsQuiet vmm parts directory k = record {
  memory_set = λ h m. parts.memory_set h.pages m;
  paging_kept = λ h m. parts.paging_kept h.pages m;
  bytes_kept = kmalloc-keeps vmm (λ s. AreBytes (parts.memory s)) k.bytes_kept;
  shut_kept = kmalloc-keeps vmm (λ s. IsShut (parts.paging s) directory) k.shut_kept;
}
