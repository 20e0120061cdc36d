-- ===== src/Usermode/Tests.antt =====
-- The theorems on the stacks of user mode at a process with one stack.
use neox.Base.{ℕ, ◌≡◌, true, Option, [], ◌∷◌, ◌==◌, if◌then◌else◌, arith}
use neox.Base.Result.{done}
use neox.Pmm.{Pmm}
use neox.Paging.{Paging}
use neox.Heap.{Heap}
use neox.Machine.Example.{no_pages, small_machine, small_laws, one_block, one_block-IsValid}
use neox.Usermode.{Process, usermode_stack_create}
use neox.Usermode.Created.{Created, usermode_stack_create-Created}
use neox.Usermode.Released.{Kept, usermode_stack_create-Kept}

-- Four frames, of which the last is free; the directory in the frame 1 is empty.
abbrev frames : Pmm
frames = record {
  total_memory = 0x4000;
  usable_memory = 0x4000;
  highest_address = 0x4000;
  total_pages = 4;
  bitmap = λ j. if j == 0 then 7 else 0;
  bitmap_address = 0x1000;
  bitmap_size = 1;
  bitmap_pages = 1;
  free_pages = 1;
  fail_allocations = 0;
  interrupts = true;
}

abbrev empty : Paging
empty = record { pmm = frames; entries = λ t i. 0; kernel_directory = 0xC0001000; cr3 = 0x1000 }

abbrev start : Heap no_pages
start = one_block (record { paging = empty; memory = λ j. 0 })

-- The highest slot is reserved.
abbrev one_stack : Process
one_stack = record { page_directory = 0xC0001000; user_stacks = (0xBFFFF000, 0xD0000010) ∷ [] }

usermode_stack_create-Created_example :
    Created small_machine small_laws start one_stack
      (usermode_stack_create small_machine start one_stack)
usermode_stack_create-Created_example =
    usermode_stack_create-Created small_machine small_laws start one_stack (one_block-IsValid _)
      (λ e. absurd (omega arith))

usermode_stack_create-Kept_example :
    (t : Heap no_pages) × (q : Process) × (o : Option ℕ) × (usermode_stack_create small_machine
        start one_stack
      ≡ done (t, q, o))
    × Kept small_machine small_laws one_stack t q o
usermode_stack_create-Kept_example =
    usermode_stack_create-Kept small_machine small_laws start one_stack (one_block-IsValid _)
      (λ e. absurd (omega arith)) (tt, tt)
