-- ===== src/Exec/Tests.antt =====
-- The theorems on the stack of a new program, at one argument.
use neox.Base.{
  ℕ, ◌+◌, ◌/◌, ◌^◌, ◌<◌, ◌≡◌, inl, refl, true, List, [], ◌∷◌, ◌==◌, if◌then◌else◌, arith,
}
use neox.Base.Memory.{Bytes, AreBytes}
use neox.Paging.{Paging, store, paging_get_table}
use neox.Paging.UserRange.{user_page}
use neox.Paging.UserString.{IsShut}
use neox.Heap.{Heap}
use neox.Machine.Example.{no_pages, tables, small_machine, small_laws, one_block, one_block-IsValid}
use neox.Exec.Quiet.{KeepsUser, heap-IsQuiet}
use neox.Exec.Args.{exec_args_copy_from_user}
use neox.Exec.Copied.{Copied, exec_args_copy_from_user-Copied}
use neox.Pmm.Init.{phys_to_virt}
use neox.Exec.{exec_build_user_stack}
use neox.Exec.Sizes.{addresses, AreArguments}
use neox.Exec.Layout.{Built, exec_build_user_stack-Built}

-- The string "ab" is at 100.
abbrev one_string : Bytes
one_string j = if j == 100 then 97 else if j == 101 then 98 else 0

abbrev arguments : List (ℕ × ℕ)
arguments = (100, 2) ∷ []

arguments-AreArguments : AreArguments one_string (phys_to_virt 0x5000) 10 arguments
arguments-AreArguments =
    (record { inside = λ k h. ground arith; end = refl }, inl (omega arith), omega arith, tt)

exec_build_user_stack-Built_example :
    Built one_string arguments 0x8000
      (phys_to_virt 0x5000)
      (exec_build_user_stack 10 one_string (addresses arguments) 0x8000 0x5000)
exec_build_user_stack-Built_example =
    exec_build_user_stack-Built 10 one_string arguments 0x8000 0x5000 arguments-AreArguments refl
      (omega arith) (omega arith)

-- The arguments of a program in memory: the array at 200 has the string at 100 and NULL.
abbrev user_memory : Bytes
user_memory j = if j == 100 then 97 else if j == 101 then 98 else if j == 200 then 100 else 0

user_memory-AreBytes : AreBytes user_memory
user_memory-AreBytes j = ground arith

-- The first page is mapped for user mode.
abbrev user_tables : Paging
user_tables = record {
  pmm = record {
    total_memory = 0x4000;
    usable_memory = 0x4000;
    highest_address = 0x4000;
    total_pages = 4;
    bitmap = λ j. if j == 0 then 7 else 0;
    bitmap_address = 0x1000;
    bitmap_size = 1;
    bitmap_pages = 1;
    free_pages = 1;
    fail_allocations = 0;
    interrupts = true;
  };
  entries = store (store (λ t i. 0) 0xC0001000 0 0x2007) 0xC0002000 0 0x3007;
  kernel_directory = 0xC0001000;
  cr3 = 0x1000;
}

abbrev program : Heap no_pages
program = one_block (record { paging = user_tables; memory = user_memory })

no_table : (i : ℕ) → 0 < i → paging_get_table user_tables 0xC0001000 i ≡ 0
unfolding paging_get_table
no_table i h = ground arith

user_tables-IsShut : IsShut user_tables 0xC0001000
unfolding user_page
user_tables-IsShut a high low = rw (no_table (a / 4194304) (omega arith)) refl

refuses-KeepsUser : KeepsUser no_pages tables 0xC0001000
refuses-KeepsUser = record {
  bytes_kept = λ s virt n bytes. bytes;
  shut_kept = λ s virt n shut. shut;
}

exec_args_copy_from_user-Copied_example :
    Copied small_machine small_laws program 0xC0001000
      (exec_args_copy_from_user small_machine (2 ^ 33 + 1) program 0xC0001000 200)
exec_args_copy_from_user-Copied_example =
    exec_args_copy_from_user-Copied small_machine small_laws program (2 ^ 33 + 1) 0xC0001000
      (λ e. absurd (omega arith)) (heap-IsQuiet no_pages tables 0xC0001000 refuses-KeepsUser)
      (omega arith) 200 (one_block-IsValid _) user_memory-AreBytes user_tables-IsShut
