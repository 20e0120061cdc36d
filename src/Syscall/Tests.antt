-- ===== src/Syscall/Tests.antt =====
-- The theorems on system calls at a process with one file open and one page mapped.
use neox.Base.{◌+◌, ◌^◌, inl, refl, true, some, ◌==◌, if◌then◌else◌, arith}
use neox.Fs.Example.{memory, mounted_fs, memory-AreBytes, memory-IsImage}
use neox.Paging.UserString.{Scanned, paging_user_string_valid}
use neox.Paging.UserString.Scan.{paging_user_string_valid-Scanned}
use neox.Syscall.Open.{SysOpen, sys_open-SysOpen}
use neox.Paging.{Paging, store}
use neox.Syscall.{Caller, sys_read, sys_open}
use neox.Syscall.Read.{SysRead, sys_read-SysRead}

abbrev caller : Caller
caller = record {
  page_directory = 0xC0001000;
  files = record {
    file = λ j. record { fs_file = 120; position = 1; access = 1 };
    used = λ j. j == 0;
  };
}

-- The first page is mapped for user mode.
abbrev mapped : Paging
mapped = record {
  pmm = record {
    total_memory = 0x4000;
    usable_memory = 0x4000;
    highest_address = 0x4000;
    total_pages = 4;
    bitmap = λ j. if j == 0 then 7 else 0;
    bitmap_address = 0x1000;
    bitmap_size = 1;
    bitmap_pages = 1;
    free_pages = 1;
    fail_allocations = 0;
    interrupts = true;
  };
  entries = store (store (λ t i. 0) 0xC0001000 0 0x2007) 0xC0002000 0 0x3007;
  kernel_directory = 0xC0001000;
  cr3 = 0x1000;
}

sys_read-SysRead_example :
    SysRead memory mapped 0xC0001000 400 5 (sys_read memory mapped mounted_fs (some caller) 0 400 5)
sys_read-SysRead_example =
    sys_read-SysRead memory mapped mounted_fs caller 0 400 5 (λ e. absurd (omega arith))
      (omega arith) (omega arith) (omega arith)

sys_open-SysOpen_example :
    SysOpen memory mapped mounted_fs caller 300 1
      (sys_open (2 ^ 33 + 1) memory mapped mounted_fs (some caller) 300 1)
sys_open-SysOpen_example =
    sys_open-SysOpen memory mapped mounted_fs caller 300 1 (2 ^ 33 + 1) memory-AreBytes
      memory-IsImage refl (λ e. absurd (omega arith)) (omega arith) (inl refl) (omega arith)

paging_user_string_valid-Scanned_example :
    Scanned memory mapped 0xC0001000 300
      (paging_user_string_valid (2 ^ 34) memory mapped 0xC0001000 300)
paging_user_string_valid-Scanned_example =
    paging_user_string_valid-Scanned memory mapped 0xC0001000 300 (λ e. absurd (omega arith))
      (2 ^ 34) (λ e. absurd (omega arith)) (omega arith) (omega arith)
