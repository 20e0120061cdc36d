-- ===== src/Paging/Directory.antt =====
-- The page directories of kernel/mm/paging.c: the start of paging, creation and destruction.
use neox.Base.{ℕ, zero, suc, not, ltb, leb, ◌&&◌, ◌==◌, if◌then◌else◌, bit_or}
use neox.Base.Result.{Result, done, assertion_failed, ◌>>=◌, ◌>>◌, assert}
use neox.Pmm.{Pmm, pmm_alloc_page, pmm_free_page}
use neox.Pmm.Init.{phys_to_virt, virt_to_phys}
use neox.Paging.{Paging, store, clear, is_present, frame}

-- `KERNEL_PDE_START` and `PAGE_DIRECTORY_ENTRIES`
abbrev pub kernel_pde_start : ℕ
kernel_pde_start = 768

-- The copy of the entries of `source` from `first` up to 1024.
abbrev pub copy : (ℕ → ℕ → ℕ) → ℕ → ℕ → ℕ → ℕ → ℕ → ℕ
copy m source directory first t i =
    if (t == directory) && (leb first i && ltb i 1024) then m source i else m t i

unfoldable pub paging_copy_kernel_mappings : Paging → ℕ → Result Paging
paging_copy_kernel_mappings s directory = do
  assert (not (directory == 0))
  assert (not (s.kernel_directory == 0))
  done (record s { entries = copy s.entries s.kernel_directory directory kernel_pde_start })

-- `paging_create_directory` with what `pmm_alloc_page` returns: the new state and the directory.
unfoldable pub create_in : Paging → Pmm × ℕ → Result (Paging × ℕ)
create_in s (pmm, phys) =
    if phys == 0
    then done (record s { pmm = pmm }, 0)
    else (paging_copy_kernel_mappings
          (record s { pmm = pmm; entries = clear s.entries (phys_to_virt phys) })
          (phys_to_virt phys)
        >>= λ t. done (t, phys_to_virt phys))

unfoldable pub paging_create_directory : Paging → Result (Paging × ℕ)
paging_create_directory s = create_in s (pmm_alloc_page s.pmm)

-- `paging_init` with what `pmm_alloc_page` returns; a panic stops the kernel as an assertion does.
unfoldable pub init_in : Paging → Pmm × ℕ → Result Paging
init_in s (pmm, phys) =
    if phys == 0
    then assertion_failed
    else let directory = phys_to_virt phys in
      let copied = copy (clear s.entries directory) (phys_to_virt s.cr3) directory 0 in
      done (record {
        pmm = pmm;
        entries = store copied directory 1023 (bit_or (bit_or phys 1) 2);
        kernel_directory = directory;
        cr3 = phys;
      })

unfoldable pub paging_init : Paging → Result Paging
paging_init s = init_in s (pmm_alloc_page s.pmm)

-- The inner loop of `paging_destroy_directory`, after `n` rounds.
unfoldable pub free_table : Paging → ℕ → ℕ → Paging
free_table s table zero = s
free_table s table (suc n) =
    let t = free_table s table n in
    let pte = t.entries table n in
    if not (is_present pte)
    then t
    else record t { pmm = pmm_free_page t.pmm (frame pte); entries = store t.entries table n 0 }

-- The outer loop, after `n` rounds.
unfoldable pub free_tables : Paging → ℕ → ℕ → Paging
free_tables s directory zero = s
free_tables s directory (suc n) =
    let t = free_tables s directory n in
    let pde = t.entries directory n in
    if not (is_present pde)
    then t
    else let u = free_table t (phys_to_virt (frame pde)) 1024 in
      record u { pmm = pmm_free_page u.pmm (frame pde); entries = store u.entries directory n 0 }

unfoldable pub paging_destroy_directory : Paging → ℕ → Result Paging
paging_destroy_directory s directory = do
  assert (not (directory == 0))
  assert (not s.pmm.interrupts)
  let t = free_tables s directory kernel_pde_start
  done (record t { pmm = pmm_free_page t.pmm (virt_to_phys directory) })
