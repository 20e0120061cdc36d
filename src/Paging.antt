-- ===== src/Paging.antt =====
-- kernel/mm/paging.c, the page directories and page tables, over the physical memory manager. A
-- pointer is its address, and NULL is 0. The TLB, which `paging_invalidate` is about, is left out.
pub mod Returns
pub mod Bits
pub mod Directory
pub mod UserRange
pub mod UserString
pub mod Map
pub mod NewTable
pub mod Unmap
pub mod Frames
pub mod Created
pub mod Virtual
mod Tests
use neox.Base.{
  ℕ, ◌+◌, ◌-◌, ◌*◌, ◌/◌, ◌%◌, ◌^◌, Bool, true, false, not, ◌&&◌, zero, suc, ltb, ◌==◌,
  if◌then◌else◌, u32, page_size, bit_or,
}
use neox.Base.Result.{Result, done, ◌>>=◌, ◌>>◌, assert}
use neox.Pmm.{Pmm, pmm_alloc_page, pmm_free_page}
use neox.Pmm.Init.{phys_to_virt, virt_to_phys}

-- `entries` is the memory of the page directories and page tables: what stands at each index of the
-- one at each address.
pub record Paging : Type 0 where
  pub pmm : Pmm
  pub entries : ℕ → ℕ → ℕ
  pub kernel_directory : ℕ
  pub cr3 : ℕ

abbrev pub store : (ℕ → ℕ → ℕ) → ℕ → ℕ → ℕ → ℕ → ℕ → ℕ
store m table index entry t i = if (t == table) && (i == index) then entry else m t i

-- `memset(table, 0, sizeof(*table))`
abbrev pub clear : (ℕ → ℕ → ℕ) → ℕ → ℕ → ℕ → ℕ
clear m table t i = if (t == table) && ltb i 1024 then 0 else m t i

-- `entry & PAGE_PRESENT`, bit 0, and `entry & PAGE_USER`, bit 2.
abbrev pub is_present : ℕ → Bool
is_present entry = entry % 2 == 1

abbrev pub is_user : ℕ → Bool
is_user entry = entry / 4 % 2 == 1

-- `entry & PAGE_FRAME_MASK` clears the low 12 bits.
abbrev pub frame : ℕ → ℕ
frame entry = entry / page_size * page_size

-- `virt >> 22` and `(virt >> 12) & 0x3FFu`
abbrev pub directory_index : ℕ → ℕ
directory_index virt = virt / 2 ^ 22

abbrev pub table_index : ℕ → ℕ
table_index virt = virt / 2 ^ 12 % 1024

-- The code reaches a table by PHYS_TO_VIRT, which maps the first 16 MiB only. A function from
-- addresses has no such limit, so theorems on the contents of tables assume frames below it.
unfoldable pub paging_get_table : Paging → ℕ → ℕ → ℕ
paging_get_table s directory index =
    if not (is_present (s.entries directory index))
    then 0
    else phys_to_virt (frame (s.entries directory index))

-- A table for the frame that was allocated, or NULL.
unfoldable pub cleared_table : Paging → Pmm × ℕ → Paging × ℕ
cleared_table s (pmm, phys) =
    if phys == 0
    then (record s { pmm = pmm }, 0)
    else (record s { pmm = pmm; entries = clear s.entries (phys_to_virt phys) }, phys_to_virt phys)

unfoldable pub paging_alloc_table : Paging → Paging × ℕ
paging_alloc_table s = cleared_table s (pmm_alloc_page s.pmm)

-- The entry of the directory for a new table; `flags & (PAGE_WRITABLE | PAGE_USER)` keeps two bits.
abbrev pub directory_entry : ℕ → ℕ → ℕ
directory_entry table flags = bit_or (bit_or (virt_to_phys table) 1) (flags / 2 % 4 * 2)

-- The end of `paging_map`: the entry of the table.
unfoldable pub set_entry : Paging → ℕ → ℕ → ℕ → ℕ → Paging
set_entry s table virt phys flags = record s {
  entries = store s.entries table (table_index virt) (bit_or (frame phys) flags);
}

-- `paging_map` where the directory has no table for the page, with the one that was allocated.
unfoldable pub map_in_new : ℕ → ℕ → ℕ → ℕ → Paging × ℕ → Paging
map_in_new directory virt phys flags (s, table) =
    if table == 0
    then s
    else set_entry
        (record s {
          entries = store s.entries directory (directory_index virt) (directory_entry table flags);
        })
        table virt phys flags

unfoldable pub paging_map : Paging → ℕ → ℕ → ℕ → ℕ → Paging
paging_map s directory virt phys flags =
    let table = paging_get_table s directory (directory_index virt) in
    if table == 0
    then map_in_new directory virt phys flags (paging_alloc_table s)
    else set_entry s table virt phys flags

-- Whether one of the first `n` entries of a table is present.
unfoldable pub any_present : (ℕ → ℕ) → ℕ → Bool
any_present entries zero = false
any_present entries (suc n) =
    let rest = any_present entries n in if is_present (entries n) then true else rest

-- `paging_unmap` once the directory's entry is known to be present.
unfoldable pub clear_entry : Paging → ℕ → ℕ → Paging
clear_entry s directory virt =
    let pde = s.entries directory (directory_index virt) in
    let table = paging_get_table s directory (directory_index virt) in
    if table == 0
    then s
    else let t = record s { entries = store s.entries table (table_index virt) 0 } in
      if any_present (t.entries table) 1024 then t else record t {
        pmm = pmm_free_page t.pmm (frame pde);
        entries = store t.entries directory (directory_index virt) 0;
      }

unfoldable pub paging_unmap : Paging → ℕ → ℕ → Result Paging
paging_unmap s directory virt = do
  assert (not (directory == 0))
  done (
      if not (is_present (s.entries directory (directory_index virt)))
      then s
      else clear_entry s directory virt)

unfoldable pub paging_map_kernel : Paging → ℕ → ℕ → ℕ → Paging
paging_map_kernel s virt phys flags = paging_map s s.kernel_directory virt phys flags

-- The entry of a table, or 0 where there is no table.
unfoldable pub paging_translate : Paging → ℕ → ℕ → ℕ
paging_translate s directory virt =
    let table = paging_get_table s directory (directory_index virt) in
    if table == 0
    then 0
    else let entry = s.entries table (table_index virt) in
      if not (is_present entry) then 0 else u32 (frame entry + virt % page_size)

unfoldable pub paging_validate_mapping : Paging → ℕ → ℕ → Result Bool
paging_validate_mapping s directory virt = do
  assert (not (directory == 0))
  let table = paging_get_table s directory (directory_index virt)
  done (
      is_present (s.entries directory (directory_index virt))
      && not (table == 0)
      && is_present (s.entries table (table_index virt)))
