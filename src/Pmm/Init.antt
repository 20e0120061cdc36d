-- ===== src/Pmm/Init.antt =====
-- `pmm_init` of kernel/mm/pmm.c. What the boot loader and the linker hand over is its argument.
use neox.Base.{
  ℕ, zero, suc, ◌+◌, ◌-◌, ◌*◌, ◌/◌, ◌^◌, Bool, Option, none, some, ltb, ◌==◌, if◌then◌else◌, u32,
  u64, page_size,
}
use neox.Base.Memory.{Bytes, memset}
use neox.Pmm.{Pmm, bitmap_set_range, bitmap_clear_range, count_free}

-- `struct multiboot_mmap_entry`
pub record Entry : Type 0 where
  pub addr : ℕ
  pub len : ℕ
  pub kind : ℕ

-- `struct multiboot_tag_mmap`; `entries i` is the entry that `i` steps of `entry_size` reach.
pub record MemoryMap : Type 0 where
  pub size : ℕ
  pub entry_size : ℕ
  pub entries : ℕ → Entry

-- The results of `multiboot2_memory_map`, `multiboot2_info` (a virtual address) and
-- `multiboot2_find_module`, the address `&kernel_end`, and the memory from each address on.
pub record Boot : Type 0 where
  pub mmap : Option MemoryMap
  pub mb_info : ℕ
  pub mb_total_size : ℕ
  pub boot_module : Option (ℕ × ℕ)
  pub kernel_end : ℕ
  pub memory : ℕ → Bytes

-- `MULTIBOOT_MEMORY_AVAILABLE`, `KERNEL_LOAD_ADDRESS` and `KERNEL_PHYS_OFFSET`
abbrev pub available : Entry → Bool
available e = e.kind == 1

abbrev pub kernel_load_address : ℕ
kernel_load_address = 0x00100000

abbrev pub kernel_phys_offset : ℕ
kernel_phys_offset = 0xC0000000

abbrev pub phys_to_virt : ℕ → ℕ
phys_to_virt addr = u32 (addr + kernel_phys_offset)

abbrev pub virt_to_phys : ℕ → ℕ
virt_to_phys addr = u32 (addr + 2 ^ 32 - kernel_phys_offset)

-- `(mmap->size - sizeof(*mmap)) / mmap->entry_size`, with a header of 16 bytes
unfoldable pub entry_count : MemoryMap → ℕ
entry_count mm = u32 (mm.size + 2 ^ 32 - 16) / mm.entry_size

-- The statistics after `n` rounds of the first pass.
pub record Stats : Type 0 where
  pub total : ℕ
  pub usable : ℕ
  pub highest : ℕ

unfoldable pub statistics : MemoryMap → ℕ → Stats
statistics mm zero = record { total = 0; usable = 0; highest = 0 }
statistics mm (suc n) =
    let st = statistics mm n in
    let e = mm.entries n in
    let last = u64 (e.addr + e.len) in
    record {
      total = u32 (st.total + u32 e.len);
      usable = if available e then u32 (st.usable + u32 e.len) else st.usable;
      highest =
          if available e then (if ltb st.highest last then last else st.highest) else st.highest;
    }

-- The bitmap after `n` rounds of the second pass.
unfoldable pub clear_available : MemoryMap → Bytes → ℕ → Bytes
clear_available mm m zero = m
clear_available mm m (suc n) =
    let e = mm.entries n in
    let cleared = clear_available mm m n in
    if available e then bitmap_clear_range cleared e.addr e.len else cleared

unfoldable pub reserve_module : Option (ℕ × ℕ) → Bytes → Bytes
reserve_module none m = m
reserve_module (some (mod_start, mod_end)) m =
    bitmap_set_range m mod_start (u32 (mod_end + 2 ^ 32 - mod_start))

-- The five reservations, in order. `bytes` is `bitmap_pages * PAGE_SIZE`.
unfoldable pub reserve : Boot → ℕ → ℕ → Bytes → Bytes
reserve b bitmap_address bytes m =
    let low = bitmap_set_range m 0 0x00100000 in
    let kernel =
      bitmap_set_range low kernel_load_address
        (u32 (b.kernel_end + 2 ^ 32 - kernel_load_address)) in
    let info = bitmap_set_range kernel (virt_to_phys b.mb_info) b.mb_total_size in
    bitmap_set_range (reserve_module b.boot_module info) bitmap_address bytes

-- `reserved_end`, and its next page boundary (`& ~(PAGE_SIZE - 1)` clears the low 12 bits)
unfoldable pub reserved_end : Boot → ℕ
reserved_end b =
    let info_end = u32 (virt_to_phys b.mb_info + b.mb_total_size) in
    if ltb b.kernel_end info_end then info_end else b.kernel_end

unfoldable pub bitmap_base : Boot → ℕ
bitmap_base b = u32 (reserved_end b + page_size - 1) / page_size * page_size

unfoldable pub init_from : Boot → MemoryMap → Pmm → Pmm
init_from b mm s =
    let count = entry_count mm in
    let st = statistics mm count in
    let total_pages = u32 (u64 (st.highest + page_size - 1) / page_size) in
    let bitmap_size = u32 (total_pages + 7) / 8 in
    let bitmap_address = bitmap_base b in
    let bitmap_pages = u32 (bitmap_size + page_size - 1) / page_size in
    let filled = memset (b.memory (phys_to_virt bitmap_address)) 0xFF bitmap_size in
    let bitmap =
      reserve b bitmap_address (u32 (bitmap_pages * page_size)) (clear_available mm filled count) in
    record s {
      total_memory = st.total;
      usable_memory = st.usable;
      highest_address = st.highest;
      total_pages = total_pages;
      bitmap = bitmap;
      bitmap_address = bitmap_address;
      bitmap_size = bitmap_size;
      bitmap_pages = bitmap_pages;
      free_pages = count_free bitmap total_pages;
    }

-- Without a memory map only the statistics are reset.
unfoldable pub pmm_init : Boot → Pmm → Pmm
unfolding init_from
pmm_init b s = elim b.mmap [
  | none ↦ record s { total_memory = 0; usable_memory = 0; highest_address = 0 }
  | some mm ↦ init_from b mm s
]
