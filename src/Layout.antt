-- ===== src/Layout.antt =====
-- kernel/include/memory_layout.h: the kernel's virtual address map.
use neox.Base.{ℕ, ◌+◌, ◌-◌, ◌/◌, page_size}

-- The region that the virtual address manager covers.
abbrev pub kernel_virt_base : ℕ
kernel_virt_base = 0xC0000000

abbrev pub kernel_virt_size : ℕ
kernel_virt_size = 0x3FC00000

-- The kernel image, linked 1 MiB above the base.
abbrev pub kernel_image_base : ℕ
kernel_image_base = 0xC0100000

-- The heap starts where the bootstrap mapping ends.
abbrev pub kernel_heap_start : ℕ
kernel_heap_start = kernel_virt_base + 0x01000000

abbrev pub kernel_heap_end : ℕ
kernel_heap_end = 0xCFFFFFFF

abbrev pub kernel_stacks_start : ℕ
kernel_stacks_start = 0xD0000000

abbrev pub kernel_stacks_end : ℕ
kernel_stacks_end = 0xDFFFFFFF

abbrev pub kernel_remaining_start : ℕ
kernel_remaining_start = 0xE0000000

abbrev pub kernel_stack_size : ℕ
kernel_stack_size = 0x4000

abbrev pub kernel_stack_count : ℕ
kernel_stack_count = (kernel_stacks_end - kernel_stacks_start + 1) / kernel_stack_size

abbrev pub kernel_stack_bitmap_bytes : ℕ
kernel_stack_bitmap_bytes = (kernel_stack_count + 7) / 8

-- `VAM_TOTAL_PAGES` and `VAM_BITMAP_BYTES` of kernel/mm/vam.c
abbrev pub vam_total_pages : ℕ
vam_total_pages = kernel_virt_size / page_size

abbrev pub vam_bitmap_bytes : ℕ
vam_bitmap_bytes = (vam_total_pages + 7) / 8
