-- ===== src/Vam.antt =====
-- kernel/mm/vam.c, the virtual address manager: one bit for each page of the kernel region, and one
-- for each kernel stack slot, set when it is occupied. A pointer is its address, and NULL is 0.
pub mod Ranges
pub mod Pages
pub mod Stacks
pub mod Boot
mod Tests
use neox.Base.{
  ℕ, zero, suc, ◌+◌, ◌-◌, ◌*◌, ◌/◌, ◌%◌, ◌^◌, ◌≤◌, ◌<◌, ◌≡◌, ◌≢◌, ◌⊎◌, inl, inr, ◌∙◌, refl, sym, ap,
  subst, ◌↔◌, Bool, true, false, not, ◌&&◌, ◌||◌, Option, none, some, List, [], ◌∷◌, ◌++◌, ltb, leb,
  ◌==◌, if◌then◌else◌, u32, u64, page_size, Bool-cases, Option-cases, arith,
}
use neox.Base.Bits.{masked_bit}
use neox.Base.Memory.{Bytes, set_index, clear_index, memset}
use neox.Layout.{
  kernel_virt_base, kernel_image_base, kernel_heap_start, kernel_heap_end, kernel_stacks_start,
  kernel_stacks_end, kernel_stack_size, kernel_stack_count, kernel_stack_bitmap_bytes,
  vam_total_pages, vam_bitmap_bytes,
}

-- `bitmap` and `kernel_stack_bitmap`, each the memory from the array's first byte on.
pub record Vam : Type 0 where
  pub bitmap : Bytes
  pub kernel_stack_bitmap : Bytes

unfoldable pub vam_addr_to_index : ℕ → ℕ
vam_addr_to_index virt = u32 (virt + 2 ^ 32 - kernel_virt_base) / page_size

unfoldable pub vam_index_to_addr : ℕ → ℕ
vam_index_to_addr index = u32 (kernel_virt_base + u32 (index * page_size))

unfoldable pub kernel_stack_slot_test : Bytes → ℕ → Bool
kernel_stack_slot_test m slot = masked_bit (m (slot / 8)) (slot % 8)

unfoldable pub kernel_stack_slot_set : Bytes → ℕ → Bytes
kernel_stack_slot_set m slot = set_index m slot

unfoldable pub kernel_stack_slot_clear : Bytes → ℕ → Bytes
kernel_stack_slot_clear m slot = clear_index m slot

unfoldable pub bitmap_set : Bytes → ℕ → Bytes
bitmap_set m index = set_index m index

unfoldable pub bitmap_clear : Bytes → ℕ → Bytes
bitmap_clear m index = clear_index m index

unfoldable pub bitmap_test : Bytes → ℕ → Bool
bitmap_test m index = masked_bit (m (index / 8)) (index % 8)

-- The bitmap after `count` rounds of the loop.
unfoldable pub bitmap_range_set : Bytes → ℕ → ℕ → Bytes
bitmap_range_set m start zero = m
bitmap_range_set m start (suc n) = bitmap_set (bitmap_range_set m start n) (u32 (start + n))

unfoldable pub bitmap_range_clear : Bytes → ℕ → ℕ → Bytes
bitmap_range_clear m start zero = m
bitmap_range_clear m start (suc n) = bitmap_clear (bitmap_range_clear m start n) (u32 (start + n))

-- The loop of `bitmap_range_free` from round `i`, with `n` rounds left.
unfoldable pub range_free_from : Bytes → ℕ → ℕ → ℕ → Bool
range_free_from m start zero i = true
range_free_from m start (suc n) i =
    let rest = range_free_from m start n (i + 1) in
    if bitmap_test m (u32 (start + i)) then false else rest

unfoldable pub bitmap_range_free : Bytes → ℕ → ℕ → Bool
unfolding range_free_from
bitmap_range_free m start count = range_free_from m start count 0

unfoldable pub vam_reserve_region : Bytes → ℕ → ℕ → Bytes
vam_reserve_region m start end =
    bitmap_range_set m (vam_addr_to_index start) (u32 (u32 (end + 2 ^ 32 - start) / page_size + 1))

-- The scan of `vam_alloc_stack` from `slot`, with `n` slots left.
unfoldable pub find_slot : Bytes → ℕ → ℕ → Option ℕ
find_slot m zero slot = none
find_slot m (suc n) slot =
    let rest = find_slot m n (slot + 1) in
    if not (kernel_stack_slot_test m slot) then some slot else rest

unfoldable pub take_slot : Vam → Option ℕ → Vam × ℕ
take_slot s none = (s, 0)
take_slot s (some slot) = (
  record s { kernel_stack_bitmap = kernel_stack_slot_set s.kernel_stack_bitmap slot },
  u32 (kernel_stacks_start + u32 (slot * kernel_stack_size)),
)

-- The new state and the address of the slot.
unfoldable pub vam_alloc_stack : Vam → Vam × ℕ
unfolding take_slot
vam_alloc_stack s = take_slot s (find_slot s.kernel_stack_bitmap kernel_stack_count 0)

unfoldable pub vam_free_stack : Vam → ℕ → Vam
vam_free_stack s address =
    if address == 0
    then s
    else if ltb address kernel_stacks_start || ltb kernel_stacks_end address
    then s
    else if not ((address - kernel_stacks_start) % kernel_stack_size == 0)
    then s
    else let slot = (address - kernel_stacks_start) / kernel_stack_size in
      if leb kernel_stack_count slot
      then s
      else record s { kernel_stack_bitmap = kernel_stack_slot_clear s.kernel_stack_bitmap slot }

-- `kernel_virtual_end` is the linker's symbol; `& ~(PAGE_SIZE - 1u)` clears the low 12 bits.
unfoldable pub vam_init : ℕ → Vam → Vam
vam_init kernel_virtual_end s =
    let empty = memset s.bitmap 0 vam_bitmap_bytes in
    let image_end = u32 (kernel_virtual_end + page_size - 1) / page_size * page_size in
    let image = vam_reserve_region empty kernel_image_base (u32 (image_end + 2 ^ 32 - 1)) in
    let heap = vam_reserve_region image kernel_heap_start kernel_heap_end in
    record {
      bitmap = vam_reserve_region heap kernel_stacks_start kernel_stacks_end;
      kernel_stack_bitmap = memset s.kernel_stack_bitmap 0 kernel_stack_bitmap_bytes;
    }

-- The scan of `vam_alloc_pages` from `index`, with `n` rounds left.
unfoldable pub find_run : Bytes → ℕ → ℕ → ℕ → Option ℕ
find_run m count zero index = none
find_run m count (suc n) index =
    let rest = find_run m count n (index + 1) in
    if bitmap_range_free m index count then some index else rest

unfoldable pub take_run : Vam → ℕ → Option ℕ → Vam × ℕ
take_run s count none = (s, 0)
take_run s count (some index) =
    (record s { bitmap = bitmap_range_set s.bitmap index count }, vam_index_to_addr index)

-- The loop runs while `index <= VAM_TOTAL_PAGES - count`, a difference of `uint32_t`.
unfoldable pub vam_alloc_pages : Vam → ℕ → Vam × ℕ
unfolding take_run
vam_alloc_pages s count =
    if count == 0
    then (s, 0)
    else take_run s count (find_run s.bitmap count (u32 (vam_total_pages + 2 ^ 32 - count) + 1) 0)

unfoldable pub vam_free_pages : Vam → ℕ → ℕ → Vam
vam_free_pages s addr count =
    if count == 0
    then s
    else record s { bitmap = bitmap_range_clear s.bitmap (vam_addr_to_index addr) count }
