-- ===== src/Pmm.antt =====
-- kernel/mm/pmm.c, the physical memory manager: one bit for each page frame, set when it is taken.
-- A pointer is its address, and NULL is 0. `interrupts` is the IF flag, which `interrupt_save` and
-- `interrupt_restore` of kernel/arch/x86/arch.c write.
pub mod Bitmap
pub mod Inv
pub mod Alloc
pub mod Free
pub mod Init
pub mod Reserve
pub mod Boot
mod Tests
pub mod Trace
use neox.Base.{
  ℕ, zero, suc, ◌+◌, ◌-◌, ◌*◌, ◌/◌, ◌%◌, ◌^◌, Bool, true, false, not, Option, none, some, ltb, leb,
  ◌==◌, if◌then◌else◌, u32, u64, page_size,
}
use neox.Base.Bits.{shifted_bit}
use neox.Base.Memory.{Bytes, set_index, clear_index, memset}

-- The static variables. `bitmap` is the memory from the bitmap's address on.
pub record Pmm : Type 0 where
  pub total_memory : ℕ
  pub usable_memory : ℕ
  pub highest_address : ℕ
  pub total_pages : ℕ
  pub bitmap : Bytes
  pub bitmap_address : ℕ
  pub bitmap_size : ℕ
  pub bitmap_pages : ℕ
  pub free_pages : ℕ
  pub fail_allocations : ℕ
  pub interrupts : Bool

unfoldable pub bitmap_set : Bytes → ℕ → Bytes
bitmap_set m page = set_index m page

unfoldable pub bitmap_clear : Bytes → ℕ → Bytes
bitmap_clear m page = clear_index m page

unfoldable pub bitmap_test : Bytes → ℕ → ℕ
bitmap_test m page = shifted_bit (m (page / 8)) (page % 8)

-- The bitmap after `n` rounds of the loop of `bitmap_clear_range`.
unfoldable pub clear_rounds : Bytes → ℕ → ℕ → Bytes
clear_rounds m first_page zero = m
clear_rounds m first_page (suc n) =
    bitmap_clear (clear_rounds m first_page n) (u32 (first_page + n))

unfoldable pub bitmap_clear_range : Bytes → ℕ → ℕ → Bytes
bitmap_clear_range m addr len = clear_rounds m (u32 (addr / page_size)) (u32 (len / page_size))

-- The bitmap after `n` rounds of the loop of `bitmap_set_range`.
unfoldable pub set_rounds : Bytes → ℕ → ℕ → Bytes
set_rounds m first_page zero = m
set_rounds m first_page (suc n) = bitmap_set (set_rounds m first_page n) (u32 (first_page + n))

-- `len + PAGE_SIZE - 1` is a sum of `uint64_t`.
unfoldable pub bitmap_set_range : Bytes → ℕ → ℕ → Bytes
bitmap_set_range m addr len =
    set_rounds m (u32 (addr / page_size)) (u32 (u64 (len + page_size - 1) / page_size))

-- The scan of `pmm_alloc_page` from `page`, with `n` pages left below `total_pages`.
unfoldable pub find_free : Bytes → ℕ → ℕ → Option ℕ
find_free m zero page = none
find_free m (suc n) page =
    let rest = find_free m n (page + 1) in if bitmap_test m page == 0 then some page else rest

-- What `pmm_alloc_page` does once the scan has stopped, `interrupts` off.
unfoldable pub take_page : Pmm → Option ℕ → Pmm × ℕ
take_page s none = (s, 0)
take_page s (some page) = (
  record s { bitmap = bitmap_set s.bitmap page; free_pages = u32 (s.free_pages + 2 ^ 32 - 1) },
  u32 (page * page_size),
)

-- The new state and the address returned.
unfoldable pub pmm_alloc_page : Pmm → Pmm × ℕ
unfolding take_page
pmm_alloc_page s =
    if not (s.fail_allocations == 0)
    then (record s { fail_allocations = s.fail_allocations - 1 }, 0)
    else let state = s.interrupts in
      let (t, addr) =
        take_page (record s { interrupts = false }) (find_free s.bitmap s.total_pages 0) in
      (record t { interrupts = state }, addr)

-- Every return restores the flag.
unfoldable pub pmm_free_page : Pmm → ℕ → Pmm
pmm_free_page s page =
    let state = s.interrupts in
    let off = record s { interrupts = false } in
    let page_number = page / page_size in
    if leb off.total_pages page_number
    then record off { interrupts = state }
    else if bitmap_test off.bitmap page_number == 0
    then record off { interrupts = state }
    else record off {
      bitmap = bitmap_clear off.bitmap page_number;
      free_pages = u32 (off.free_pages + 1);
      interrupts = state;
    }

-- The last loop of `pmm_init`, after `n` rounds.
unfoldable pub count_free : Bytes → ℕ → ℕ
count_free m zero = 0
count_free m (suc n) =
    let free_pages = count_free m n in
    if bitmap_test m n == 0 then u32 (free_pages + 1) else free_pages

unfoldable pub pmm_fail_next_allocations : Pmm → ℕ → Pmm
pmm_fail_next_allocations s count = record s { fail_allocations = count }
