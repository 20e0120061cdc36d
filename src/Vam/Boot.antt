-- ===== src/Vam/Boot.antt =====
-- The state that `vam_init` leaves, and the first allocation after it.
use neox.Base.{
  ℕ, zero, suc, ◌+◌, ◌-◌, ◌*◌, ◌/◌, ◌%◌, ◌^◌, ◌≤◌, ◌<◌, ◌≡◌, Bool, false, ◌&&◌, ◌||◌, ltb, leb, u32,
  page_size, arith,
}
use neox.Base.Memory.{Bytes, AreBytes, is_set, memset, memset-AreBytes, is_set-memset_zero}
use neox.Vam.{Vam, vam_addr_to_index, vam_reserve_region, vam_init, vam_alloc_pages}
use neox.Vam.Ranges.{bitmap_range_set-AreBytes, is_set-bitmap_range_set}
use neox.Vam.Pages.{Allocated, run, none_left, vam_alloc_pages-Allocated}
use neox.Layout.{
  kernel_virt_base, kernel_image_base, kernel_heap_start, kernel_heap_end, kernel_stacks_start,
  kernel_stacks_end, kernel_stack_count, kernel_stack_bitmap_bytes, vam_total_pages,
  vam_bitmap_bytes,
}

reserve_region-AreBytes :
    (m : Bytes) (start end : ℕ) → AreBytes m → AreBytes (vam_reserve_region m start end)
unfolding vam_reserve_region
reserve_region-AreBytes m start end v = bitmap_range_set-AreBytes m _ _ v

-- `vam_reserve_region` sets the bits of the pages from that of `start` to that of `end`, for
-- addresses of the region, `start` at a page boundary.
is_set-reserve_region :
    (m : Bytes) (start end q : ℕ)
    → AreBytes m
    → kernel_virt_base ≤ start
    → start ≤ end
    → end < 2 ^ 32
    → start % page_size ≡ 0
    → is_set (vam_reserve_region m start end) q ≡ (
        leb start (kernel_virt_base + q * page_size) && leb (kernel_virt_base + q * page_size) end
        || is_set m q)
unfolding vam_reserve_region vam_addr_to_index
is_set-reserve_region m start end q v lo le hi aligned = ground (
  arith,
  is_set-bitmap_range_set m (u32 (start + 2 ^ 32 - kernel_virt_base) / page_size)
      (u32 (u32 (end + 2 ^ 32 - start) / page_size + 1)) q v,
)

-- The pages of the kernel image, the heap and the stacks.
pub fixed : ℕ → ℕ → Bool
fixed kernel_virtual_end q =
    let addr = kernel_virt_base + q * page_size in
    leb kernel_image_base addr && ltb addr kernel_virtual_end
    || leb kernel_heap_start addr && leb addr kernel_heap_end
    || leb kernel_stacks_start addr && leb addr kernel_stacks_end

-- After vam_init exactly the pages of the kernel image, the heap and the stacks are occupied and
-- every stack slot is free, if the image ends above its base and not above the start of the heap.
pub vam_init_lem :
    (kernel_virtual_end : ℕ) (s : Vam) (q : ℕ)
    → AreBytes s.bitmap
    → kernel_image_base < kernel_virtual_end
    → kernel_virtual_end ≤ kernel_heap_start
    → q < vam_total_pages
    → (is_set (vam_init kernel_virtual_end s).bitmap q ≡ fixed kernel_virtual_end q)
      × (is_set (vam_init kernel_virtual_end s).kernel_stack_bitmap (q % kernel_stack_count)
          ≡ false)
unfolding vam_init fixed
vam_init_lem e s q v lo hi lt =
    let empty : Bytes = memset s.bitmap 0 vam_bitmap_bytes in
    let vm : AreBytes empty = memset-AreBytes s.bitmap 0 vam_bitmap_bytes v in
    let image_end : ℕ = u32 (e + page_size - 1) / page_size * page_size in
    let last : ℕ = u32 (image_end + 2 ^ 32 - 1) in
    let image : Bytes = vam_reserve_region empty kernel_image_base last in
    let vi : AreBytes image = reserve_region-AreBytes empty kernel_image_base last vm in
    let heap : Bytes = vam_reserve_region image kernel_heap_start kernel_heap_end in
    let vh : AreBytes heap = reserve_region-AreBytes image kernel_heap_start kernel_heap_end vi in
    (
      ground (
        arith,
        is_set-reserve_region heap kernel_stacks_start kernel_stacks_end q vh,
        is_set-reserve_region image kernel_heap_start kernel_heap_end q vi,
        is_set-reserve_region empty kernel_image_base last q vm,
        is_set-memset_zero s.bitmap vam_bitmap_bytes q,
      ),
      is_set-memset_zero s.kernel_stack_bitmap kernel_stack_bitmap_bytes (q % kernel_stack_count)
          (omega arith),
    )

first_run :
    (e : ℕ) (s : Vam) (count : ℕ) {t : Vam} {addr : ℕ}
    → AreBytes s.bitmap
    → kernel_image_base < e
    → e ≤ kernel_heap_start
    → count ≤ 256
    → Allocated (vam_init e s) count (t, addr)
    → addr ≡ kernel_virt_base
unfolding fixed
first_run e s count v lo hi le (run zero fits free before et ea) = omega arith
first_run e s count v lo hi le (run (suc i) fits free before et ea) =
    let blocked = before 0 (omega arith) in
    ground (
      arith,
      blocked.1,
      blocked.2,
      (vam_init_lem e s blocked.0 v lo hi (ground (arith, blocked.1))).0,
    )
first_run e s count v lo hi le (none_left all et ea) =
    let blocked = all 0 (omega arith) in
    ground (
      arith,
      blocked.1,
      blocked.2,
      (vam_init_lem e s blocked.0 v lo hi (ground (arith, blocked.1))).0,
    )

-- After vam_init a first request for one to 256 pages is granted at KERNEL_VIRT_BASE, in the first
-- MiB below the kernel image.
pub vam_init_first_alloc :
    (kernel_virtual_end : ℕ) (s : Vam) (count : ℕ)
    → AreBytes s.bitmap
    → kernel_image_base < kernel_virtual_end
    → kernel_virtual_end ≤ kernel_heap_start
    → 0 < count
    → count ≤ 256
    → (vam_alloc_pages (vam_init kernel_virtual_end s) count).1 ≡ kernel_virt_base
vam_init_first_alloc e s count v lo hi pos le =
    first_run e s count v lo hi le
      (vam_alloc_pages-Allocated (vam_init e s) count pos (omega arith))
