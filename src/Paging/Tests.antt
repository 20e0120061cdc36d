-- ===== src/Paging/Tests.antt =====
-- The theorems on paging at a small kernel directory.
use neox.Base.{
  ℕ, ◌+◌, ◌*◌, ◌/◌, ◌%◌, ◌^◌, ◌<◌, ◌≡◌, ◌≢◌, ◌↔◌, inl, inr, refl, true, Bool, ◌&&◌, not, ◌==◌,
  if◌then◌else◌, page_size, arith,
}
use neox.Base.Bits.{masked_bit, shifted_bit, or_bit}
use neox.Base.Memory.{Bytes, AreBytes, is_set, set_index}
use neox.Base.Result.{done}
use neox.Pmm.{Pmm, pmm_alloc_page, find_free, take_page, bitmap_test, bitmap_set}
use neox.Pmm.Inv.{IsValid, clear_bits}
use neox.Paging.{
  Paging, store, paging_get_table, paging_map, paging_unmap, paging_translate, paging_alloc_table,
  cleared_table, map_in_new,
}
use neox.Paging.Map.{IsAlone, same_cases}
use neox.Paging.NewTable.{IsTaken, IsReached, IsOwned, Outcome, paging_map-Outcome}
use neox.Paging.Unmap.{Unmapped, paging_unmap-Unmapped}
use neox.Paging.UserRange.{paging_user_range_valid, IsReadable, paging_user_range_valid-IsReadable}
use neox.Paging.Virtual.{
  vmm_alloc_page, vmm_alloc_pages, vmm_map_pages, map_from, map_frame, any_mapped,
}
use neox.Paging.Directory.{paging_create_directory}
use neox.Paging.Created.{Created, paging_create_directory-Created}
use neox.Paging.Frames.{taken, PageOutcome, vmm_alloc_page-PageOutcome}

abbrev one_byte : Bytes
one_byte j = if j == 0 then 7 else 0

-- Four frames, of which the first three are taken.
abbrev four_frames : Pmm
four_frames = record {
  total_memory = 0x4000;
  usable_memory = 0x4000;
  highest_address = 0x4000;
  total_pages = 4;
  bitmap = one_byte;
  bitmap_address = 0x1000;
  bitmap_size = 1;
  bitmap_pages = 1;
  free_pages = 1;
  fail_allocations = 0;
  interrupts = true;
}

one_byte-AreBytes : AreBytes one_byte
one_byte-AreBytes j = ground arith

four_frames-IsValid : IsValid four_frames
unfolding clear_bits is_set masked_bit
four_frames-IsValid = record {
  bytes = one_byte-AreBytes;
  counted = refl;
  small = omega arith;
  page_zero = refl;
  sized = omega arith;
}

-- The directory is in the frame 1, and its one table, at the index 772, in the frame 2.
abbrev small : Paging
small = record {
  pmm = four_frames;
  entries = store (λ t i. 0) 0xC0001000 772 0x2003;
  kernel_directory = 0xC0001000;
  cr3 = 0x1000;
}

small_table : (i : ℕ) → paging_get_table small 0xC0001000 i ≡ (if i == 772 then 0xC0002000 else 0)
unfolding paging_get_table
small_table i = ground arith

small-IsTaken :
    (i : ℕ)
    → paging_get_table small 0xC0001000 i ≢ 0
    → IsTaken four_frames (paging_get_table small 0xC0001000 i)
unfolding is_set masked_bit
small-IsTaken i some = elim (same_cases i 772) [
  | inl same ↦ rw (small_table i, same) refl
  | inr other ↦ absurd (some (ground (arith, small_table i)))
]

small-IsReached :
    (i : ℕ)
    → paging_get_table small 0xC0001000 i ≢ 0
    → IsReached (paging_get_table small 0xC0001000 i)
small-IsReached i some = elim (same_cases i 772) [
  | inl same ↦ rw (small_table i, same) (omega arith)
  | inr other ↦ absurd (some (ground (arith, small_table i)))
]

small-IsOwned : IsOwned small 0xC0001000
unfolding is_set masked_bit
small-IsOwned = record {
  valid = four_frames-IsValid;
  reach = omega arith;
  reached = omega arith;
  tables_reached = small-IsReached;
  directory = refl;
  tables = small-IsTaken;
}

small-IsAlone : IsAlone small 0xC0001000 772
small-IsAlone = record {
  apart = ground (arith, small_table 772);
  unshared = λ j some same. ground (arith, small_table 772, small_table j);
}

paging_map-Outcome_example :
    Outcome small 0xC0001000 0xC1000000 0x5000 (paging_map small 0xC0001000 0xC1000000 0x5000 3)
paging_map-Outcome_example =
    paging_map-Outcome small 0xC0001000 0xC1000000 0x5000 3 small-IsOwned small-IsAlone refl
      (omega arith) (omega arith) refl

paging_unmap-Unmapped_example :
    (t : Paging) × (paging_unmap small 0xC0001000 0xC1000000 ≡ done t)
    × Unmapped small 0xC0001000 0xC1000000 t
paging_unmap-Unmapped_example =
    paging_unmap-Unmapped small 0xC0001000 0xC1000000 (ground arith) small-IsAlone

paging_user_range_valid-IsReadable_example :
    (paging_user_range_valid small 0xC0001000 0xC1000800 0x1000 ≡ true)
    ↔ IsReadable small 0xC0001000 0xC1000800 0x1000
paging_user_range_valid-IsReadable_example =
    paging_user_range_valid-IsReadable small 0xC0001000 0xC1000800 0x1000 (ground arith)
      (omega arith) (omega arith) (omega arith)

vmm_alloc_page-PageOutcome_example : PageOutcome small 0xC1000000 (vmm_alloc_page small 0xC1000000)
vmm_alloc_page-PageOutcome_example =
    vmm_alloc_page-PageOutcome small 0xC1000000 (omega arith) small-IsOwned small-IsAlone refl

paging_create_directory-Created_example : Created small (paging_create_directory small)
paging_create_directory-Created_example =
    paging_create_directory-Created small small-IsOwned (ground arith) refl

-- The next page has no table, and there is one frame: the page gets it, and the table none.
lost_frame : vmm_alloc_page small 0xC1400000 ≡ done (taken small 3, 0xC1400000)
unfolding vmm_alloc_page vmm_alloc_pages vmm_map_pages map_from map_frame any_mapped
    paging_translate paging_map paging_get_table paging_alloc_table cleared_table map_in_new
    pmm_alloc_page find_free take_page bitmap_test shifted_bit bitmap_set set_index or_bit
    neox.Base.Memory.store
lost_frame = refl
