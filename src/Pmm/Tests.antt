-- ===== src/Pmm/Tests.antt =====
-- The theorems on the physical memory manager at small states.
use neox.Base.{
  ℕ, ◌+◌, ◌*◌, ◌%◌, ◌^◌, ◌<◌, ◌≡◌, ◌≢◌, refl, true, false, some, [], ◌∷◌, ◌==◌, if◌then◌else◌,
  page_size, arith,
}
use neox.Base.Bits.{masked_bit, masked_bit-full, shifted_bit, or_bit, clear_bit}
use neox.Base.Memory.{Bytes, AreBytes, is_set, store, set_index, clear_index, memset}
use neox.Pmm.{
  Pmm, bitmap_set, bitmap_clear, bitmap_test, bitmap_set_range, find_free, take_page,
  pmm_alloc_page, pmm_free_page, count_free, set_rounds, clear_rounds, bitmap_clear_range,
}
use neox.Pmm.Inv.{IsValid, clear_bits}
use neox.Pmm.Alloc.{Allocated, pmm_alloc_page-Allocated}
use neox.Pmm.Free.{free-alloc}
use neox.Pmm.Trace.{alloc, free, fail, Held-NeverReturns, NeverReturns, alloc_times}
use neox.Pmm.Init.{
  MemoryMap, clear_available, reserve, reserve_module, Boot, statistics, entry_count, bitmap_base,
  reserved_end, pmm_init,
}
use neox.Pmm.Boot.{Fits, pmm_init-IsValid, pmm_init_reserves, is_reserved}

-- One byte, and zeros behind it.
abbrev one_byte : ℕ → Bytes
one_byte b j = if j == 0 then b else 0

one_byte-AreBytes : (b : ℕ) → b < 256 → AreBytes (one_byte b)
one_byte-AreBytes b h j = ground arith

-- Four pages, of which the first two are taken.
abbrev four_pages : Pmm
four_pages = record {
  total_memory = 0x4000;
  usable_memory = 0x4000;
  highest_address = 0x4000;
  total_pages = 4;
  bitmap = one_byte 3;
  bitmap_address = 0x1000;
  bitmap_size = 1;
  bitmap_pages = 1;
  free_pages = 2;
  fail_allocations = 0;
  interrupts = true;
}

four_pages-IsValid : IsValid four_pages
unfolding clear_bits is_set masked_bit
four_pages-IsValid = record {
  bytes = one_byte-AreBytes 3 (omega arith);
  counted = refl;
  small = omega arith;
  page_zero = refl;
  sized = omega arith;
}

alloc_address : (pmm_alloc_page four_pages).1 ≡ 0x2000
unfolding pmm_alloc_page find_free take_page bitmap_test shifted_bit
alloc_address = refl

alloc_twice : (alloc_times 3 four_pages).1 ≡ 0x2000 ∷ 0x3000 ∷ 0 ∷ []
unfolding alloc_times pmm_alloc_page find_free take_page bitmap_test shifted_bit bitmap_set
    set_index store or_bit
alloc_twice = refl

pmm_alloc_page-Allocated_example : Allocated four_pages (pmm_alloc_page four_pages)
pmm_alloc_page-Allocated_example = pmm_alloc_page-Allocated four_pages four_pages-IsValid refl

free-alloc_example :
    let (t, addr) = pmm_alloc_page four_pages in
    (addr ≢ 0)
    × ((pmm_free_page t addr).free_pages ≡ 2)
    × ((q : ℕ) → is_set (pmm_free_page t addr).bitmap q ≡ is_set four_pages.bitmap q)
free-alloc_example = free-alloc four_pages four_pages-IsValid refl (omega arith)

Held-NeverReturns_example :
    NeverReturns (1 * page_size) four_pages (alloc ∷ free 0x2000 ∷ fail 1 ∷ alloc ∷ alloc ∷ [])
unfolding is_set masked_bit
Held-NeverReturns_example =
    Held-NeverReturns 1 four_pages (alloc ∷ free 0x2000 ∷ fail 1 ∷ alloc ∷ alloc ∷ [])
      four_pages-IsValid (omega arith, omega arith, refl) (omega arith)

-- A machine with one page more than 4 GiB, on which only that page is free.
abbrev last_free : Bytes
last_free j = if j == 131072 then 0xFE else 0xFF

abbrev beyond : Pmm
beyond = record four_pages { total_pages = 2 ^ 20 + 1; bitmap = last_free; bitmap_size = 131073 }

last_free-AreBytes : AreBytes last_free
last_free-AreBytes j = ground arith

below_taken : (q : ℕ) → q < 2 ^ 20 → is_set last_free q ≡ true
unfolding is_set
below_taken q h = ground (arith, masked_bit-full (q % 8) (omega arith))

-- Four available pages at 1 MiB, of which the kernel takes the first.
abbrev small_map : MemoryMap
small_map = record {
  size = 40;
  entry_size = 24;
  entries = λ _. record { addr = 0x100000; len = 0x4000; kind = 1 };
}

abbrev small_boot : Boot
small_boot = record {
  mmap = some small_map;
  mb_info = 0xC0001000;
  mb_total_size = 0x800;
  boot_module = some (0x101000, 0x101800);
  kernel_end = 0x100800;
  memory = λ _ _. 0;
}

small_boot-Fits : Fits small_boot small_map
unfolding statistics entry_count
small_boot-Fits = record { mapped = refl; memory = λ j. omega arith; below_4_gib = omega arith }

abbrev booted : Pmm
booted = pmm_init small_boot four_pages

pmm_init-IsValid_example : IsValid booted
pmm_init-IsValid_example = pmm_init-IsValid small_boot small_map four_pages small_boot-Fits

pmm_init_reserves_example : is_set booted.bitmap 256 ≡ true
unfolding is_reserved bitmap_base reserved_end
pmm_init_reserves_example =
    pmm_init_reserves small_boot small_map four_pages small_boot-Fits 256 (omega arith)
      (omega arith) (omega arith) (omega arith) refl

booted_free : is_set booted.bitmap 258 ≡ false
unfolding pmm_init statistics entry_count bitmap_base reserved_end clear_available reserve
    reserve_module bitmap_set_range bitmap_clear_range set_rounds clear_rounds bitmap_set
    bitmap_clear set_index clear_index store memset is_set masked_bit or_bit clear_bit count_free
    bitmap_test shifted_bit
booted_free = refl

booted_pages : booted.total_pages ≡ 260
unfolding pmm_init statistics entry_count
booted_pages = refl
