-- ===== src/Pmm/Boot.antt =====
-- The state that `pmm_init` leaves.
use neox.Base.{
  ℕ, zero, suc, ◌+◌, ◌-◌, ◌*◌, ◌/◌, ◌^◌, ◌≤◌, ◌<◌, ◌≡◌, inl, inr, Bool, true, false, ◌||◌, some,
  ◌==◌, if◌then◌else◌, u32, u64, page_size, Bool-cases, arith,
}
use neox.Base.Memory.{Bytes, AreBytes, is_set, memset, memset-AreBytes, is_set-memset_full}
use neox.Pmm.{Pmm, bitmap_clear_range, clear_rounds}
use neox.Pmm.Bitmap.{clear_rounds-AreBytes, is_set-bitmap_clear}
use neox.Pmm.Inv.{IsValid, count_free-clear_bits}
use neox.Pmm.Init.{
  Entry, MemoryMap, Boot, available, kernel_load_address, phys_to_virt, virt_to_phys, entry_count,
  statistics, clear_available, reserve, reserved_end, bitmap_base, init_from, pmm_init,
}
use neox.Pmm.Reserve.{
  clear_range-AreBytes, overlaps, in_module, ModuleFits, reserve-AreBytes, reserve_keeps,
  reserve_low, reserve_kernel, reserve_module_pages, reserve_bitmap,
}

-- The memory that the bitmap is put into holds bytes, and no available memory lies beyond 4 GiB.
pub record Fits (b : Boot) (mm : MemoryMap) : Type 0 where
  pub mapped : b.mmap ≡ some mm
  pub memory : AreBytes (b.memory (phys_to_virt (bitmap_base b)))
  pub below_4_gib : (statistics mm (entry_count mm)).highest ≤ 2 ^ 32

clear_available-AreBytes :
    (mm : MemoryMap) (m : Bytes) (n : ℕ) → AreBytes m → AreBytes (clear_available mm m n)
unfolding clear_available
clear_available-AreBytes mm m zero v = v
clear_available-AreBytes mm m (suc n) v = elim (Bool-cases (available (mm.entries n))) [
  | inl yes_available ↦
      rw yes_available (clear_range-AreBytes _ _ _ (clear_available-AreBytes mm m n v))
  | inr not_available ↦ rw not_available (clear_available-AreBytes mm m n v)
]

-- What `pmm_init` has to keep: the first MiB, the kernel image, the module and the bitmap.
unfoldable pub is_reserved : Boot → ℕ → ℕ → Bool
is_reserved b bitmap_size q =
    overlaps 0 0x00100000 q
    || overlaps kernel_load_address b.kernel_end q
    || in_module b.boot_module q
    || overlaps (bitmap_base b) (bitmap_base b + bitmap_size) q

-- Page `q` is one of the `len / PAGE_SIZE` pages from that of `addr` on; page numbers are
-- `uint32_t`.
abbrev pub InEntry : Entry → ℕ → Type 0
InEntry e q = (k : ℕ) × (k < u32 (e.len / page_size)) × (q ≡ u32 (u32 (e.addr / page_size) + k))

-- A bit that the loop of `bitmap_clear_range` clears is one of its indices.
clear_rounds_within :
    (m : Bytes) (first n q : ℕ)
    → AreBytes m
    → is_set m q ≡ true
    → is_set (clear_rounds m first n) q ≡ false
    → (k : ℕ) × (k < n) × (q ≡ u32 (first + k))
unfolding clear_rounds
clear_rounds_within m first zero q v taken clear = cc
clear_rounds_within m first (suc n) q v taken clear = elim (Bool-cases (u32 (first + n) == q)) [
  | inl here ↦ (n, omega arith, ground arith)
  | inr elsewhere ↦
      let earlier = clear_rounds_within m first n q v taken (
        ground (
          arith,
          is_set-bitmap_clear (clear_rounds m first n) (u32 (first + n)) q
              (clear_rounds-AreBytes m first n v),
        )) in
      (earlier.0, omega (arith, earlier.1), earlier.2)
]

last_entry :
    (e : Entry) (m : Bytes) (q : ℕ)
    → AreBytes m
    → is_set m q ≡ true
    → is_set (if available e then bitmap_clear_range m e.addr e.len else m) q ≡ false
    → (available e ≡ true) × InEntry e q
unfolding bitmap_clear_range
last_entry e m q v taken clear = elim (Bool-cases (available e)) [
  | inl a ↦ (a, clear_rounds_within m _ _ q v taken (rw a at clear))
  | inr a ↦ cc (rw a at clear)
]

clear_available_within :
    (mm : MemoryMap) (m : Bytes) (q n : ℕ)
    → AreBytes m
    → is_set m q ≡ true
    → is_set (clear_available mm m n) q ≡ false
    → (i : ℕ) × (i < n) × (available (mm.entries i) ≡ true) × InEntry (mm.entries i) q
unfolding clear_available
clear_available_within mm m q zero v taken clear = cc
clear_available_within mm m q (suc n) v taken clear =
    elim (Bool-cases (is_set (clear_available mm m n) q)) [
      | inl still ↦
          let found =
            last_entry (mm.entries n) (clear_available mm m n) q (clear_available-AreBytes mm m n v)
              still clear in
          (n, omega arith, found.0, found.1)
      | inr earlier ↦
          let found = clear_available_within mm m q n v taken earlier in
          (found.0, omega (arith, found.1), found.2, found.3)
    ]

reserve-is_reserved :
    (b : Boot) (size bytes q : ℕ) (m : Bytes)
    → AreBytes m
    → kernel_load_address ≤ b.kernel_end
    → b.kernel_end < 2 ^ 32
    → ModuleFits b.boot_module
    → bitmap_base b + bytes < 2 ^ 32
    → size ≤ bytes
    → is_reserved b size q ≡ true
    → is_set (reserve b (bitmap_base b) bytes m) q ≡ true
unfolding is_reserved bitmap_base
reserve-is_reserved b size bytes q m v le lt fit room small h = ground (
  arith,
  reserve_low b (bitmap_base b) bytes m v q,
  reserve_kernel b (bitmap_base b) bytes m v q le lt,
  reserve_module_pages b (bitmap_base b) bytes m v q fit,
  reserve_bitmap b (bitmap_base b) bytes m v q,
)

-- The bitmap of the final state, filled, and after the second pass.
module _ (b : Boot) (mm : MemoryMap) (s : Pmm) (fits : Fits b mm) where
  pages : ℕ
  pages = u32 (u64 ((statistics mm (entry_count mm)).highest + page_size - 1) / page_size)

  size : ℕ
  size = u32 (pages + 7) / 8

  bytes : ℕ
  bytes = u32 (u32 (size + page_size - 1) / page_size * page_size)

  filled : Bytes
  filled = memset (b.memory (phys_to_virt (bitmap_base b))) 0xFF size

  cleared : Bytes
  cleared = clear_available mm filled (entry_count mm)

  pmm_init_eq : pmm_init b s ≡ init_from b mm s
  unfolding pmm_init
  pmm_init_eq = rw fits.mapped

  cleared-AreBytes : AreBytes cleared
  unfolding cleared filled
  cleared-AreBytes = clear_available-AreBytes mm filled _ (memset-AreBytes _ 0xFF _ fits.memory)

  -- With a memory map whose available memory ends at 4 GiB at most, pmm_init establishes the
  -- invariant: the counter is the number of clear bits, page 0 is marked, and the bitmap has a bit
  -- for each page.
  pub pmm_init-IsValid : IsValid (pmm_init b s)
  unfolding init_from pages size bytes filled cleared
  pmm_init-IsValid = rw pmm_init_eq (record {
    bytes = reserve-AreBytes b _ _ cleared cleared-AreBytes;
    counted =
        count_free-clear_bits _ _ (reserve-AreBytes b _ _ cleared cleared-AreBytes)
          (omega (arith, fits.below_4_gib));
    small = omega (arith, fits.below_4_gib);
    page_zero = reserve_low b _ _ cleared cleared-AreBytes 0 (omega arith);
    sized = omega (arith, fits.below_4_gib);
  })

  bytes_room : (size ≤ bytes) × (bytes ≤ 2 ^ 20)
  unfolding bytes size pages
  bytes_room = omega (arith, fits.below_4_gib)

  init_from_reserves :
      (q : ℕ)
      → kernel_load_address ≤ b.kernel_end
      → b.kernel_end < 2 ^ 32
      → ModuleFits b.boot_module
      → bitmap_base b + 2 ^ 20 < 2 ^ 32
      → is_reserved b (init_from b mm s).bitmap_size q ≡ true
      → is_set (init_from b mm s).bitmap q ≡ true
  unfolding init_from pages size bytes filled cleared
  init_from_reserves q le lt fit room =
      reserve-is_reserved b size bytes q cleared cleared-AreBytes le lt fit
        (omega (arith, bytes_room)) bytes_room.0

  -- With a memory map whose available memory ends at 4 GiB at most, after pmm_init no page is free
  -- that has a byte in the first MiB, the kernel image, the boot module or the bitmap, if the
  -- module starts on a page boundary and ends below 4 GiB, the kernel ends at its load address or
  -- above and below 4 GiB, and the bitmap lies below 4 GiB less 1 MiB.
  pub pmm_init_reserves :
      (q : ℕ)
      → kernel_load_address ≤ b.kernel_end
      → b.kernel_end < 2 ^ 32
      → ModuleFits b.boot_module
      → bitmap_base b + 2 ^ 20 < 2 ^ 32
      → is_reserved b (pmm_init b s).bitmap_size q ≡ true
      → is_set (pmm_init b s).bitmap q ≡ true
  pmm_init_reserves q le lt fit room = rw pmm_init_eq (init_from_reserves q le lt fit room)

  init_from_free :
      (q : ℕ)
      → q < (init_from b mm s).total_pages
      → is_set (init_from b mm s).bitmap q ≡ false
      → (i : ℕ) × (i < entry_count mm)
        × (available (mm.entries i) ≡ true)
        × InEntry (mm.entries i) q
  unfolding init_from pages size bytes filled cleared
  init_from_free q h clear =
      clear_available_within mm filled q (entry_count mm) (memset-AreBytes _ 0xFF _ fits.memory)
        (is_set-memset_full (b.memory (phys_to_virt (bitmap_base b))) size q
          (omega (arith, fits.below_4_gib)))
        (not_set clear)
    where
      not_set :
          is_set (reserve b (bitmap_base b) bytes cleared) q ≡ false → is_set cleared q ≡ false
      not_set c = ground (arith, reserve_keeps b (bitmap_base b) bytes cleared cleared-AreBytes q)

  -- Each tracked page that pmm_init leaves free is one of the whole pages counted from the first
  -- page of an available entry of the memory map.
  pub pmm_init_free :
      (q : ℕ)
      → q < (pmm_init b s).total_pages
      → is_set (pmm_init b s).bitmap q ≡ false
      → (i : ℕ) × (i < entry_count mm)
        × (available (mm.entries i) ≡ true)
        × InEntry (mm.entries i) q
  pmm_init_free q = rw pmm_init_eq (init_from_free q)

-- Where the boot module starts at the first page boundary behind the kernel and the boot
-- information ends below the kernel end, pmm_init puts the bitmap at the start of the module.
pub pmm_init_overwrites_module :
    (b : Boot) (mm : MemoryMap) (s : Pmm) (mod_start mod_end : ℕ)
    → Fits b mm
    → b.boot_module ≡ some (mod_start, mod_end)
    → virt_to_phys b.mb_info + b.mb_total_size ≤ b.kernel_end
    → b.kernel_end + page_size ≤ 2 ^ 32
    → mod_start ≡ (b.kernel_end + page_size - 1) / page_size * page_size
    → (pmm_init b s).bitmap_address ≡ mod_start
unfolding init_from bitmap_base reserved_end
pmm_init_overwrites_module b mm s mod_start mod_end fits has below room at =
    rw (pmm_init_eq b mm s fits) (ground arith)
