-- ===== src/Pmm/Reserve.antt =====
-- What `pmm_init` establishes, and what its range arithmetic leaves out.
use neox.Base.{
  ℕ, zero, suc, ◌+◌, ◌-◌, ◌*◌, ◌/◌, ◌%◌, ◌^◌, ◌≤◌, ◌<◌, ◌≡◌, Bool, true, false, ◌&&◌, ◌||◌, Option,
  none, some, ltb, u32, u64, page_size, arith, within,
}
use neox.Base.Memory.{Bytes, AreBytes, is_set}
use neox.Pmm.{bitmap_set_range, bitmap_clear_range, set_rounds}
use neox.Pmm.Bitmap.{
  set_rounds-AreBytes, clear_rounds-AreBytes, is_set-set_rounds, is_set-bitmap_set,
}
use neox.Pmm.Init.{Boot, kernel_load_address, virt_to_phys, reserve_module, reserve}

pub set_range-AreBytes :
    (m : Bytes) (addr len : ℕ) → AreBytes m → AreBytes (bitmap_set_range m addr len)
unfolding bitmap_set_range
set_range-AreBytes m addr len v = set_rounds-AreBytes m _ _ v

pub clear_range-AreBytes :
    (m : Bytes) (addr len : ℕ) → AreBytes m → AreBytes (bitmap_clear_range m addr len)
unfolding bitmap_clear_range
clear_range-AreBytes m addr len v = clear_rounds-AreBytes m _ _ v

-- `bitmap_set_range` sets the pages from that of `addr` on, as many as `len` bytes fill when
-- rounded up, and changes no other bit.
pub is_set-bitmap_set_range :
    (m : Bytes) (addr len q : ℕ)
    → AreBytes m
    → addr < 2 ^ 32
    → len < 2 ^ 32
    → is_set (bitmap_set_range m addr len) q
      ≡ (within (addr / page_size) ((len + page_size - 1) / page_size) q || is_set m q)
unfolding bitmap_set_range
is_set-bitmap_set_range m addr len q v ha hl = ground (
  arith,
  is_set-set_rounds m (u32 (addr / page_size)) (u32 (u64 (len + page_size - 1) / page_size)) q v,
)

-- Where a region starts inside a page and its last byte falls beyond the rounded length,
-- bitmap_set_range leaves the bit of the page of that byte as it was.
pub bitmap_set_range_short :
    (m : Bytes) (addr len : ℕ)
    → AreBytes m
    → addr < 2 ^ 32
    → len < 2 ^ 32
    → 0 < len
    → page_size ≤ addr % page_size + (len - 1) % page_size
    → is_set (bitmap_set_range m addr len) ((addr + len - 1) / page_size)
      ≡ is_set m ((addr + len - 1) / page_size)
bitmap_set_range_short m addr len v ha hl pos spill =
    ground (arith, is_set-bitmap_set_range m addr len ((addr + len - 1) / page_size) v)

set_rounds_keeps :
    (m : Bytes) (first n q : ℕ)
    → AreBytes m
    → is_set m q ≡ true
    → is_set (set_rounds m first n) q ≡ true
unfolding set_rounds
set_rounds_keeps m first zero q v h = h
set_rounds_keeps m first (suc n) q v h = ground (
  arith,
  set_rounds_keeps m first n q v h,
  is_set-bitmap_set (set_rounds m first n) (u32 (first + n)) q (set_rounds-AreBytes m first n v),
)

-- A reservation takes no other reservation back.
pub set_range_keeps :
    (m : Bytes) (addr len q : ℕ)
    → AreBytes m
    → is_set m q ≡ true
    → is_set (bitmap_set_range m addr len) q ≡ true
unfolding bitmap_set_range
set_range_keeps m addr len q v h = set_rounds_keeps m _ _ q v h

reserve_module-AreBytes :
    (o : Option (ℕ × ℕ)) (m : Bytes) → AreBytes m → AreBytes (reserve_module o m)
unfolding reserve_module
reserve_module-AreBytes none m v = v
reserve_module-AreBytes (some (a, e)) m v = set_range-AreBytes m a _ v

reserve_module_keeps :
    (o : Option (ℕ × ℕ)) (m : Bytes) (q : ℕ)
    → AreBytes m
    → is_set m q ≡ true
    → is_set (reserve_module o m) q ≡ true
unfolding reserve_module
reserve_module_keeps none m q v h = h
reserve_module_keeps (some (a, e)) m q v h = set_range_keeps m a _ q v h

-- Page `q` has a byte in `[start, end)`.
abbrev pub overlaps : ℕ → ℕ → ℕ → Bool
overlaps start end q = ltb start (q * page_size + page_size) && ltb (q * page_size) end

-- A reservation of `[start, end)` from a page boundary covers each page that has a byte in it.
set_range_covers :
    (m : Bytes) (start end q : ℕ)
    → AreBytes m
    → start % page_size ≡ 0
    → start ≤ end
    → end < 2 ^ 32
    → overlaps start end q ≡ true
    → is_set (bitmap_set_range m start (end - start)) q ≡ true
set_range_covers m start end q v aligned le lt h =
    ground (arith, is_set-bitmap_set_range m start (end - start) q v)

-- `[mod_start, mod_end)`, if there is a module.
abbrev pub in_module : Option (ℕ × ℕ) → ℕ → Bool
in_module none q = false
in_module (some (mod_start, mod_end)) q = overlaps mod_start mod_end q

abbrev pub ModuleFits : Option (ℕ × ℕ) → Type 0
ModuleFits none = Unit {0}
ModuleFits (some (mod_start, mod_end)) =
    (mod_start % page_size ≡ 0) × (mod_start ≤ mod_end) × (mod_end < 2 ^ 32)

reserve_module_covers :
    (o : Option (ℕ × ℕ)) (m : Bytes) (q : ℕ)
    → AreBytes m
    → ModuleFits o
    → in_module o q ≡ true
    → is_set (reserve_module o m) q ≡ true
unfolding reserve_module
reserve_module_covers none m q v fits h = cc
reserve_module_covers (some (a, e)) m q v fits h =
    let size : u32 (e + 2 ^ 32 - a) ≡ e - a = omega arith in
    rw size (set_range_covers m a e q v fits.0 fits.1 fits.2 h)

module _ (b : Boot) (address bytes : ℕ) (m : Bytes) (v : AreBytes m) where
  -- The bitmap after the first reservation, after the second, and so on.
  low : Bytes
  low = bitmap_set_range m 0 0x00100000

  kernel : Bytes
  kernel =
      bitmap_set_range low kernel_load_address (u32 (b.kernel_end + 2 ^ 32 - kernel_load_address))

  info : Bytes
  info = bitmap_set_range kernel (virt_to_phys b.mb_info) b.mb_total_size

  low-AreBytes : AreBytes low
  unfolding low
  low-AreBytes = set_range-AreBytes m 0 _ v

  kernel-AreBytes : AreBytes kernel
  unfolding kernel
  kernel-AreBytes = set_range-AreBytes low _ _ low-AreBytes

  info-AreBytes : AreBytes info
  unfolding info
  info-AreBytes = set_range-AreBytes kernel _ _ kernel-AreBytes

  pub reserve-AreBytes : AreBytes (reserve b address bytes m)
  unfolding reserve low kernel info
  reserve-AreBytes =
      set_range-AreBytes _ address bytes (reserve_module-AreBytes b.boot_module info info-AreBytes)

  -- What the third reservation has set stays set.
  after_info : (q : ℕ) → is_set info q ≡ true → is_set (reserve b address bytes m) q ≡ true
  unfolding reserve low kernel info
  after_info q h =
      set_range_keeps _ address bytes q (reserve_module-AreBytes b.boot_module info info-AreBytes)
        (reserve_module_keeps b.boot_module info q info-AreBytes h)

  after_kernel : (q : ℕ) → is_set kernel q ≡ true → is_set info q ≡ true
  unfolding info
  after_kernel q h = set_range_keeps kernel _ _ q kernel-AreBytes h

  pub reserve_keeps : (q : ℕ) → is_set m q ≡ true → is_set (reserve b address bytes m) q ≡ true
  unfolding low kernel
  reserve_keeps q h =
      after_info q
        (after_kernel q (set_range_keeps low _ _ q low-AreBytes (set_range_keeps m 0 _ q v h)))

  pub reserve_low : (q : ℕ) → q < 256 → is_set (reserve b address bytes m) q ≡ true
  unfolding low kernel
  reserve_low q h = after_info q (
      after_kernel q (
        set_range_keeps low _ _ q low-AreBytes
          (ground (arith, is_set-bitmap_set_range m 0 0x00100000 q v))))

  pub reserve_kernel :
      (q : ℕ)
      → kernel_load_address ≤ b.kernel_end
      → b.kernel_end < 2 ^ 32
      → overlaps kernel_load_address b.kernel_end q ≡ true
      → is_set (reserve b address bytes m) q ≡ true
  unfolding kernel
  reserve_kernel q le lt h =
      let size : u32 (b.kernel_end + 2 ^ 32 - kernel_load_address)
          ≡ b.kernel_end - kernel_load_address =
        omega arith in
      after_info q (
        after_kernel q (
          rw size (
            set_range_covers low kernel_load_address b.kernel_end q low-AreBytes (omega arith) le lt
              h)))

  pub reserve_module_pages :
      (q : ℕ)
      → ModuleFits b.boot_module
      → in_module b.boot_module q ≡ true
      → is_set (reserve b address bytes m) q ≡ true
  unfolding reserve low kernel info
  reserve_module_pages q fits h =
      set_range_keeps _ address bytes q (reserve_module-AreBytes b.boot_module info info-AreBytes)
        (reserve_module_covers b.boot_module info q info-AreBytes fits h)

  pub reserve_bitmap :
      (q : ℕ)
      → address % page_size ≡ 0
      → address + bytes < 2 ^ 32
      → overlaps address (address + bytes) q ≡ true
      → is_set (reserve b address bytes m) q ≡ true
  unfolding reserve low kernel info
  reserve_bitmap q aligned fits h = ground (
    arith,
    is_set-bitmap_set_range (reserve_module b.boot_module info) address bytes q
        (reserve_module-AreBytes b.boot_module info info-AreBytes),
  )
