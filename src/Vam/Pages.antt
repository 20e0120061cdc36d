-- ===== src/Vam/Pages.antt =====
-- `vam_alloc_pages` and `vam_free_pages`.
use neox.Base.{
  ℕ, zero, suc, ◌+◌, ◌-◌, ◌*◌, ◌^◌, ◌≤◌, ◌<◌, ◌≡◌, ◌≢◌, inl, inr, refl, subst, true, false, Option,
  none, some, ◌==◌, u32, page_size, Bool-cases, arith, within,
}
use neox.Base.Memory.{Bytes, AreBytes, is_set}
use neox.Vam.{
  Vam, bitmap_range_set, bitmap_range_free, vam_addr_to_index, vam_index_to_addr, find_run,
  take_run, vam_alloc_pages, vam_free_pages,
}
use neox.Vam.Ranges.{
  bitmap_range_set-AreBytes, is_set-bitmap_range_set, is_set-bitmap_range_clear, range_free→clear,
  range_taken→set, range_set_in_bounds,
}
use neox.Layout.{kernel_virt_base, vam_total_pages, vam_bitmap_bytes}

-- Some page among the `count` from `j` on is occupied.
abbrev pub Blocked : Bytes → ℕ → ℕ → Type 0
Blocked m count j = (q : ℕ) × (within j count q ≡ true) × (is_set m q ≡ true)

-- What the scan finds among the `n` starts from `index` on: the first free run, or none.
pub data Run (m : Bytes) (count index n : ℕ) : Option ℕ → Type 0 where
  first :
      {i : ℕ}
      → index ≤ i
      → i < index + n
      → ((q : ℕ) → within i count q ≡ true → is_set m q ≡ false)
      → ((j : ℕ) → index ≤ j → j < i → Blocked m count j)
      → Run m count index n (some i)
  full : ((j : ℕ) → index ≤ j → j < index + n → Blocked m count j) → Run m count index n none

from_here : (P : ℕ → Type 0) (index j : ℕ) → index ≤ j → P index → (index + 1 ≤ j → P j) → P j
from_here P index j lo here next = elim (Bool-cases (index == j)) [
  | inl e ↦ subst P (ground arith) here
  | inr ne ↦ next (ground arith)
]

find_run-Run :
    (m : Bytes) (count n index : ℕ)
    → index + n + count ≤ 2 ^ 32
    → Run m count index n (find_run m count n index)
unfolding find_run
find_run-Run m count zero index h = full (λ j lo hi. absurd (omega arith))
find_run-Run m count (suc n) index h = elim (Bool-cases (bitmap_range_free m index count)) [
  | inl free ↦ rw free (
      first (omega arith) (omega arith) (range_free→clear m index count (omega arith) free)
        (λ j lo hi. absurd (omega arith)))
  | inr taken ↦ rw taken (
      later (find_run-Run m count n (index + 1) (omega arith))
        (range_taken→set m index count (omega arith) taken))
]
  where
    later :
        {o : Option ℕ}
        → Run m count (index + 1) n o
        → Blocked m count index
        → Run m count index (suc n) o
    later (first lo hi free before) taken =
        first (omega arith) (omega arith) free
          (λ j l k. from_here (Blocked m count) index j l taken (λ l'. before j l' k))
    later (full all) taken =
        full (λ j l k. from_here (Blocked m count) index j l taken (λ l'. all j l' (omega arith)))

-- The outcomes of an allocation.
pub data Allocated (s : Vam) (count : ℕ) : Vam × ℕ → Type 0 where
  run :
      (i : ℕ)
      → i + count ≤ vam_total_pages
      → ((q : ℕ) → within i count q ≡ true → is_set s.bitmap q ≡ false)
      → ((j : ℕ) → j < i → Blocked s.bitmap count j)
      → {t : Vam} {addr : ℕ} → t ≡ record s { bitmap = bitmap_range_set s.bitmap i count }
      → addr ≡ kernel_virt_base + i * page_size
      → Allocated s count (t, addr)
  none_left :
      ((j : ℕ) → j + count ≤ vam_total_pages → Blocked s.bitmap count j)
      → {t : Vam} {addr : ℕ} → t ≡ s
      → addr ≡ 0
      → Allocated s count (t, addr)

module _ (s : Vam) (count : ℕ) (pos : 0 < count) (le : count ≤ vam_total_pages) where
  scan_eq :
      vam_alloc_pages s count
      ≡ take_run s count (find_run s.bitmap count (vam_total_pages - count + 1) 0)
  unfolding vam_alloc_pages
  scan_eq =
      let rounds : u32 (vam_total_pages + 2 ^ 32 - count) ≡ vam_total_pages - count = omega arith in
      let nonzero : (count == 0) ≡ false = ground arith in rw (rounds, nonzero)

  take_run-Allocated :
      {o : Option ℕ}
      → Run s.bitmap count 0 (vam_total_pages - count + 1) o
      → Allocated s count (take_run s count o)
  unfolding take_run vam_index_to_addr
  take_run-Allocated (first {i} lo hi free before) =
      run i (omega arith) free (λ j k. before j (omega arith) k) refl (omega arith)
  take_run-Allocated (full all) = none_left (λ j k. all j (omega arith) (omega arith)) refl refl

  -- A request for at least one and at most as many pages as the region has gets the lowest run of
  -- free pages, which is marked and whose address is returned; if there is no such run, the result
  -- is NULL and nothing changes.
  pub vam_alloc_pages-Allocated : Allocated s count (vam_alloc_pages s count)
  vam_alloc_pages-Allocated = rw scan_eq (
      take_run-Allocated
        (find_run-Run s.bitmap count (vam_total_pages - count + 1) 0 (omega arith)))

index_of_run :
    (i : ℕ) → i < vam_total_pages → vam_addr_to_index (kernel_virt_base + i * page_size) ≡ i
unfolding vam_addr_to_index
index_of_run i h = omega arith

-- The state after an allocation, freed again, has each bit as it was.
Restored : Vam → ℕ → Vam × ℕ → Type 0
Restored s count (t, addr) =
    (q : ℕ) → is_set (vam_free_pages t addr count).bitmap q ≡ is_set s.bitmap q

restored_run :
    (s : Vam) (count i q : ℕ)
    → AreBytes s.bitmap
    → 0 < count
    → i + count ≤ vam_total_pages
    → ((q' : ℕ) → within i count q' ≡ true → is_set s.bitmap q' ≡ false)
    → is_set
        (vam_free_pages
          (record s { bitmap = bitmap_range_set s.bitmap i count })
          (kernel_virt_base + i * page_size)
          count).bitmap
        q
      ≡ is_set s.bitmap q
unfolding vam_free_pages
restored_run s count i q v pos le free =
    let nonzero : (count == 0) ≡ false = ground arith in
    let at_run : vam_addr_to_index (kernel_virt_base + i * page_size) ≡ i =
      index_of_run i (omega arith) in
    rw (nonzero, at_run)
      (ground (
        arith,
        free q,
        is_set-bitmap_range_clear (bitmap_range_set s.bitmap i count) i count q
            (bitmap_range_set-AreBytes s.bitmap i count v),
        is_set-bitmap_range_set s.bitmap i count q v,
      ))

-- Where vam_alloc_pages of at least one and at most as many pages as the region has does not return
-- NULL, vam_free_pages of the result leaves each bit as it was before.
pub free_pages-alloc_pages :
    (s : Vam) (count : ℕ)
    → AreBytes s.bitmap
    → 0 < count
    → count ≤ vam_total_pages
    → (vam_alloc_pages s count).1 ≢ 0
    → let (t, addr) = vam_alloc_pages s count in
      (q : ℕ) → is_set (vam_free_pages t addr count).bitmap q ≡ is_set s.bitmap q
unfolding Restored
free_pages-alloc_pages s count v pos le got =
    of_outcome (vam_alloc_pages-Allocated s count pos le) got
  where
    of_outcome :
        {t : Vam} {addr : ℕ} → Allocated s count (t, addr) → addr ≢ 0 → Restored s count (t, addr)
    of_outcome (run i le' free before e ea) got q =
        rw (e, ea) (restored_run s count i q v pos le' free)
    of_outcome (none_left all e ea) got q = absurd (got ea)

clear→range_free :
    (m : Bytes) (count : ℕ)
    → count < 2 ^ 32
    → ((q : ℕ) → within 0 count q ≡ true → is_set m q ≡ false)
    → bitmap_range_free m 0 count ≡ true
clear→range_free m count small free = elim (Bool-cases (bitmap_range_free m 0 count)) [
  | inl yes_free ↦ yes_free
  | inr taken ↦
      let found = range_taken→set m 0 count (omega arith) taken in
      cc (free found.0 found.1, found.2)
]

find_run_here :
    (m : Bytes) (count index n : ℕ)
    → 0 < n
    → bitmap_range_free m index count ≡ true
    → find_run m count n index ≡ some index
unfolding find_run
find_run_here m count index zero pos free = absurd (omega arith)
find_run_here m count index (suc n) pos free = rw free

-- A request for more pages than the region has, over memory whose bits all read as free, is granted
-- at the first page and marks a bit behind the end of the bitmap.
pub vam_alloc_pages_oversize :
    (s : Vam) (count : ℕ)
    → AreBytes s.bitmap
    → vam_total_pages < count
    → count < 2 ^ 32
    → ((q : ℕ) → within 0 count q ≡ true → is_set s.bitmap q ≡ false)
    → ((vam_alloc_pages s count).1 ≡ kernel_virt_base)
      × (is_set (vam_alloc_pages s count).0.bitmap vam_total_pages ≡ true)
unfolding vam_alloc_pages take_run vam_index_to_addr
vam_alloc_pages_oversize s count v big small free =
    let n : ℕ = u32 (vam_total_pages + 2 ^ 32 - count) + 1 in
    let found : find_run s.bitmap count n 0 ≡ some 0 =
      find_run_here s.bitmap count 0 n (omega arith) (clear→range_free s.bitmap count small free) in
    let nonzero : (count == 0) ≡ false = ground arith in
    rw (nonzero, found)
      (refl, ground (arith, is_set-bitmap_range_set s.bitmap 0 count vam_total_pages v))

Allocated-in_bounds :
    (s t : Vam) (count addr j : ℕ)
    → Allocated s count (t, addr)
    → vam_bitmap_bytes ≤ j
    → t.bitmap j ≡ s.bitmap j
Allocated-in_bounds s t count addr j (run i le free before e ea) out =
    rw e (range_set_in_bounds s.bitmap i count vam_bitmap_bytes j (omega arith) (omega arith) out)
Allocated-in_bounds s t count addr j (none_left all e ea) out = rw e

-- A request for at least one and at most as many pages as the region has writes no byte behind the
-- bitmap.
pub vam_alloc_pages_in_bounds :
    (s : Vam) (count j : ℕ)
    → 0 < count
    → count ≤ vam_total_pages
    → vam_bitmap_bytes ≤ j
    → (vam_alloc_pages s count).0.bitmap j ≡ s.bitmap j
vam_alloc_pages_in_bounds s count j pos le =
    Allocated-in_bounds s (vam_alloc_pages s count).0 count (vam_alloc_pages s count).1 j
      (vam_alloc_pages-Allocated s count pos le)
