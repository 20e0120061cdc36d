-- ===== src/Vam/Ranges.antt =====
-- The bitmap helpers of kernel/mm/vam.c.
use neox.Base.{
  ℕ, zero, suc, ◌+◌, ◌*◌, ◌^◌, ◌≤◌, ◌<◌, ◌≡◌, inl, inr, refl, true, false, not, ◌&&◌, ◌||◌, u32,
  Bool-cases, arith, within,
}
use neox.Base.Memory.{
  Bytes, AreBytes, is_set, set_index-AreBytes, clear_index-AreBytes, is_set-set_index,
  is_set-clear_index, set_index_in_bounds,
}
use neox.Vam.{
  bitmap_test, bitmap_set, bitmap_clear, bitmap_range_set, bitmap_range_clear, range_free_from,
  bitmap_range_free, vam_addr_to_index, vam_index_to_addr,
}
use neox.Layout.{vam_total_pages}

pub bitmap_test-is_set : (m : Bytes) (i : ℕ) → bitmap_test m i ≡ is_set m i
unfolding bitmap_test is_set
bitmap_test-is_set m i = refl

pub bitmap_range_set-AreBytes :
    (m : Bytes) (start n : ℕ) → AreBytes m → AreBytes (bitmap_range_set m start n)
unfolding bitmap_range_set bitmap_set
bitmap_range_set-AreBytes m start zero v = v
bitmap_range_set-AreBytes m start (suc n) v =
    set_index-AreBytes _ (u32 (start + n)) (bitmap_range_set-AreBytes m start n v)

pub bitmap_range_clear-AreBytes :
    (m : Bytes) (start n : ℕ) → AreBytes m → AreBytes (bitmap_range_clear m start n)
unfolding bitmap_range_clear bitmap_clear
bitmap_range_clear-AreBytes m start zero v = v
bitmap_range_clear-AreBytes m start (suc n) v =
    clear_index-AreBytes _ (u32 (start + n)) (bitmap_range_clear-AreBytes m start n v)

-- `bitmap_range_set` sets the bits of its range and changes no other.
pub is_set-bitmap_range_set :
    (m : Bytes) (start n q : ℕ)
    → AreBytes m
    → start + n ≤ 2 ^ 32
    → is_set (bitmap_range_set m start n) q ≡ (within start n q || is_set m q)
unfolding bitmap_range_set bitmap_set
is_set-bitmap_range_set m start zero q v h = ground arith
is_set-bitmap_range_set m start (suc n) q v h = ground (
  arith,
  is_set-set_index (bitmap_range_set m start n) (u32 (start + n)) q
      (bitmap_range_set-AreBytes m start n v),
  is_set-bitmap_range_set m start n q v (omega arith),
)

-- `bitmap_range_clear` clears the bits of its range and changes no other.
pub is_set-bitmap_range_clear :
    (m : Bytes) (start n q : ℕ)
    → AreBytes m
    → start + n ≤ 2 ^ 32
    → is_set (bitmap_range_clear m start n) q ≡ (not (within start n q) && is_set m q)
unfolding bitmap_range_clear bitmap_clear
is_set-bitmap_range_clear m start zero q v h = ground arith
is_set-bitmap_range_clear m start (suc n) q v h = ground (
  arith,
  is_set-clear_index (bitmap_range_clear m start n) (u32 (start + n)) q
      (bitmap_range_clear-AreBytes m start n v),
  is_set-bitmap_range_clear m start n q v (omega arith),
)

range_free_from→clear :
    (m : Bytes) (start n i : ℕ)
    → start + i + n ≤ 2 ^ 32
    → range_free_from m start n i ≡ true
    → (q : ℕ) → within (start + i) n q ≡ true
    → is_set m q ≡ false
unfolding range_free_from
range_free_from→clear m start zero i h free q inside = ground arith
range_free_from→clear m start (suc n) i h free q inside = ground (
  arith,
  bitmap_test-is_set m (u32 (start + i)),
  range_free_from→clear m start n (i + 1) (omega arith),
  range_free_from→clear m start n (i + 1) (omega arith) (ground arith) q,
)

range_free_from→set :
    (m : Bytes) (start n i : ℕ)
    → start + i + n ≤ 2 ^ 32
    → range_free_from m start n i ≡ false
    → (q : ℕ) × (within (start + i) n q ≡ true) × (is_set m q ≡ true)
unfolding range_free_from
range_free_from→set m start zero i h taken = cc
range_free_from→set m start (suc n) i h taken =
    elim (Bool-cases (bitmap_test m (u32 (start + i)))) [
      | inl here ↦ (start + i, ground arith, ground (arith, bitmap_test-is_set m (u32 (start + i))))
      | inr clear ↦
          let later =
            range_free_from→set m start n (i + 1) (omega arith) (rw (← rest clear) taken) in
          (later.0, ground (arith, later.1), later.2)
    ]
  where
    rest :
        bitmap_test m (u32 (start + i)) ≡ false
        → range_free_from m start (suc n) i ≡ range_free_from m start n (i + 1)
    rest clear = rw clear

-- `bitmap_range_free` accepts a range exactly when each bit of it is clear; otherwise some bit of
-- it is set.
pub range_free→clear :
    (m : Bytes) (start count : ℕ)
    → start + count ≤ 2 ^ 32
    → bitmap_range_free m start count ≡ true
    → (q : ℕ) → within start count q ≡ true
    → is_set m q ≡ false
unfolding bitmap_range_free
range_free→clear m start count h free q inside =
    range_free_from→clear m start count 0 (omega arith) free q (ground arith)

pub range_taken→set :
    (m : Bytes) (start count : ℕ)
    → start + count ≤ 2 ^ 32
    → bitmap_range_free m start count ≡ false
    → (q : ℕ) × (within start count q ≡ true) × (is_set m q ≡ true)
unfolding bitmap_range_free
range_taken→set m start count h taken =
    let found = range_free_from→set m start count 0 (omega arith) taken in
    (found.0, ground (arith, found.1), found.2)

-- A write in the range leaves the bytes behind the array alone, if the range lies in the array.
pub range_set_in_bounds :
    (m : Bytes) (start n size j : ℕ)
    → start + n ≤ 8 * size
    → start + n ≤ 2 ^ 32
    → size ≤ j
    → bitmap_range_set m start n j ≡ m j
unfolding bitmap_range_set bitmap_set
range_set_in_bounds m start zero size j h w out = refl
range_set_in_bounds m start (suc n) size j h w out = ground (
  arith,
  set_index_in_bounds (bitmap_range_set m start n) (u32 (start + n)) size j,
  range_set_in_bounds m start n size j (omega arith) (omega arith) out,
)

-- The two conversions are inverse on the pages of the region.
pub addr_to_index-index_to_addr :
    (i : ℕ) → i < vam_total_pages → vam_addr_to_index (vam_index_to_addr i) ≡ i
unfolding vam_addr_to_index vam_index_to_addr
addr_to_index-index_to_addr i h = omega arith
