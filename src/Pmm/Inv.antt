-- ===== src/Pmm/Inv.antt =====
-- Counting clear bits, and the invariant of the physical memory manager.
use neox.Base.{
  ℕ, zero, suc, ◌+◌, ◌*◌, ◌^◌, ◌≤◌, ◌<◌, ◌≡◌, refl, true, false, ltb, if◌then◌else◌, arith,
}
use neox.Base.Memory.{Bytes, AreBytes, is_set}
use neox.Pmm.{Pmm, bitmap_set, bitmap_clear, count_free}
use neox.Pmm.Bitmap.{bitmap_test_lem, is_set-bitmap_set, is_set-bitmap_clear}

-- How many of the first `n` bits of a bitmap are clear, as a number of any size.
unfoldable pub clear_bits : Bytes → ℕ → ℕ
clear_bits m zero = 0
clear_bits m (suc n) = clear_bits m n + (if is_set m n then 0 else 1)

pub clear_bits-le : (m : Bytes) (n : ℕ) → clear_bits m n ≤ n
unfolding clear_bits
clear_bits-le m zero = omega arith
clear_bits-le m (suc n) = ground (arith, clear_bits-le m n)

-- The counter of `pmm_init` does not wrap.
pub count_free-clear_bits :
    (m : Bytes) (n : ℕ) → AreBytes m → n < 2 ^ 32 → count_free m n ≡ clear_bits m n
unfolding count_free clear_bits
count_free-clear_bits m zero v h = refl
count_free-clear_bits m (suc n) v h =
    ground (arith, count_free-clear_bits m n v, bitmap_test_lem m n v, clear_bits-le m n)

-- Setting a clear bit below `n` takes one from the count, clearing a set bit adds one.
pub clear_bits-bitmap_set :
    (m : Bytes) (p n : ℕ)
    → AreBytes m
    → is_set m p ≡ false
    → clear_bits (bitmap_set m p) n + (if ltb p n then 1 else 0) ≡ clear_bits m n
unfolding clear_bits
clear_bits-bitmap_set m p zero v clear = ground arith
clear_bits-bitmap_set m p (suc n) v clear =
    ground (arith, clear_bits-bitmap_set m p n v clear, is_set-bitmap_set m p n v)

pub clear_bits-bitmap_clear :
    (m : Bytes) (p n : ℕ)
    → AreBytes m
    → is_set m p ≡ true
    → clear_bits (bitmap_clear m p) n ≡ clear_bits m n + (if ltb p n then 1 else 0)
unfolding clear_bits
clear_bits-bitmap_clear m p zero v taken = ground arith
clear_bits-bitmap_clear m p (suc n) v taken =
    ground (arith, clear_bits-bitmap_clear m p n v taken, is_set-bitmap_clear m p n v)

pub clear_bits_pos : (m : Bytes) (p n : ℕ) → is_set m p ≡ false → p < n → 0 < clear_bits m n
unfolding clear_bits
clear_bits_pos m p zero clear h = absurd (omega arith)
clear_bits_pos m p (suc n) clear h = ground (arith, clear_bits_pos m p n clear)

pub clear_bits_zero :
    (m : Bytes) (n : ℕ) → ((q : ℕ) → q < n → is_set m q ≡ true) → clear_bits m n ≡ 0
unfolding clear_bits
clear_bits_zero m zero full = refl
clear_bits_zero m (suc n) full =
    ground (arith, clear_bits_zero m n (λ q h. full q (omega arith)), full n)

-- The state that `pmm_init` leaves on a machine with at most 4 GiB of memory, and that the
-- operations keep: `free_pages` counts the clear bits, page 0 is never handed out, and the bitmap
-- has a bit for each page.
pub record IsValid (s : Pmm) : Type 0 where
  pub bytes : AreBytes s.bitmap
  pub counted : s.free_pages ≡ clear_bits s.bitmap s.total_pages
  pub small : s.total_pages ≤ 2 ^ 20
  pub page_zero : is_set s.bitmap 0 ≡ true
  pub sized : s.total_pages ≤ 8 * s.bitmap_size
