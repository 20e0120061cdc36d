-- ===== src/Pmm/Bitmap.antt =====
-- The bitmap helpers of kernel/mm/pmm.c: what each range operation does to every bit.
use neox.Base.{
  ℕ, zero, suc, ◌+◌, ◌/◌, ◌%◌, ◌^◌, ◌≤◌, ◌≡◌, not, ◌&&◌, ◌||◌, ◌==◌, u32, arith, within,
}
use neox.Base.Bits.{shifted_bit_test}
use neox.Base.Memory.{
  Bytes, AreBytes, is_set, set_index-AreBytes, clear_index-AreBytes, is_set-set_index,
  is_set-clear_index,
}
use neox.Pmm.{bitmap_set, bitmap_clear, bitmap_test, clear_rounds, set_rounds}

-- `bitmap_test` tells whether the bit is set.
pub bitmap_test_lem : (m : Bytes) (p : ℕ) → AreBytes m → (bitmap_test m p == 0) ≡ not (is_set m p)
unfolding bitmap_test is_set
bitmap_test_lem m p v = shifted_bit_test (m (p / 8)) (p % 8) (v (p / 8)) (omega arith)

pub bitmap_set-AreBytes : (m : Bytes) (p : ℕ) → AreBytes m → AreBytes (bitmap_set m p)
unfolding bitmap_set
bitmap_set-AreBytes m p v = set_index-AreBytes m p v

pub bitmap_clear-AreBytes : (m : Bytes) (p : ℕ) → AreBytes m → AreBytes (bitmap_clear m p)
unfolding bitmap_clear
bitmap_clear-AreBytes m p v = clear_index-AreBytes m p v

module _ (m : Bytes) (p q : ℕ) (v : AreBytes m) where
  pub is_set-bitmap_set : is_set (bitmap_set m p) q ≡ ((p == q) || is_set m q)
  unfolding bitmap_set
  is_set-bitmap_set = is_set-set_index m p q v

  pub is_set-bitmap_clear : is_set (bitmap_clear m p) q ≡ (not (p == q) && is_set m q)
  unfolding bitmap_clear
  is_set-bitmap_clear = is_set-clear_index m p q v

pub set_rounds-AreBytes : (m : Bytes) (first n : ℕ) → AreBytes m → AreBytes (set_rounds m first n)
unfolding set_rounds
set_rounds-AreBytes m first zero v = v
set_rounds-AreBytes m first (suc n) v =
    bitmap_set-AreBytes _ (u32 (first + n)) (set_rounds-AreBytes m first n v)

pub clear_rounds-AreBytes :
    (m : Bytes) (first n : ℕ) → AreBytes m → AreBytes (clear_rounds m first n)
unfolding clear_rounds
clear_rounds-AreBytes m first zero v = v
clear_rounds-AreBytes m first (suc n) v =
    bitmap_clear-AreBytes _ (u32 (first + n)) (clear_rounds-AreBytes m first n v)

pub is_set-set_rounds :
    (m : Bytes) (first n q : ℕ)
    → AreBytes m
    → first + n ≤ 2 ^ 32
    → is_set (set_rounds m first n) q ≡ (within first n q || is_set m q)
unfolding set_rounds
is_set-set_rounds m first zero q v h = ground arith
is_set-set_rounds m first (suc n) q v h = ground (
  arith,
  is_set-bitmap_set (set_rounds m first n) (u32 (first + n)) q (set_rounds-AreBytes m first n v),
  is_set-set_rounds m first n q v (omega arith),
)

pub is_set-clear_rounds :
    (m : Bytes) (first n q : ℕ)
    → AreBytes m
    → first + n ≤ 2 ^ 32
    → is_set (clear_rounds m first n) q ≡ (not (within first n q) && is_set m q)
unfolding clear_rounds
is_set-clear_rounds m first zero q v h = ground arith
is_set-clear_rounds m first (suc n) q v h = ground (
  arith,
  is_set-bitmap_clear (clear_rounds m first n) (u32 (first + n)) q
      (clear_rounds-AreBytes m first n v),
  is_set-clear_rounds m first n q v (omega arith),
)
