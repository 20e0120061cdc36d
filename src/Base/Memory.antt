-- ===== src/Base/Memory.antt =====
-- Arrays in memory, indexed from their base: a byte at every offset, so that an access outside an
-- array is an access to whatever lies there. An array of bits is read and written by the
-- expressions that the page bitmaps of kernel/mm/pmm.c and kernel/mm/vam.c share.
use Prim.Native.Nat.{ℕ, zero, suc, ◌*◌, ◌+◌, ◌/◌, ◌%◌, ◌<◌}
use mathlib.Core.Path.{◌≡◌}
use mathlib.Core.Bool.{Bool, true, false, not, ◌&&◌, ◌||◌}
use native.Mathlib.Omega.{arith}
use neox.Base.Tests.{ltb, ◌==◌, if◌then◌else◌}
use neox.Base.Bits.{or_bit, clear_bit, masked_bit, masked_bit-or_bit, masked_bit-clear_bit}
use neox.Base.Bits.{or_bit-lt, clear_bit-lt, masked_bit-full, masked_bit-zero}

abbrev pub Bytes : Type 0
Bytes = ℕ → ℕ

-- `m[i] = v`
unfoldable pub store : Bytes → ℕ → ℕ → Bytes
store m i v j = if i == j then v else m j

-- Every cell holds a `uint8_t`.
abbrev pub AreBytes : Bytes → Type 0
AreBytes m = (j : ℕ) → m j < 256

-- `m[i / 8] |= (1 << (i % 8))`
unfoldable pub set_index : Bytes → ℕ → Bytes
set_index m i = store m (i / 8) (or_bit (m (i / 8)) (i % 8))

-- `m[i / 8] &= (uint8_t)~(1 << (i % 8))`
unfoldable pub clear_index : Bytes → ℕ → Bytes
clear_index m i = store m (i / 8) (clear_bit (m (i / 8)) (i % 8))

-- Whether bit `i` is set.
unfoldable pub is_set : Bytes → ℕ → Bool
is_set m i = masked_bit (m (i / 8)) (i % 8)

pub set_index-AreBytes : (m : Bytes) (i : ℕ) → AreBytes m → AreBytes (set_index m i)
unfolding set_index store
set_index-AreBytes m i v j = ground (arith, v j, or_bit-lt (m (i / 8)) (i % 8))

pub clear_index-AreBytes : (m : Bytes) (i : ℕ) → AreBytes m → AreBytes (clear_index m i)
unfolding clear_index store
clear_index-AreBytes m i v j =
    ground (arith, v j, clear_bit-lt (m (i / 8)) (i % 8) (v (i / 8)) (omega arith))

module _ (m : Bytes) (i j : ℕ) (v : AreBytes m) where
  pub is_set-set_index : is_set (set_index m i) j ≡ ((i == j) || is_set m j)
  unfolding is_set set_index store
  is_set-set_index =
      ground (
        arith,
        masked_bit-or_bit (m (i / 8)) (i % 8) (j % 8) (v (i / 8)) (omega arith) (omega arith),
      )

  pub is_set-clear_index : is_set (clear_index m i) j ≡ (not (i == j) && is_set m j)
  unfolding is_set clear_index store
  is_set-clear_index = ground (
    arith,
    masked_bit-clear_bit (m (i / 8)) (i % 8) (j % 8) (v (i / 8)) (omega arith) (omega arith),
  )

-- A write at bit `i` leaves the bytes outside the array alone, if `i` is an index of it.
pub set_index_in_bounds : (m : Bytes) (i n j : ℕ) → i < 8 * n → n < j + 1 → set_index m i j ≡ m j
unfolding set_index store
set_index_in_bounds m i n j h out = ground arith

pub clear_index_in_bounds :
    (m : Bytes) (i n j : ℕ) → i < 8 * n → n < j + 1 → clear_index m i j ≡ m j
unfolding clear_index store
clear_index_in_bounds m i n j h out = ground arith

-- `memset(m, value, n)`: the state after `n` rounds of its loop.
unfoldable pub memset : Bytes → ℕ → ℕ → Bytes
memset m value zero = m
memset m value (suc n) = store (memset m value n) n (value % 256)

pub memset_lem :
    (m : Bytes) (value n j : ℕ) → memset m value n j ≡ (if ltb j n then value % 256 else m j)
unfolding memset store
memset_lem m value zero j = ground arith
memset_lem m value (suc n) j = ground (arith, memset_lem m value n j)

-- `memset` to 0xFF sets each bit of the `n` bytes, `memset` to 0 clears it.
pub is_set-memset_full : (m : Bytes) (n i : ℕ) → i < 8 * n → is_set (memset m 0xFF n) i ≡ true
unfolding is_set
is_set-memset_full m n i h =
    ground (arith, memset_lem m 0xFF n (i / 8), masked_bit-full (i % 8) (omega arith))

pub is_set-memset_zero : (m : Bytes) (n i : ℕ) → i < 8 * n → is_set (memset m 0 n) i ≡ false
unfolding is_set
is_set-memset_zero m n i h =
    ground (arith, memset_lem m 0 n (i / 8), masked_bit-zero (i % 8) (omega arith))

pub memset-AreBytes : (m : Bytes) (value n : ℕ) → AreBytes m → AreBytes (memset m value n)
memset-AreBytes m value n v j = ground (arith, memset_lem m value n j, v j)
