-- ===== src/Base/Bits.antt =====
-- The bits of one byte: the expressions of the kernel's two page bitmaps, and their laws,
-- checked over every byte.
use Prim.Native.Nat.{ℕ, zero, suc, ◌-◌, ◌/◌, ◌%◌, ◌^◌, ◌<◌, bit_and, bit_or}
use mathlib.Core.Path.{◌≡◌, refl}
use mathlib.Core.Bool.{Bool, true, false, not, ◌&&◌, ◌||◌}
use native.Mathlib.Omega.{arith}
use neox.Base.Tests.{ltb, ◌==◌, if◌then◌else◌, ltb→lt}

-- `b |= (1 << k)` on a `uint8_t`
unfoldable pub or_bit : ℕ → ℕ → ℕ
or_bit b k = bit_or b (2 ^ k) % 256

-- `b &= (uint8_t)~(1 << k)`
unfoldable pub clear_bit : ℕ → ℕ → ℕ
clear_bit b k = bit_and b ((2 ^ 32 - 1 - 2 ^ k) % 256)

-- `(b >> k) & 1`
unfoldable pub shifted_bit : ℕ → ℕ → ℕ
shifted_bit b k = bit_and (b / 2 ^ k) 1

-- `(b & (1u << k)) != 0`
unfoldable pub masked_bit : ℕ → ℕ → Bool
masked_bit b k = not (bit_and b (2 ^ k) == 0)

-- Whether a test passes at each number under a bound.
passes : (bound : ℕ) (test : ℕ → Bool) → Bool
passes zero test = true
passes (suc top) test = if test top then passes top test else false

passes_at : (test : ℕ → Bool) (bound i : ℕ) → i < bound → passes bound test ≡ true → test i ≡ true
unfolding passes
passes_at test zero i below ok = absurd (omega arith)
passes_at test (suc top) i below ok = ground (arith, passes_at test top i)

abbrev same : Bool → Bool → Bool
same true b = b
same false b = not b

same→eq : (a b : Bool) → same a b ≡ true → a ≡ b
same→eq true b h = ground arith
same→eq false b h = ground arith

-- A property of a byte and two bit positions, checked at all of them.
table : (ℕ → ℕ → ℕ → Bool) → Bool
unfolding passes
table p = passes 256 (λ b. passes 8 (λ k. passes 8 (p b k)))

table_sound :
    (p : ℕ → ℕ → ℕ → Bool) → table p ≡ true → (b k j : ℕ) → b < 256 → k < 8 → j < 8 → p b k j ≡ true
unfolding table
table_sound p h b k j hb hk hj =
    let row = λ (x y : ℕ). passes 8 (p x y) in
    let block = passes_at (λ x. passes 8 (row x)) 256 b hb h in
    passes_at (p b k) 8 j hj (passes_at (row b) 8 k hk block)

or_table : table (λ b k j. same (masked_bit (or_bit b k) j) ((k == j) || masked_bit b j)) ≡ true
unfolding table masked_bit or_bit
or_table = refl

clear_table :
    table (λ b k j. same (masked_bit (clear_bit b k) j) (not (k == j) && masked_bit b j)) ≡ true
unfolding table masked_bit clear_bit
clear_table = refl

shift_table : table (λ b k j. same (shifted_bit b j == 0) (not (masked_bit b j))) ≡ true
unfolding table masked_bit shifted_bit
shift_table = refl

byte_table : table (λ b k j. ltb (clear_bit b k) 256) ≡ true
unfolding table clear_bit
byte_table = refl

module _ (b k j : ℕ) (hb : b < 256) (hk : k < 8) (hj : j < 8) where
  pub masked_bit-or_bit : masked_bit (or_bit b k) j ≡ ((k == j) || masked_bit b j)
  masked_bit-or_bit = same→eq _ _ (table_sound _ or_table b k j hb hk hj)

  pub masked_bit-clear_bit : masked_bit (clear_bit b k) j ≡ (not (k == j) && masked_bit b j)
  masked_bit-clear_bit = same→eq _ _ (table_sound _ clear_table b k j hb hk hj)

pub shifted_bit_test : (b j : ℕ) → b < 256 → j < 8 → (shifted_bit b j == 0) ≡ not (masked_bit b j)
shifted_bit_test b j hb hj = same→eq _ _ (table_sound _ shift_table b 0 j hb (omega arith) hj)

pub or_bit-lt : (b k : ℕ) → or_bit b k < 256
unfolding or_bit
or_bit-lt b k = omega arith

pub clear_bit-lt : (b k : ℕ) → b < 256 → k < 8 → clear_bit b k < 256
clear_bit-lt b k hb hk = ltb→lt _ _ (table_sound _ byte_table b k 0 hb hk (omega arith))

full_table : passes 8 (masked_bit 0xFF) ≡ true
unfolding passes masked_bit
full_table = refl

pub masked_bit-full : (k : ℕ) → k < 8 → masked_bit 0xFF k ≡ true
masked_bit-full k h = passes_at (masked_bit 0xFF) 8 k h full_table

zero_table : passes 8 (λ k. not (masked_bit 0 k)) ≡ true
unfolding passes masked_bit
zero_table = refl

pub masked_bit-zero : (k : ℕ) → k < 8 → not (masked_bit 0 k) ≡ true
masked_bit-zero k h = passes_at (λ k. not (masked_bit 0 k)) 8 k h zero_table
