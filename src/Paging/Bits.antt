-- ===== src/Paging/Bits.antt =====
-- The bitwise or of the page entries of kernel/mm/paging.c.
use Prim.Native.Nat.{max, digits, bit_or-bitwise}
use native.Mathlib.Nat.{zero-max}
use native.Mathlib.Numerals.{unary_clauses}
use neox.Base.{
  ℕ, zero, suc, ◌+◌, ◌*◌, ◌/◌, ◌%◌, ◌≤◌, ◌<◌, ◌≡◌, refl, ap, ◌∙◌, bit_or, page_size, arith,
}

or_digits : ℕ → ℕ → ℕ → ℕ
or_digits n a b = digits (λ b. b) max n a b

-- The count of digits does not matter.
or_digits_count : (n m a b : ℕ) → a ≤ n → a ≤ m → or_digits n a b ≡ or_digits m a b
unfolding or_digits
or_digits_count zero zero a b h k = refl
or_digits_count zero (suc m) zero b h k = refl
or_digits_count zero (suc m) (suc a) b h k = absurd (omega arith)
or_digits_count (suc n) zero zero b h k = refl
or_digits_count (suc n) zero (suc a) b h k = absurd (omega arith)
or_digits_count (suc n) (suc m) zero b h k = refl
or_digits_count (suc n) (suc m) (suc a) b h k =
    ap (λ x. x * 2 + max (suc a % 2) (b % 2))
      (or_digits_count n m (suc a / 2) (b / 2) (omega arith) (omega arith))

max_low : (x : ℕ) → max x 0 ≡ x
max_low zero = refl
max_low (suc x) = simp unary_clauses refl

or_digits_lem : (a b : ℕ) → bit_or a b ≡ or_digits a a b
unfolding or_digits
or_digits_lem a b = λ i. bit_or-bitwise a b i

or_digits_half :
    (a b : ℕ) → or_digits a a b ≡ or_digits (a / 2) (a / 2) (b / 2) * 2 + max (a % 2) (b % 2)
unfolding or_digits
or_digits_half zero b = ground (arith, zero-max (b % 2))
or_digits_half (suc a) b =
    ap (λ x. x * 2 + max (suc a % 2) (b % 2))
      (or_digits_count a (suc a / 2) (suc a / 2) (b / 2) (omega arith) (omega arith))

bit_or_half : (a b : ℕ) → bit_or a b ≡ bit_or (a / 2) (b / 2) * 2 + max (a % 2) (b % 2)
bit_or_half a b = rw (or_digits_lem a b, or_digits_lem (a / 2) (b / 2), or_digits_half a b)

pub bit_or-zero_left : (b : ℕ) → bit_or 0 b ≡ b
unfolding or_digits
bit_or-zero_left b = or_digits_lem 0 b

or_digits-zero_right : (n a : ℕ) → a ≤ n → or_digits n a 0 ≡ a
unfolding or_digits
or_digits-zero_right zero zero h = refl
or_digits-zero_right zero (suc a) h = absurd (omega arith)
or_digits-zero_right (suc n) zero h = refl
or_digits-zero_right (suc n) (suc a) h =
    ground (arith, or_digits-zero_right n (suc a / 2) (omega arith), max_low (suc a % 2))

pub bit_or-zero_right : (a : ℕ) → bit_or a 0 ≡ a
bit_or-zero_right a = or_digits_lem a 0 ∙ or_digits-zero_right a a (omega arith)

-- `2 ^ k * e`
shift : ℕ → ℕ → ℕ
shift zero e = e
shift (suc k) e = shift k e * 2

or_shift :
    (k e c f : ℕ)
    → c < shift k 1
    → f < shift k 1
    → bit_or (shift k e + c) f ≡ shift k e + bit_or c f
unfolding shift
or_shift zero e c f hc hf = ground (arith, bit_or-zero_right e, bit_or-zero_left 0)
or_shift (suc k) e c f hc hf =
    ground (arith, or_shift k e (c / 2) (f / 2), bit_or_half (shift k e * 2 + c) f, bit_or_half c f)

-- A frame's address leaves the low 12 bits to the flags.
pub bit_or-frame :
    (p c f : ℕ)
    → c < page_size
    → f < page_size
    → bit_or (p * page_size + c) f ≡ p * page_size + bit_or c f
unfolding shift
bit_or-frame p c f hc hf = ground (arith, or_shift 12 p c f (omega arith) (omega arith))
