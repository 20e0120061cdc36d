-- ===== src/Base/Result.antt =====
-- The outcome of a call, with the assertions of kernel/include/assert.h.
use mathlib.Core.Path.{◌≡◌, ap}
use mathlib.Core.Bool.{Bool, true, false}

-- A call returns, or an assertion stops the kernel. `out_of_fuel` is no behaviour of the code, but
-- that of a model whose fuel is short.
pub data Result {ℓ} (A : Type ℓ) : Type ℓ where
  done : A → Result A
  assertion_failed : Result A
  out_of_fuel : Result A

infixl 5 ◌>>=◌ ◌>>◌
abbrev pub ◌>>=◌ {ℓ κ} : {A : Type ℓ} {B : Type κ} → Result A → (A → Result B) → Result B
done a >>= f = f a
assertion_failed >>= f = assertion_failed
out_of_fuel >>= f = out_of_fuel

abbrev pub ◌>>◌ {ℓ} : {B : Type ℓ} → Result (Unit {0}) → Result B → Result B
m >> k = m >>= λ _. k

-- `ASSERT(expr)`
abbrev pub assert : Bool → Result (Unit {0})
assert true = done tt
assert false = assertion_failed

-- Two returns that are equal return the same.
pub done-inj {ℓ} : {A : Type ℓ} {x y : A} → done x ≡ done y → x ≡ y
done-inj {x} e = ap (value x) e
  where
    value : {A : Type ℓ} → A → Result A → A
    value x (done y) = y
    value x assertion_failed = x
    value x out_of_fuel = x
