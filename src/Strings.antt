-- ===== src/Strings.antt =====
-- kernel/lib/string.c over the memory of the active address space: a byte at each address. Words are
-- stored lowest byte first. A string has no length of its own, so that the functions that look for
-- its end have fuel: a round for each byte up to the end of one string is enough.
pub mod Copy
pub mod Compare
use neox.Base.{ℕ, zero, suc, ◌+◌, ◌-◌, ◌*◌, ◌^◌, ◌<◌, ◌≡◌, ◌≢◌, not, ◌&&◌, ◌==◌, if◌then◌else◌, u32}
use neox.Base.Memory.{Bytes, store}
use neox.Base.Result.{Result, done, out_of_fuel}

-- A `uint16_t` and a `uint32_t` at an address.
abbrev pub half : Bytes → ℕ → ℕ
half m a = m a + 256 * m (a + 1)

abbrev pub word : Bytes → ℕ → ℕ
word m a = half m a + 65536 * half m (a + 2)

-- The string at an address has `n` bytes before its end.
pub record IsString (m : Bytes) (a n : ℕ) : Type 0 where
  pub inside : (k : ℕ) → k < n → m (a + k) ≢ 0
  pub end : m (a + n) ≡ 0

-- `strlen` from the byte `len` on.
unfoldable pub strlen_from : Bytes → ℕ → ℕ → ℕ → Result ℕ
strlen_from m str zero len = out_of_fuel
strlen_from m str (suc fuel) len =
    let rest = strlen_from m str fuel (len + 1) in if m (str + len) == 0 then done len else rest

unfoldable pub strlen : ℕ → Bytes → ℕ → Result ℕ
strlen fuel m str = strlen_from m str fuel 0

-- `memcpy(dest, src, n)`: the state after `n` rounds of its loop.
unfoldable pub memcpy : Bytes → ℕ → ℕ → ℕ → Bytes
memcpy m dest src zero = m
memcpy m dest src (suc n) = let t = memcpy m dest src n in store t (dest + n) (t (src + n))

-- The result is an `int`.
unfoldable pub strcmp : ℕ → Bytes → ℕ → ℕ → Result ℕ
strcmp zero m a b = out_of_fuel
strcmp (suc fuel) m a b =
    let rest = strcmp fuel m (a + 1) (b + 1) in
    if not (m a == 0) && (m a == m b) then rest else done (u32 (m a + 2 ^ 32 - m b))
