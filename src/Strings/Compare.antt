-- ===== src/Strings/Compare.antt =====
-- `strcmp` of kernel/lib/string.c against the equality of strings.
use neox.Base.{
  ℕ, zero, suc, ◌+◌, ◌-◌, ◌^◌, ◌≤◌, ◌<◌, ◌≡◌, ◌≢◌, ◌↔◌, inl, inr, refl, ◌∙◌, false, not, ◌&&◌, ◌==◌,
  ==_true, ==_false, ==_cases, u32, arith,
}
use neox.Base.Memory.{Bytes, AreBytes}
use neox.Base.Result.{done}
use neox.Strings.{IsString, strcmp}

-- The strings at two addresses agree up to the end of one of `n` bytes.
abbrev pub SameString : Bytes → ℕ → ℕ → ℕ → Type 0
SameString m a b n = (k : ℕ) → k ≤ n → m (a + k) ≡ m (b + k)

IsString-tail : (m : Bytes) (a n : ℕ) → IsString m a (suc n) → IsString m (a + 1) n
IsString-tail m a n is = record {
  inside =
      λ k h. let e : a + 1 + k ≡ a + suc k = omega arith in rw e (is.inside (suc k) (omega arith));
  end = let e : a + 1 + n ≡ a + suc n = omega arith in rw e is.end;
}

-- A first byte that is the same leaves the rest to compare.
SameString-tail :
    (m : Bytes) (a b n : ℕ) → m a ≡ m b → SameString m (a + 1) (b + 1) n ↔ SameString m a b (suc n)
SameString-tail m a b n first = (whole, rest)
  where
    whole : SameString m (a + 1) (b + 1) n → SameString m a b (suc n)
    whole same zero h = ground (arith, first)
    whole same (suc k) h = ground (arith, same k (omega arith))

    rest : SameString m a b (suc n) → SameString m (a + 1) (b + 1) n
    rest same k h = ground (arith, same (suc k) (omega arith))

differs : (x y : ℕ) → x < 256 → y < 256 → x ≢ y → u32 (x + 2 ^ 32 - y) ≢ 0
differs x y hx hy ne e = absurd (ne (omega arith))

module _ (m : Bytes) (v : AreBytes m) (a b : ℕ) where
  stop_step :
      (fuel : ℕ)
      → (not (m a == 0) && (m a == m b)) ≡ false
      → strcmp (suc fuel) m a b ≡ done (u32 (m a + 2 ^ 32 - m b))
  unfolding strcmp
  stop_step fuel h = rw h refl

  next_step :
      (fuel : ℕ) → m a ≢ 0 → m a ≡ m b → strcmp (suc fuel) m a b ≡ strcmp fuel m (a + 1) (b + 1)
  unfolding strcmp
  next_step fuel h e = rw (==_false (m a) 0 h, ==_true (m a) (m b) e) refl

  stopped :
      (n fuel : ℕ)
      → m a ≢ m b
      → (r : ℕ) × (strcmp (suc fuel) m a b ≡ done r) × ((r ≡ 0) ↔ SameString m a b n)
  stopped n fuel ne = (
    u32 (m a + 2 ^ 32 - m b),
    stop_step fuel (ground arith),
    (
      (λ z. absurd (differs (m a) (m b) (v a) (v b) ne z)),
      (λ same. absurd (ne (ground (arith, same 0 (omega arith))))),
    ),
  )

-- strcmp with a second string of n bytes and fuel above n returns, and the result is 0 exactly when
-- the bytes up to the end of the second string are the same.
pub strcmp-SameString :
    (m : Bytes) (v : AreBytes m) (a b n fuel : ℕ)
    → IsString m b n
    → n < fuel
    → (r : ℕ) × (strcmp fuel m a b ≡ done r) × ((r ≡ 0) ↔ SameString m a b n)
strcmp-SameString m v a b n zero is enough = absurd (omega arith)
strcmp-SameString m v a b zero (suc fuel) is enough = elim (==_cases (m a) (m b)) [
  | inl same ↦ (
    u32 (m a + 2 ^ 32 - m b),
    stop_step m v a b fuel (ground (arith, is.end)),
    ((λ z k h. ground (arith, same)), (λ w. let e = same in omega (arith, v a, v b))),
  )
  | inr other ↦ stopped m v a b zero fuel other
]
strcmp-SameString m v a b (suc n) (suc fuel) is enough = elim (==_cases (m a) (m b)) [
  | inl same ↦
      let some : m a ≢ 0 = λ z. is.inside 0 (omega arith) (ground (arith, same, z)) in
      let ih =
        strcmp-SameString m v (a + 1) (b + 1) n fuel (IsString-tail m b n is) (omega arith) in
      let tail = SameString-tail m a b n same in
      (
        ih.0,
        next_step m v a b fuel some same ∙ ih.1,
        ((λ z. tail.0 (ih.2.0 z)), (λ w. ih.2.1 (tail.1 w))),
      )
  | inr other ↦ stopped m v a b (suc n) fuel other
]
