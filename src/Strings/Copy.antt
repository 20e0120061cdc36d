-- ===== src/Strings/Copy.antt =====
-- `memcpy` and `strlen` of kernel/lib/string.c.
use neox.Base.{
  ℕ, zero, suc, ◌+◌, ◌-◌, ◌≤◌, ◌<◌, ◌≡◌, ◌≢◌, ◌⊎◌, inl, inr, refl, ◌∙◌, true, false, ==_true,
  ==_false, ==_cases, if◌then◌else◌, within, arith,
}
use neox.Base.Memory.{Bytes, store}
use neox.Base.Result.{done}
use neox.Strings.{IsString, strlen_from, strlen, memcpy}

-- Two ranges that do not meet.
abbrev pub Apart : ℕ → ℕ → ℕ → Type 0
Apart dest src n = (src + n ≤ dest) ⊎ (dest + n ≤ src)

pub within_iff : (first n q : ℕ) → (first ≤ q) → (q < first + n) → within first n q ≡ true
within_iff first n q h k = ground arith

pub beyond : (first n q : ℕ) → (q < first) ⊎ (first + n ≤ q) → within first n q ≡ false
beyond first n q h = ground arith

within-suc : (first n q : ℕ) → q ≢ first + n → within first (suc n) q ≡ within first n q
within-suc first n q h = ground arith

store_at : (m : Bytes) (i v j : ℕ) → j ≡ i → store m i v j ≡ v
unfolding store
store_at m i v j e = ground (arith, e)

store_ne : (m : Bytes) (i v j : ℕ) → j ≢ i → store m i v j ≡ m j
unfolding store
store_ne m i v j e = ground (arith, e)

pub memcpy_lem :
    (m : Bytes) (dest src n j : ℕ)
    → Apart dest src n
    → memcpy m dest src n j ≡ (if within dest n j then m (src + (j - dest)) else m j)
unfolding memcpy
memcpy_lem m dest src zero j apart = rw (beyond dest zero j (ground arith)) refl
memcpy_lem m dest src (suc n) j apart =
    let less : Apart dest src n = ground arith in
    let source : (src + n < dest) ⊎ (dest + n ≤ src + n) = ground arith in
    let value = memcpy_lem m dest src n (src + n) less in
    elim (==_cases j (dest + n)) [
      | inl here ↦
          let offset : src + (j - dest) ≡ src + n = omega arith in
          store_at (memcpy m dest src n) (dest + n) (memcpy m dest src n (src + n)) j here
          ∙ value
          ∙ rw
              (
                beyond dest n (src + n) source,
                within_iff dest (suc n) j (omega arith) (omega arith),
                offset,
              )
              refl
      | inr other ↦
          store_ne (memcpy m dest src n) (dest + n) (memcpy m dest src n (src + n)) j other
          ∙ memcpy_lem m dest src n j less
          ∙ rw (within-suc dest n j other) refl
    ]

strlen_from_lem :
    (m : Bytes) (str n fuel len : ℕ)
    → IsString m str n
    → len ≤ n
    → n < len + fuel
    → strlen_from m str fuel len ≡ done n
unfolding strlen_from
strlen_from_lem m str n zero len is low enough = absurd (omega arith)
strlen_from_lem m str n (suc fuel) len is low enough = elim (==_cases len n) [
  | inl at_end ↦ rw (at_end, ==_true _ 0 is.end) refl
  | inr before ↦
      rw (==_false _ 0 (is.inside len (omega arith)))
        (strlen_from_lem m str n fuel (len + 1) is (omega arith) (omega arith))
]

pub strlen_lem :
    (m : Bytes) (str n fuel : ℕ) → IsString m str n → n < fuel → strlen fuel m str ≡ done n
unfolding strlen
strlen_lem m str n fuel is enough = strlen_from_lem m str n fuel 0 is (omega arith) (omega arith)
