-- ===== src/Exec/Sizes.antt =====
-- The arguments of `exec_build_user_stack`, the size of their strings, and their copies.
use neox.Base.{
  ℕ, ◌+◌, ◌-◌, ◌*◌, ◌^◌, ◌≤◌, ◌<◌, ◌≡◌, ◌⊎◌, sym, ap, ◌∙◌, false, some, List, [], ◌∷◌, length, ltb,
  ge→ltb, u32, arith,
}
use neox.Base.Memory.{Bytes}
use neox.Base.Result.{done}
use neox.Strings.{IsString, strlen, word}
use neox.Strings.Copy.{strlen_lem}
use neox.Exec.{user_stack_size, strings_size}
use neox.Exec.Words.{word_kept}

-- The strings with their lengths, by their addresses.
abbrev pub addresses : List (ℕ × ℕ) → List ℕ
addresses [] = []
addresses ((a, n) ∷ strings) = a ∷ addresses strings

-- How many bytes they have with their ends.
abbrev pub total : List (ℕ × ℕ) → ℕ
total [] = 0
total ((a, n) ∷ strings) = n + 1 + total strings

-- The strings have these lengths, and none stands in the page of the stack.
abbrev pub AreArguments : Bytes → ℕ → ℕ → List (ℕ × ℕ) → Type 0
AreArguments m stack fuel [] = Unit {0}
AreArguments m stack fuel ((a, n) ∷ strings) =
    IsString m a n
    × ((a + n < stack) ⊎ (stack + user_stack_size ≤ a))
    × (n < fuel)
    × AreArguments m stack fuel strings

-- Two memories agree outside the page of the stack.
abbrev pub AgreeOutside : Bytes → Bytes → ℕ → Type 0
AgreeOutside m t stack = (j : ℕ) → (j < stack) ⊎ (stack + user_stack_size ≤ j) → t j ≡ m j

-- The strings stand one after another from `dest + offset` on.
abbrev pub Placed : Bytes → Bytes → ℕ → List (ℕ × ℕ) → ℕ → Type 0
Placed m t dest [] offset = Unit {0}
Placed m t dest ((a, n) ∷ strings) offset =
    ((k : ℕ) → k ≤ n → t (dest + offset + k) ≡ m (a + k))
    × Placed m t dest strings (offset + (n + 1))

-- The pointers to them stand one after another from `entry` on.
abbrev pub Pointers : Bytes → ℕ → ℕ → List (ℕ × ℕ) → ℕ → Type 0
Pointers t entry base [] offset = Unit {0}
Pointers t entry base ((a, n) ∷ strings) offset =
    (word t entry ≡ base + offset) × Pointers t (entry + 4) base strings (offset + (n + 1))

pub Placed-kept :
    (strings : List (ℕ × ℕ)) (m t u : Bytes) (dest offset : ℕ)
    → ((j : ℕ) → dest + offset ≤ j → j < dest + offset + total strings → u j ≡ t j)
    → Placed m t dest strings offset
    → Placed m u dest strings offset
Placed-kept [] m t u dest offset same p = tt
Placed-kept ((a, n) ∷ strings) m t u dest offset same p = (
  λ k h. same (dest + offset + k) (omega arith) (omega arith) ∙ p.0 k h,
  Placed-kept strings m t u dest (offset + (n + 1)) (λ j h k. same j (omega arith) (omega arith))
      p.1,
)

pub Pointers-kept :
    (strings : List (ℕ × ℕ)) (t u : Bytes) (entry base offset : ℕ)
    → ((j : ℕ) → entry ≤ j → j < entry + length (addresses strings) * 4 → u j ≡ t j)
    → Pointers t entry base strings offset
    → Pointers u entry base strings offset
Pointers-kept [] t u entry base offset same p = tt
Pointers-kept ((a, n) ∷ strings) t u entry base offset same p = (
  word_kept t u entry (λ j h k. same j h (omega arith)) ∙ p.0,
  Pointers-kept strings t u (entry + 4) base (offset + (n + 1))
      (λ j h k. same j (omega arith) (omega arith)) p.1,
)

module _ (m : Bytes) (stack fuel : ℕ) where
  -- The length of an argument in a memory that has changed inside the page alone.
  pub strlen_kept :
      (t : Bytes) (a n : ℕ)
      → AgreeOutside m t stack
      → IsString m a n
      → (a + n < stack) ⊎ (stack + user_stack_size ≤ a)
      → n < fuel
      → strlen fuel t a ≡ done n
  strlen_kept t a n agree is apart enough =
      strlen_lem t a n fuel
        (record {
          inside = λ k h z. is.inside k h (sym (agree (a + k) (ground arith)) ∙ z);
          end = agree (a + n) (ground arith) ∙ is.end;
        })
        enough

  pub strings_size_lem :
      (strings : List (ℕ × ℕ)) (size : ℕ)
      → AreArguments m stack fuel strings
      → size + total strings < 2 ^ 32
      → strings_size fuel m (addresses strings) size ≡ done (some (size + total strings))
  unfolding strings_size
  strings_size_lem [] size args small = ap (λ x. done (some x)) (omega arith)
  strings_size_lem ((a, n) ∷ strings) size args small =
      let length_kept : u32 (n + 1) ≡ n + 1 = omega arith in
      let fits : ltb (2 ^ 32 - 1 - (n + 1)) size ≡ false = ge→ltb _ _ (omega arith) in
      rw (strlen_lem m a n fuel args.0 args.2, length_kept, fits)
        (strings_size_lem strings (size + (n + 1)) args.3 (omega arith)
          ∙ ap (λ x. done (some x)) (omega arith))
