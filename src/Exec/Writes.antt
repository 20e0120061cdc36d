-- ===== src/Exec/Writes.antt =====
-- The copies and the pointers that `exec_build_user_stack` writes.
use neox.Base.{
  ℕ, ◌+◌, ◌-◌, ◌*◌, ◌^◌, ◌≤◌, ◌<◌, ◌≡◌, ◌⊎◌, inl, refl, ◌∙◌, List, [], ◌∷◌, length, u32, arith,
}
use neox.Base.Memory.{Bytes}
use neox.Base.Result.{Result, done}
use neox.Strings.{strlen, memcpy}
use neox.Strings.Copy.{Apart, memcpy_lem, within_iff, beyond}
use neox.Exec.{user_stack_size, copy_strings, store_word, store_pointers}
use neox.Exec.Words.{store_word_apart, word-store_word, word_kept}
use neox.Exec.Sizes.{addresses, total, AreArguments, AgreeOutside, Placed, Pointers, strlen_kept}

-- A loop that writes `size` bytes from `first` on, and leaves what `P` says.
pub record Writes (m : Bytes) (first size : ℕ) (P : Bytes → Type 0) (r : Result Bytes)
    : Type 0 where
  pub after : Bytes
  pub returns : r ≡ done after
  pub holds : P after
  pub apart : (j : ℕ) → (j < first) ⊎ (first + size ≤ j) → after j ≡ m j

abbrev copied : Bytes → ℕ → ℕ → ℕ → ℕ → Bytes
copied t dest offset a n = memcpy t (dest + offset) a (n + 1)

module _ (fuel : ℕ) (t : Bytes) (a n : ℕ) (args : List ℕ) (len : strlen fuel t a ≡ done n)
    (small : n + 1 < 2 ^ 32) where
  count : u32 (n + 1) ≡ n + 1
  count = omega arith

  copy_step :
      (dest offset : ℕ)
      → copy_strings fuel t dest (a ∷ args) offset
        ≡ copy_strings fuel (copied t dest offset a n) dest args (offset + (n + 1))
  unfolding copy_strings
  copy_step dest offset = rw (len, count) refl

  pointer_step :
      (entry base offset : ℕ)
      → base + offset < 2 ^ 32
      → store_pointers fuel t entry base (a ∷ args) offset
        ≡ store_pointers fuel
            (store_word t entry (base + offset))
            (entry + 4)
            base
            args
            (offset + (n + 1))
  unfolding store_pointers
  pointer_step entry base offset h =
      let pointer : u32 (base + offset) ≡ base + offset = omega arith in
      rw (len, count, pointer) refl

module _ (m : Bytes) (stack : ℕ) where
  -- One copy, inside the page.
  module _ (t : Bytes) (dest offset a n : ℕ) (agree : AgreeOutside m t stack)
      (low : stack ≤ dest + offset) (high : dest + offset + (n + 1) ≤ stack + user_stack_size)
      (apart : (a + n < stack) ⊎ (stack + user_stack_size ≤ a)) where
    copies-Apart : Apart (dest + offset) a (n + 1)
    copies-Apart = ground arith

    copied_there : (k : ℕ) → k ≤ n → copied t dest offset a n (dest + offset + k) ≡ m (a + k)
    copied_there k h =
        let back : a + (dest + offset + k - (dest + offset)) ≡ a + k = omega arith in
        memcpy_lem t (dest + offset) a (n + 1) (dest + offset + k) copies-Apart
        ∙ rw
            (
              within_iff (dest + offset) (n + 1) (dest + offset + k) (omega arith) (omega arith),
              back,
            )
            (agree (a + k) (ground arith))

    copied_apart :
        (j : ℕ)
        → (j < dest + offset) ⊎ (dest + offset + (n + 1) ≤ j)
        → copied t dest offset a n j ≡ t j
    copied_apart j h =
        memcpy_lem t (dest + offset) a (n + 1) j copies-Apart
        ∙ rw (beyond (dest + offset) (n + 1) j h) refl

    copied_agrees : AgreeOutside m (copied t dest offset a n) stack
    copied_agrees j h = copied_apart j (ground arith) ∙ agree j h

  module _ (fuel : ℕ) where
    pub copy_strings-Writes :
        (strings : List (ℕ × ℕ)) (t : Bytes) (dest offset : ℕ)
        → AgreeOutside m t stack
        → AreArguments m stack fuel strings
        → stack ≤ dest + offset
        → dest + offset + total strings ≤ stack + user_stack_size
        → Writes t
            (dest + offset)
            (total strings)
            (λ u. Placed m u dest strings offset)
            (copy_strings fuel t dest (addresses strings) offset)
    copy_strings-Writes [] t dest offset agree args low high = record {
      after = t;
      returns = unfold copy_strings in refl;
      holds = tt;
      apart = λ j h. refl;
    }
    copy_strings-Writes ((a, n) ∷ strings) t dest offset agree args low high =
        let room : dest + offset + (n + 1) ≤ stack + user_stack_size = omega arith in
        let ih =
          copy_strings-Writes strings (copied t dest offset a n) dest (offset + (n + 1))
            (copied_agrees t dest offset a n agree low room args.1) args.3 (omega arith)
            (omega arith) in
        record {
          after = ih.after;
          returns =
              copy_step fuel t a n (addresses strings)
                (strlen_kept m stack fuel t a n agree args.0 args.1 args.2) (omega arith) dest
                offset
              ∙ ih.returns;
          holds = (
            λ k h.
                ih.apart (dest + offset + k) (inl (omega arith))
                ∙ copied_there t dest offset a n agree low room args.1 k h,
            ih.holds,
          );
          apart = λ j h.
              ih.apart j (ground arith)
              ∙ copied_apart t dest offset a n agree low room args.1 j (ground arith);
        }

    pub store_pointers-Writes :
        (strings : List (ℕ × ℕ)) (t : Bytes) (entry base offset : ℕ)
        → AgreeOutside m t stack
        → AreArguments m stack fuel strings
        → stack ≤ entry
        → entry + length (addresses strings) * 4 ≤ stack + user_stack_size
        → base + offset + total strings < 2 ^ 32
        → Writes t entry
            (length (addresses strings) * 4)
            (λ u. Pointers u entry base strings offset)
            (store_pointers fuel t entry base (addresses strings) offset)
    store_pointers-Writes [] t entry base offset agree args low high small = record {
      after = t;
      returns = unfold store_pointers in refl;
      holds = tt;
      apart = λ j h. refl;
    }
    store_pointers-Writes ((a, n) ∷ strings) t entry base offset agree args low high small =
        let agree_after = λ (j : ℕ) (h : (j < stack) ⊎ (stack + user_stack_size ≤ j)).
          store_word_apart t entry (base + offset) j (ground arith) ∙ agree j h in
        let ih =
          store_pointers-Writes strings (store_word t entry (base + offset)) (entry + 4) base
            (offset + (n + 1)) agree_after args.3 (omega arith) (omega arith) (omega arith) in
        record {
          after = ih.after;
          returns =
              pointer_step fuel t a n (addresses strings)
                (strlen_kept m stack fuel t a n agree args.0 args.1 args.2) (omega arith) entry base
                offset (omega arith)
              ∙ ih.returns;
          holds = (
            word_kept (store_word t entry (base + offset)) ih.after entry
                  (λ j h k. ih.apart j (inl k))
                ∙ word-store_word t entry (base + offset) (omega arith),
            ih.holds,
          );
          apart = λ j h.
              ih.apart j (ground arith) ∙ store_word_apart t entry (base + offset) j (ground arith);
        }
