-- ===== src/Exec/Layout.antt =====
-- What `exec_build_user_stack` of kernel/arch/x86/syscall.c leaves in the page of the stack.
use neox.Base.{
  ℕ, ◌+◌, ◌-◌, ◌*◌, ◌/◌, ◌%◌, ◌^◌, ◌≤◌, ◌<◌, ◌≡◌, ◌↔◌, inl, inr, refl, ap, subst, ◌∙◌, Option, none,
  some, List, length, lt_cases, lt→ltb, ge→ltb, u32, page_size, arith,
}
use neox.Base.Memory.{Bytes}
use neox.Base.Result.{Result, done}
use neox.Strings.{word}
use neox.Pmm.Init.{phys_to_virt}
use neox.Exec.{
  user_stack_size, store_word, copy_strings, store_pointers, argv_at, fill_stack, build_sized,
  exec_build_user_stack,
}
use neox.Exec.Words.{store_word_apart, word-store_word, word_kept}
use neox.Exec.Sizes.{
  addresses, total, AreArguments, AgreeOutside, Placed, Pointers, Placed-kept, Pointers-kept,
  strings_size_lem,
}
use neox.Exec.Writes.{Writes, copy_strings-Writes, store_pointers-Writes}

-- The page of a new stack whose pointer is `esp`, with `argv` and the strings above it.
pub record IsStack (m : Bytes) (strings : List (ℕ × ℕ)) (stack_virt stack : ℕ) (t : Bytes)
    (esp argv : ℕ) : Type 0 where
  pub inside : stack_virt ≤ esp
  pub aligned : esp % 16 ≡ 0
  pub argc_below : esp + 4 ≤ argv
  pub top :
      argv + (length (addresses strings) + 1) * 4 + total strings ≡ stack_virt + user_stack_size
  pub argc : word t (stack + (esp - stack_virt)) ≡ length (addresses strings)
  pub pointers :
      Pointers t
        (stack + (argv - stack_virt))
        (argv + (length (addresses strings) + 1) * 4)
        strings
        0
  pub last : word t (stack + (argv - stack_virt) + length (addresses strings) * 4) ≡ 0
  pub placed :
      Placed m t (stack + (argv - stack_virt) + (length (addresses strings) + 1) * 4) strings 0
  pub outside : AgreeOutside m t stack
  pub next_to : (esp + 4 ≡ argv) ↔ (((length (addresses strings) + 2) * 4 + total strings) % 16 ≡ 0)

-- How `exec_build_user_stack` ends.
pub data Built (m : Bytes) (strings : List (ℕ × ℕ)) (stack_virt stack : ℕ)
    : Result (Bytes × Option ℕ) → Type 0 where
  too_long :
      user_stack_size < (length (addresses strings) + 2) * 4 + total strings
      → Built m strings stack_virt stack (done (m, none))
  built :
      {t : Bytes} {esp : ℕ} (argv : ℕ)
      → IsStack m strings stack_virt stack t esp argv
      → Built m strings stack_virt stack (done (t, some esp))

-- The addresses that the code computes, for a page of the stack and sizes that fit.
module _ (virt count size : ℕ) (page : virt % page_size ≡ 0) (below : virt + page_size < 2 ^ 32)
    (fits : (count + 2) * 4 + size ≤ page_size) where
  strings_start : u32 (virt + page_size + 2 ^ 32 - size) ≡ virt + page_size - size
  strings_start = omega arith

  argv_start :
      u32 (virt + page_size + 2 ^ 32 - size + 2 ^ 32 - (count + 1) * 4)
      ≡ virt + page_size - size - (count + 1) * 4
  argv_start = omega arith

  esp_start :
      u32 (virt + page_size - size - (count + 1) * 4 + 2 ^ 32 - 4) / 16 * 16
      ≡ (virt + page_size - size - (count + 1) * 4 - 4) / 16 * 16
  esp_start = omega arith

  esp_inside : virt ≤ (virt + page_size - size - (count + 1) * 4 - 4) / 16 * 16
  esp_inside = omega arith

-- The writes in order, given those of the two loops.
fill_lem :
    (fuel : ℕ) (m t u : Bytes) (args : List ℕ) (virt stack size start argv esp : ℕ)
    → u32 (virt + user_stack_size + 2 ^ 32 - size) ≡ start
    → argv_at virt args size ≡ argv
    → u32 (argv + 2 ^ 32 - 4) / 16 * 16 ≡ esp
    → copy_strings fuel m (stack + (start - virt)) args 0 ≡ done t
    → store_pointers fuel t (stack + (argv - virt)) start args 0 ≡ done u
    → virt ≤ esp
    → fill_stack fuel m args virt stack size
      ≡ done (
        store_word
            (store_word u (stack + (argv - virt) + length args * 4) 0)
            (stack + (esp - virt))
            (length args),
        some esp,
      )
unfolding fill_stack
fill_lem fuel m t u args virt stack size start argv esp es ea ee ct pu low =
    rw (ea, es, ee, ct, pu, ge→ltb esp virt low) refl

module _ (fuel : ℕ) (m : Bytes) (strings : List (ℕ × ℕ)) (virt stack : ℕ)
    (args : AreArguments m stack fuel strings) (page : virt % page_size ≡ 0)
    (below : virt + page_size < 2 ^ 32)
    (fits : (length (addresses strings) + 2) * 4 + total strings ≤ user_stack_size) where
  abbrev count : ℕ
  count = length (addresses strings)

  abbrev start : ℕ
  start = virt + page_size - total strings

  abbrev argv : ℕ
  argv = virt + page_size - total strings - (count + 1) * 4

  abbrev esp : ℕ
  esp = (argv - 4) / 16 * 16

  copies :
      Writes m
        (stack + (start - virt) + 0)
        (total strings)
        (λ u. Placed m u (stack + (start - virt)) strings 0)
        (copy_strings fuel m (stack + (start - virt)) (addresses strings) 0)
  copies =
      copy_strings-Writes m stack fuel strings m (stack + (start - virt)) 0 (λ j h. refl) args
        (omega arith) (omega arith)

  copies_agree : AgreeOutside m copies.after stack
  copies_agree j h = copies.apart j (ground arith)

  entries :
      Writes copies.after
        (stack + (argv - virt))
        (count * 4)
        (λ u. Pointers u (stack + (argv - virt)) start strings 0)
        (store_pointers fuel copies.after (stack + (argv - virt)) start (addresses strings) 0)
  entries =
      store_pointers-Writes m stack fuel strings copies.after (stack + (argv - virt)) start 0
        copies_agree args (omega arith) (omega arith) (omega arith)

  abbrev ended : Bytes
  ended = store_word entries.after (stack + (argv - virt) + count * 4) 0

  abbrev final : Bytes
  final = store_word ended (stack + (esp - virt)) count

  -- The bytes from `argv` on change no more, but for its last entry.
  kept_above : (j : ℕ) → stack + (argv - virt) + (count + 1) * 4 ≤ j → final j ≡ copies.after j
  kept_above j h =
      store_word_apart ended (stack + (esp - virt)) count j (inr (omega arith))
      ∙ store_word_apart entries.after (stack + (argv - virt) + count * 4) 0 j (inr (omega arith))
      ∙ entries.apart j (inr (omega arith))

  kept_entries :
      (j : ℕ)
      → stack + (argv - virt) ≤ j
      → j < stack + (argv - virt) + count * 4
      → final j ≡ entries.after j
  kept_entries j h k =
      store_word_apart ended (stack + (esp - virt)) count j (inr (omega arith))
      ∙ store_word_apart entries.after (stack + (argv - virt) + count * 4) 0 j (inl k)

  final_agrees : AgreeOutside m final stack
  final_agrees j h =
      store_word_apart ended (stack + (esp - virt)) count j (ground arith)
      ∙ store_word_apart entries.after (stack + (argv - virt) + count * 4) 0 j (ground arith)
      ∙ entries.apart j (ground arith)
      ∙ copies_agree j h

  final-IsStack : IsStack m strings virt stack final esp argv
  final-IsStack = record {
    inside = esp_inside virt count (total strings) page below fits;
    aligned = omega arith;
    argc_below = omega arith;
    top = omega arith;
    argc = word-store_word ended (stack + (esp - virt)) count (omega arith);
    pointers =
        (let e : start ≡ argv + (count + 1) * 4 = omega arith in
          subst (λ x. Pointers final (stack + (argv - virt)) x strings 0) e
            (Pointers-kept strings entries.after final (stack + (argv - virt)) start 0 kept_entries
              entries.holds));
    last =
        word_kept ended final (stack + (argv - virt) + count * 4)
          (λ j h k. store_word_apart ended (stack + (esp - virt)) count j (inr (omega arith)))
        ∙ word-store_word entries.after (stack + (argv - virt) + count * 4) 0 (omega arith);
    placed =
        (let e : stack + (start - virt) ≡ stack + (argv - virt) + (count + 1) * 4 = omega arith in
          subst (λ x. Placed m final x strings 0) e
            (Placed-kept strings m copies.after final (stack + (start - virt)) 0
              (λ j h k. kept_above j (omega arith)) copies.holds));
    outside = final_agrees;
    next_to = (λ e. omega arith, λ e. omega arith);
  }

  fill-Built :
      Built m strings virt stack (fill_stack fuel m (addresses strings) virt stack (total strings))
  fill-Built =
      rw
        (fill_lem fuel m copies.after entries.after (addresses strings) virt stack (total strings)
          start argv esp (strings_start virt count (total strings) page below fits)
          (argv_start virt count (total strings) page below fits)
          (esp_start virt count (total strings) page below fits) copies.returns entries.returns
          (esp_inside virt count (total strings) page below fits))
        (built argv final-IsStack)

build_too_long :
    (fuel : ℕ) (m : Bytes) (args : List ℕ) (virt stack size : ℕ)
    → user_stack_size < (length args + 2) * 4 + size
    → (length args + 2) * 4 + size < 2 ^ 32
    → build_sized fuel m args virt stack (some size) ≡ done (m, none)
unfolding build_sized
build_too_long fuel m args virt stack size long small =
    rw (lt→ltb user_stack_size (u32 (u32 (4 + (length args + 1) * 4) + size)) (omega arith)) refl

build_fits :
    (fuel : ℕ) (m : Bytes) (args : List ℕ) (virt stack size : ℕ)
    → (length args + 2) * 4 + size ≤ user_stack_size
    → build_sized fuel m args virt stack (some size) ≡ fill_stack fuel m args virt stack size
unfolding build_sized
build_fits fuel m args virt stack size fits =
    rw (ge→ltb user_stack_size (u32 (u32 (4 + (length args + 1) * 4) + size)) (omega arith)) refl

module _ (fuel : ℕ) (m : Bytes) (strings : List (ℕ × ℕ)) (stack_virt stack_phys : ℕ)
    (args : AreArguments m (phys_to_virt stack_phys) fuel strings)
    (page : stack_virt % page_size ≡ 0) (below : stack_virt + page_size < 2 ^ 32)
    (small : (length (addresses strings) + 2) * 4 + total strings < 2 ^ 32) where
  sized :
      exec_build_user_stack fuel m (addresses strings) stack_virt stack_phys
      ≡ build_sized fuel m
          (addresses strings)
          stack_virt
          (phys_to_virt stack_phys)
          (some (total strings))
  unfolding exec_build_user_stack
  sized = rw (strings_size_lem m (phys_to_virt stack_phys) fuel strings 0 args (omega arith)) (
      ap (λ x. build_sized fuel m (addresses strings) stack_virt (phys_to_virt stack_phys) (some x))
        (omega arith))

  -- exec_build_user_stack, with strings outside the page of the stack, a page that ends below 4 GiB
  -- and a size of strings and pointers below 4 GiB, returns: false in the same memory, since the
  -- strings and the pointers are larger than the page; or a stack pointer in the page that is a
  -- multiple of 16 and points at argc, with the pointers to the strings, NULL and the strings
  -- behind them up to the end of the page, and no byte outside the page changed. The pointers
  -- follow argc at once exactly when the sizes are a multiple of 16 together.
  pub exec_build_user_stack-Built :
      Built m strings stack_virt
        (phys_to_virt stack_phys)
        (exec_build_user_stack fuel m (addresses strings) stack_virt stack_phys)
  exec_build_user_stack-Built =
      rw sized
        (elim (lt_cases user_stack_size ((length (addresses strings) + 2) * 4 + total strings)) [
          | inl long ↦
              rw
                (build_too_long fuel m (addresses strings) stack_virt (phys_to_virt stack_phys)
                  (total strings) long small)
                (too_long long)
          | inr fits ↦
              rw
                (build_fits fuel m (addresses strings) stack_virt (phys_to_virt stack_phys)
                  (total strings) fits)
                (fill-Built fuel m strings stack_virt (phys_to_virt stack_phys) args page below
                  fits)
        ])
