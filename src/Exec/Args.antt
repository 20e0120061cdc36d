-- ===== src/Exec/Args.antt =====
-- kernel/kernel/exec.c: the copies of the arguments of a new program. The array `argv` is the list of
-- its entries that are not NULL, each an index with the address of the copy, the newest first; `argc`
-- is how many it has once it is complete. The memory is that of the active address space.
use neox.Base.{
  ℕ, zero, suc, ◌+◌, ◌*◌, Bool, true, false, not, Option, none, some, List, [], ◌∷◌, ◌==◌,
  if◌then◌else◌, u32,
}
use neox.Base.Memory.{Bytes}
use neox.Base.Result.{Result, done, ◌>>=◌}
use neox.Strings.{word, memcpy}
use neox.Fs.{failure}
use neox.Paging.UserRange.{paging_user_range_valid}
use neox.Paging.UserString.{paging_user_string_valid}
use neox.Machine.{Machine}

-- `EXEC_MAX_ARGS` and `EXEC_MAX_ARG_LENGTH`
abbrev pub exec_max_args : ℕ
exec_max_args = 32

abbrev pub exec_max_arg_length : ℕ
exec_max_arg_length = 256

-- The inner loop from the byte `length` on, with `n` bytes left before it gives up.
unfoldable pub argument_length : ℕ → Bytes → ℕ → ℕ → Option ℕ
argument_length zero m string length = none
argument_length (suc n) m string length =
    let rest = argument_length n m string (length + 1) in
    if m (string + length) == 0 then some length else rest

module _ (machine : Machine) where
  open machine use {State, paging, memory, set_memory, kmalloc, kfree}

  -- The copy with what `kmalloc` returns; the flag says whether the loop goes on or fails.
  unfoldable pub add_copy : ℕ → ℕ → ℕ → List (ℕ × ℕ) → State × ℕ → State × List (ℕ × ℕ) × Bool
  add_copy string length i argv (st, copy) =
      if copy == 0
      then (st, argv, false)
      else (set_memory st (memcpy (memory st) copy string (length + 1)), (i, copy) ∷ argv, true)

  unfoldable pub copy_argument :
      State → ℕ → ℕ → List (ℕ × ℕ) → Option ℕ → Result (State × List (ℕ × ℕ) × Bool)
  copy_argument st string i argv none = done (st, argv, false)
  copy_argument st string i argv (some length) =
      kmalloc st (length + 1) >>= λ r. done (add_copy string length i argv r)

  -- The argument once `paging_user_string_valid` has returned.
  unfoldable pub copy_valid :
      State → ℕ → ℕ → List (ℕ × ℕ) → Bool → Result (State × List (ℕ × ℕ) × Bool)
  copy_valid st string i argv valid =
      if not valid
      then done (st, argv, false)
      else copy_argument st string i argv (argument_length exec_max_arg_length (memory st) string 0)

  unfoldable pub next_argument :
      (State → List (ℕ × ℕ) → Result (State × List (ℕ × ℕ) × Bool))
      → State × List (ℕ × ℕ) × Bool
      → Result (State × List (ℕ × ℕ) × Bool)
  next_argument next (st, argv, ok) = if ok then next st argv else done (st, argv, false)

  -- The loop from the argument `i` on, with `n` arguments left. It ends with true at the NULL, and
  -- with false behind `goto fail`. The fuel is that of `paging_user_string_valid`.
  unfoldable pub copy_from :
      ℕ → ℕ → ℕ → ℕ → ℕ → State → List (ℕ × ℕ) → Result (State × List (ℕ × ℕ) × Bool)
  copy_from fuel directory user_argv zero i st argv = done (st, argv, false)
  copy_from fuel directory user_argv (suc n) i st argv =
      let pointer_address = u32 (user_argv + i * 4) in
      let user_string = word (memory st) pointer_address in
      let rest = next_argument (copy_from fuel directory user_argv n (i + 1)) in
      if not (paging_user_range_valid (paging st) directory pointer_address 4)
      then done (st, argv, false)
      else if user_string == 0
      then done (st, argv, true)
      else (paging_user_string_valid fuel (memory st) (paging st) directory user_string
          >>= copy_valid st user_string i argv)
        >>= rest

  -- The entries are freed from the index 0 on.
  unfoldable pub exec_args_destroy : State → List (ℕ × ℕ) → Result State
  exec_args_destroy st [] = done st
  exec_args_destroy st ((i, copy) ∷ argv) = exec_args_destroy st argv >>= λ t. kfree t copy

  unfoldable pub finish_args : State × List (ℕ × ℕ) × Bool → Result (State × List (ℕ × ℕ) × ℕ)
  finish_args (st, argv, ok) =
      if ok then done (st, argv, 0) else (exec_args_destroy st argv >>= λ t. done (t, [], failure))

  -- The state, the arguments and the result, for `args` that is not NULL.
  unfoldable pub exec_args_copy_from_user : ℕ → State → ℕ → ℕ → Result (State × List (ℕ × ℕ) × ℕ)
  exec_args_copy_from_user fuel st directory user_argv =
      if directory == 0
      then done (st, [], failure)
      else if user_argv == 0
      then done (st, [], failure)
      else copy_from fuel directory user_argv exec_max_args 0 st [] >>= finish_args
