-- ===== src/Usermode.antt =====
-- kernel/arch/x86/usermode.c: the stacks of user mode. A process has its page directory and the list
-- of its reserved stacks, each with its address and the address of its `struct user_stack`; the list
-- is the sequence of nodes that Nodes.antt shows a ring to be.
pub mod Slots
pub mod Created
pub mod Released
mod Tests
use neox.Base.{
  ℕ, zero, suc, ◌+◌, ◌-◌, ◌/◌, ◌^◌, Bool, true, false, not, ◌&&◌, Option, none, some, List, [], ◌∷◌,
  ◌++◌, ltb, ◌==◌, if◌then◌else◌,
}
use neox.Base.Result.{Result, done, assertion_failed, assert, ◌>>◌, ◌>>=◌}
use neox.Pmm.{Pmm, pmm_alloc_page, pmm_free_page}
use neox.Paging.{Paging, paging_map, paging_unmap, paging_translate, paging_validate_mapping}
use neox.Exec.{user_stack_size}
use neox.Machine.{Machine}

-- `USER_STACK_REGION_START` and `USER_STACK_REGION_END`
abbrev pub user_stack_region_start : ℕ
user_stack_region_start = 0x80000000

abbrev pub user_stack_region_end : ℕ
user_stack_region_end = 0xC0000000

-- How many stacks the region has room for: the rounds of the outer loop.
abbrev pub user_stack_count : ℕ
user_stack_count = (user_stack_region_end - user_stack_region_start) / user_stack_size

-- The fields of `struct process` that are used here.
pub record Process : Type 0 where
  pub page_directory : ℕ
  pub user_stacks : List (ℕ × ℕ)

-- The inner loop: whether an address is that of a reserved stack.
unfoldable pub is_occupied : List (ℕ × ℕ) → ℕ → Bool
is_occupied [] virt = false
is_occupied ((stack, node) ∷ stacks) virt =
    let rest = is_occupied stacks virt in if stack == virt then true else rest

-- The outer loop from `virt` on, with `n` rounds left.
unfoldable pub alloc_from : Paging → Process → ℕ → ℕ → ℕ
alloc_from s process zero virt = 0
alloc_from s process (suc n) virt =
    let rest = alloc_from s process n (virt - user_stack_size) in
    if not (is_occupied process.user_stacks virt)
      && (paging_translate s process.page_directory virt == 0)
    then virt
    else if ltb virt user_stack_size
    then 0
    else rest

-- `user_stack_alloc` of a process that is not NULL.
unfoldable pub user_stack_alloc : Paging → Process → ℕ
user_stack_alloc s process =
    alloc_from s process user_stack_count (user_stack_region_end - user_stack_size)

unfoldable pub keep_stack : ℕ × ℕ → Option (ℕ × List (ℕ × ℕ)) → Option (ℕ × List (ℕ × ℕ))
keep_stack stack none = none
keep_stack stack (some (node, stacks)) = some (node, stack ∷ stacks)

-- The node of the first stack at an address, and the stacks without it.
unfoldable pub take_stack : List (ℕ × ℕ) → ℕ → Option (ℕ × List (ℕ × ℕ))
take_stack [] virt = none
take_stack ((stack, node) ∷ stacks) virt =
    let rest = take_stack stacks virt in
    if stack == virt then some (node, stacks) else keep_stack (stack, node) rest

-- `sizeof(struct user_stack)`
abbrev pub user_stack_entry_size : ℕ
user_stack_entry_size = 12

module _ (machine : Machine) where
  open machine use {State, paging, set_paging, kmalloc, kfree}

  -- The reservation with what `kmalloc` returns.
  unfoldable pub add_stack : Process → ℕ → State × ℕ → State × Process × Bool
  add_stack process virt (st, node) =
      if node == 0
      then (st, process, false)
      else (st, record process { user_stacks = process.user_stacks ++ (virt, node) ∷ [] }, true)

  unfoldable pub user_stack_reserve : State → Process → ℕ → Result (State × Process × Bool)
  user_stack_reserve st process virt = do
    assert (not (virt == 0))
    kmalloc st user_stack_entry_size >>= λ r. done (add_stack process virt r)

  -- The release with what the loop finds; `none` is the assertion behind it.
  unfoldable pub release_stack :
      State → Process → Option (ℕ × List (ℕ × ℕ)) → Result (State × Process)
  release_stack st process none = assertion_failed
  release_stack st process (some (node, stacks)) =
      kfree st node >>= λ t. done (t, record process { user_stacks = stacks })

  unfoldable pub usermode_stack_release : State → Process → ℕ → Result (State × Process)
  usermode_stack_release st process virt = do
    assert (not (virt == 0))
    release_stack st process (take_stack process.user_stacks virt)

  -- A stack that could not be made is released.
  unfoldable pub give_up : State → Process → ℕ → Result (State × Process × Option ℕ)
  give_up st process virt = usermode_stack_release st process virt >>= λ r. done (r.0, r.1, none)

  -- The stack once `paging_validate_mapping` has returned.
  unfoldable pub check_stack : State → Process → ℕ → ℕ → Bool → Result (State × Process × Option ℕ)
  check_stack st process virt phys mapped =
      if mapped
      then done (st, process, some (virt + user_stack_size))
      else paging_unmap (paging st) process.page_directory virt >>= λ p.
          give_up (set_paging st (record p { pmm = pmm_free_page p.pmm phys })) process virt

  -- The stack with the frame that `pmm_alloc_page` returns; the flags are `PAGE_PRESENT`,
  -- `PAGE_WRITABLE` and `PAGE_USER`.
  unfoldable pub map_stack : State → Process → ℕ → Pmm × ℕ → Result (State × Process × Option ℕ)
  map_stack st process virt (pmm, phys) =
      let s = record (paging st) { pmm = pmm } in
      if phys == 0
      then give_up (set_paging st s) process virt
      else let mapped = paging_map s process.page_directory virt phys 7 in
        paging_validate_mapping mapped process.page_directory virt
        >>= check_stack (set_paging st mapped) process virt phys

  -- The stack once it is reserved.
  unfoldable pub reserved_stack : ℕ → State × Process × Bool → Result (State × Process × Option ℕ)
  reserved_stack virt (st, process, reserved) =
      if not reserved
      then done (st, process, none)
      else map_stack st process virt (pmm_alloc_page (paging st).pmm)

  -- The stack with what `user_stack_alloc` returns.
  unfoldable pub create_at : State → Process → ℕ → Result (State × Process × Option ℕ)
  create_at st process virt =
      if virt == 0
      then done (st, process, none)
      else user_stack_reserve st process virt >>= reserved_stack virt

  -- The user's stack pointer, unless the function returns false.
  unfoldable pub usermode_stack_create : State → Process → Result (State × Process × Option ℕ)
  usermode_stack_create st process =
      assert (not (process.page_directory == 0))
      >> create_at st process (user_stack_alloc (paging st) process)
