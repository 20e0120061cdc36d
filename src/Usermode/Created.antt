-- ===== src/Usermode/Created.antt =====
-- How `usermode_stack_create` of kernel/arch/x86/usermode.c ends.
use neox.Base.{
  ℕ, ◌+◌, ◌<◌, ◌≡◌, ◌≢◌, inl, inr, refl, sym, ◌∙◌, ap, subst, Bool, true, false, Option, none, some,
  [], ◌∷◌, ◌++◌, ==_cases, ==_true, ==_false, arith,
}
use neox.Base.Result.{Result, done}
use neox.Pmm.{pmm_alloc_page, pmm_free_page}
use neox.Paging.{Paging, paging_map, paging_validate_mapping}
use neox.Exec.{user_stack_size}
use neox.Paging.Returns.{validate_returns, unmap_returns}
use neox.Machine.{Machine}
use neox.Machine.Laws.{Laws, UserChange, unchanged, takes, gives, maps, unmaps}
use neox.Usermode.{
  user_stack_count, Process, user_stack_entry_size, add_stack, user_stack_reserve, release_stack,
  usermode_stack_release, give_up, check_stack, map_stack, reserved_stack, create_at,
  usermode_stack_create,
}
use neox.Usermode.Slots.{
  Unreserved, slot_at, IsFree, Choice, user_stack_alloc-Choice, take_stack-append,
}

module _ (machine : Machine) (laws : Laws machine) where
  open machine use {State, paging, set_paging, kmalloc, kfree}
  open laws use {
    IsSound, InUse, paging_set, set_paging-IsSound, set_paging-InUse, kmalloc_returns,
    kfree_returns,
  }

  -- The process with a stack more.
  abbrev pub with_stack : Process → ℕ → ℕ → Process
  with_stack process virt node = record process {
    user_stacks = process.user_stacks ++ (virt, node) ∷ [];
  }

  -- The tables once a frame is taken and mapped at an address.
  abbrev pub mapped_at : Paging → Process → ℕ → Paging
  mapped_at s process virt =
      paging_map (record s { pmm = (pmm_alloc_page s.pmm).0 }) process.page_directory virt
        (pmm_alloc_page s.pmm).1 7

  -- How `usermode_stack_create` ends.
  pub data Created (st : State) (process : Process)
      : Result (State × Process × Option ℕ) → Type 0 where
    created :
        {t : State} (k node : ℕ)
        → k < user_stack_count
        → IsFree (paging st) process (slot_at k)
        → ((j : ℕ) → j < k → ¬ IsFree (paging st) process (slot_at j))
        → IsSound t
        → InUse t node
        → paging_validate_mapping (paging t) process.page_directory (slot_at k) ≡ done true
        → Created st process
            (done (t, with_stack process (slot_at k) node, some (slot_at k + user_stack_size)))
    full :
        ((j : ℕ) → j < user_stack_count → ¬ IsFree (paging st) process (slot_at j))
        → Created st process (done (st, process, none))
    no_entry :
        {t : State}
        → IsSound t
        → kmalloc st user_stack_entry_size ≡ done (t, 0)
        → Created st process (done (t, process, none))
    no_frame :
        {t u : State} (node : ℕ)
        → IsSound t
        → kmalloc st user_stack_entry_size ≡ done (u, node)
        → (pmm_alloc_page (paging u).pmm).1 ≡ 0
        → Created st process (done (t, process, none))
    not_mapped :
        {t u : State} (k node : ℕ)
        → IsSound t
        → kmalloc st user_stack_entry_size ≡ done (u, node)
        → paging_validate_mapping
            (mapped_at (paging u) process (slot_at k))
            process.page_directory
            (slot_at k)
          ≡ done false
        → Created st process (done (t, process, none))

  -- What was reserved last is released again.
  pub release_lem :
      (st : State) (process : Process) (virt node : ℕ)
      → virt ≢ 0
      → IsSound st
      → InUse st node
      → Unreserved process.user_stacks virt
      → (t : State) × (usermode_stack_release machine st (with_stack process virt node) virt
          ≡ done (t, process))
        × IsSound t
  unfolding usermode_stack_release release_stack
  release_lem st process virt node some_virt sound used free =
      let f = kfree_returns st node sound used in
      (
        f.0,
        rw (==_false virt 0 some_virt, take_stack-append process.user_stacks virt node free, f.1)
            refl,
        f.2,
      )

  give_up_lem :
      (st : State) (process : Process) (virt node : ℕ)
      → virt ≢ 0
      → IsSound st
      → InUse st node
      → Unreserved process.user_stacks virt
      → (t : State) × (give_up machine st (with_stack process virt node) virt
          ≡ done (t, process, none))
        × IsSound t
  unfolding give_up
  give_up_lem st process virt node some_virt sound used free =
      let r = release_lem st process virt node some_virt sound used free in (r.0, rw r.1 refl, r.2)

  module _ (st : State) (process : Process) (some_directory : process.page_directory ≢ 0) (k : ℕ)
      (inside : k < user_stack_count) (free : IsFree (paging st) process (slot_at k))
      (lowest : (j : ℕ) → j < k → ¬ IsFree (paging st) process (slot_at j)) (u : State) (node : ℕ)
      (allocated : kmalloc st user_stack_entry_size ≡ done (u, node)) (sound : IsSound u)
      (used : InUse u node) where
    some_virt : slot_at k ≢ 0
    some_virt e = absurd (omega arith)

    mapped_change : UserChange (paging u) (mapped_at (paging u) process (slot_at k))
    mapped_change =
        maps process.page_directory (slot_at k) (pmm_alloc_page (paging u).pmm).1 7 (omega arith)
          (takes unchanged)

    no_frame-Created :
        (pmm_alloc_page (paging u).pmm).1 ≡ 0
        → Created st process (
            map_stack machine u
              (with_stack process (slot_at k) node)
              (slot_at k)
              (pmm_alloc_page (paging u).pmm))
    unfolding map_stack
    no_frame-Created none_left =
        let s = record (paging u) { pmm = (pmm_alloc_page (paging u).pmm).0 } in
        let g =
          give_up_lem (set_paging u s) process (slot_at k) node some_virt
            (set_paging-IsSound u s (takes unchanged) sound)
            ((set_paging-InUse u s node (takes unchanged)).1 used) free.0 in
        rw (==_true (pmm_alloc_page (paging u).pmm).1 0 none_left, g.1)
          (no_frame node g.2 allocated none_left)

    checked-Created :
        (b : Bool)
        → paging_validate_mapping
            (mapped_at (paging u) process (slot_at k))
            process.page_directory
            (slot_at k)
          ≡ done b
        → Created st process (
            check_stack machine
              (set_paging u (mapped_at (paging u) process (slot_at k)))
              (with_stack process (slot_at k) node)
              (slot_at k)
              (pmm_alloc_page (paging u).pmm).1
              b)
    unfolding check_stack
    checked-Created true valid =
        created k node inside free lowest (set_paging-IsSound u _ mapped_change sound)
          ((set_paging-InUse u _ node mapped_change).1 used)
          (subst (λ s. paging_validate_mapping s process.page_directory (slot_at k) ≡ done true)
            (sym (paging_set u _)) valid)
    checked-Created false invalid =
        let v = set_paging u (mapped_at (paging u) process (slot_at k)) in
        let p = unmap_returns (paging v) process.page_directory (slot_at k) some_directory in
        let s = record p.0 { pmm = pmm_free_page p.0.pmm (pmm_alloc_page (paging u).pmm).1 } in
        let back : UserChange (paging v) s =
          gives _ (unmaps process.page_directory (slot_at k) (omega arith) p.1 unchanged) in
        let g =
          give_up_lem (set_paging v s) process (slot_at k) node some_virt
            (set_paging-IsSound v s back (set_paging-IsSound u _ mapped_change sound))
            ((set_paging-InUse v s node back).1 ((set_paging-InUse u _ node mapped_change).1 used))
            free.0 in
        rw (p.1, g.1) (not_mapped k node g.2 allocated invalid)

    mapped-Created : Created st process (
        map_stack machine u
          (with_stack process (slot_at k) node)
          (slot_at k)
          (pmm_alloc_page (paging u).pmm))
    unfolding map_stack
    mapped-Created = elim (==_cases (pmm_alloc_page (paging u).pmm).1 0) [
      | inl none_left ↦ no_frame-Created none_left
      | inr frame ↦
          let c =
            validate_returns (mapped_at (paging u) process (slot_at k)) process.page_directory
              (slot_at k) some_directory in
          rw (==_false (pmm_alloc_page (paging u).pmm).1 0 frame, c.1) (checked-Created c.0 c.1)
    ]

  module _ (st : State) (process : Process) (sound : IsSound st)
      (some_directory : process.page_directory ≢ 0) where
    create_at-Created :
        {virt : ℕ}
        → Choice (paging st) process virt
        → Created st process (create_at machine st process virt)
    unfolding create_at user_stack_reserve add_stack reserved_stack
    create_at-Created (Choice.full taken) = full taken
    create_at-Created (Choice.slot k inside free lowest) =
        let r = kmalloc_returns st user_stack_entry_size sound (omega arith) in
        let some_virt : slot_at k ≢ 0 = λ e. absurd (omega arith) in
        elim (==_cases r.1 0) [
          | inl null ↦
              rw (==_false (slot_at k) 0 some_virt, r.2, ==_true r.1 0 null)
                (no_entry r.3 (r.2 ∙ ap (λ x. done (r.0, x)) null))
          | inr allocated ↦
              rw (==_false (slot_at k) 0 some_virt, r.2, ==_false r.1 0 allocated)
                (mapped-Created st process some_directory k inside free lowest r.0 r.1 r.2 r.3
                  ((r.5 r.1).1 (inr (allocated, refl))))
        ]

    -- usermode_stack_create of a process with a page directory, on a sound machine, returns without
    -- a failed assertion, in one of five ways: with a stack pointer, where the stack is in the
    -- highest slot of the region that is neither reserved nor mapped, its page is mapped, and it is
    -- reserved behind the others; or with false and the process as it was, since no slot is free,
    -- or kmalloc has no entry for the list, or there is no frame, or the page could not be mapped.
    pub usermode_stack_create-Created :
        Created st process (usermode_stack_create machine st process)
    unfolding usermode_stack_create
    usermode_stack_create-Created =
        rw (==_false process.page_directory 0 some_directory)
          (create_at-Created (user_stack_alloc-Choice (paging st) process))
