-- ===== src/Usermode/Released.antt =====
-- The stacks of a process that `usermode_stack_create` has left.
use neox.Base.{ℕ, ◌+◌, ◌-◌, ◌≡◌, ◌≢◌, refl, Option, none, some, arith}
use neox.Base.Result.{Result, done}
use neox.Exec.{user_stack_size}
use neox.Machine.{Machine}
use neox.Machine.Laws.{Laws}
use neox.Usermode.{Process, usermode_stack_release, usermode_stack_create}
use neox.Usermode.Slots.{AreDistinct, slot_at, AreDistinct-append}
use neox.Usermode.Created.{with_stack, Created, release_lem, usermode_stack_create-Created}

module _ (machine : Machine) (laws : Laws machine) where
  open machine use {State}
  open laws use {IsSound}

  -- What a call has left: a stack that can be released, or the process as it was.
  pub data Kept (process : Process) : State → Process → Option ℕ → Type 0 where
    stack :
        {t u : State} {q : Process} (esp : ℕ)
        → AreDistinct q.user_stacks
        → usermode_stack_release machine t q (esp - user_stack_size) ≡ done (u, process)
        → IsSound u
        → Kept process t q (some esp)
    no_stack : {t : State} → Kept process t process none

  left_behind :
      (st : State) (process : Process) {r : Result (State × Process × Option ℕ)}
      → AreDistinct process.user_stacks
      → Created machine laws st process r
      → (t : State) × (q : Process) × (o : Option ℕ) × (r ≡ done (t, q, o)) × Kept process t q o
  left_behind st process distinct (Created.created {t} k node inside free lowest sound used valid) =
      let some_virt : slot_at k ≢ 0 = λ e. absurd (omega arith) in
      let virt : slot_at k + user_stack_size - user_stack_size ≡ slot_at k = omega arith in
      let r = release_lem machine laws t process (slot_at k) node some_virt sound used free.0 in
      (
        t,
        with_stack machine laws process (slot_at k) node,
        some (slot_at k + user_stack_size),
        refl,
        stack (slot_at k + user_stack_size)
            (AreDistinct-append process.user_stacks (slot_at k) node distinct free.0) (rw virt r.1)
            r.2,
      )
  left_behind st process distinct (Created.full taken) = (st, process, none, refl, no_stack)
  left_behind st process distinct (Created.no_entry {t} sound null) =
      (t, process, none, refl, no_stack)
  left_behind st process distinct (Created.no_frame {t} node sound e null) =
      (t, process, none, refl, no_stack)
  left_behind st process distinct (Created.not_mapped {t} k node sound e invalid) =
      (t, process, none, refl, no_stack)

  -- usermode_stack_create of a process with a page directory whose stacks have different addresses,
  -- on a sound machine, returns: with a stack pointer, where the stacks still have different
  -- addresses and usermode_stack_release of the page below the pointer brings back the process; or
  -- with false and the process as it was.
  pub usermode_stack_create-Kept :
      (st : State) (process : Process)
      → IsSound st
      → process.page_directory ≢ 0
      → AreDistinct process.user_stacks
      → (t : State) × (q : Process) × (o : Option ℕ) × (usermode_stack_create machine st process
          ≡ done (t, q, o))
        × Kept process t q o
  usermode_stack_create-Kept st process sound some_directory distinct =
      left_behind st process distinct
        (usermode_stack_create-Created machine laws st process sound some_directory)
