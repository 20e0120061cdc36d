-- ===== src/Task/Scheduler.antt =====
-- kernel/task/scheduler.c, but for `scheduler_start`, which builds the stack of the idle thread.
use neox.Base.{
  ℕ, ◌+◌, ◌-◌, ◌^◌, Bool, true, not, ◌&&◌, List, [], ◌∷◌, ◌++◌, ltb, ◌==◌, if◌then◌else◌, u32,
}
use neox.Base.Result.{Result, done, ◌>>=◌, ◌>>◌, assert}
use neox.Layout.{kernel_stack_size}
use neox.Pmm.Init.{virt_to_phys}
use neox.Task.{
  Kernel, thread_ready, thread_running, is_running, idle_thread, quantum_ticks, update, set_state,
  disable, keep, resume,
}
use neox.Task.Lists.{mem, remove, next_in}

unfoldable pub scheduler_init : Kernel → Kernel
scheduler_init s = record s {
  ready_list = [];
  zombie_list = [];
  current = 0;
  quantum_remaining = quantum_ticks;
}

unfoldable pub scheduler_add : Kernel → ℕ → Result Kernel
scheduler_add s thread = do
  assert (not s.interrupts)
  if thread == 0 then done s else do
    assert (not (mem thread s.ready_list))
    done (record s { ready_list = s.ready_list ++ thread ∷ [] })

unfoldable pub scheduler_remove : Kernel → ℕ → Result Kernel
scheduler_remove s thread = do
  assert (not (thread == 0))
  assert (not s.interrupts)
  done (if mem thread s.ready_list then record s { ready_list = remove thread s.ready_list } else s)

-- `current` becomes this thread.
unfoldable pub run : Kernel → ℕ → Kernel
run s thread = record (set_state s thread thread_running) { current = thread }

-- `scheduler_next` with the ready list that it reads; its result is the new `current`.
unfoldable pub next_from : Kernel → List ℕ → Kernel
next_from s [] = run s idle_thread
next_from s (front ∷ rest) =
    if s.current == 0
    then run s front
    else let demoted =
        if is_running (s.state s.current) && not (s.current == idle_thread)
        then set_state s s.current thread_ready
        else s in
      run demoted
        (if mem s.current (front ∷ rest) then next_in (front ∷ rest) s.current front else front)

unfoldable pub scheduler_next : Kernel → Kernel
scheduler_next s = next_from s s.ready_list

-- The stack for the next entry from user mode, and the address space of the thread's process.
unfoldable pub load : Kernel → Kernel
load s = record s {
  esp0 = u32 (s.kernel_stack s.current + kernel_stack_size);
  cr3 =
      if s.process s.current == 0
      then s.cr3
      else virt_to_phys (s.page_directory (s.process s.current));
}

-- What `scheduler_switch` does: `esp0` and `cr3` are written if the thread is another.
unfoldable pub switched : Kernel → Kernel
switched s =
    let t = record (scheduler_next s) { quantum_remaining = quantum_ticks } in
    if t.current == s.current then t else load t

-- Up to `context_switch`: behind it the new current thread runs.
unfoldable pub scheduler_switch : Kernel → Result Kernel
scheduler_switch s = do assert (not s.interrupts); done (switched s)

unfoldable pub scheduler_restore : Kernel → ℕ → Result Kernel
scheduler_restore s thread = do
  assert (not s.interrupts)
  assert (not (thread == 0))
  done (record s {
    ready_list = thread ∷ [];
    current = thread;
    state = update s.state thread thread_running;
    quantum_remaining = quantum_ticks;
  })

unfoldable pub scheduler_tick : Kernel → Result Kernel
scheduler_tick s =
    if s.current == 0
    then done s
    else let t = record s { quantum_remaining = u32 (s.quantum_remaining + 2 ^ 32 - 1) } in
      if ltb 0 t.quantum_remaining then done t else scheduler_switch t

unfoldable pub scheduler_yield : Kernel → Result Kernel
scheduler_yield s = do
  assert (not s.interrupts)
  if s.current == 0 then done s else scheduler_switch s

unfoldable pub pop_zombie : Kernel → List ℕ → Kernel × ℕ
pop_zombie s [] = (s, 0)
pop_zombie s (t ∷ ts) = (record s { zombie_list = ts }, t)

-- The zombie, or NULL.
unfoldable pub scheduler_next_zombie : Kernel → Result (Kernel × ℕ)
scheduler_next_zombie s = do assert (not s.interrupts); done (pop_zombie s s.zombie_list)

unfoldable pub scheduler_idle : Kernel → Bool
scheduler_idle s = s.current == idle_thread

-- The timer's part of `irq_handler` in kernel/arch/x86/irq.c, which runs with interrupts off and ends
-- by restoring the flag of the thread that it goes on with.
unfoldable pub irq_handler : Kernel → Result Kernel
irq_handler s =
    if s.interrupts
    then (scheduler_tick (keep (disable s) true) >>= λ t. done (resume t))
    else done s
