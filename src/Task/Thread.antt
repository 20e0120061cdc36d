-- ===== src/Task/Thread.antt =====
-- kernel/task/thread.c, but for creation, destruction and joining, and the end of a thread in
-- kernel/task/scheduler.c and kernel/task/reaper.c.
use neox.Base.{ℕ, true, not, Option, none, some, [], ◌∷◌, ◌++◌, ◌==◌, if◌then◌else◌}
use neox.Base.Result.{Result, done, ◌>>=◌, ◌>>◌, assert}
use neox.Task.{
  Kernel, thread_blocked, thread_terminated, is_terminated, WaitQueue, reaper_wq, termination_queue,
  update, set_state, disable, restore, keep, resume,
}
use neox.Task.Lists.{mem}
use neox.Task.Scheduler.{scheduler_add, scheduler_remove, scheduler_yield}
use neox.Task.Wait.{wait_queue_wake, wait_queue_wake_all, wait_queue_sleep}

unfoldable pub reaper_wait_queue : Kernel → Option WaitQueue
reaper_wait_queue s = if s.reaper_ready then some reaper_wq else none

-- `scheduler_push_zombie` with the reaper's queue.
unfoldable pub push_zombie : Kernel → ℕ → Option WaitQueue → Result Kernel
push_zombie s thread none = done s
push_zombie s thread (some wq) = do
  assert (not (mem thread s.zombie_list))
  wait_queue_wake (record s { zombie_list = s.zombie_list ++ thread ∷ [] }) wq

unfoldable pub scheduler_push_zombie : Kernel → ℕ → Result Kernel
scheduler_push_zombie s thread = do
  assert (not (thread == 0))
  assert (not s.interrupts)
  assert (is_terminated (s.state thread))
  push_zombie s thread (reaper_wait_queue s)

unfoldable pub scheduler_terminate : Kernel → ℕ → Result Kernel
scheduler_terminate s thread = do
  assert (not (thread == 0))
  assert (not s.interrupts)
  assert (not (thread == s.reaper_thread))
  t ← scheduler_remove s thread
  u ← wait_queue_wake_all (set_state t thread thread_terminated) (termination_queue thread)
  if u.detached thread then scheduler_push_zombie u thread else done u

-- The thread joins those of its process, whose list is empty of it.
unfoldable pub thread_add : Kernel → ℕ → Result Kernel
thread_add s thread = do
  assert (not (thread == 0))
  assert (not (mem thread (s.members (s.process thread))))
  scheduler_add
      (record s {
        members = update s.members (s.process thread) (s.members (s.process thread) ++ thread ∷ []);
      })
      thread

-- To the switch and, in the thread that goes on behind it, to the end of its call.
unfoldable pub thread_block : Kernel → Result Kernel
thread_block s = do
  assert (not (s.current == 0))
  let off = keep (disable s) s.interrupts
  t ← scheduler_remove (set_state off off.current thread_blocked) off.current
  u ← scheduler_yield t
  done (resume u)

unfoldable pub thread_yield : Kernel → Result Kernel
thread_yield s =
    if s.current == 0
    then done s
    else scheduler_yield (keep (disable s) s.interrupts) >>= λ t. done (resume t)

unfoldable pub thread_detach : Kernel → ℕ → Result Kernel
thread_detach s thread = do
  assert (not (thread == 0))
  assert (not (s.detached thread))
  let t = record (disable s) { detached = update s.detached thread true }
  u ← (if is_terminated (t.state thread) then scheduler_push_zombie t thread else done t)
  done (restore u s.interrupts)

-- The thread never goes on behind the switch: another does.
unfoldable pub thread_kill_current : Kernel → Result Kernel
thread_kill_current s = do
  let off = disable s
  assert (not (off.current == 0))
  t ← scheduler_terminate off off.current
  u ← scheduler_yield t
  done (resume u)

-- The first part of the round of `reaper_entry`; the second drains the zombies.
unfoldable pub reaper_sleep : Kernel → Result Kernel
reaper_sleep s = wait_queue_sleep (keep (disable s) s.interrupts) reaper_wq >>= λ t. done (resume t)
