-- ===== src/Task/Wait.antt =====
-- kernel/task/wait.c, and `thread_unblock` of kernel/task/thread.c, which it calls. `wait_node` is
-- linked exactly if `wait_queue` is not NULL, since the two are written together.
use neox.Base.{
  ℕ, zero, suc, Bool, true, false, not, Option, none, some, List, [], ◌∷◌, ◌++◌, ◌==◌,
  if◌then◌else◌,
}
use neox.Base.{length}
use neox.Base.Result.{Result, done, out_of_fuel, ◌>>=◌, ◌>>◌, assert}
use neox.Task.{
  Kernel, thread_ready, thread_blocked, is_blocked, WaitQueue, update, set_queue, set_state,
  disable, restore,
}
use neox.Task.Scheduler.{scheduler_add, scheduler_remove, scheduler_yield}

unfoldable pub thread_unblock : Kernel → ℕ → Result Kernel
thread_unblock s thread = do
  assert (not (thread == 0))
  assert (is_blocked (s.state thread))
  t ← scheduler_add (set_state (disable s) thread thread_ready) thread
  done (restore t s.interrupts)

unfoldable pub wait_queue_init : Kernel → WaitQueue → Kernel
wait_queue_init s queue = set_queue s queue []

abbrev pub is_none {ℓ} : {A : Type ℓ} → Option A → Bool
is_none none = true
is_none (some a) = false

unfoldable pub wait_queue_add : Kernel → WaitQueue → ℕ → Result Kernel
wait_queue_add s queue thread = do
  assert (not (thread == 0))
  assert (is_none (s.wait_queue thread))
  done (
      set_queue (record s { wait_queue = update s.wait_queue thread (some queue) }) queue
        (s.queues queue ++ thread ∷ []))

-- The removal, with the threads of the queue.
unfoldable pub remove_front : Kernel → WaitQueue → List ℕ → Kernel × ℕ
remove_front s queue [] = (s, 0)
remove_front s queue (thread ∷ rest) =
    (set_queue (record s { wait_queue = update s.wait_queue thread none }) queue rest, thread)

-- The new state, and the thread or NULL.
unfoldable pub wait_queue_remove : Kernel → WaitQueue → Kernel × ℕ
wait_queue_remove s queue = remove_front s queue (s.queues queue)

unfoldable pub wait_queue_wake : Kernel → WaitQueue → Result Kernel
wait_queue_wake s queue = do
  assert (not s.interrupts)
  let (t, thread) = wait_queue_remove s queue
  if thread == 0 then done t else thread_unblock t thread

-- The loop of `wait_queue_wake_all`.
unfoldable pub wake_rounds : ℕ → Kernel → WaitQueue → Result Kernel
wake_rounds zero s queue = out_of_fuel
wake_rounds (suc fuel) s queue =
    let (t, thread) = wait_queue_remove s queue in
    let rest = thread_unblock t thread >>= λ u. wake_rounds fuel u queue in
    if thread == 0 then done t else rest

unfoldable pub wait_queue_wake_all : Kernel → WaitQueue → Result Kernel
wait_queue_wake_all s queue = do
  assert (not s.interrupts)
  wake_rounds (suc (length (s.queues queue))) s queue

-- Up to the switch.
unfoldable pub wait_queue_sleep : Kernel → WaitQueue → Result Kernel
wait_queue_sleep s queue = do
  assert (not s.interrupts)
  let thread = s.current
  assert (not (thread == 0))
  t ← wait_queue_add s queue thread
  u ← scheduler_remove (set_state t thread thread_blocked) thread
  scheduler_yield u
