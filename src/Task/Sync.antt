-- ===== src/Task/Sync.antt =====
-- kernel/task/semaphore.c, kernel/task/mutex.c and kernel/task/condvar.c. Each object names its
-- queue. A call that sleeps is followed to the switch, and then the thread that goes on to the end
-- of its own call.
use neox.Base.{ℕ, ◌+◌, ◌-◌, Bool, not, ◌==◌, if◌then◌else◌, ltb, u32}
use neox.Base.Result.{Result, done, ◌>>=◌, ◌>>◌, assert}
use neox.Task.{Kernel, WaitQueue, disable, restore, keep, resume}
use neox.Task.Wait.{
  thread_unblock, wait_queue_init, wait_queue_remove, wait_queue_wake, wait_queue_wake_all,
  wait_queue_sleep,
}

pub record Semaphore : Type 0 where
  pub count : ℕ
  pub wait_queue : WaitQueue

unfoldable pub semaphore_init : Kernel → Semaphore → ℕ → Kernel × Semaphore
semaphore_init s sem count = (wait_queue_init s sem.wait_queue, record sem { count = count })

unfoldable pub semaphore_acquire : Kernel → Semaphore → Result (Kernel × Semaphore)
semaphore_acquire s sem =
    let off = disable s in
    if ltb 0 sem.count
    then done (restore off s.interrupts, record sem { count = sem.count - 1 })
    else wait_queue_sleep (keep off s.interrupts) sem.wait_queue >>= λ t. done (resume t, sem)

-- A woken thread leaves `interrupts` as `thread_unblock` restores it: off.
unfoldable pub semaphore_release : Kernel → Semaphore → Result (Kernel × Semaphore)
semaphore_release s sem =
    let (t, thread) = wait_queue_remove (disable s) sem.wait_queue in
    if not (thread == 0)
    then (thread_unblock t thread >>= λ u. done (u, sem))
    else done (restore t s.interrupts, record sem { count = u32 (sem.count + 1) })

pub record Mutex : Type 0 where
  pub owner : ℕ
  pub wait_queue : WaitQueue

unfoldable pub mutex_init : Kernel → Mutex → Kernel × Mutex
mutex_init s mutex = (wait_queue_init s mutex.wait_queue, record mutex { owner = 0 })

unfoldable pub mutex_lock : Kernel → Mutex → Result (Kernel × Mutex)
mutex_lock s mutex =
    let off = disable s in
    if mutex.owner == 0
    then done (restore off s.interrupts, record mutex { owner = s.current })
    else wait_queue_sleep (keep off s.interrupts) mutex.wait_queue >>= λ t. done (resume t, mutex)

unfoldable pub mutex_unlock : Kernel → Mutex → Result (Kernel × Mutex)
mutex_unlock s mutex =
    assert (mutex.owner == s.current)
    >> (let (t, thread) = wait_queue_remove (disable s) mutex.wait_queue in
        if not (thread == 0)
        then (thread_unblock (restore t s.interrupts) thread >>= λ u.
            done (u, record mutex { owner = thread }))
        else done (restore t s.interrupts, record mutex { owner = 0 }))

-- The queue of a condition variable.
unfoldable pub condvar_init : Kernel → WaitQueue → Kernel
condvar_init s cv = wait_queue_init s cv

-- The sleep of `condvar_wait`, once the mutex is released.
unfoldable pub sleep_released : Bool → WaitQueue → Kernel × Mutex → Result (Kernel × Mutex)
sleep_released flag cv (t, released) =
    wait_queue_sleep (keep t flag) cv >>= λ u. done (resume u, released)

-- Up to the switch: the thread that has called it takes the mutex when it goes on, by
-- `condvar_relock`.
unfoldable pub condvar_wait : Kernel → WaitQueue → Mutex → Result (Kernel × Mutex)
condvar_wait s cv mutex = mutex_unlock (disable s) mutex >>= sleep_released s.interrupts cv

-- The end of `condvar_wait`, in a thread that was woken.
unfoldable pub condvar_relock : Kernel → Mutex → Result (Kernel × Mutex)
condvar_relock s mutex = mutex_lock s mutex

unfoldable pub condvar_signal : Kernel → WaitQueue → Result Kernel
condvar_signal s cv = wait_queue_wake (disable s) cv >>= λ t. done (restore t s.interrupts)

unfoldable pub condvar_broadcast : Kernel → WaitQueue → Result Kernel
condvar_broadcast s cv = wait_queue_wake_all (disable s) cv >>= λ t. done (restore t s.interrupts)
