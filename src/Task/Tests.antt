-- ===== src/Task/Tests.antt =====
-- The theorems on threads at a small state: thread 2 runs, 3 is ready, 4 waits in the queue at 100,
-- and 5 is a zombie. Thread 9 is the reaper.
use neox.Base.{
  ℕ, ◌*◌, ◌≤◌, ◌≡◌, ◌≢◌, inl, inr, refl, true, none, some, List, [], ◌∷◌, ◌==◌, if◌then◌else◌,
  Bool-cases, arith,
}
use neox.Base.Result.{done}
use neox.Task.{
  Kernel, ThreadState, thread_ready, thread_running, thread_blocked, thread_terminated, WaitQueue,
  queue_at, same_queue,
}
use neox.Task.Lists.{mem}
use neox.Task.Thread.{thread_kill_current}
use neox.Task.Sync.{Semaphore, semaphore_acquire, semaphore_release, Mutex, condvar_wait}
use neox.Task.Valid.{IsValid}
use neox.Task.Wake.{same_queue-eq, eq-same_queue}
use neox.Task.RoundRobin.{Turning, ticks}
use neox.Task.Fairness.{scheduler_tick_fair}
use neox.Task.Handover.{Released, BothBalanced, semaphore_release-Released, semaphore-Balanced}
use neox.Task.Locking.{unlock, mutex_call, BothOwned, mutex-Owned}
use neox.Task.Condvar.{Waits, condvar_wait-Waits}
use neox.Task.Killing.{Killed, thread_kill_current-Killed}
use neox.Task.Trace.{Safe, timer, ends, call, call-Safe, stop, step, never_resumed}

abbrev three_state : ℕ → ThreadState
three_state t =
    if t == 1
    then thread_running
    else if t == 2
    then thread_running
    else if t == 3
    then thread_ready
    else if t == 4
    then thread_blocked
    else thread_terminated

abbrev three_queues : WaitQueue → List ℕ
three_queues q = if same_queue (queue_at 100) q then 4 ∷ [] else []

abbrev three : Kernel
three = record {
  ready_list = 2 ∷ 3 ∷ [];
  current = 2;
  zombie_list = 5 ∷ [];
  quantum_remaining = 5;
  reaper_ready = true;
  reaper_thread = 9;
  state = three_state;
  wait_queue = λ t. if t == 4 then some (queue_at 100) else none;
  detached = λ t. t == 5;
  process = λ t. 0;
  kernel_stack = λ t. t * 0x4000;
  page_directory = λ p. 0;
  members = λ p. [];
  queues = three_queues;
  saved = λ t. true;
  interrupts = true;
  esp0 = 0;
  cr3 = 0;
}

three_waiting :
    (q : WaitQueue) (t : ℕ)
    → mem t (three_queues q) ≡ true
    → (three_state t ≡ thread_blocked) × (three.wait_queue t ≡ some q)
unfolding mem
three_waiting q t h = elim (Bool-cases (same_queue (queue_at 100) q)) [
  | inl same ↦ let e : queue_at 100 ≡ q = same_queue-eq (queue_at 100) q same in ground (arith, e)
  | inr other ↦ ground arith
]

three-IsValid : IsValid three
unfolding mem
three-IsValid = record {
  core = record {
    distinct = (refl, (refl, tt));
    runnable = λ t h. ground arith;
    waiting = λ q t h. three_waiting q t h;
    awaited = λ q t h. ground (arith, eq-same_queue (queue_at 100) q);
    queued = λ q. ground arith;
    ended = λ t h. ground arith;
    single = λ t h. ground arith;
    listed = λ h. inr refl;
    idle_apart = (refl, refl);
    null_apart = (refl, λ q. ground arith);
    started = omega arith;
  };
  running = refl;
}

three-Turning : Turning three
unfolding mem
three-Turning = record {
  valid = three-IsValid;
  on = refl;
  flags = λ t h. refl;
  here = refl;
  left = (omega arith, omega arith);
}

abbrev sem : Semaphore
sem = record { count = 0; wait_queue = queue_at 100 }

abbrev mutex : Mutex
mutex = record { owner = 2; wait_queue = queue_at 100 }

abbrev other_mutex : Mutex
other_mutex = record { owner = 3; wait_queue = queue_at 200 }

scheduler_tick_fair_example :
    (n : ℕ) × (u : Kernel) × (n ≤ 10) × (ticks n three ≡ done u) × (u.current ≡ 3)
unfolding mem
scheduler_tick_fair_example = scheduler_tick_fair three 3 three-Turning refl

call-Safe_example : (t : Kernel) × (call three ends ≡ done t) × Safe three t
call-Safe_example = call-Safe three ends three-IsValid (omega arith, omega arith)

after_timer : (t : Kernel) × (call three timer ≡ done t) × Safe three t
after_timer = call-Safe three timer three-IsValid tt

never_resumed_example : (after_timer.0.state 5 ≡ thread_terminated) × (after_timer.0.current ≢ 5)
never_resumed_example =
    never_resumed three after_timer.0 5 three-IsValid refl (step timer stop tt after_timer.1)

semaphore_release-Released_example : Released three sem (semaphore_release three sem)
semaphore_release-Released_example = semaphore_release-Released three sem three-IsValid

semaphore-Balanced_example :
    BothBalanced (semaphore_acquire three sem) × BothBalanced (semaphore_release three sem)
semaphore-Balanced_example = semaphore-Balanced three sem three-IsValid (inl refl) (omega arith)

mutex-Owned_example : BothOwned unlock three mutex (mutex_call unlock three mutex)
unfolding mem
mutex-Owned_example =
    mutex-Owned three mutex unlock three-IsValid (omega arith) ((λ e. absurd (omega arith)), refl)
      refl

condvar_wait-Waits_example :
    (t : Kernel) × (after : Mutex) × (condvar_wait three (queue_at 300) mutex ≡ done (t, after))
    × Waits three t (queue_at 300) mutex after
unfolding mem
condvar_wait-Waits_example =
    condvar_wait-Waits three (queue_at 300) mutex three-IsValid (omega arith) refl
      ((λ e. absurd (omega arith)), refl) refl

thread_kill_current-Killed_example :
    (t : Kernel) × (thread_kill_current three ≡ done t) × Killed three t
thread_kill_current-Killed_example =
    thread_kill_current-Killed three three-IsValid (omega arith) (omega arith)
