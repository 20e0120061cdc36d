-- ===== src/Task.antt =====
-- kernel/task: the threads as the scheduler and the wait queues see them. A `struct thread *` is a
-- number, NULL is 0 and `&idle_thread` is 1. The intrusive lists are the sequences of their threads,
-- as `Nodes` shows them to be: a node is linked exactly if its thread stands in the list.
pub mod Lists
pub mod Scheduler
pub mod Wait
pub mod Thread
pub mod Sync
pub mod Valid
pub mod Wake
pub mod WakeAll
pub mod Sleep
pub mod RoundRobin
pub mod Fairness
pub mod Handover
pub mod Locking
pub mod Condvar
pub mod Ending
pub mod Killing
pub mod Trace
mod Tests
use neox.Base.{ℕ, ◌+◌, Bool, true, false, not, ◌&&◌, Option, List, ◌==◌, if◌then◌else◌, u32}
use neox.Layout.{kernel_stack_size}

-- `enum thread_state`
pub data ThreadState : Type 0 where
  thread_ready thread_running thread_blocked thread_terminated : ThreadState

abbrev pub is_running : ThreadState → Bool
is_running thread_running = true
is_running _ = false

abbrev pub is_blocked : ThreadState → Bool
is_blocked thread_blocked = true
is_blocked _ = false

abbrev pub is_terminated : ThreadState → Bool
is_terminated thread_terminated = true
is_terminated _ = false

-- A `struct wait_queue *`: that of the reaper, that of a thread's termination, or one that stands
-- in a semaphore, a mutex or a condition variable.
pub data WaitQueue : Type 0 where
  reaper_wq : WaitQueue
  termination_queue : ℕ → WaitQueue
  queue_at : ℕ → WaitQueue

abbrev pub same_queue : WaitQueue → WaitQueue → Bool
same_queue reaper_wq reaper_wq = true
same_queue (termination_queue t) (termination_queue u) = t == u
same_queue (queue_at a) (queue_at b) = a == b
same_queue _ _ = false

-- The static variables of scheduler.c and reaper.c, the fields of every `struct thread`, the IF
-- flag, and the two registers that a switch writes. `saved` is the flag that a thread restores when
-- it goes on behind its switch.
pub record Kernel : Type 0 where
  pub ready_list : List ℕ
  pub current : ℕ
  pub zombie_list : List ℕ
  pub quantum_remaining : ℕ
  pub reaper_ready : Bool
  pub reaper_thread : ℕ
  pub state : ℕ → ThreadState
  pub wait_queue : ℕ → Option WaitQueue
  pub detached : ℕ → Bool
  pub process : ℕ → ℕ
  pub kernel_stack : ℕ → ℕ
  pub page_directory : ℕ → ℕ
  pub members : ℕ → List ℕ
  pub queues : WaitQueue → List ℕ
  pub saved : ℕ → Bool
  pub interrupts : Bool
  pub esp0 : ℕ
  pub cr3 : ℕ

abbrev pub idle_thread : ℕ
idle_thread = 1

-- `SCHEDULER_QUANTUM_TICKS`
abbrev pub quantum_ticks : ℕ
quantum_ticks = 5

-- A field of one thread is written.
abbrev pub update {ℓ} : {A : Type ℓ} → (ℕ → A) → ℕ → A → ℕ → A
update f t v u = if t == u then v else f u

abbrev pub set_queue : Kernel → WaitQueue → List ℕ → Kernel
set_queue s q ts = record s { queues = λ r. if same_queue q r then ts else s.queues r }

abbrev pub set_state : Kernel → ℕ → ThreadState → Kernel
set_state s t v = record s { state = update s.state t v }

-- `interrupt_disable`, and `interrupt_restore`
abbrev pub disable : Kernel → Kernel
disable s = record s { interrupts = false }

abbrev pub restore : Kernel → Bool → Kernel
restore s flag = record s { interrupts = flag }

-- The current thread has `flag` to restore behind the switch that its call may make; and whichever
-- thread runs behind a switch restores its own.
abbrev pub keep : Kernel → Bool → Kernel
keep s flag = record s { saved = update s.saved s.current flag }

abbrev pub resume : Kernel → Kernel
resume s = record s { interrupts = s.saved s.current }
