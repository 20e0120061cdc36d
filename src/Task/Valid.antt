-- ===== src/Task/Valid.antt =====
-- The invariant of the threads, and that a switch keeps it.
use neox.Base.{
  ℕ, ◌≡◌, ◌≢◌, ◌⊎◌, inl, inr, refl, sym, ap, subst, Bool, true, false, not, ◌&&◌, some, List, [],
  ◌∷◌, ◌==◌, if◌then◌else◌, Bool-cases, arith,
}
use neox.Base.Result.{done}
use neox.Task.{
  disable, Kernel, thread_ready, thread_running, thread_blocked, thread_terminated, is_running,
  WaitQueue, idle_thread, quantum_ticks, update,
}
use neox.Task.Lists.{mem, next_in, Distinct, mem-next_in}
use neox.Task.Scheduler.{
  run, next_from, scheduler_next, switched, load, scheduler_switch, scheduler_yield,
}

-- What holds also while the current thread is on its way out: each thread of the ready list can
-- run, each thread of a wait queue is blocked and knows its queue, each zombie is terminated, and
-- none but the current thread and the idle thread is running.
pub record Core (s : Kernel) : Type 0 where
  pub distinct : Distinct s.ready_list
  pub runnable :
      (t : ℕ)
      → mem t s.ready_list ≡ true
      → (s.state t ≡ thread_ready) ⊎ (s.state t ≡ thread_running)
  pub waiting :
      (q : WaitQueue) (t : ℕ)
      → mem t (s.queues q) ≡ true
      → (s.state t ≡ thread_blocked) × (s.wait_queue t ≡ some q)
  pub awaited : (q : WaitQueue) (t : ℕ) → s.wait_queue t ≡ some q → mem t (s.queues q) ≡ true
  pub queued : (q : WaitQueue) → Distinct (s.queues q)
  pub ended : (t : ℕ) → mem t s.zombie_list ≡ true → s.state t ≡ thread_terminated
  pub single : (t : ℕ) → s.state t ≡ thread_running → (t ≡ s.current) ⊎ (t ≡ idle_thread)
  pub listed :
      s.state s.current ≡ thread_running
      → (s.current ≡ idle_thread) ⊎ (mem s.current s.ready_list ≡ true)
  pub idle_apart : (mem idle_thread s.ready_list ≡ false) × (s.state idle_thread ≡ thread_running)
  pub null_apart : (mem 0 s.ready_list ≡ false) × ((q : WaitQueue) → mem 0 (s.queues q) ≡ false)
  pub started : s.current ≢ 0

-- Between two calls the current thread is running.
pub record IsValid (s : Kernel) : Type 0 where
  pub core : Core s
  pub running : s.state s.current ≡ thread_running

-- The state in which `scheduler_next` picks a thread.
unfoldable pub demote : Kernel → Kernel
demote s = record s {
  state =
      if is_running (s.state s.current) && not (s.current == idle_thread)
      then update s.state s.current thread_ready
      else s.state;
}

-- The two outcomes of `scheduler_next`.
pub data Next (s t : Kernel) : Type 0 where
  idle : s.ready_list ≡ [] → t ≡ run s idle_thread → Next s t
  picked : (u : ℕ) → mem u s.ready_list ≡ true → t ≡ run (demote s) u → Next s t

front_or_next : (s : Kernel) → ℕ → List ℕ → ℕ
front_or_next s front rest =
    if mem s.current (front ∷ rest) then next_in (front ∷ rest) s.current front else front

front_or_next-mem :
    (s : Kernel) (front : ℕ) (rest : List ℕ)
    → mem (front_or_next s front rest) (front ∷ rest) ≡ true
unfolding front_or_next mem
front_or_next-mem s front rest = ground (arith, mem-next_in s.current front (front ∷ rest))

next_from-Next :
    (s : Kernel) (ready : List ℕ)
    → s.ready_list ≡ ready
    → s.current ≢ 0
    → Next s (next_from s ready)
unfolding next_from demote front_or_next
next_from-Next s [] e nz = idle e refl
next_from-Next s (front ∷ rest) e nz =
    picked (front_or_next s front rest) (rw e (front_or_next-mem s front rest)) (ground arith)

pub scheduler_next-Next : (s : Kernel) → s.current ≢ 0 → Next s (scheduler_next s)
unfolding scheduler_next
scheduler_next-Next s nz = next_from-Next s s.ready_list refl nz

module _ (s : Kernel) (c : Core s) where
  -- A listed thread is picked.
  run-IsValid : (u : ℕ) → mem u s.ready_list ≡ true → IsValid (run (demote s) u)
  unfolding run demote
  run-IsValid u here = record {
    core = record {
      distinct = c.distinct;
      runnable = λ t h. ground (arith, c.runnable t);
      waiting = λ q t h. ground (arith, c.waiting q t, c.runnable u);
      awaited = c.awaited;
      queued = c.queued;
      ended = λ t h. ground (arith, c.ended t, c.runnable u);
      single = λ t h. ground (arith, c.single t);
      listed = λ h. ground arith;
      idle_apart = ground (arith, c.idle_apart);
      null_apart = c.null_apart;
      started = ground (arith, c.null_apart.0);
    };
    running = ground arith;
  }

  run_idle-IsValid : s.ready_list ≡ [] → IsValid (run s idle_thread)
  unfolding run mem
  run_idle-IsValid e = record {
    core = record {
      distinct = c.distinct;
      runnable = λ t h. ground (arith, c.runnable t);
      waiting = λ q t h. ground (arith, c.waiting q t, c.idle_apart);
      awaited = c.awaited;
      queued = c.queued;
      ended = λ t h. ground (arith, c.ended t, c.idle_apart);
      single = λ t h. ground (arith, c.single t, c.listed, empty t);
      listed = λ h. ground arith;
      idle_apart = ground (arith, c.idle_apart);
      null_apart = c.null_apart;
      started = omega arith;
    };
    running = ground arith;
  }
    where
      empty : (t : ℕ) → mem t s.ready_list ≡ false
      empty t = ap (mem t) e

  pub scheduler_next-IsValid : IsValid (scheduler_next s)
  scheduler_next-IsValid = of_outcome (scheduler_next-Next s c.started)
    where
      of_outcome : {t : Kernel} → Next s t → IsValid t
      of_outcome (idle e k) = subst IsValid (sym k) (run_idle-IsValid e)
      of_outcome (picked u h k) = subst IsValid (sym k) (run-IsValid u h)

-- The quantum and the registers are of no account.
pub IsValid-fresh :
    (s : Kernel) (quantum esp0 cr3 : ℕ)
    → IsValid s
    → IsValid (record s { quantum_remaining = quantum; esp0 = esp0; cr3 = cr3 })
IsValid-fresh s quantum esp0 cr3 v = record {
  core = record {
    distinct = v.core.distinct;
    runnable = v.core.runnable;
    waiting = v.core.waiting;
    awaited = v.core.awaited;
    queued = v.core.queued;
    ended = v.core.ended;
    single = v.core.single;
    listed = v.core.listed;
    idle_apart = v.core.idle_apart;
    null_apart = v.core.null_apart;
    started = v.core.started;
  };
  running = v.running;
}

-- What a switch leaves alone.
pub record Kept (s t : Kernel) : Type 0 where
  pub ready_list : t.ready_list ≡ s.ready_list
  pub queues : t.queues ≡ s.queues
  pub zombie_list : t.zombie_list ≡ s.zombie_list
  pub interrupts : t.interrupts ≡ s.interrupts
  pub saved : t.saved ≡ s.saved
  pub unlisted :
      (u : ℕ)
      → u ≢ idle_thread
      → mem u s.ready_list ≡ false
      → s.state u ≢ thread_running
      → t.state u ≡ s.state u

Next-Kept : (s t : Kernel) → Next s t → Kept s t
unfolding run demote
Next-Kept s t (idle e k) = record {
  ready_list = ap (λ (k : Kernel). k.ready_list) k;
  queues = ap (λ (k : Kernel). k.queues) k;
  zombie_list = ap (λ (k : Kernel). k.zombie_list) k;
  interrupts = ap (λ (k : Kernel). k.interrupts) k;
  saved = ap (λ (k : Kernel). k.saved) k;
  unlisted = λ u h i m. ground arith;
}
Next-Kept s t (picked u h k) = record {
  ready_list = ap (λ (k : Kernel). k.ready_list) k;
  queues = ap (λ (k : Kernel). k.queues) k;
  zombie_list = ap (λ (k : Kernel). k.zombie_list) k;
  interrupts = ap (λ (k : Kernel). k.interrupts) k;
  saved = ap (λ (k : Kernel). k.saved) k;
  unlisted = λ v x i m. ground arith;
}

pub switched-IsValid : (s : Kernel) → Core s → IsValid (switched s)
unfolding switched load
switched-IsValid s c = elim (Bool-cases ((scheduler_next s).current == s.current)) [
  | inl same ↦ rw same (IsValid-fresh (scheduler_next s) _ _ _ (scheduler_next-IsValid s c))
  | inr other ↦ rw other (IsValid-fresh (scheduler_next s) _ _ _ (scheduler_next-IsValid s c))
]

Kept-fresh :
    (s t : Kernel) (quantum esp0 cr3 : ℕ)
    → Kept s t
    → Kept s (record t { quantum_remaining = quantum; esp0 = esp0; cr3 = cr3 })
Kept-fresh s t quantum esp0 cr3 k = record {
  ready_list = k.ready_list;
  queues = k.queues;
  zombie_list = k.zombie_list;
  interrupts = k.interrupts;
  saved = k.saved;
  unlisted = k.unlisted;
}

pub switched-Kept : (s : Kernel) → s.current ≢ 0 → Kept s (switched s)
unfolding switched load
switched-Kept s nz = elim (Bool-cases ((scheduler_next s).current == s.current)) [
  | inl same ↦ rw same (Kept-fresh s (scheduler_next s) _ _ _ kept)
  | inr other ↦ rw other (Kept-fresh s (scheduler_next s) _ _ _ kept)
]
  where
    kept : Kept s (scheduler_next s)
    kept = Next-Kept s (scheduler_next s) (scheduler_next-Next s nz)

pub switched-current : (s : Kernel) → (switched s).current ≡ (scheduler_next s).current
unfolding switched load
switched-current s = ground arith

pub switched-quantum : (s : Kernel) → (switched s).quantum_remaining ≡ quantum_ticks
unfolding switched load
switched-quantum s = ground arith

pub switch_off : (s : Kernel) → s.interrupts ≡ false → scheduler_switch s ≡ done (switched s)
unfolding scheduler_switch
switch_off s off = ground arith

pub yield_off :
    (s : Kernel) → s.interrupts ≡ false → s.current ≢ 0 → scheduler_yield s ≡ done (switched s)
unfolding scheduler_yield
yield_off s off nz = ground (arith, switch_off s off)

-- So are the flags.
pub IsValid-flags :
    (s : Kernel) (saved : ℕ → Bool) (flag : Bool)
    → IsValid s
    → IsValid (record s { saved = saved; interrupts = flag })
IsValid-flags s saved flag v = record {
  core = record {
    distinct = v.core.distinct;
    runnable = v.core.runnable;
    waiting = v.core.waiting;
    awaited = v.core.awaited;
    queued = v.core.queued;
    ended = v.core.ended;
    single = v.core.single;
    listed = v.core.listed;
    idle_apart = v.core.idle_apart;
    null_apart = v.core.null_apart;
    started = v.core.started;
  };
  running = v.running;
}

pub disable-IsValid : (s : Kernel) → IsValid s → IsValid (disable s)
disable-IsValid s v = IsValid-flags s s.saved false v
